-- ===== src/Tests/Values.antt =====
-- document and internal/tokenizer: runs of the reading of values and of the character classes.
use gokdl.Base.{◌≡◌, refl, [], ◌∷◌, Bytes, codes, All, true, false}
use gokdl.Document.Flag
use gokdl.Document.Quote.{quote_string, no_escape}
use gokdl.Document.QuoteUnquote.Controls.{unquote-quote_control}
use gokdl.Document.QuoteUnquote.Text.{Text}
use gokdl.Document.Render.{string, formatted_string, formatted_string_v2}
use gokdl.Document.Unquote.{unquote_string, invalid}
use gokdl.Document.Value.{value_ok, value_from_token}
use gokdl.Document.Value.RoundTrip.{
  text_value, token_of, value_from_token-raw, value_from_token-quoted,
}
use gokdl.Document.Value.Totality.{Decides, is_panic, is_cut_short, value_from_token-Decides}
use gokdl.Tests.Floats.{floats}
use gokdl.Tokenizer.CType.{
  is_bare_identifier_version, is_bare_identifier_char_version, is_newline, is_white_space,
  is_disallowed_v2_rune, is_digit,
}
use gokdl.Tokenizer.CType.Separators.{ends_token, is_bare_identifier-ends_token}
use gokdl.Tokenizer.Token.{TokenId, version_v2}

-- A line break and the letter a.
abbrev lines : Bytes
lines = b'\n' ∷ b'a' ∷ []

lines-Text : Text lines
unfolding no_escape
lines-Text = Text.ascii b'\n' refl (Text.ascii b'a' refl Text.nil)

value_from_token-quoted_example :
    value_from_token floats
      (token_of TokenId.quoted_string (formatted_string floats (text_value lines Flag.quoted 0)))
    ≡ value_ok (text_value lines Flag.quoted 0)
value_from_token-quoted_example = value_from_token-quoted floats lines-Text

value_from_token-raw_example :
    (value_from_token floats (
        token_of TokenId.raw_string
          (formatted_string_v2 floats (text_value (codes "a\"b") Flag.raw 1)))
      ≡ value_ok (text_value (codes "a\"b") Flag.raw 1))
    × (value_from_token floats
          (token_of TokenId.raw_string (string floats (text_value (codes "a\"b") Flag.raw 1)))
        ≡ value_ok (text_value (codes "a\"b") Flag.raw 1))
value_from_token-raw_example = value_from_token-raw floats (codes "a\"b") 0

value_from_token-Decides_example :
    Decides (value_from_token floats (token_of TokenId.hexadecimal (codes "0")))
    × (is_panic (value_from_token floats (token_of TokenId.hexadecimal (codes "0")))
        ≡ is_cut_short TokenId.hexadecimal (codes "0"))
value_from_token-Decides_example =
    value_from_token-Decides floats (token_of TokenId.hexadecimal (codes "0"))

unquote-quote_control_example : unquote_string (quote_string (0x1F ∷ b'a' ∷ [])) ≡ invalid
unquote-quote_control_example = unquote-quote_control 0x1F (b'a' ∷ []) refl

name_is_bare : is_bare_identifier_version (codes "ab") 0 version_v2 ≡ true
unfolding is_bare_identifier_version is_bare_identifier_char_version is_newline is_white_space
    is_disallowed_v2_rune is_digit
name_is_bare = refl

is_bare_identifier-ends_token_example : All (λ r. ends_token r ≡ false) (codes "ab")
is_bare_identifier-ends_token_example =
    is_bare_identifier-ends_token (codes "ab") 0 version_v2 name_is_bare
