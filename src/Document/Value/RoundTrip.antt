-- ===== src/Document/Value/RoundTrip.antt =====
-- document/value.go: reading the text of a string value.
use gokdl.Base.{
  ℕ, suc, ◌≡◌, ◌≤◌, refl, ap, ◌∙◌, Bool, true, false, ◌&&◌, [], ◌∷◌, ◌++◌, Bytes, arith, some,
  append_assoc,
}
use gokdl.Document.Flag
use gokdl.Document.Flag.{has}
use gokdl.Document.Number.{string_value}
use gokdl.Document.Quote.{quote_string, no_escape}
use gokdl.Document.QuoteUnquote.RoundTrip.{unquote-quote, quote_string-escaped}
use gokdl.Document.QuoteUnquote.Text.{Text, nil, ascii, rune, escaped, piece}
use gokdl.Document.RawString.{
  append_raw_string, append_raw_string_v2, unquote_raw_token_string, RawResult,
}
use gokdl.Document.RawString.Terminator.{unquote-append_raw_string}
use gokdl.Document.Render.{string, formatted_string, formatted_string_v2, value_text, append_value}
use gokdl.Document.Unquote.{unquote_string, done}
use gokdl.Document.Value.{
  Value, value_ok, value_from_token, value_of, is_multiline_string_token, raw_value, quoted_value,
}
use gokdl.Go.Strconv.{FloatLib}
use gokdl.Go.Strings.{has_prefix}
use gokdl.Tokenizer.Token.{TokenId, Token, Version}

-- A string value without a type annotation.
abbrev pub text_value : Bytes → ℕ → ℕ → Value
text_value s flag hashes = record {
  type_annot = [];
  value = string_value s;
  flag = flag;
  raw_hashes = hashes;
}

abbrev pub token_of : TokenId → Bytes → Token
token_of id s = record {
  id = id;
  content = s;
  line = 0;
  column = 0;
  version = Version.version_auto;
}

and_false : (b : Bool) → (b && false) ≡ false
and_false true = refl
and_false false = refl

raw_value-text :
    (s t : Bytes) (n : ℕ)
    → unquote_raw_token_string t ≡ RawResult.raw_text s n
    → raw_value (unquote_raw_token_string t) ≡ value_ok (text_value s Flag.raw n)
unfolding raw_value
raw_value-text s t n e = rw e refl

-- The text between quotes does not begin with two quotes.
quoted_shape :
    (e : Bytes)
    → has_prefix (e ++ b'"' ∷ []) (b'"' ∷ b'"' ∷ []) ≡ false
    → is_multiline_string_token (b'"' ∷ (e ++ b'"' ∷ [])) ≡ false
unfolding is_multiline_string_token has_prefix
quoted_shape e h = rw h refl

piece-start : (c : ℕ) (t : Bytes) → has_prefix (piece c ++ t) (b'"' ∷ b'"' ∷ []) ≡ false
unfolding has_prefix no_escape
piece-start c t = ground arith

high-start : (a : ℕ) (t : Bytes) → 0x80 ≤ a → has_prefix (a ∷ t) (b'"' ∷ b'"' ∷ []) ≡ false
unfolding has_prefix
high-start a t h = ground arith

escaped-start :
    {s : Bytes} (x : Text s) → has_prefix (escaped x ++ b'"' ∷ []) (b'"' ∷ b'"' ∷ []) ≡ false
unfolding escaped
escaped-start nil = unfold has_prefix in refl
escaped-start (ascii c h x) =
    ap (λ t. has_prefix t (b'"' ∷ b'"' ∷ [])) (append_assoc (piece c) (escaped x) (b'"' ∷ []))
    ∙ piece-start c (escaped x ++ b'"' ∷ [])
escaped-start (rune a t r x) = high-start a _ r.high

not_multi_line : {s : Bytes} → Text s → is_multiline_string_token (quote_string s) ≡ false
not_multi_line x =
    ap is_multiline_string_token (quote_string-escaped x)
    ∙ quoted_shape (escaped x) (escaped-start x)

quoted_token :
    (s t : Bytes)
    → is_multiline_string_token t ≡ false
    → unquote_string t ≡ done s
    → (floats : FloatLib)
    → value_from_token floats (token_of TokenId.quoted_string t)
      ≡ value_ok (text_value s Flag.quoted 0)
unfolding value_from_token value_of quoted_value
quoted_token s t m e floats = rw (m, e) refl

module _ (floats : FloatLib) where
  raw_text_v2 :
      (s : Bytes) (n : ℕ)
      → formatted_string_v2 floats (text_value s Flag.raw (suc n))
        ≡ append_raw_string_v2 [] s (some (suc n))
  unfolding value_text append_value has
  raw_text_v2 s n = refl

  raw_text :
      (s : Bytes) (n : ℕ)
      → string floats (text_value s Flag.raw (suc n)) ≡ append_raw_string [] s (some (suc n))
  unfolding value_text append_value has
  raw_text s n = rw and_false refl

  quoted_text : (s : Bytes) → formatted_string floats (text_value s Flag.quoted 0) ≡ quote_string s
  unfolding value_text append_value has quote_string
  quoted_text s = refl

  -- A string value that was read in raw notation with at least one hash is read back from its text,
  -- in KDL v2 from `FormattedStringV2` and in KDL v1 from `String`.
  pub value_from_token-raw :
      (s : Bytes) (n : ℕ)
      → (value_from_token floats (
            token_of TokenId.raw_string
              (formatted_string_v2 floats (text_value s Flag.raw (suc n))))
          ≡ value_ok (text_value s Flag.raw (suc n)))
        × (value_from_token floats
              (token_of TokenId.raw_string (string floats (text_value s Flag.raw (suc n))))
            ≡ value_ok (text_value s Flag.raw (suc n)))
  unfolding value_from_token value_of
  value_from_token-raw s n = (
    ap (λ t. raw_value (unquote_raw_token_string t)) (raw_text_v2 s n)
        ∙ raw_value-text s _ (suc n) (unquote-append_raw_string s (suc n)).1,
    ap (λ t. raw_value (unquote_raw_token_string t)) (raw_text s n)
        ∙ raw_value-text s _ (suc n) (unquote-append_raw_string s (suc n)).0,
  )

  -- A string value that was read in quotes is read back from its `FormattedString`, where its text
  -- holds ASCII that needs no escape or has one of a letter, and multi-byte runes.
  pub value_from_token-quoted :
      {s : Bytes}
      → Text s
      → value_from_token floats
          (token_of TokenId.quoted_string (formatted_string floats (text_value s Flag.quoted 0)))
        ≡ value_ok (text_value s Flag.quoted 0)
  value_from_token-quoted {s} x =
      ap (λ t. value_from_token floats (token_of TokenId.quoted_string t)) (quoted_text s)
      ∙ quoted_token s (quote_string s) (not_multi_line x) (unquote-quote x) floats
