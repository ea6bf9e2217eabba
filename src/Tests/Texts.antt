-- ===== src/Tests/Texts.antt =====
-- document: runs of the quoting, raw strings, properties, suffixes and number notations.
use gokdl.Base.{ℕ, arith, ◌≡◌, refl, true, List, [], ◌∷◌, some, Bytes, codes}
use gokdl.Document.Flag.{has, use_numeric_flags}
use gokdl.Document.Properties.{no_properties, add}
use gokdl.Document.Properties.Order.{
  IsValid, no_properties-IsValid, add-IsValid, order-add_all, add_all, first_occurrences,
}
use gokdl.Document.Quote.{quote_string, no_escape}
use gokdl.Document.QuoteUnquote.RoundTrip.{unquote-quote}
use gokdl.Document.QuoteUnquote.Text.{Text, IsRune}
use gokdl.Document.RawString.{
  append_raw_string, append_raw_string_v2, raw_text, unquote_raw_token_string,
}
use gokdl.Document.RawString.Terminator.{unquote-append_raw_string}
use gokdl.Document.SuffixedDecimal.{parse_suffixed_decimal, suffixed}
use gokdl.Document.Unquote.{unquote_string, done}
use gokdl.Go.Utf8.{decode_rune}

-- A line break, the letter a and the two bytes of U+00E9.
abbrev mixed : Bytes
mixed = b'\n' ∷ b'a' ∷ 0xC3 ∷ 0xA9 ∷ []

e_acute : IsRune 0xC3 (0xA9 ∷ [])
unfolding decode_rune
e_acute = record { high = omega arith; long = omega arith; value = 0xE9; decodes = λ rest. refl }

mixed-Text : Text mixed
unfolding no_escape
mixed-Text =
    Text.ascii b'\n' refl (Text.ascii b'a' refl (Text.rune 0xC3 (0xA9 ∷ []) e_acute Text.nil))

quote_mixed : quote_string mixed ≡ b'"' ∷ b'\\' ∷ b'n' ∷ b'a' ∷ 0xC3 ∷ 0xA9 ∷ b'"' ∷ []
unfolding quote_string decode_rune
quote_mixed = refl

unquote-quote_example : unquote_string (quote_string mixed) ≡ done mixed
unquote-quote_example = unquote-quote mixed-Text

unquote-append_raw_string_example :
    (unquote_raw_token_string (append_raw_string [] (codes "a\"b") (some 2))
      ≡ raw_text (codes "a\"b") 2)
    × (unquote_raw_token_string (append_raw_string_v2 [] (codes "a\"b") (some 2))
        ≡ raw_text (codes "a\"b") 2)
unquote-append_raw_string_example = unquote-append_raw_string (codes "a\"b") 2

add-IsValid_example : IsValid {V = ℕ} (add (codes "k") 1 no_properties)
add-IsValid_example = add-IsValid (codes "k") 1 no_properties no_properties-IsValid

abbrev pairs : List (Bytes × ℕ)
pairs = (codes "b", 1) ∷ (codes "a", 2) ∷ (codes "b", 3) ∷ []

order-add_all_example : (add_all pairs no_properties).order ≡ first_occurrences [] pairs
order-add_all_example = order-add_all pairs no_properties no_properties-IsValid

read_kilobytes :
    parse_suffixed_decimal (codes "32kb")
    ≡ suffixed (record { number = codes "32"; suffix = codes "kb" })
unfolding parse_suffixed_decimal
read_kilobytes = refl

numeric_flags_on : has use_numeric_flags use_numeric_flags ≡ true
unfolding has
numeric_flags_on = refl
