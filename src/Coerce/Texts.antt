-- ===== src/Coerce/Texts.antt =====
-- internal/coerce: the cases for text that `ToInt64`, `ToFloat64`, `ToComplex128`, `ToNumeric` and
-- `ToString` have in one order, and the patterns of scalar.go.
use gokdl.Base.{
  ℕ, Bool, true, false, ◌&&◌, ◌||◌, [], ◌∷◌, Option, none, some, Bytes, ◌==◌, leb, if◌then◌else◌,
}
use gokdl.Coerce.{
  Any, byte_slice, rune_slice, string, ValueLib, as_stringer, as_text_marshaler, as_error,
  string_of_runes,
}

module _ (lib : ValueLib) where
  -- `fmt.Stringer`, then `encoding.TextMarshaler`, then `error`.
  unfoldable pub method_text : Any → Option Bytes
  unfolding as_stringer as_text_marshaler as_error
  method_text v = elim (as_stringer lib v) [
    | some s ↦ some s
    | none ↦ elim (as_text_marshaler lib v) [ some s ↦ some s | none ↦ as_error v ]
  ]

  -- `[]byte`, `[]rune` and `string`, then the methods.
  unfoldable pub text_of : Any → Option Bytes
  unfolding method_text string_of_runes
  text_of (byte_slice s) = some s
  text_of (rune_slice rs) = some (string_of_runes [] rs)
  text_of (string s) = some s
  text_of v = method_text v

abbrev pub is_digit : ℕ → Bool
is_digit c = leb b'0' c && leb c b'9'

-- `[0-9]*`, with what stands behind.
abbrev pub skip_digits : Bytes → Bytes
skip_digits [] = []
skip_digits (c ∷ s) = if is_digit c then skip_digits s else c ∷ s

-- `[0-9]+`.
abbrev pub match_digits : Bytes → Option Bytes
match_digits [] = none
match_digits (c ∷ s) = if is_digit c then some (skip_digits s) else none

-- `(\.[0-9]+)?`. A point without digits behind it fails here, since nothing else takes it.
abbrev pub match_fraction : Bytes → Option Bytes
match_fraction [] = some []
match_fraction (c ∷ s) = if c == b'.' then match_digits s else some (c ∷ s)

-- `[0-9]+(\.[0-9]+)?`.
abbrev pub match_decimal : Bytes → Option Bytes
match_decimal s = elim (match_digits s) [ none ↦ none | some t ↦ match_fraction t ]

-- `([eE]...)?`.
abbrev pub match_exponent : Bytes → Option Bytes
match_exponent [] = some []
match_exponent (c ∷ s) = if c == b'e' || c == b'E' then match_decimal s else some (c ∷ s)

-- `$`.
abbrev pub at_end : Option Bytes → Bool
at_end (some []) = true
at_end _ = false

-- `reNumeric.MatchString`.
unfoldable pub re_numeric : Bytes → Bool
re_numeric s = elim (match_decimal s) [ none ↦ false | some t ↦ at_end (match_exponent t) ]

-- `reInteger.MatchString`.
unfoldable pub re_integer : Bytes → Bool
re_integer s = at_end (match_digits s)
