-- ===== src/Coerce/Rereading.antt =====
-- internal/coerce: what `FromString` makes of numbers.
use gokdl.Base.{
  ℕ, suc, ◌≤◌, ℤ, pos, negsuc, ◌≡◌, inl, inr, refl, ap, ◌∙◌, true, false, ◌||◌, [], ◌∷◌, Bytes, ltb,
  length, codes, bytes_eq, arith, Option-cases,
}
use gokdl.Go.Strconv.{format_int, format_uint, parse_integer}
use gokdl.Go.Strconv.Decimal.{
  decimal, decimal-format_uint, length-format_uint, decimal-parse_integer,
}
use gokdl.Coerce.{Any, Width, signed, w64, string, ValueLib}
use gokdl.Coerce.Texts.{text_of, is_digit, skip_digits, re_numeric, re_integer}
use gokdl.Coerce.Agreement.{parse_int-format_int}
use gokdl.Coerce.Integers.{clamp, parse_int, parse_int_value}
use gokdl.Coerce.Numeric.{has_point, string_to_numeric, to_numeric}
use gokdl.Coerce.Strings.{to_string, from_string}

skip_digits-decimal : (s : Bytes) → decimal s ≡ true → skip_digits s ≡ []
skip_digits-decimal [] d = refl
skip_digits-decimal (c ∷ s) d = ground (arith, skip_digits-decimal s)

decimal-skip_digits : (s : Bytes) → skip_digits s ≡ [] → decimal s ≡ true
decimal-skip_digits [] d = refl
decimal-skip_digits (c ∷ s) d = ground (arith, decimal-skip_digits s)

decimal-no_point : (s : Bytes) → decimal s ≡ true → has_point s ≡ false
decimal-no_point [] d = refl
decimal-no_point (c ∷ s) d = ground (arith, decimal-no_point s)

re_numeric-decimal : (s : Bytes) → 1 ≤ length s → decimal s ≡ true → re_numeric s ≡ true
unfolding re_numeric
re_numeric-decimal [] h d = absurd (omega arith)
re_numeric-decimal (c ∷ s) h d = ground (arith, skip_digits-decimal s)

-- The texts that `FromString` looks for first begin with a letter.
not_a_word :
    (c : ℕ) (s : Bytes)
    → ltb c b'f' ≡ true
    → (bytes_eq (c ∷ s) (codes "true") || bytes_eq (c ∷ s) (codes "false") ≡ false)
      × (bytes_eq (c ∷ s) (codes "null") ≡ false)
unfolding bytes_eq
not_a_word c s h = (ground (arith, h), ground (arith, h))

re_integer-decimal : (s : Bytes) → 1 ≤ length s → decimal s ≡ true → re_integer s ≡ true
unfolding re_integer
re_integer-decimal [] h d = absurd (omega arith)
re_integer-decimal (c ∷ s) h d = ground (arith, skip_digits-decimal s)

re_numeric-digit : (c : ℕ) (s : Bytes) → re_numeric (c ∷ s) ≡ true → is_digit c ≡ true
unfolding re_numeric
re_numeric-digit c s h = ground (arith, h)

-- Text that `ParseInt` takes is a match of `reInteger`, if it begins with a digit.
parse_int-not_integer :
    (c : ℕ) (s : Bytes)
    → is_digit c ≡ true
    → re_integer (c ∷ s) ≡ false
    → parse_int_value (c ∷ s) ≡ pos 0
unfolding parse_int
parse_int-not_integer c s h k = elim (Option-cases (parse_integer (c ∷ s) 10)) [
  | inl e ↦ rw (parse_int_value, parse_int, e) refl
  | inr (z, e) ↦ absurd (
      ground (
        arith,
        k,
        re_integer-decimal (c ∷ s) (omega arith)
            (decimal-parse_integer c s z (ground (arith, h)) e),
      ))
]

module _ (lib : ValueLib) where
  from_string-numeric :
      (c : ℕ) (s : Bytes)
      → ltb c b'f' ≡ true
      → re_numeric (c ∷ s) ≡ true
      → has_point (c ∷ s) ≡ false
      → from_string lib (c ∷ s) ≡ signed w64 (parse_int_value (c ∷ s))
  unfolding from_string to_numeric string_to_numeric text_of
  from_string-numeric c s h m p =
      let (words, null) = not_a_word c s h in rw (words, null, m, p) refl

  from_string-other :
      (c : ℕ) (s : Bytes)
      → ltb c b'f' ≡ true
      → re_numeric (c ∷ s) ≡ false
      → from_string lib (c ∷ s) ≡ string (c ∷ s)
  unfolding from_string
  from_string-other c s h m = let (words, null) = not_a_word c s h in rw (words, null, m) refl

  from_string-decimal :
      (s : Bytes)
      → 1 ≤ length s
      → decimal s ≡ true
      → from_string lib s ≡ signed w64 (parse_int_value s)
  from_string-decimal [] h d = absurd (omega arith)
  from_string-decimal (c ∷ s) h d =
      from_string-numeric c s (ground (arith, d)) (re_numeric-decimal (c ∷ s) h d)
        (decimal-no_point (c ∷ s) d)

  -- An integer that is not negative comes back as the nearest `int64`, a negative one as text.
  abbrev pub reread : ℤ → Any
  reread (pos n) = signed w64 (clamp (pos n))
  reread (negsuc n) = string (format_int (negsuc n) 10)

  -- `FromString` of the text that `ToString` gives for an integer is the integer again, where it is not
  -- negative and fits into 64 bits; a negative integer's text stays text.
  pub from_string-to_string :
      (w : Width) (z : ℤ) → from_string lib (to_string lib (signed w z)) ≡ reread z
  unfolding to_string format_uint format_int re_numeric
  from_string-to_string w (pos n) =
      from_string-decimal (format_uint n 10) (length-format_uint n) (decimal-format_uint n)
      ∙ ap (signed w64) (parse_int-format_int (pos n))
  from_string-to_string w (negsuc n) = from_string-other b'-' (format_uint (suc n) 10) refl refl

  -- A number in a text that has an exponent and no point becomes 0.
  pub from_string-exponent :
      (s : Bytes)
      → re_numeric s ≡ true
      → has_point s ≡ false
      → re_integer s ≡ false
      → from_string lib s ≡ signed w64 (pos 0)
  unfolding re_numeric
  from_string-exponent [] m p k = absurd (ground (arith, m))
  from_string-exponent (c ∷ s) m p k =
      let d = re_numeric-digit c s m in
      from_string-numeric c s (ground (arith, d)) m p
      ∙ ap (signed w64) (parse_int-not_integer c s d k)
