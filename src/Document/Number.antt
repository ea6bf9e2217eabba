-- ===== src/Document/Number.antt =====
-- document/value.go: `parseNumber` and its helpers.
use mathlib.Core.List.{reverse}
use gokdl.Base.{
  ℕ, ◌+◌, ◌^◌, Bool, true, false, not, ◌&&◌, ◌||◌, [], ◌∷◌, Option, none, some, ℤ, pos, Bytes, ◌==◌,
  drop, length, ltb, if◌then◌else◌,
}
use gokdl.Document.SuffixedDecimal.{SuffixedDecimal}
use gokdl.Go.Strconv.{
  parsed, out_of_range, bad_syntax, FloatLib, BigFloat, parse_int, parse_integer,
}

-- What a Value's `interface{}` holds after `ValueFromToken`: nil, bool, string, Expression, int64,
-- float64 (its bits), *big.Int, *big.Float or SuffixedDecimal.
pub data Scalar : Type 0 where
  nil : Scalar
  bool_value : Bool → Scalar
  string_value : Bytes → Scalar
  expression : Bytes → Scalar
  int64 : ℤ → Scalar
  float64 : ℕ → Scalar
  big_int : ℤ → Scalar
  big_float : BigFloat → Scalar
  suffixed_decimal : SuffixedDecimal → Scalar

-- A number, an error, or a panic.
pub data NumberResult : Type 0 where
  number : Scalar → NumberResult
  no_number number_panic : NumberResult

abbrev pub number_or_error : Option Scalar → NumberResult
number_or_error none = no_number
number_or_error (some s) = number s

-- `bytes.Cut`'s first part.
cut_at : ℕ → Bytes → Option Bytes
cut_at e [] = none
cut_at e (c ∷ s) = elim (c == e) [
  | true ↦ some []
  | false ↦ elim (cut_at e s) [ none ↦ none | some front ↦ some (c ∷ front) ]
]

trim_zeros : Bytes → Bytes
trim_zeros [] = []
trim_zeros (c ∷ s) = let rest = trim_zeros s in if c == b'0' then rest else c ∷ s

-- What is left of the coefficient holds more than a point.
abbrev is_nonzero : Bytes → Bool
is_nonzero [] = false
is_nonzero (c ∷ []) = not (c == b'.')
is_nonzero (c ∷ d ∷ s) = true

abbrev trimmed : Bytes → Bytes
trimmed s = reverse (trim_zeros (reverse (trim_zeros s)))

unfoldable pub is_nonzero_sci_not : Bytes → Bool
unfolding cut_at trim_zeros
is_nonzero_sci_not b = elim (cut_at b'e' b) [
  | some front ↦ is_nonzero (trimmed front)
  | none ↦ elim (cut_at b'E' b) [ some front ↦ is_nonzero (trimmed front) | none ↦ false ]
]

-- The count of underscores and whether the number is a float.
unfoldable pub classify_number : Bytes → ℕ → ℕ × Bool
classify_number [] base = (0, false)
classify_number (c ∷ s) base =
    let (n, float) = classify_number s base in
    if c == b'_'
    then (n + 1, float)
    else if c == b'.' || (c == b'e' || c == b'E') && base == 10
    then (n, true)
    else (n, float)

without_underscores : Bytes → Bytes
without_underscores [] = []
without_underscores (c ∷ s) =
    if not (c == b'_') then c ∷ without_underscores s else without_underscores s

unfoldable pub strip_underscores : Bytes → ℕ → Bytes
unfolding without_underscores
strip_underscores b n = if n == 0 then b else without_underscores b

abbrev big_integer : Option ℤ → Scalar
big_integer none = big_int (pos 0)
big_integer (some z) = big_int z

-- A float64 is zero whatever its sign.
abbrev is_zero_float : ℕ → Bool
is_zero_float f = f == 0 || f == 2 ^ 63

module _ (floats : FloatLib) where
  abbrev parse_float_number : Bytes → Option Scalar
  parse_float_number b = elim (floats.parse_float b) [
    | parsed f ↦
        if is_zero_float f && is_nonzero_sci_not b
        then some (big_float (floats.parse_big_float b))
        else some (float64 f)
    | out_of_range ↦ some (big_float (floats.parse_big_float b))
    | bad_syntax ↦ none
  ]

  abbrev parse_whole_number : Bytes → ℕ → Option Scalar
  parse_whole_number b base = elim (parse_int b base) [
    | parsed z ↦ some (int64 z)
    | out_of_range ↦ some (big_integer (parse_integer b base))
    | bad_syntax ↦ none
  ]

  abbrev parse_digits : Bytes → ℕ → Option Scalar
  parse_digits b base =
      let (n, float) = classify_number b base in
      if float
      then (if not (base == 10) then none else parse_float_number (strip_underscores b n))
      else parse_whole_number (strip_underscores b n) base

  -- In a base other than 10 the first two bytes are cut off; `b[2:]` panics where there are fewer.
  unfoldable pub parse_number : Bytes → ℕ → NumberResult
  unfolding is_nonzero_sci_not classify_number strip_underscores
  parse_number b base =
      if not (base == 10)
      then (if ltb (length b) 2
          then number_panic
          else number_or_error (parse_digits (drop 2 b) base))
      else number_or_error (parse_digits b base)
