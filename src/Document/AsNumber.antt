-- ===== src/Document/AsNumber.antt =====
-- document/suffixeddec.go: the number or the duration that a suffixed decimal stands for.
use gokdl.Base.{ℕ, [], ◌∷◌, Option, none, some, ℤ, pos, Bytes}
use gokdl.Coerce.{Any, signed, native, float64, big_float, ValueLib}
use gokdl.Document.Number
use gokdl.Document.Number.{Scalar, number, no_number, number_panic, parse_number}
use gokdl.Document.Resolved.{any_of}
use gokdl.Document.SuffixedDecimal.{SuffixedDecimal, spelled, suffix_multiplier}
use gokdl.Go.Strconv.{FloatLib}

module _ (floats : FloatLib) (lib : ValueLib) where
  -- A number times the multiplier, which is exact as a float64. A number of another type is no result of
  -- `parseNumber`.
  unfoldable pub multiplied : Scalar → ℕ → Any
  multiplied (Number.int64 z) m =
      float64 (lib.times (lib.float_of_int z) (lib.float_of_int (pos m)))
  multiplied (Number.float64 f) m = float64 (lib.times f (lib.float_of_int (pos m)))
  multiplied (Number.big_int z) m = big_float (lib.big_times (lib.big_of_int z) m)
  multiplied (Number.big_float f) m = big_float (lib.big_times f m)
  multiplied _ m = signed native (pos 0)

  -- `AsNumber`; `none` is an error. The number is parsed first, then the suffix is looked at;
  -- in base 10 there is no prefix, and no panic.
  unfoldable pub as_number : SuffixedDecimal → Option Any
  unfolding multiplied suffix_multiplier parse_number
  as_number d = elim (parse_number floats d.number 10) [
    | no_number ↦ none
    | number_panic ↦ none
    | number n ↦ elim d.suffix [
      | [] ↦ some (any_of n)
      | c ∷ s ↦ elim (suffix_multiplier (c ∷ s)) [ none ↦ none | some m ↦ some (multiplied n m) ]
    ]
  ]

-- `AsDuration`; the parameter is `time.ParseDuration`.
unfoldable pub as_duration : (Bytes → Option ℤ) → SuffixedDecimal → Option ℤ
as_duration parse_duration d = elim d.number [
  | [] ↦ parse_duration d.suffix
  | c ∷ n ↦ parse_duration (spelled d)
]
