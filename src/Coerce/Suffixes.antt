-- ===== src/Coerce/Suffixes.antt =====
-- internal/coerce/int.go and float.go: numbers with a unit.
pub mod Units
use gokdl.Base.{
  ℕ, zero, suc, ◌+◌, ◌-◌, ◌*◌, ◌^◌, Bool, true, false, ◌&&◌, ◌||◌, [], ◌∷◌, List, Option, none,
  some, ℤ, pos, Bytes, ◌==◌, leb, ltb, take, drop, length, if◌then◌else◌,
}
use gokdl.Go.Utf8.{decode_rune}
use gokdl.Coerce.{Any, ValueLib, float_zero}
use gokdl.Coerce.Texts.{is_digit}
use gokdl.Coerce.Integers.{parse_int, switch_int64}

-- `numericUnits[si][u]`: a letter that is not in the map gives 0.
unfoldable pub numeric_units : Bool → ℕ → ℕ
numeric_units si u =
    if u == b'k'
    then if si then 1_000 else 2 ^ 10
    else if u == b'm'
    then if si then 1_000_000 else 2 ^ 20
    else if u == b'g'
    then if si then 1_000_000_000 else 2 ^ 30
    else if u == b't'
    then if si then 1_000_000_000_000 else 2 ^ 40
    else if u == b'p'
    then if si then 1_000_000_000_000_000 else 2 ^ 50
    else if u == b'e'
    then if si then 1_000_000_000_000_000_000 else 2 ^ 60
    else 0

abbrev pub lower : ℕ → ℕ
lower u = if leb b'A' u && leb u b'Z' then u + 32 else u

-- `none` is the error "invalid suffix".
unfoldable pub suffix_to_multiplier : Bytes → Option ℕ
unfolding numeric_units
suffix_to_multiplier [] = some 1
suffix_to_multiplier (u ∷ []) = some (numeric_units true (lower u))
suffix_to_multiplier (u ∷ b ∷ []) =
    if b == b'b' || b == b'B' then some (numeric_units false (lower u)) else none
suffix_to_multiplier (u ∷ b ∷ c ∷ s) = none

-- `suffixIndex` and `invalid` behind the loop over the runes; `none` is the index -1. Each round
-- takes a byte at least, so the number of bytes is enough rounds.
unfoldable pub suffix_loop : ℕ → Option ℕ → ℕ → Bytes → Option ℕ × Bool
unfolding decode_rune
suffix_loop fuel index i [] = (index, false)
suffix_loop zero index i (c ∷ s) = (index, false)
suffix_loop (suc fuel) index i (c ∷ s) =
    let (r, size) = decode_rune (c ∷ s) in
    let rest = drop size (c ∷ s) in
    elim index [
      | none ↦ suffix_loop fuel (if is_digit r || r == b'.' then none else some i) (i + size) rest
      | some k ↦
          if is_digit r || r == b'.'
          then (some k, true)
          else suffix_loop fuel (some k) (i + size) rest
    ]

-- Where the suffix begins, if `invalid` is false in the end.
abbrev pub valid_index : Option ℕ × Bool → Option ℕ
valid_index (some (suc k), false) = some (suc k)
valid_index _ = none

-- `n * float64(multiplier)`, if the number and the suffix are well formed.
unfoldable pub scaled : ValueLib → Bytes → ℕ → ℕ × Bool
unfolding suffix_to_multiplier
scaled lib s k =
    let (n, ok) = lib.parse_float (take k s) in
    elim ok [
      | false ↦ (float_zero, false)
      | true ↦ elim (suffix_to_multiplier (drop k s)) [
        | none ↦ (float_zero, false)
        | some m ↦ (lib.times n (lib.float_of_int (pos m)), true)
      ]
    ]

module _ (lib : ValueLib) where
  -- A value and whether there is no error.
  unfoldable pub parse_suffixed_int : Bytes → ℤ × Bool
  unfolding suffix_loop scaled parse_int
  parse_suffixed_int s = elim (valid_index (suffix_loop (length s) none 0 s)) [
    | none ↦ parse_int s
    | some k ↦
        let (f, ok) = scaled lib s k in if ok then (lib.int_of_float f, true) else (pos 0, false)
  ]

  unfoldable pub parse_suffixed_float : Bytes → ℕ × Bool
  unfolding suffix_loop scaled
  parse_suffixed_float s = elim (valid_index (suffix_loop (length s) none 0 s)) [
    | none ↦ lib.parse_float s
    | some k ↦ scaled lib s k
  ]

  unfoldable pub to_int64_suffix : Any → ℤ
  unfolding switch_int64 parse_suffixed_int
  to_int64_suffix v = switch_int64 lib (λ s. (parse_suffixed_int s).0) v
