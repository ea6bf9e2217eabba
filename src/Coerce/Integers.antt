-- ===== src/Coerce/Integers.antt =====
-- internal/coerce/int.go and uint.go.
use gokdl.Base.{
  ℕ, ◌-◌, ◌^◌, Bool, true, false, none, some, ℤ, pos, negsuc, Bytes, ltb, if◌then◌else◌,
}
use gokdl.Go.Strconv.{parse_integer, fits_int64}
use gokdl.Coerce.{
  Any, signed, unsigned, float32, float64, complex64, complex128, time, duration, big_int,
  big_float, ValueLib, int64_of_uint, uint64_of_int, byte_of_int,
}
use gokdl.Coerce.Texts.{text_of}
use gokdl.Coerce.Truth.{to_bool}

-- The number of 64 bits nearest to an integer.
abbrev pub clamp : ℤ → ℤ
clamp (pos n) = if ltb n (2 ^ 63) then pos n else pos (2 ^ 63 - 1)
clamp (negsuc n) = if ltb n (2 ^ 63) then negsuc n else negsuc (2 ^ 63 - 1)

-- `strconv.ParseInt(s, 10, 64)`: the number and whether there is no error. It is 0 for `ErrSyntax`,
-- the nearest number for `ErrRange`.
unfoldable pub parse_int : Bytes → ℤ × Bool
unfolding parse_integer
parse_int s = elim (parse_integer s 10) [ none ↦ (pos 0, false) | some z ↦ (clamp z, fits_int64 z) ]

-- `i, _ := strconv.ParseInt(s, 10, 64)`.
abbrev pub parse_int_value : Bytes → ℤ
unfolding parse_int
parse_int_value s = (parse_int s).0

abbrev pub one_or_zero : Bool → ℤ
one_or_zero true = pos 1
one_or_zero false = pos 0

module _ (lib : ValueLib) (parse : Bytes → ℤ) where
  -- The cases behind `error`, the same in `ToInt64` and `ToInt64Suffix`. Those of `*big.Int` and
  -- `*big.Float` are not reached.
  unfoldable pub last_to_int64 : Any → ℤ
  unfolding to_bool
  last_to_int64 (complex64 re im) = lib.int_of_float re
  last_to_int64 (complex128 re im) = lib.int_of_float re
  last_to_int64 (big_int z) = lib.big_int_int64 z
  last_to_int64 (big_float f) = lib.big_float_int64 f
  last_to_int64 v = one_or_zero (to_bool lib v)

  -- What `ToInt64` and `ToInt64Suffix` have in common: they differ in the parser.
  unfoldable pub switch_int64 : Any → ℤ
  unfolding last_to_int64 text_of
  switch_int64 (signed w z) = z
  switch_int64 (unsigned w n) = int64_of_uint n
  switch_int64 (float32 f) = lib.int_of_float f
  switch_int64 (float64 f) = lib.int_of_float f
  switch_int64 (time t) = lib.unix t
  switch_int64 (duration d) = lib.int_of_float (lib.seconds d)
  switch_int64 v = elim (text_of lib v) [ some s ↦ parse s | none ↦ last_to_int64 v ]

module _ (lib : ValueLib) where
  unfoldable pub to_int64 : Any → ℤ
  unfolding switch_int64 parse_int
  to_int64 v = switch_int64 lib parse_int_value v

  unfoldable pub to_byte : Any → ℕ
  unfolding to_int64
  to_byte v = byte_of_int (to_int64 v)

  unfoldable pub to_uint64 : Any → ℕ
  unfolding to_int64
  to_uint64 v = uint64_of_int (to_int64 v)
