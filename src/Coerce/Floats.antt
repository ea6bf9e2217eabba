-- ===== src/Coerce/Floats.antt =====
-- internal/coerce/float.go and complex.go.
use gokdl.Base.{ℕ, Bool, true, false, none, some, pos, Bytes}
use gokdl.Go.Strconv.{format_int}
use gokdl.Coerce.{
  Any, signed, unsigned, float32, float64, complex64, complex128, time, duration, big_int,
  big_float, ValueLib, float_zero, float_one,
}
use gokdl.Coerce.Texts.{text_of}
use gokdl.Coerce.Truth.{to_bool}
use gokdl.Coerce.Suffixes.{parse_suffixed_float}

abbrev pub float_of_bool : Bool → ℕ
float_of_bool true = float_one
float_of_bool false = float_zero

module _ (lib : ValueLib) (parse : Bytes → ℕ) where
  -- The cases behind `error`, the same in `ToFloat64` and `ToFloat64Suffix`. Those of `*big.Int` and
  -- `*big.Float` are not reached.
  unfoldable pub last_to_float64 : Any → ℕ
  unfolding to_bool
  last_to_float64 (complex64 re im) = re
  last_to_float64 (complex128 re im) = re
  last_to_float64 (big_int z) = lib.big_float_float64 (lib.parse_big_float (format_int z 10))
  last_to_float64 (big_float f) = lib.big_float_float64 f
  last_to_float64 v = float_of_bool (to_bool lib v)

  -- What `ToFloat64` and `ToFloat64Suffix` have in common: they differ in the parser.
  unfoldable pub switch_float64 : Any → ℕ
  unfolding last_to_float64 text_of
  switch_float64 (float32 f) = f
  switch_float64 (float64 f) = f
  switch_float64 (signed w z) = lib.float_of_int z
  switch_float64 (unsigned w n) = lib.float_of_int (pos n)
  switch_float64 (time t) = lib.float_of_int (lib.unix t)
  switch_float64 (duration d) = lib.seconds d
  switch_float64 v = elim (text_of lib v) [ some s ↦ parse s | none ↦ last_to_float64 v ]

module _ (lib : ValueLib) where
  unfoldable pub to_float64 : Any → ℕ
  unfolding switch_float64
  to_float64 v = switch_float64 lib (λ s. (lib.parse_float s).0) v

  unfoldable pub to_float64_suffix : Any → ℕ
  unfolding switch_float64 parse_suffixed_float
  to_float64_suffix v = switch_float64 lib (λ s. (parse_suffixed_float lib s).0) v

  -- The cases of `ToComplex128` behind `error`.
  unfoldable pub last_to_complex128 : Any → ℕ × ℕ
  unfolding to_bool
  last_to_complex128 (complex64 re im) = (re, im)
  last_to_complex128 (complex128 re im) = (re, im)
  last_to_complex128 (big_int z) =
      (lib.big_float_float64 (lib.parse_big_float (format_int z 10)), float_zero)
  last_to_complex128 (big_float f) = (lib.big_float_float64 f, float_zero)
  last_to_complex128 v = (float_of_bool (to_bool lib v), float_zero)

  -- A duration is read through its text here.
  unfoldable pub to_complex128 : Any → ℕ × ℕ
  unfolding last_to_complex128 text_of
  to_complex128 (float32 f) = (f, float_zero)
  to_complex128 (float64 f) = (f, float_zero)
  to_complex128 (signed w z) = (lib.float_of_int z, float_zero)
  to_complex128 (unsigned w n) = (lib.float_of_int (pos n), float_zero)
  to_complex128 (time t) = (lib.float_of_int (lib.unix t), float_zero)
  to_complex128 v = elim (text_of lib v) [
    | some s ↦ lib.parse_complex s
    | none ↦ last_to_complex128 v
  ]
