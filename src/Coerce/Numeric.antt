-- ===== src/Coerce/Numeric.antt =====
-- internal/coerce/numeric.go.
use gokdl.Base.{ℕ, Bool, true, false, ◌||◌, [], ◌∷◌, none, some, ℤ, pos, Bytes, ◌==◌, if◌then◌else◌}
use gokdl.Coerce.{
  Any, signed, unsigned, float32, float64, complex64, complex128, time, big_int, big_float,
  ValueLib, int64_of_uint, float_zero,
}
use gokdl.Coerce.Texts.{text_of}
use gokdl.Coerce.Truth.{to_bool}
use gokdl.Coerce.Integers.{parse_int, parse_int_value, one_or_zero}

-- The results `i`, `f` and `isint`.
pub record Numeric : Type 0 where
  pub i : ℤ
  pub f : ℕ
  pub isint : Bool

abbrev pub an_int : ℤ → Numeric
an_int z = record { i = z; f = float_zero; isint = true }

abbrev pub a_float : ℕ → Numeric
a_float x = record { i = pos 0; f = x; isint = false }

-- `strings.IndexByte(s, '.') != -1`.
abbrev pub has_point : Bytes → Bool
has_point [] = false
has_point (c ∷ s) = c == b'.' || has_point s

module _ (lib : ValueLib) where
  unfoldable pub string_to_numeric : Bytes → Numeric
  unfolding parse_int
  string_to_numeric s =
      if has_point s then a_float (lib.parse_float s).0 else an_int (parse_int_value s)

  -- The cases behind `error`; those of `*big.Int` and `*big.Float` are not reached.
  unfoldable pub last_to_numeric : Any → Numeric
  unfolding to_bool
  last_to_numeric (complex64 re im) = a_float re
  last_to_numeric (complex128 re im) = a_float re
  last_to_numeric (big_int z) = an_int (lib.big_int_int64 z)
  last_to_numeric (big_float x) = a_float (lib.big_float_float64 x)
  last_to_numeric v = an_int (one_or_zero (to_bool lib v))

  unfoldable pub to_numeric : Any → Numeric
  unfolding string_to_numeric last_to_numeric text_of
  to_numeric (signed w z) = an_int z
  to_numeric (unsigned w n) = an_int (int64_of_uint n)
  to_numeric (float32 x) = a_float x
  to_numeric (float64 x) = a_float x
  to_numeric (time t) = an_int (lib.unix t)
  to_numeric v = elim (text_of lib v) [ some s ↦ string_to_numeric s | none ↦ last_to_numeric v ]
