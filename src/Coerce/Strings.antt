-- ===== src/Coerce/Strings.antt =====
-- internal/coerce/string.go and scalar.go.
use gokdl.Base.{
  Bool, true, false, ◌||◌, Option, none, some, pos, Bytes, bytes_eq, codes, if◌then◌else◌,
}
use gokdl.Go.Strconv.{format_int}
use gokdl.Coerce.{
  Any, nothing, boolean, signed, unsigned, w64, float32, float64, complex64, complex128, byte_slice,
  rune_slice, string, time, big_int, big_float, other, ValueLib, as_stringer, as_text_marshaler,
}
use gokdl.Coerce.Texts.{text_of, method_text, re_numeric, re_integer}
use gokdl.Coerce.Truth.{to_bool}
use gokdl.Coerce.Numeric.{Numeric, to_numeric}

abbrev is_some : Option Bytes → Bool
is_some none = false
is_some (some s) = true

module _ (lib : ValueLib) where
  -- The cases of `ToString` behind `error`.
  unfoldable pub last_to_string : Any → Bytes
  last_to_string (complex64 re im) = lib.format_complex re im 64
  last_to_string (complex128 re im) = lib.format_complex re im 128
  last_to_string (big_int z) = format_int z 10
  last_to_string (big_float f) = lib.big_float_string f
  last_to_string (boolean b) = if b then codes "true" else codes "false"
  last_to_string (other m k) = lib.sprint k
  last_to_string _ = codes "<nil>"

  unfoldable pub to_string : Any → Bytes
  unfolding last_to_string text_of
  to_string (signed w z) = format_int z 10
  to_string (unsigned w n) = format_int (pos n) 10
  to_string (float32 f) = lib.format_float f 32
  to_string (float64 f) = lib.format_float f 64
  to_string (time t) = lib.rfc3339 t
  to_string v = elim (text_of lib v) [ some s ↦ s | none ↦ last_to_string v ]

  abbrev pub number_value : Numeric → Any
  number_value n = if n.isint then signed w64 n.i else float64 n.f

  unfoldable pub from_string : Bytes → Any
  unfolding to_bool re_numeric to_numeric
  from_string s =
      if bytes_eq s (codes "true") || bytes_eq s (codes "false")
      then boolean (to_bool lib (string s))
      else if bytes_eq s (codes "null")
      then nothing
      else if re_numeric s
      then number_value (to_numeric lib (string s))
      else string s

  unfoldable pub is_scalar : Any → Bool
  unfolding method_text
  is_scalar nothing = false
  is_scalar (boolean b) = false
  is_scalar (other m k) = is_some (method_text lib (other m k))
  is_scalar _ = true

  -- A pattern's test of `ToString(v)`, for text and for values with `String` or `MarshalText`.
  abbrev pub text_matches : (Bytes → Bool) → Any → Bool
  unfolding as_stringer as_text_marshaler to_string
  text_matches p v =
      if is_some (as_stringer lib v) || is_some (as_text_marshaler lib v)
      then p (to_string v)
      else false

  unfoldable pub is_numeric : Any → Bool
  unfolding as_stringer as_text_marshaler to_string re_numeric
  is_numeric (signed w z) = true
  is_numeric (unsigned w n) = true
  is_numeric (float32 f) = true
  is_numeric (float64 f) = true
  is_numeric (complex64 re im) = true
  is_numeric (complex128 re im) = true
  is_numeric (big_int z) = true
  is_numeric (big_float f) = true
  is_numeric (byte_slice s) = re_numeric (to_string (byte_slice s))
  is_numeric (rune_slice rs) = re_numeric (to_string (rune_slice rs))
  is_numeric (string s) = re_numeric (to_string (string s))
  is_numeric v = text_matches re_numeric v

  unfoldable pub is_integer : Any → Bool
  unfolding as_stringer as_text_marshaler to_string re_integer
  is_integer (signed w z) = true
  is_integer (unsigned w n) = true
  is_integer (big_int z) = true
  is_integer (byte_slice s) = re_integer (to_string (byte_slice s))
  is_integer (rune_slice rs) = re_integer (to_string (rune_slice rs))
  is_integer (string s) = re_integer (to_string (string s))
  is_integer v = text_matches re_integer v

-- `IsScalarStrict`.
unfoldable pub is_scalar_strict : Any → Bool
is_scalar_strict (signed w z) = true
is_scalar_strict (unsigned w n) = true
is_scalar_strict (float32 f) = true
is_scalar_strict (float64 f) = true
is_scalar_strict (complex64 re im) = true
is_scalar_strict (complex128 re im) = true
is_scalar_strict (byte_slice s) = true
is_scalar_strict (rune_slice rs) = true
is_scalar_strict (string s) = true
is_scalar_strict _ = false
