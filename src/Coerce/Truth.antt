-- ===== src/Coerce/Truth.antt =====
-- internal/coerce/bool.go.
use gokdl.Base.{
  zero, Bool, true, false, not, ◌&&◌, ◌||◌, [], ◌∷◌, none, some, ℤ, pos, Bytes, ◌==◌, leb, ltb,
}
use gokdl.Coerce.{
  Any, nothing, boolean, signed, unsigned, float32, float64, complex64, complex128, byte_slice,
  rune_slice, string, time, big_int, big_float, ValueLib, as_stringer, as_text_marshaler, as_error,
  string_of_runes,
}

unfoldable pub bool_string : Bytes → Bool
bool_string (c ∷ []) = ltb b'0' c && leb c b'9' || c == b'y' || c == b'Y' || c == b't' || c == b'T'
bool_string (c ∷ d ∷ []) = false
bool_string (c ∷ d ∷ e ∷ []) = c == b'y' || c == b'Y'
bool_string (c ∷ d ∷ e ∷ f ∷ []) = c == b't' || c == b'T'
bool_string _ = false

abbrev pub not_zero : ℤ → Bool
not_zero (pos zero) = false
not_zero _ = true

module _ (lib : ValueLib) where
  -- The cases behind `encoding.TextMarshaler`. Those of `time.Time`, `*big.Int` and `*big.Float` are
  -- not reached.
  unfoldable pub last_to_bool : Any → Bool
  last_to_bool (time t) = not (lib.is_zero_time t)
  last_to_bool (complex64 re im) = not (lib.is_zero re && lib.is_zero im)
  last_to_bool (complex128 re im) = not (lib.is_zero re && lib.is_zero im)
  last_to_bool (big_int z) = not_zero (lib.big_int_int64 z)
  last_to_bool (big_float f) = not (lib.is_zero (lib.big_float_float64 f))
  last_to_bool _ = false

  -- From `fmt.Stringer` on.
  unfoldable pub method_to_bool : Any → Bool
  unfolding last_to_bool bool_string as_stringer as_text_marshaler
  method_to_bool v = elim (as_stringer lib v) [
    | some s ↦ bool_string s
    | none ↦ elim (as_text_marshaler lib v) [ some s ↦ bool_string s | none ↦ last_to_bool v ]
  ]

  unfoldable pub to_bool : Any → Bool
  unfolding method_to_bool as_error string_of_runes bool_string
  to_bool (boolean b) = b
  to_bool (signed w z) = not_zero z
  to_bool (unsigned w n) = not (n == 0)
  to_bool (float32 f) = not (lib.is_zero f)
  to_bool (float64 f) = not (lib.is_zero f)
  to_bool (byte_slice s) = bool_string s
  to_bool (rune_slice rs) = bool_string (string_of_runes [] rs)
  to_bool (string s) = bool_string s
  to_bool nothing = false
  to_bool v = elim (as_error v) [ some s ↦ true | none ↦ method_to_bool v ]
