-- ===== src/Marshaler/Direct.antt =====
-- internal/marshaler: `resolveSuffixedDecimal` and `directSetReflectValueFromIntf`, the setting of one
-- Go variable from one value. What the variable holds then is the result.
pub mod Bounds
use gokdl.Base.{
  ℕ, ◌+◌, ◌-◌, ◌%◌, ◌^◌, Bool, true, false, ◌||◌, ◌&&◌, not, [], ◌∷◌, Option, none, some, ℤ, pos,
  negsuc, Bytes, bytes_eq, codes, ltb, if◌then◌else◌,
}
use gokdl.Coerce.{
  Any, boolean, signed, unsigned, float32, float64, complex64, complex128, string, suffixed_decimal,
  Width, native, w8, w16, w32, w64, ValueLib, uint64_of_int, float_zero,
}
use gokdl.Coerce.Floats.{to_float64, to_complex128}
use gokdl.Coerce.Integers.{to_int64, to_uint64}
use gokdl.Coerce.Strings.{to_string}
use gokdl.Coerce.Truth.{to_bool}
use gokdl.Document.AsNumber.{as_number, as_duration}
use gokdl.Document.SuffixedDecimal.{
  SuffixedDecimal, SuffixResult, suffixed, unexpected_character, starts_with_non_digit, spelled,
  parse_suffixed_decimal,
}
use gokdl.Go.Strconv.{FloatLib}
use gokdl.Marshaler.Formats.{
  TimeLib, Formatted, formatted, invalid_format, no_base60, bad_base60, bad_text,
  unmarshal_value_duration,
}

-- The kinds of variables. `uintptr` is a `uint` of 64 bits; `other_dest` is any kind that takes no value.
pub data Dest : Type 0 where
  bool_dest duration_dest float32_dest float64_dest complex64_dest complex128_dest string_dest :
      Dest
  interface_dest list_dest other_dest : Dest
  int_dest uint_dest : Width → Dest

-- What the variable holds then, or an error.
pub data SetResult : Type 0 where
  stored : Any → SetResult
  bad_suffix no_such_kind : SetResult
  bad_duration : Formatted ℤ → SetResult

abbrev pub bits : Width → ℕ
bits w8 = 8
bits w16 = 16
bits w32 = 32
bits w64 = 64
bits native = 64

-- The lowest bits of a number, as a number with a sign.
abbrev pub sign_bits : ℕ → ℕ → ℤ
sign_bits half u = if ltb u half then pos u else negsuc (half + half - 1 - u)

-- `SetInt` keeps the lowest bits.
unfoldable pub wrap_int : Width → ℤ → ℤ
wrap_int w8 z = sign_bits (2 ^ 7) (uint64_of_int z % 2 ^ 8)
wrap_int w16 z = sign_bits (2 ^ 15) (uint64_of_int z % 2 ^ 16)
wrap_int w32 z = sign_bits (2 ^ 31) (uint64_of_int z % 2 ^ 32)
wrap_int w64 z = z
wrap_int native z = z

unfoldable pub wrap_uint : Width → ℕ → ℕ
wrap_uint w n = n % 2 ^ bits w

abbrev some_duration : Option ℤ → Option Any
some_duration none = none
some_duration (some d) = some (Any.duration d)

module _ (floats : FloatLib) (lib : ValueLib) (times : TimeLib) where
  -- A suffixed decimal for the kind of the variable; `none` is an error.
  unfoldable pub resolve_for : Dest → Any → SuffixedDecimal → Option Any
  unfolding as_number as_duration
  resolve_for bool_dest v d = some (string (spelled d))
  resolve_for string_dest v d = some (string (spelled d))
  resolve_for list_dest v d = some (string (spelled d))
  resolve_for interface_dest v d = some (string (spelled d))
  resolve_for duration_dest v d = some_duration (as_duration times.parse_duration d)
  resolve_for other_dest v d = some v
  resolve_for _ v d = as_number floats lib d

  -- Text that reads as a suffixed decimal is one.
  abbrev resolve_text : Dest → Bytes → SuffixResult → Option Any
  unfolding resolve_for
  resolve_text dest s (suffixed d) = resolve_for dest (string s) d
  resolve_text dest s (unexpected_character c) = some (string s)
  resolve_text dest s starts_with_non_digit = some (string s)

  unfoldable pub resolve_suffixed_decimal : Dest → Any → Option Any
  unfolding resolve_for resolve_text parse_suffixed_decimal
  resolve_suffixed_decimal dest (suffixed_decimal d) = resolve_for dest (suffixed_decimal d) d
  resolve_suffixed_decimal dest (string s) = resolve_text dest s (parse_suffixed_decimal s)
  resolve_suffixed_decimal dest v = some v

  -- Without the format nonfinite the names of the floats that are not finite are 0.
  unfoldable pub finite : Bytes → Any → Any
  unfolding bytes_eq
  finite format (string s) =
      if not (bytes_eq format (codes "nonfinite"))
        && (bytes_eq s (codes "+Inf")
            || bytes_eq s (codes "-Inf")
            || bytes_eq s (codes "Inf")
            || bytes_eq s (codes "NaN"))
      then float64 float_zero
      else string s
  finite format v = v

  abbrev set_duration : Formatted ℤ → SetResult
  set_duration (formatted d) = stored (Any.duration d)
  set_duration e = bad_duration e

  unfoldable pub set_value : Dest → Any → Bytes → SetResult
  unfolding to_bool to_int64 to_uint64 to_float64 to_complex128 to_string finite wrap_int wrap_uint
      unmarshal_value_duration
  set_value bool_dest v format = stored (boolean (to_bool lib v))
  set_value duration_dest v format = set_duration (unmarshal_value_duration lib times v format)
  set_value (int_dest w) v format = stored (signed w (wrap_int w (to_int64 lib v)))
  set_value (uint_dest w) v format = stored (unsigned w (wrap_uint w (to_uint64 lib v)))
  set_value float32_dest v format =
      stored (float32 (lib.round32 (to_float64 lib (finite format v))))
  set_value float64_dest v format = stored (float64 (to_float64 lib (finite format v)))
  set_value complex64_dest v format =
      let (re, im) = to_complex128 lib v in stored (complex64 (lib.round32 re) (lib.round32 im))
  set_value complex128_dest v format =
      let (re, im) = to_complex128 lib v in stored (complex128 re im)
  set_value string_dest v format = stored (string (to_string lib v))
  set_value interface_dest v format = stored v
  set_value list_dest v format = no_such_kind
  set_value other_dest v format = no_such_kind

  -- `suffixes` is whether the relaxed flag for multiplier suffixes is set.
  unfoldable pub direct_set : Bool → Dest → Any → Bytes → SetResult
  unfolding set_value resolve_suffixed_decimal
  direct_set false dest v format = set_value dest v format
  direct_set true dest v format = elim (resolve_suffixed_decimal dest v) [
    | none ↦ bad_suffix
    | some v' ↦ set_value dest v' format
  ]
