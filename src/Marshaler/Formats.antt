-- ===== src/Marshaler/Formats.antt =====
-- internal/marshaler: the formats of times and durations.
pub mod Rereading
use gokdl.Base.{
  ℕ, suc, ◌*◌, ◌/◌, ◌-◌, Bool, true, false, ◌&&◌, List, [], ◌∷◌, Option, none, some, ℤ, pos, negsuc,
  Bytes, bytes_eq, codes, ◌==◌, length, leb, get_or, take, drop, if◌then◌else◌,
}
use gokdl.Coerce.{
  Any, signed, unsigned, native, w64, float32, float64, string, suffixed_decimal, ValueLib,
  int64_of_uint,
}
use gokdl.Coerce.Floats.{to_float64}
use gokdl.Coerce.Integers.{to_int64}
use gokdl.Coerce.Numeric.{to_numeric}
use gokdl.Coerce.Strings.{to_string}
use gokdl.Document.AsNumber.{as_duration}
use gokdl.Marshaler.Tags.{has}
use gokdl.Marshaler.Durations.{
  second, times64, with_sign, parse_hms_duration, HmsResult, hms_duration, bad_number, bad_format,
  format_duration,
}

-- What the functions use of package time and of floats: `layout` gives the layout of a constant's name,
-- such as `time.ANSIC`; `is_whole` is whether `f - math.Floor(f)` is 0.
pub record TimeLib : Type 0 where
  pub layout : Bytes → Bytes
  pub parse_time : Bytes → Bytes → Option ℕ
  pub format_time : ℕ → Bytes → Bytes
  pub of_unix : ℤ → ℕ
  pub of_unix_milli : ℤ → ℕ
  pub of_unix_micro : ℤ → ℕ
  pub of_unix_nano : ℤ → ℕ
  pub unix_milli : ℕ → ℤ
  pub unix_micro : ℕ → ℤ
  pub unix_nano : ℕ → ℤ
  pub parse_duration : Bytes → Option ℤ
  pub is_whole : ℕ → Bool

-- A result or one of the errors.
pub data Formatted (A : Type 0) : Type 0 where
  formatted : A → Formatted A
  invalid_format : Bytes → Formatted A
  no_base60 bad_base60 bad_text : Formatted A

module _ {A : Type 0} where
  abbrev or_bad_text : Option A → Formatted A
  or_bad_text none = bad_text
  or_bad_text (some a) = formatted a

-- The names of constants that `timeFormat` knows.
abbrev pub layout_names : List Bytes
layout_names =
    codes "ANSIC"
    ∷ codes "UnixDate"
    ∷ codes "RubyDate"
    ∷ codes "RFC822"
    ∷ codes "RFC822Z"
    ∷ codes "RFC850"
    ∷ codes "RFC1123"
    ∷ codes "RFC1123Z"
    ∷ codes "RFC3339"
    ∷ codes "RFC3339Nano"
    ∷ codes "Kitchen"
    ∷ codes "Stamp"
    ∷ codes "StampMilli"
    ∷ codes "StampMicro"
    ∷ codes "StampNano"
    ∷ []

-- A layout in single quotes.
abbrev quoted_layout : Bytes → Bytes
quoted_layout format =
    if leb 2 (length format)
      && get_or format 0 0 == b'\''
      && get_or format (length format - 1) 0 == b'\''
    then take (length format - 2) (drop 1 format)
    else []

-- Go's `/` of a whole number, towards zero.
abbrev pub divided : ℤ → ℕ → ℤ
divided (pos n) k = pos (n / k)
divided (negsuc n) k = with_sign true (suc n / k)

abbrev of_hms : HmsResult → Formatted ℤ
of_hms (hms_duration d) = formatted d
of_hms bad_number = bad_base60
of_hms bad_format = bad_base60

module _ (lib : ValueLib) (times : TimeLib) where
  unfoldable pub time_format : Bytes → Bytes
  unfolding has
  time_format format = if has layout_names format then times.layout format else quoted_layout format

  abbrev parse_with : Bytes → Bytes → Bytes → Formatted ℕ
  parse_with format [] text = invalid_format format
  parse_with format (c ∷ l) text = or_bad_text (times.parse_time (c ∷ l) text)

  -- `unmarshalValueTime`: the time that is set.
  unfoldable pub unmarshal_value_time : Any → Bytes → Formatted ℕ
  unfolding to_int64 to_string time_format
  unmarshal_value_time v format =
      if bytes_eq format (codes "unix")
      then formatted (times.of_unix (to_int64 lib v))
      else if bytes_eq format (codes "unixmilli")
      then formatted (times.of_unix_milli (to_int64 lib v))
      else if bytes_eq format (codes "unixmicro")
      then formatted (times.of_unix_micro (to_int64 lib v))
      else if bytes_eq format (codes "unixnano")
      then formatted (times.of_unix_nano (to_int64 lib v))
      else parse_with format (time_format format) (to_string lib v)

  abbrev format_with : ℕ → Bytes → Bytes → Formatted Any
  format_with t format [] = invalid_format format
  format_with t format (c ∷ l) = formatted (string (times.format_time t (c ∷ l)))

  unfoldable pub marshal_time_value : ℕ → Bytes → Formatted Any
  unfolding time_format
  marshal_time_value t format =
      if bytes_eq format []
      then formatted (string (lib.rfc3339 t))
      else if bytes_eq format (codes "unix")
      then formatted (signed w64 (lib.unix t))
      else if bytes_eq format (codes "unixmilli")
      then formatted (signed w64 (times.unix_milli t))
      else if bytes_eq format (codes "unixmicro")
      then formatted (signed w64 (times.unix_micro t))
      else if bytes_eq format (codes "unixnano")
      then formatted (signed w64 (times.unix_nano t))
      else format_with t format (time_format format)

  unfoldable pub int_or_float : ℕ → Any
  int_or_float f = if times.is_whole f then signed native (lib.int_of_float f) else float64 f

  unfoldable pub marshal_duration_value : ℤ → Bytes → Formatted Any
  unfolding int_or_float format_duration
  marshal_duration_value d format =
      if bytes_eq format []
      then formatted (string (lib.duration_string d))
      else if bytes_eq format (codes "sec")
      then formatted (int_or_float (lib.seconds d))
      else if bytes_eq format (codes "milli")
      then formatted (signed w64 (divided d 1_000_000))
      else if bytes_eq format (codes "micro")
      then formatted (signed w64 (divided d 1_000))
      else if bytes_eq format (codes "nano")
      then formatted (signed w64 d)
      else if bytes_eq format (codes "base60")
      then formatted (string (format_duration d))
      else invalid_format format

  unfoldable pub duration_format_factor : Bytes → Option ℕ
  duration_format_factor format =
      if bytes_eq format (codes "sec")
      then some second
      else if bytes_eq format (codes "milli")
      then some 1_000_000
      else if bytes_eq format (codes "micro")
      then some 1_000
      else if bytes_eq format (codes "nano")
      then some 1
      else none

  -- The cases of the type switch, for a format that is no factor.
  unfoldable pub duration_of : Any → Bytes → Formatted ℤ
  unfolding to_int64 to_float64 to_string parse_hms_duration as_duration
  duration_of (signed w z) format =
      if bytes_eq format (codes "base60")
      then no_base60
      else formatted (int64_of_uint (times64 second (to_int64 lib (signed w z))))
  duration_of (unsigned w n) format =
      if bytes_eq format (codes "base60")
      then no_base60
      else formatted (int64_of_uint (times64 second (to_int64 lib (unsigned w n))))
  duration_of (float32 f) format =
      if bytes_eq format (codes "base60")
      then no_base60
      else formatted (
          lib.int_of_float (lib.times (to_float64 lib (float32 f)) (lib.float_of_int (pos second))))
  duration_of (float64 f) format =
      if bytes_eq format (codes "base60")
      then no_base60
      else formatted (
          lib.int_of_float (lib.times (to_float64 lib (float64 f)) (lib.float_of_int (pos second))))
  duration_of (suffixed_decimal d) format = or_bad_text (as_duration times.parse_duration d)
  duration_of v format =
      if bytes_eq format (codes "base60")
      then of_hms (parse_hms_duration (to_string lib v))
      else or_bad_text (times.parse_duration (to_string lib v))

  -- `unmarshalValueDuration`: the duration that is set.
  unfoldable pub unmarshal_value_duration : Any → Bytes → Formatted ℤ
  unfolding duration_format_factor duration_of to_numeric
  unmarshal_value_duration v format = elim (duration_format_factor format) [
    | none ↦ duration_of v format
    | some factor ↦
        let n = to_numeric lib v in
        if n.isint
        then formatted (int64_of_uint (times64 factor n.i))
        else formatted (lib.int_of_float (lib.times n.f (lib.float_of_int (pos factor))))
  ]
