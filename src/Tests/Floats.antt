-- ===== src/Tests/Floats.antt =====
-- Libraries that read no float and no time, for the runs.
use gokdl.Base.{[], pos, true, false, none, ◌==◌}
use gokdl.Coerce.{ValueLib}
use gokdl.Marshaler.Formats.{TimeLib}
use gokdl.Go.Strconv.{FloatLib, bad_syntax}

abbrev pub floats : FloatLib
floats = record {
  parse_float = λ _. bad_syntax;
  parse_big_float = λ _. record { mantissa = pos 0; exponent = pos 0 };
  format_float = λ _ _. [];
  modf_zero = λ _. true;
  big_log = λ _. false;
  format_big_float = λ _. [];
}

-- A `ValueLib` whose floats and texts are all empty.
abbrev pub values : ValueLib
values = record {
  is_zero = λ f. f == 0;
  float_of_int = λ _. 0;
  int_of_float = λ _. pos 0;
  times = λ _ _. 0;
  round32 = λ f. f;
  parse_float = λ _. (0, false);
  parse_complex = λ _. (0, 0);
  format_float = λ _ _. [];
  format_complex = λ _ _ _. [];
  unix = λ _. pos 0;
  is_zero_time = λ _. true;
  time_string = λ _. [];
  time_text = λ _. [];
  rfc3339 = λ _. [];
  seconds = λ _. 0;
  duration_string = λ _. [];
  big_int_int64 = λ z. z;
  parse_big_float = λ _. record { mantissa = pos 0; exponent = pos 0 };
  big_float_int64 = λ _. pos 0;
  big_float_float64 = λ _. 0;
  big_float_string = λ _. [];
  big_of_int = λ z. record { mantissa = z; exponent = pos 0 };
  big_times = λ f _. f;
  sprint = λ _. [];
}

-- A `TimeLib` that reads no time.
abbrev pub clock : TimeLib
clock = record {
  layout = λ _. [];
  parse_time = λ _ _. none;
  format_time = λ _ _. [];
  of_unix = λ _. 0;
  of_unix_milli = λ _. 0;
  of_unix_micro = λ _. 0;
  of_unix_nano = λ _. 0;
  unix_milli = λ _. pos 0;
  unix_micro = λ _. pos 0;
  unix_nano = λ _. pos 0;
  parse_duration = λ _. none;
  is_whole = λ _. true;
}
