-- ===== src/Marshaler/Durations.antt =====
-- internal/marshaler: the format base60 of a duration, `formatDuration` and `parseHMSDuration`.
pub mod RoundTrip
use gokdl.Base.{
  ℕ, zero, suc, ◌+◌, ◌*◌, ◌/◌, ◌%◌, ◌^◌, Bool, true, false, [], ◌∷◌, ◌++◌, Option, none, some, ℤ,
  pos, negsuc, Bytes, ltb, leb, if◌then◌else◌,
}
use gokdl.Coerce.{int64_of_uint, uint64_of_int}
use gokdl.Go.Strconv.{format_uint, format_int, parse_integer}
use gokdl.Go.Strings.{cut}

-- The units in nanoseconds.
abbrev pub second : ℕ
second = 1_000_000_000

abbrev pub minute : ℕ
minute = 60_000_000_000

abbrev pub hour : ℕ
hour = 3_600_000_000_000

-- `+` of two durations and the product with a unit wrap at 64 bits. A duration is its bits here.
abbrev pub plus64 : ℕ → ℕ → ℕ
plus64 a b = (a + b) % 2 ^ 64

abbrev pub times64 : ℕ → ℤ → ℕ
times64 unit z = unit * uint64_of_int z % 2 ^ 64

-- `ParseInt(s, 10, 32)`; `none` is an error.
abbrev pub fits_int32 : ℤ → Bool
fits_int32 (pos n) = ltb n (2 ^ 31)
fits_int32 (negsuc n) = ltb n (2 ^ 31)

unfoldable pub parse_int32 : Bytes → Option ℤ
unfolding parse_integer
parse_int32 s = elim (parse_integer s 10) [
  | none ↦ none
  | some z ↦ if fits_int32 z then some z else none
]

-- The error of `ParseInt`, and that of the format.
pub data HmsResult : Type 0 where
  hms_duration : ℤ → HmsResult
  bad_number bad_format : HmsResult

abbrev result_of : ℕ → HmsResult
result_of bits = hms_duration (int64_of_uint bits)

-- The nanoseconds, behind the point.
abbrev parse_nanoseconds : ℕ → Bytes → Bool → HmsResult
parse_nanoseconds d remain false = result_of d
parse_nanoseconds d remain true = elim (parse_int32 remain) [
  | none ↦ bad_number
  | some n ↦ result_of (plus64 d (times64 1 n))
]

-- The `ok` of the seconds hides the outer one: empty seconds are no error.
abbrev parse_seconds : ℕ → Bytes × Bytes × Bool → HmsResult
parse_seconds d ([], remain, havens) = result_of d
parse_seconds d (c ∷ s, remain, havens) = elim (parse_int32 (c ∷ s)) [
  | none ↦ bad_number
  | some n ↦ parse_nanoseconds (plus64 d (times64 second n)) remain havens
]

abbrev parse_minutes : ℕ → Bytes × Bytes × Bool → HmsResult
unfolding parse_int32 cut
parse_minutes d (s, remain, false) = bad_format
parse_minutes d (s, remain, true) = elim (parse_int32 s) [
  | none ↦ bad_number
  | some n ↦ parse_seconds (plus64 d (times64 minute n)) (cut b'.' remain)
]

abbrev parse_hours : Bytes × Bytes × Bool → HmsResult
unfolding parse_int32 cut
parse_hours (s, remain, false) = bad_format
parse_hours (s, remain, true) = elim (parse_int32 s) [
  | none ↦ bad_number
  | some n ↦ parse_minutes (times64 hour n) (cut b':' remain)
]

unfoldable pub parse_hms_duration : Bytes → HmsResult
unfolding parse_int32 cut
parse_hms_duration hms = parse_hours (cut b':' hms)

-- `%02d`.
unfoldable pub two_digits : ℤ → Bytes
unfolding format_int
two_digits (pos n) = if ltb n 10 then b'0' ∷ format_uint n 10 else format_uint n 10
two_digits (negsuc n) = format_int (negsuc n) 10

-- A number with the sign of the duration: Go's `/` cuts towards zero.
abbrev pub with_sign : Bool → ℕ → ℤ
with_sign false n = pos n
with_sign true zero = pos zero
with_sign true (suc n) = negsuc n

abbrev format_parts : Bool → ℕ → Bytes
format_parts negative d =
    two_digits (with_sign negative (d / second / 60 / 60))
    ++ b':'
      ∷ (two_digits (with_sign negative (d / second / 60 % 60))
          ++ b':'
            ∷ (two_digits (with_sign negative (d / second % 60))
                ++ b'.' ∷ format_int (with_sign negative (d % second)) 10))

unfoldable pub format_duration : ℤ → Bytes
unfolding two_digits format_int
format_duration (pos n) = format_parts false n
format_duration (negsuc n) = format_parts true (suc n)
