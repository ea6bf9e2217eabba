-- ===== src/Coerce.antt =====
-- internal/coerce: a value of type `interface{}` as the type switches take it apart, and what the
-- functions use of Go's floats and of packages time, math/big, strconv and fmt, as a parameter.
pub mod Texts
pub mod Truth
pub mod Integers
pub mod Suffixes
pub mod Floats
pub mod Numeric
pub mod Strings
pub mod Agreement
pub mod Rereading
use gokdl.Base.{
  ℕ, ◌+◌, ◌-◌, ◌%◌, ◌^◌, Bool, true, false, List, [], ◌∷◌, Option, none, some, ℤ, pos, negsuc,
  Bytes, ltb, if◌then◌else◌,
}
use gokdl.Document.SuffixedDecimal.{SuffixedDecimal, spelled}
use gokdl.Go.Strconv.{BigFloat, format_int}
use gokdl.Go.Utf8.{append_rune}

-- `int` and `uint` are those of 64 bits.
pub data Width : Type 0 where
  native w8 w16 w32 w64 : Width

-- What a type of the user's or another package's answers to `Error`, `String` and `MarshalText`,
-- where it has the method.
pub record Methods : Type 0 where
  pub error : Option Bytes
  pub stringer : Option Bytes
  pub text_marshaler : Option Bytes

-- A float is the bits of its value as a `float64`, a time is a name for it, a duration nanoseconds.
-- A value of any other type is a name for it with its methods.
pub data Any : Type 0 where
  nothing : Any
  boolean : Bool → Any
  signed : Width → ℤ → Any
  unsigned : Width → ℕ → Any
  float32 float64 : ℕ → Any
  complex64 complex128 : ℕ → ℕ → Any
  byte_slice string : Bytes → Any
  rune_slice : List ℕ → Any
  time : ℕ → Any
  duration : ℤ → Any
  big_int : ℤ → Any
  big_float : BigFloat → Any
  suffixed_decimal : SuffixedDecimal → Any
  expression : Bytes → Any
  other : Methods → ℕ → Any

-- `parse_float` is the value of `strconv.ParseFloat` and whether there is no error; `format_float`
-- and `format_complex` write with 'G', -1 and the size in bits; `sprint` is `fmt.Sprintf("%v", v)`;
-- `big_times` is the product with a whole number, `round32` is `float32(x)`.
pub record ValueLib : Type 0 where
  pub is_zero : ℕ → Bool
  pub float_of_int : ℤ → ℕ
  pub int_of_float : ℕ → ℤ
  pub times : ℕ → ℕ → ℕ
  pub round32 : ℕ → ℕ
  pub parse_float : Bytes → ℕ × Bool
  pub parse_complex : Bytes → ℕ × ℕ
  pub format_float : ℕ → ℕ → Bytes
  pub format_complex : ℕ → ℕ → ℕ → Bytes
  pub unix : ℕ → ℤ
  pub is_zero_time : ℕ → Bool
  pub time_string : ℕ → Bytes
  pub time_text : ℕ → Bytes
  pub rfc3339 : ℕ → Bytes
  pub seconds : ℤ → ℕ
  pub duration_string : ℤ → Bytes
  pub big_int_int64 : ℤ → ℤ
  pub parse_big_float : Bytes → BigFloat
  pub big_float_int64 : BigFloat → ℤ
  pub big_float_float64 : BigFloat → ℕ
  pub big_float_string : BigFloat → Bytes
  pub big_of_int : ℤ → BigFloat
  pub big_times : BigFloat → ℕ → BigFloat
  pub sprint : ℕ → Bytes

-- `int64(x)` and `uint64(x)` between the integers of 64 bits, and `byte(x)`.
abbrev pub int64_of_uint : ℕ → ℤ
int64_of_uint n = if ltb n (2 ^ 63) then pos n else negsuc (2 ^ 64 - n - 1)

abbrev pub uint64_of_int : ℤ → ℕ
uint64_of_int (pos n) = n
uint64_of_int (negsuc n) = 2 ^ 64 - 1 - n

abbrev pub byte_of_int : ℤ → ℕ
byte_of_int (pos n) = n % 256
byte_of_int (negsuc n) = 255 - n % 256

-- The bits of the floats 0 and 1.
abbrev pub float_zero : ℕ
float_zero = 0

abbrev pub float_one : ℕ
float_one = 0x3FF0000000000000

-- `string(x)` of a `[]rune`.
unfoldable pub string_of_runes : Bytes → List ℕ → Bytes
string_of_runes b [] = b
string_of_runes b (r ∷ rs) = string_of_runes (append_rune b r) rs

module _ (lib : ValueLib) where
  -- The case `fmt.Stringer`, with what `String` gives: `time.Time`, `time.Duration`, `*big.Int`,
  -- `*big.Float` and the two types of package document have the method too.
  unfoldable pub as_stringer : Any → Option Bytes
  as_stringer (time t) = some (lib.time_string t)
  as_stringer (duration d) = some (lib.duration_string d)
  as_stringer (big_int z) = some (format_int z 10)
  as_stringer (big_float f) = some (lib.big_float_string f)
  as_stringer (suffixed_decimal d) = some (spelled d)
  as_stringer (expression s) = some s
  as_stringer (other m k) = m.stringer
  as_stringer v = none

  -- The case `encoding.TextMarshaler`, with the bytes of `MarshalText`.
  unfoldable pub as_text_marshaler : Any → Option Bytes
  as_text_marshaler (time t) = some (lib.time_text t)
  as_text_marshaler (big_int z) = some (format_int z 10)
  as_text_marshaler (big_float f) = some (lib.big_float_string f)
  as_text_marshaler (other m k) = m.text_marshaler
  as_text_marshaler v = none

-- The case `error`, with what `Error` gives.
unfoldable pub as_error : Any → Option Bytes
as_error (other m k) = m.error
as_error v = none
