-- ===== src/Go/Strconv.antt =====
-- strconv's integers; its floats and those of math/big are a parameter, `FloatLib`.
pub mod Decimal
use gokdl.Base.{
  ℕ, zero, suc, ◌+◌, ◌-◌, ◌*◌, ◌/◌, ◌%◌, ◌^◌, Bool, ◌&&◌, [], ◌∷◌, ◌++◌, Option, none, some, ℤ, pos,
  negsuc, Bytes, ◌==◌, leb, ltb, if◌then◌else◌,
}

-- A result of strconv: a value, `ErrRange` or `ErrSyntax`.
pub data Parsed (A : Type 0) : Type 0 where
  parsed : A → Parsed A
  out_of_range bad_syntax : Parsed A

-- A `big.Float`: its mantissa and binary exponent.
pub record BigFloat : Type 0 where
  pub mantissa : ℤ
  pub exponent : ℤ

-- Floats are their 64 bits. `modf_zero` is whether `math.Modf` gives a zero fraction, `big_log` whether
-- the decimal logarithm of the size is finite and outside -9 to 9.
pub record FloatLib : Type 0 where
  pub parse_float : Bytes → Parsed ℕ
  pub parse_big_float : Bytes → BigFloat
  pub format_float : ℕ → ℕ → Bytes
  pub modf_zero : ℕ → Bool
  pub big_log : ℕ → Bool
  pub format_big_float : BigFloat → Bytes

unfoldable pub digit : ℕ → Bytes
digit d = (if ltb d 10 then b'0' + d else b'a' + (d - 10)) ∷ []

unfoldable pub format_in : ℕ → ℕ → ℕ → Bytes
format_in zero n base = []
format_in (suc fuel) n base =
    let rest = format_in fuel (n / base) base in
    if ltb n base then digit n else rest ++ digit (n % base)

-- `AppendUint`: 64 digits suffice for a 64-bit number in any base; a number takes fewer than itself plus one.
unfoldable pub format_uint : ℕ → ℕ → Bytes
unfolding format_in digit
format_uint n base = format_in (suc n) n base

unfoldable pub format_int : ℤ → ℕ → Bytes
format_int (pos n) base = format_uint n base
format_int (negsuc n) base = b'-' ∷ format_uint (suc n) base

digit_value : ℕ → ℕ
digit_value c =
    if leb b'0' c && leb c b'9'
    then c - b'0'
    else if leb b'a' c && leb c b'z'
    then c - b'a' + 10
    else if leb b'A' c && leb c b'Z'
    then c - b'A' + 10
    else 99

-- The digits of an unsigned number in a base; at least one is wanted.
parse_digits : Bytes → ℕ → ℕ → Option ℕ
parse_digits [] base acc = some acc
parse_digits (c ∷ s) base acc =
    let rest = parse_digits s base (acc * base + digit_value c) in
    if ltb (digit_value c) base then rest else none

unfoldable pub parse_natural : Bytes → ℕ → Option ℕ
unfolding parse_digits digit_value
parse_natural [] base = none
parse_natural (c ∷ s) base = parse_digits (c ∷ s) base 0

abbrev negate : ℕ → ℤ
negate zero = pos zero
negate (suc n) = negsuc n

-- `SetString` of a `big.Int`: an optional sign and digits.
unfoldable pub parse_integer : Bytes → ℕ → Option ℤ
unfolding parse_natural
parse_integer [] base = none
parse_integer (c ∷ s) base =
    if c == b'-'
    then elim (parse_natural s base) [ none ↦ none | some n ↦ some (negate n) ]
    else if c == b'+'
    then elim (parse_natural s base) [ none ↦ none | some n ↦ some (pos n) ]
    else elim (parse_natural (c ∷ s) base) [ none ↦ none | some n ↦ some (pos n) ]

abbrev pub fits_int64 : ℤ → Bool
fits_int64 (pos n) = ltb n (2 ^ 63)
fits_int64 (negsuc n) = ltb n (2 ^ 63)

-- `ParseInt` of 64 bits in a base from 2 to 36.
unfoldable pub parse_int : Bytes → ℕ → Parsed ℤ
unfolding parse_integer
parse_int s base = elim (parse_integer s base) [
  | none ↦ bad_syntax
  | some z ↦ if fits_int64 z then parsed z else out_of_range
]
