-- ===== src/Coerce/Agreement.antt =====
-- internal/coerce: how the conversions agree with each other on one number given in several ways.
use gokdl.Base.{
  ℕ, suc, ◌^◌, ◌-◌, ◌≤◌, ◌<◌, ℤ, pos, negsuc, ◌≡◌, inl, inr, refl, ap, ◌∙◌, Bool, true, false, not,
  ◌&&◌, [], ◌∷◌, Bytes, ◌==◌, ltb, length, arith, Bool-cases, if◌then◌else◌,
}
use gokdl.Go.Strconv.{format_int, format_uint, format_in, digit}
use gokdl.Go.Strconv.Decimal.{
  decimal, decimal-format_uint, length-format_uint, parse_integer-format_int,
  length-format_uint_two,
}
use gokdl.Coerce.{
  Width, unsigned, string, byte_slice, big_int, ValueLib, as_stringer, as_error, int64_of_uint,
  uint64_of_int,
}
use gokdl.Coerce.Texts.{text_of, method_text}
use gokdl.Coerce.Truth.{bool_string, method_to_bool, to_bool}
use gokdl.Coerce.Integers.{clamp, parse_int, parse_int_value, switch_int64, to_int64, to_uint64}

pub parse_int-format_int : (z : ℤ) → parse_int_value (format_int z 10) ≡ clamp z
unfolding parse_int
parse_int-format_int z = rw (parse_int_value, parse_int, parse_integer-format_int z) refl

-- A number's decimal text, as a string or as bytes, and the number as a `*big.Int` become the nearest
-- `int64`.
pub to_int64-text :
    (lib : ValueLib) (z : ℤ)
    → (to_int64 lib (string (format_int z 10)) ≡ clamp z)
      × (to_int64 lib (byte_slice (format_int z 10)) ≡ clamp z)
      × (to_int64 lib (big_int z) ≡ clamp z)
unfolding to_int64 switch_int64 text_of method_text as_stringer
to_int64-text lib z = (parse_int-format_int z, parse_int-format_int z, parse_int-format_int z)

abbrev pub uint_of_clamped : ℕ → ℕ
uint_of_clamped n = if ltb n (2 ^ 63) then n else 2 ^ 63 - 1

uint64-clamp : (n : ℕ) → uint64_of_int (clamp (pos n)) ≡ uint_of_clamped n
uint64-clamp n = ground arith

uint64-int64 : (n : ℕ) → n < 2 ^ 64 → uint64_of_int (int64_of_uint n) ≡ n
uint64-int64 n h = ground arith

-- `ToUint64` gives an unsigned number of 64 bits back. The same number as a `*big.Int` or as decimal
-- text is cut at 2 ^ 63 - 1.
pub to_uint64-unsigned :
    (lib : ValueLib) (w : Width) (n : ℕ)
    → n < 2 ^ 64
    → (to_uint64 lib (unsigned w n) ≡ n)
      × (to_uint64 lib (big_int (pos n)) ≡ uint_of_clamped n)
      × (to_uint64 lib (string (format_int (pos n) 10)) ≡ uint_of_clamped n)
unfolding to_uint64 to_int64 switch_int64
to_uint64-unsigned lib w n h =
    let (s, b, i) = to_int64-text lib (pos n) in
    (uint64-int64 n h, ap uint64_of_int i ∙ uint64-clamp n, ap uint64_of_int s ∙ uint64-clamp n)

decimal-not_true : (s : Bytes) → decimal s ≡ true → 2 ≤ length s → bool_string s ≡ false
unfolding bool_string
decimal-not_true [] d h = refl
decimal-not_true (c ∷ []) d h = absurd (omega arith)
decimal-not_true (c ∷ x ∷ []) d h = refl
decimal-not_true (c ∷ x ∷ y ∷ []) d h = ground arith
decimal-not_true (c ∷ x ∷ y ∷ z ∷ []) d h = ground arith
decimal-not_true (c ∷ x ∷ y ∷ z ∷ u ∷ s) d h = refl

bool_string-negative :
    (s : Bytes) → 1 ≤ length s → decimal s ≡ true → bool_string (b'-' ∷ s) ≡ false
unfolding bool_string
bool_string-negative [] h d = absurd (omega arith)
bool_string-negative (c ∷ []) h d = refl
bool_string-negative (c ∷ x ∷ []) h d = refl
bool_string-negative (c ∷ x ∷ y ∷ []) h d = refl
bool_string-negative (c ∷ x ∷ y ∷ z ∷ s) h d = refl

bool_string-small : (n : ℕ) → n < 10 → bool_string (format_uint n 10) ≡ not (n == 0)
unfolding bool_string format_uint format_in digit
bool_string-small n h = ground arith

-- One to nine.
abbrev pub one_digit : ℤ → Bool
one_digit (pos n) = ltb 0 n && ltb n 10
one_digit (negsuc n) = false

-- `ToBool` of a `*big.Int` is true for the numbers from one to nine only: of zero, of every negative and
-- of every other number it is false, since the text of the number is what is looked at.
pub to_bool-big_int : (lib : ValueLib) (z : ℤ) → to_bool lib (big_int z) ≡ one_digit z
unfolding to_bool method_to_bool as_stringer as_error format_int
to_bool-big_int lib (pos n) = elim (Bool-cases (ltb n 10)) [
  | inl e ↦ bool_string-small n (ground arith) ∙ ground arith
  | inr e ↦
      decimal-not_true (format_uint n 10) (decimal-format_uint n)
        (length-format_uint_two n (ground arith))
      ∙ ground arith
]
to_bool-big_int lib (negsuc n) =
    bool_string-negative (format_uint (suc n) 10) (length-format_uint (suc n))
      (decimal-format_uint (suc n))
