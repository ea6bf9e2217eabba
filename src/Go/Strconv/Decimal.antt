-- ===== src/Go/Strconv/Decimal.antt =====
-- strconv: what `FormatInt` writes in base 10, `ParseInt` reads.
use gokdl.Base.{
  ℕ, zero, suc, ◌+◌, ◌*◌, ◌/◌, ◌%◌, ◌<◌, ◌≡◌, refl, ◌∙◌, ap, ◌≤◌, inl, inr, length, length-append,
  Bool, true, ◌&&◌, [], ◌∷◌, ◌++◌, some, ℤ, pos, negsuc, Bytes, leb, ltb, arith, Bool-cases,
  Option-cases,
}
use gokdl.Go.Strconv.{
  digit, format_in, format_uint, format_int, digit_value, parse_digits, parse_natural,
  parse_integer,
}

-- Decimal digits only, one at least.
abbrev pub decimal : Bytes → Bool
decimal [] = true
decimal (c ∷ s) = leb b'0' c && leb c b'9' && decimal s

parse_digits-append :
    (s t : Bytes) (acc m : ℕ)
    → parse_digits s 10 acc ≡ some m
    → parse_digits (s ++ t) 10 acc ≡ parse_digits t 10 m
unfolding parse_digits
parse_digits-append [] t acc m h = ground (arith, h)
parse_digits-append (c ∷ s) t acc m h =
    ground (arith, parse_digits-append s t (acc * 10 + digit_value c) m)

parse_digits-digit : (d acc : ℕ) → d < 10 → parse_digits (digit d) 10 acc ≡ some (acc * 10 + d)
unfolding parse_digits digit digit_value
parse_digits-digit d acc h = ground arith

parse_digits-format_in : (fuel n : ℕ) → n < fuel → parse_digits (format_in fuel n 10) 10 0 ≡ some n
unfolding format_in
parse_digits-format_in zero n h = absurd (omega arith)
parse_digits-format_in (suc fuel) n h = elim (Bool-cases (ltb n 10)) [
  | inl e ↦ rw e (parse_digits-digit n 0 (ground arith) ∙ ap some (omega arith))
  | inr e ↦ rw e (
      parse_digits-append (format_in fuel (n / 10) 10) (digit (n % 10)) 0 (n / 10)
        (parse_digits-format_in fuel (n / 10) (ground arith))
      ∙ parse_digits-digit (n % 10) (n / 10) (omega arith)
      ∙ ap some (omega arith))
]

decimal-append : (s t : Bytes) → decimal s ≡ true → decimal t ≡ true → decimal (s ++ t) ≡ true
decimal-append [] t h k = k
decimal-append (c ∷ s) t h k = ground (arith, decimal-append s t)

decimal-digit : (d : ℕ) → d < 10 → decimal (digit d) ≡ true
unfolding digit
decimal-digit d h = ground arith

decimal-format_in : (fuel n : ℕ) → decimal (format_in fuel n 10) ≡ true
unfolding format_in
decimal-format_in zero n = refl
decimal-format_in (suc fuel) n = elim (Bool-cases (ltb n 10)) [
  | inl e ↦ rw e (decimal-digit n (ground arith))
  | inr e ↦ rw e (
      decimal-append (format_in fuel (n / 10) 10) (digit (n % 10)) (decimal-format_in fuel (n / 10))
        (decimal-digit (n % 10) (omega arith)))
]

length-format_in : (fuel n : ℕ) → 1 ≤ length (format_in (suc fuel) n 10)
unfolding format_in digit
length-format_in fuel n = elim (Bool-cases (ltb n 10)) [
  | inl e ↦ rw e (omega arith)
  | inr e ↦ rw (e, length-append (format_in fuel (n / 10) 10) (digit (n % 10))) (omega arith)
]

pub decimal-format_uint : (n : ℕ) → decimal (format_uint n 10) ≡ true
unfolding format_uint
decimal-format_uint n = decimal-format_in (suc n) n

pub length-format_uint : (n : ℕ) → 1 ≤ length (format_uint n 10)
unfolding format_uint
length-format_uint n = length-format_in n n

parse_natural-digits : (s : Bytes) → 1 ≤ length s → parse_natural s 10 ≡ parse_digits s 10 0
unfolding parse_natural
parse_natural-digits [] h = absurd (omega arith)
parse_natural-digits (c ∷ s) h = refl

parse_natural-format_uint : (n : ℕ) → parse_natural (format_uint n 10) 10 ≡ some n
unfolding format_uint
parse_natural-format_uint n =
    parse_natural-digits (format_uint n 10) (length-format_uint n)
    ∙ parse_digits-format_in (suc n) n (omega arith)

-- A number without a sign.
parse_integer-decimal :
    (s : Bytes) (n : ℕ)
    → decimal s ≡ true
    → parse_natural s 10 ≡ some n
    → parse_integer s 10 ≡ some (pos n)
unfolding parse_integer parse_natural
parse_integer-decimal [] n d h = ground (arith, h)
parse_integer-decimal (c ∷ s) n d h = ground (arith, h)

pub parse_integer-format_int : (z : ℤ) → parse_integer (format_int z 10) 10 ≡ some z
unfolding format_int parse_integer
parse_integer-format_int (pos n) =
    parse_integer-decimal (format_uint n 10) n (decimal-format_uint n) (parse_natural-format_uint n)
parse_integer-format_int (negsuc n) = rw (parse_natural-format_uint (suc n)) refl

-- What has a value in base 10 has decimal digits only.
decimal-parse_digits : (s : Bytes) (acc m : ℕ) → parse_digits s 10 acc ≡ some m → decimal s ≡ true
unfolding parse_digits digit_value
decimal-parse_digits [] acc m h = refl
decimal-parse_digits (c ∷ s) acc m h =
    ground (arith, decimal-parse_digits s (acc * 10 + digit_value c) m)

pub decimal-parse_integer :
    (c : ℕ) (s : Bytes) (z : ℤ)
    → leb b'0' c ≡ true
    → parse_integer (c ∷ s) 10 ≡ some z
    → decimal (c ∷ s) ≡ true
unfolding parse_integer parse_natural
decimal-parse_integer c s z h k = elim (Option-cases (parse_digits (c ∷ s) 10 0)) [
  | inl e ↦ ground (arith, e)
  | inr (m, e) ↦ decimal-parse_digits (c ∷ s) 0 m e
]

-- Ten or more takes two digits.
pub length-format_uint_two : (n : ℕ) → 10 ≤ n → 2 ≤ length (format_uint n 10)
unfolding format_uint format_in digit
length-format_uint_two zero h = absurd (omega arith)
length-format_uint_two (suc n) h = elim (Bool-cases (ltb (suc n) 10)) [
  | inl e ↦ absurd (ground arith)
  | inr e ↦
      rw (e, length-append (format_in (suc n) (suc n / 10) 10) (digit (suc n % 10)))
        (omega (arith, length-format_in n (suc n / 10)))
]

-- A leading zero.
pub parse_integer-zero : (n : ℕ) → parse_integer (b'0' ∷ format_uint n 10) 10 ≡ some (pos n)
unfolding parse_natural parse_digits digit_value format_uint
parse_integer-zero n =
    parse_integer-decimal (b'0' ∷ format_uint n 10) n (decimal-format_uint n)
      (parse_digits-format_in (suc n) n (omega arith))
