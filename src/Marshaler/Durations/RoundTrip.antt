-- ===== src/Marshaler/Durations/RoundTrip.antt =====
-- internal/marshaler: `parseHMSDuration` reads what `formatDuration` writes.
use gokdl.Base.{
  ℕ, zero, suc, ◌+◌, ◌*◌, ◌/◌, ◌%◌, ◌^◌, ◌-◌, ◌≤◌, ◌<◌, ◌≡◌, refl, ap, ◌∙◌, Bool, true, false, ◌&&◌,
  ◌||◌, [], ◌∷◌, ◌++◌, some, ℤ, pos, negsuc, Bytes, ◌==◌, ltb, leb, length, arith, Bool-cases, inl,
  inr,
}
use gokdl.Coerce.{int64_of_uint, uint64_of_int}
use gokdl.Go.Strconv.{format_uint, format_int}
use gokdl.Go.Strconv.Decimal.{
  decimal, decimal-format_uint, length-format_uint, parse_integer-format_int, parse_integer-zero,
}
use gokdl.Go.Strings.{cut}
use gokdl.Marshaler.Durations.{
  second, minute, hour, plus64, times64, fits_int32, parse_int32, hms_duration, parse_hms_duration,
  parse_hours, parse_minutes, parse_seconds, parse_nanoseconds, two_digits, with_sign, format_parts,
  format_duration,
}

-- Digits and minus signs only.
abbrev plain : Bytes → Bool
plain [] = true
plain (c ∷ s) = (c == b'-' || leb b'0' c && leb c b'9') && plain s

plain-decimal : (s : Bytes) → decimal s ≡ true → plain s ≡ true
plain-decimal [] h = refl
plain-decimal (c ∷ s) h = ground (arith, plain-decimal s)

plain-format_int : (z : ℤ) → plain (format_int z 10) ≡ true
unfolding format_int
plain-format_int (pos n) = plain-decimal (format_uint n 10) (decimal-format_uint n)
plain-format_int (negsuc n) = plain-decimal (format_uint (suc n) 10) (decimal-format_uint (suc n))

plain-two_digits : (z : ℤ) → plain (two_digits z) ≡ true
unfolding two_digits
plain-two_digits (pos n) = ground (arith, plain-decimal (format_uint n 10) (decimal-format_uint n))
plain-two_digits (negsuc n) = plain-format_int (negsuc n)

cut-plain :
    (sep : ℕ) (s t : Bytes)
    → (sep == b':' || sep == b'.') ≡ true
    → plain s ≡ true
    → cut sep (s ++ sep ∷ t) ≡ (s, t, true)
unfolding cut
cut-plain sep [] t h p = ground (arith, h)
cut-plain sep (c ∷ s) t h p = rw (cut-plain sep s t h (ground (arith, p))) (ground (arith, h, p))

parse_int32-format_int : (z : ℤ) → fits_int32 z ≡ true → parse_int32 (format_int z 10) ≡ some z
unfolding parse_int32
parse_int32-format_int z h = rw (parse_int32, parse_integer-format_int z, h) refl

parse_int32-zero_digit : (n : ℕ) → n < 10 → parse_int32 (b'0' ∷ format_uint n 10) ≡ some (pos n)
unfolding parse_int32
parse_int32-zero_digit n h = rw (parse_int32, parse_integer-zero n) (ground (arith, h))

parse_int32-two_digits : (z : ℤ) → fits_int32 z ≡ true → parse_int32 (two_digits z) ≡ some z
unfolding two_digits format_int
parse_int32-two_digits (pos n) h = elim (Bool-cases (ltb n 10)) [
  | inl e ↦ rw e (parse_int32-zero_digit n (ground (arith, e)))
  | inr e ↦ rw e (parse_int32-format_int (pos n) h)
]
parse_int32-two_digits (negsuc n) h = parse_int32-format_int (negsuc n) h

length-two_digits : (z : ℤ) → 1 ≤ length (two_digits z)
unfolding two_digits format_int
length-two_digits (pos n) = ground (arith, length-format_uint n)
length-two_digits (negsuc n) = omega arith

abbrev total : ℤ → ℤ → ℤ → ℤ → ℕ
total h m s n =
    plus64 (plus64 (plus64 (times64 hour h) (times64 minute m)) (times64 second s)) (times64 1 n)

parse_seconds-format :
    (d : ℕ) (t : Bytes) (s n : ℤ)
    → 1 ≤ length t
    → parse_int32 t ≡ some s
    → fits_int32 n ≡ true
    → parse_seconds d (t, format_int n 10, true)
      ≡ hms_duration (int64_of_uint (plus64 (plus64 d (times64 second s)) (times64 1 n)))
unfolding parse_int32
parse_seconds-format d [] s n l e f = absurd (omega arith)
parse_seconds-format d (c ∷ t) s n l e f =
    rw (parse_seconds, e, parse_nanoseconds, parse_int32-format_int n f) refl

parse_hours-step :
    (t r : Bytes) (h : ℤ)
    → parse_int32 t ≡ some h
    → parse_hours (t, r, true) ≡ parse_minutes (times64 hour h) (cut b':' r)
unfolding parse_hours
parse_hours-step t r h e = rw (parse_hours, e) refl

parse_minutes-step :
    (d : ℕ) (t r : Bytes) (m : ℤ)
    → parse_int32 t ≡ some m
    → parse_minutes d (t, r, true) ≡ parse_seconds (plus64 d (times64 minute m)) (cut b'.' r)
unfolding parse_minutes
parse_minutes-step d t r m e = rw (parse_minutes, e) refl

parse_parts :
    (h m s n : ℤ)
    → fits_int32 h ≡ true
    → fits_int32 m ≡ true
    → fits_int32 s ≡ true
    → fits_int32 n ≡ true
    → parse_hms_duration
        (two_digits h ++ b':' ∷ (two_digits m ++ b':' ∷ (two_digits s ++ b'.' ∷ format_int n 10)))
      ≡ hms_duration (int64_of_uint (total h m s n))
unfolding parse_hms_duration
parse_parts h m s n fh fm fs fn =
    let d = times64 hour h in
    let d' = plus64 d (times64 minute m) in
    let seconds = two_digits s ++ b'.' ∷ format_int n 10 in
    let minutes = two_digits m ++ b':' ∷ seconds in
    ap parse_hours (cut-plain b':' (two_digits h) minutes refl (plain-two_digits h))
    ∙ parse_hours-step (two_digits h) minutes h (parse_int32-two_digits h fh)
    ∙ ap (parse_minutes d) (cut-plain b':' (two_digits m) seconds refl (plain-two_digits m))
    ∙ parse_minutes-step d (two_digits m) seconds m (parse_int32-two_digits m fm)
    ∙ ap (parse_seconds d')
        (cut-plain b'.' (two_digits s) (format_int n 10) refl (plain-two_digits s))
    ∙ parse_seconds-format d' (two_digits s) s n (length-two_digits s) (parse_int32-two_digits s fs)
        fn

-- The bits of a number with a sign.
uint64-with_sign : (x : ℕ) → x ≤ 2 ^ 63 → uint64_of_int (with_sign true x) ≡ (2 ^ 64 - x) % 2 ^ 64
uint64-with_sign zero h = refl
uint64-with_sign (suc x) h = omega arith

-- A `time.Duration` has 64 bits.
abbrev pub FitsInt64 : ℤ → Type 0
FitsInt64 (pos n) = n < 2 ^ 63
FitsInt64 (negsuc n) = n < 2 ^ 63

total-positive :
    (d : ℕ)
    → d < 2 ^ 63
    → total
        (pos (d / second / 60 / 60))
        (pos (d / second / 60 % 60))
        (pos (d / second % 60))
        (pos (d % second))
      ≡ d
total-positive d h = omega arith

-- The bits of a negative number.
abbrev minus : ℕ → ℕ
minus x = (2 ^ 64 - x) % 2 ^ 64

plus64-minus : (a b : ℕ) → a + b ≤ 2 ^ 63 → plus64 (minus a) (minus b) ≡ minus (a + b)
plus64-minus a b h = omega arith

times64-hour : (x : ℕ) → hour * x ≤ 2 ^ 63 → times64 hour (with_sign true x) ≡ minus (hour * x)
times64-hour zero h = refl
times64-hour (suc x) h = omega arith

times64-minute :
    (x : ℕ) → minute * x ≤ 2 ^ 63 → times64 minute (with_sign true x) ≡ minus (minute * x)
times64-minute zero h = refl
times64-minute (suc x) h = omega arith

times64-second :
    (x : ℕ) → second * x ≤ 2 ^ 63 → times64 second (with_sign true x) ≡ minus (second * x)
times64-second zero h = refl
times64-second (suc x) h = omega arith

times64-one : (x : ℕ) → x ≤ 2 ^ 63 → times64 1 (with_sign true x) ≡ minus x
times64-one zero h = refl
times64-one (suc x) h = omega arith

total-minus :
    (h m s n : ℕ)
    → hour * h + minute * m + second * s + n ≤ 2 ^ 63
    → total (with_sign true h) (with_sign true m) (with_sign true s) (with_sign true n)
      ≡ minus (hour * h + minute * m + second * s + n)
total-minus h m s n b =
    rw
      (
        times64-hour h (omega arith),
        times64-minute m (omega arith),
        times64-second s (omega arith),
        times64-one n (omega arith),
        plus64-minus (hour * h) (minute * m) (omega arith),
        plus64-minus (hour * h + minute * m) (second * s) (omega arith),
      )
      (plus64-minus (hour * h + minute * m + second * s) n b)

total-negative :
    (d : ℕ)
    → d ≤ 2 ^ 63
    → total
        (with_sign true (d / second / 60 / 60))
        (with_sign true (d / second / 60 % 60))
        (with_sign true (d / second % 60))
        (with_sign true (d % second))
      ≡ minus d
total-negative d h =
    total-minus (d / second / 60 / 60) (d / second / 60 % 60) (d / second % 60) (d % second)
      (omega arith)
    ∙ ap minus (omega arith)

fits-with_sign : (b : Bool) (x : ℕ) → x < 2 ^ 31 → fits_int32 (with_sign b x) ≡ true
fits-with_sign false x h = ground arith
fits-with_sign true zero h = refl
fits-with_sign true (suc x) h = ground arith

parse_format :
    (b : Bool) (d : ℕ)
    → d ≤ 2 ^ 63
    → parse_hms_duration (format_parts b d)
      ≡ hms_duration (
          int64_of_uint (
            total
              (with_sign b (d / second / 60 / 60))
              (with_sign b (d / second / 60 % 60))
              (with_sign b (d / second % 60))
              (with_sign b (d % second))))
parse_format b d h =
    parse_parts _ _ _ _ (fits-with_sign b (d / second / 60 / 60) (omega arith))
      (fits-with_sign b (d / second / 60 % 60) (omega arith))
      (fits-with_sign b (d / second % 60) (omega arith))
      (fits-with_sign b (d % second) (omega arith))

-- The text that `formatDuration` writes for a duration, `parseHMSDuration` reads as that duration, be it
-- negative or not.
pub parse_hms_duration-format_duration :
    (d : ℤ) → FitsInt64 d → parse_hms_duration (format_duration d) ≡ hms_duration d
unfolding format_duration
parse_hms_duration-format_duration (pos n) h =
    parse_format false n (omega arith)
    ∙ ap (λ b. hms_duration (int64_of_uint b)) (total-positive n h)
    ∙ ap hms_duration (ground arith)
parse_hms_duration-format_duration (negsuc n) h =
    parse_format true (suc n) (omega arith)
    ∙ ap (λ b. hms_duration (int64_of_uint b)) (total-negative (suc n) (omega arith))
    ∙ ap hms_duration (ground arith)
