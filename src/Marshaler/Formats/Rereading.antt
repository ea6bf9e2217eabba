-- ===== src/Marshaler/Formats/Rereading.antt =====
-- internal/marshaler: a duration marshaled and unmarshaled in one of the formats.
use gokdl.Base.{
  ℕ, zero, suc, ◌*◌, ◌/◌, ◌^◌, ◌-◌, ◌≤◌, ◌≡◌, refl, ap, sym, ◌∙◌, true, ℤ, pos, negsuc, Bytes,
  bytes_eq, codes, arith,
}
use gokdl.Coerce.{Any, ValueLib, int64_of_uint}
use gokdl.Coerce.Numeric.{to_numeric}
use gokdl.Coerce.Strings.{to_string}
use gokdl.Coerce.Texts.{text_of}
use gokdl.Marshaler.Durations.{times64, with_sign}
use gokdl.Marshaler.Durations.RoundTrip.{FitsInt64, parse_hms_duration-format_duration}
use gokdl.Marshaler.Formats.{
  TimeLib, Formatted, formatted, invalid_format, no_base60, bad_base60, bad_text, divided, of_hms,
  marshal_duration_value, duration_format_factor, duration_of, unmarshal_value_duration,
}

-- A number cut to whole units.
abbrev pub cut_to : ℕ → ℤ → ℤ
cut_to k (pos n) = pos (n / k * k)
cut_to k (negsuc n) = with_sign true (suc n / k * k)

with_sign-negsuc : (y : ℕ) → 1 ≤ y → with_sign true y ≡ negsuc (y - 1)
with_sign-negsuc zero h = absurd (omega arith)
with_sign-negsuc (suc y) h = ap negsuc (omega arith)

int64-minus : (b y : ℕ) → 1 ≤ y → y ≤ 2 ^ 63 → b ≡ 2 ^ 64 - y → int64_of_uint b ≡ negsuc (y - 1)
int64-minus b y h k e = ground arith

scaled_thousands :
    (x : ℕ)
    → x * 1_000 ≤ 2 ^ 63
    → int64_of_uint (times64 1_000 (with_sign true x)) ≡ with_sign true (x * 1_000)
scaled_thousands zero h = refl
scaled_thousands (suc x) h =
    int64-minus (times64 1_000 (negsuc x)) (suc x * 1_000) (omega arith) h (omega arith)
    ∙ sym (with_sign-negsuc (suc x * 1_000) (omega arith))

scaled_millions :
    (x : ℕ)
    → x * 1_000_000 ≤ 2 ^ 63
    → int64_of_uint (times64 1_000_000 (with_sign true x)) ≡ with_sign true (x * 1_000_000)
scaled_millions zero h = refl
scaled_millions (suc x) h =
    int64-minus (times64 1_000_000 (negsuc x)) (suc x * 1_000_000) (omega arith) h (omega arith)
    ∙ sym (with_sign-negsuc (suc x * 1_000_000) (omega arith))

thousands : (d : ℤ) → FitsInt64 d → int64_of_uint (times64 1_000 (divided d 1_000)) ≡ cut_to 1_000 d
thousands (pos n) h = ground arith
thousands (negsuc n) h = scaled_thousands (suc n / 1_000) (omega arith)

millions :
    (d : ℤ)
    → FitsInt64 d
    → int64_of_uint (times64 1_000_000 (divided d 1_000_000)) ≡ cut_to 1_000_000 d
millions (pos n) h = ground arith
millions (negsuc n) h = scaled_millions (suc n / 1_000_000) (omega arith)

ones : (d : ℤ) → FitsInt64 d → int64_of_uint (times64 1 d) ≡ d
ones (pos n) h = ground arith
ones (negsuc n) h = ground arith

module _ (lib : ValueLib) (times : TimeLib) where
  abbrev unmarshal_formatted : Formatted Any → Bytes → Formatted ℤ
  unfolding unmarshal_value_duration
  unmarshal_formatted (formatted v) format = unmarshal_value_duration lib times v format
  unmarshal_formatted (invalid_format f) format = invalid_format f
  unmarshal_formatted no_base60 format = no_base60
  unmarshal_formatted bad_base60 format = bad_base60
  unmarshal_formatted bad_text format = bad_text

  -- Marshaled and unmarshaled in one format.
  pub reread_duration : ℤ → Bytes → Formatted ℤ
  unfolding unmarshal_formatted marshal_duration_value
  reread_duration d format = unmarshal_formatted (marshal_duration_value lib times d format) format

  pub reread_duration_lem :
      (d : ℤ)
      → FitsInt64 d
      → (reread_duration d (codes "nano") ≡ formatted d)
        × (reread_duration d (codes "base60") ≡ formatted d)
        × (reread_duration d (codes "micro") ≡ formatted (cut_to 1_000 d))
        × (reread_duration d (codes "milli") ≡ formatted (cut_to 1_000_000 d))
  unfolding reread_duration marshal_duration_value unmarshal_value_duration duration_format_factor
      duration_of to_numeric to_string text_of bytes_eq
  reread_duration_lem d h = (
    ap formatted (ones d h),
    ap of_hms (parse_hms_duration-format_duration d h),
    ap formatted (thousands d h),
    ap formatted (millions d h),
  )
