-- ===== src/Marshaler/Direct/Bounds.antt =====
-- internal/marshaler: what fits into an integer variable.
use gokdl.Base.{ℕ, ◌^◌, ◌≡◌, ◌%◌, ◌↔◌, refl, Bool, true, false, [], ℤ, pos, negsuc, ltb, arith}
use gokdl.Coerce.{Width, native, w8, w16, w32, w64, signed, ValueLib, uint64_of_int}
use gokdl.Coerce.Integers.{to_int64, switch_int64}
use gokdl.Go.Strconv.{FloatLib}
use gokdl.Marshaler.Direct.{
  resolve_suffixed_decimal, int_dest, stored, wrap_int, bits, set_value, direct_set,
}
use gokdl.Marshaler.Durations.RoundTrip.{FitsInt64}
use gokdl.Marshaler.Formats.{TimeLib}

-- The number lies in the range of the width.
abbrev pub half_range : Width → ℕ
half_range w8 = 2 ^ 7
half_range w16 = 2 ^ 15
half_range w32 = 2 ^ 31
half_range w64 = 2 ^ 63
half_range native = 2 ^ 63

abbrev pub fits : Width → ℤ → Bool
fits w (pos n) = ltb n (half_range w)
fits w (negsuc n) = ltb n (half_range w)

wrap_int-fits : (w : Width) (z : ℤ) → FitsInt64 z → (wrap_int w z ≡ z) ↔ (fits w z ≡ true)
unfolding wrap_int
wrap_int-fits w8 (pos n) h = ground arith
wrap_int-fits w8 (negsuc n) h = ground arith
wrap_int-fits w16 (pos n) h = ground arith
wrap_int-fits w16 (negsuc n) h = ground arith
wrap_int-fits w32 (pos n) h = ground arith
wrap_int-fits w32 (negsuc n) h = ground arith
wrap_int-fits w64 (pos n) h = ground arith
wrap_int-fits w64 (negsuc n) h = ground arith
wrap_int-fits native (pos n) h = ground arith
wrap_int-fits native (negsuc n) h = ground arith

-- The bits that the variable has room for.
abbrev pub low_bits : Width → ℤ → ℕ
low_bits w z = uint64_of_int z % 2 ^ bits w

wrap_int-low_bits : (w : Width) (z : ℤ) → FitsInt64 z → low_bits w (wrap_int w z) ≡ low_bits w z
unfolding wrap_int
wrap_int-low_bits w8 (pos n) h = ground arith
wrap_int-low_bits w8 (negsuc n) h = ground arith
wrap_int-low_bits w16 (pos n) h = ground arith
wrap_int-low_bits w16 (negsuc n) h = ground arith
wrap_int-low_bits w32 (pos n) h = ground arith
wrap_int-low_bits w32 (negsuc n) h = ground arith
wrap_int-low_bits w64 z h = refl
wrap_int-low_bits native z h = refl

wrap_int-in_range : (w : Width) (z : ℤ) → FitsInt64 z → fits w (wrap_int w z) ≡ true
unfolding wrap_int
wrap_int-in_range w8 (pos n) h = ground arith
wrap_int-in_range w8 (negsuc n) h = ground arith
wrap_int-in_range w16 (pos n) h = ground arith
wrap_int-in_range w16 (negsuc n) h = ground arith
wrap_int-in_range w32 (pos n) h = ground arith
wrap_int-in_range w32 (negsuc n) h = ground arith
wrap_int-in_range w64 (pos n) h = ground arith
wrap_int-in_range w64 (negsuc n) h = ground arith
wrap_int-in_range native (pos n) h = ground arith
wrap_int-in_range native (negsuc n) h = ground arith

-- An integer of 64 bits that is set in an integer variable is never refused, too large or not: the
-- variable then holds the number in the range of its width with the same lowest bits, which is the
-- integer just if that fits.
pub direct_set-fits :
    (floats : FloatLib) (lib : ValueLib) (times : TimeLib) (suffixes : Bool) (w v : Width) (z : ℤ)
    → FitsInt64 z
    → (r : ℤ) × (direct_set floats lib times suffixes (int_dest w) (signed v z) []
        ≡ stored (signed w r))
      × (fits w r ≡ true)
      × (low_bits w r ≡ low_bits w z)
      × ((r ≡ z) ↔ (fits w z ≡ true))
unfolding direct_set set_value to_int64 switch_int64 resolve_suffixed_decimal
direct_set-fits floats lib times false w v z h =
    (wrap_int w z, refl, wrap_int-in_range w z h, wrap_int-low_bits w z h, wrap_int-fits w z h)
direct_set-fits floats lib times true w v z h =
    (wrap_int w z, refl, wrap_int-in_range w z h, wrap_int-low_bits w z h, wrap_int-fits w z h)
