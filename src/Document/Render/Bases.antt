-- ===== src/Document/Render/Bases.antt =====
-- document/value.go: how `value` writes a number that was read in another base.
use gokdl.Base.{◌≡◌, refl, ℕ, Bool, true, false, not, ◌++◌, Bytes, codes, ℤ, if◌then◌else◌}
use gokdl.Document.Flag
use gokdl.Document.Flag.{has, use_numeric_flags}
use gokdl.Document.Number.{Scalar, int64, big_int}
use gokdl.Document.Render.{append_value, append_scalar, numeric_base}
use gokdl.Document.Value.{Value}
use gokdl.Go.Strconv.{FloatLib, format_int}

-- The value was read in the notation of one of the flags.
abbrev pub OnlyFlag : ℕ → (binary octal hexadecimal : Bool) → Type 0
OnlyFlag f b o h = (has f Flag.binary ≡ b) × (has f Flag.octal ≡ o) × (has f Flag.hexadecimal ≡ h)

abbrev pub number : Bytes → Scalar → ℕ → ℕ → Value
number t s f r = record { type_annot = t; value = s; flag = f; raw_hashes = r }

module _ (floats : FloatLib) (t : Bytes) (f r opts : ℕ) (b : Bytes)
    (n : has opts use_numeric_flags ≡ true) where
  -- With the numeric flags on, an int64 is written behind the buffer with its prefix in base 8 or 2,
  -- where the value's flag is that of octal numbers or that of binary ones, and no other of the three.
  pub append_value-binary_octal :
      (z : ℤ) (o : Bool)
      → OnlyFlag f (not o) o false
      → append_value floats (number t (int64 z) f r) b opts
        ≡ b ++ ((if o then codes "0o" else codes "0b") ++ format_int z (if o then 8 else 2))
  unfolding append_value append_scalar numeric_base
  append_value-binary_octal z true (k₀, k₁, k₂) = rw (n, k₀, k₁) refl
  append_value-binary_octal z false (k₀, k₁, k₂) = rw (n, k₀) refl

  -- With the numeric flags on, where the value's flag is that of hexadecimal numbers and not that of
  -- binary or octal ones, what stood in the buffer is lost; an int64 is written with `0x`, a big
  -- integer without.
  pub append_value-hexadecimal :
      (z : ℤ)
      → OnlyFlag f false false true
      → (append_value floats (number t (int64 z) f r) b opts ≡ codes "0x" ++ format_int z 16)
        × (append_value floats (number t (big_int z) f r) b opts ≡ format_int z 16)
  unfolding append_value append_scalar numeric_base
  append_value-hexadecimal z (k₀, k₁, k₂) = (rw (n, k₀, k₁, k₂) refl, rw (n, k₀, k₁, k₂) refl)
