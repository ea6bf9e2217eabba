-- ===== src/Coerce/Suffixes/Units.antt =====
-- internal/coerce/int.go's units against those of document/suffixeddec.go.
use gokdl.Base.{
  ℕ, ◌^◌, ◌≡◌, ◌⊎◌, inl, inr, refl, [], ◌∷◌, Option, none, some, Bytes, arith, Option-cases,
}
use gokdl.Document.SuffixedDecimal.{suffix_multiplier}
use gokdl.Coerce.Suffixes.{numeric_units, suffix_to_multiplier}

units_found : (s : Bytes) (m : ℕ) → suffix_multiplier s ≡ some m → suffix_to_multiplier s ≡ some m
unfolding suffix_multiplier suffix_to_multiplier numeric_units
units_found [] m h = h
units_found (c ∷ []) m h = ground (arith, h)
units_found (c ∷ d ∷ []) m h = ground (arith, h)
units_found (c ∷ d ∷ e ∷ s) m h = ground (arith, h)

-- The error, no unit, or the letter for 10 ^ 18.
abbrev pub NoUnit : Option ℕ → Type 0
NoUnit o = (o ≡ none) ⊎ ((o ≡ some 0) ⊎ ((o ≡ some (10 ^ 18)) ⊎ (o ≡ some (2 ^ 60))))

no_units_found : (s : Bytes) → suffix_multiplier s ≡ none → NoUnit (suffix_to_multiplier s)
unfolding suffix_multiplier suffix_to_multiplier numeric_units
no_units_found [] h = ground (arith, h)
no_units_found (c ∷ []) h = ground (arith, h)
no_units_found (c ∷ d ∷ []) h = ground (arith, h)
no_units_found (c ∷ d ∷ e ∷ s) h = inl refl

-- The second multiplier agrees with the first, where the first is no error.
abbrev pub Agrees : Option ℕ → Option ℕ → Type 0
Agrees (some m) o = o ≡ some m
Agrees none o = NoUnit o

-- The multiplier of every suffix that a suffixed decimal may have is the same in package coerce. Where a
-- suffixed decimal has the error, package coerce gives the error, 0, 10 ^ 18 or 2 ^ 60.
pub suffix_to_multiplier-Agrees :
    (s : Bytes) → Agrees (suffix_multiplier s) (suffix_to_multiplier s)
suffix_to_multiplier-Agrees s = elim (Option-cases (suffix_multiplier s)) [
  | inl e ↦ rw e (no_units_found s e)
  | inr (m, e) ↦ rw e (units_found s m e)
]
