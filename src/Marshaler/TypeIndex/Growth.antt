-- ===== src/Marshaler/TypeIndex/Growth.antt =====
-- internal/marshaler/typeindex.go: how an index grows while types are indexed.
use gokdl.Base.{
  ℕ, suc, ◌≤◌, ◌<◌, ◌≡◌, refl, ◌∙◌, ap, inl, inr, Bool, true, false, List, [], ◌∷◌, Bytes, bytes_eq,
  bytes_eq_iff, arith, Bool-cases, Option-cases, if◌then◌else◌,
}
use gokdl.Document.Properties.{lookup, insert, exists}
use gokdl.Document.Properties.Order.{lookup-insert, listed}
use gokdl.Marshaler.TypeIndex.{TypeDetails, Index, update}

abbrev pub knows : Index → Bytes → Bool
knows idx name = exists (lookup name idx)

pub knows-insert :
    (k : Bytes) (d : TypeDetails) (idx : Index) (name : Bytes)
    → knows (insert k d idx) name ≡ (if bytes_eq k name then true else knows idx name)
knows-insert k d idx name = ap exists (lookup-insert k name d idx) ∙ ground arith

knows-insert_known :
    (k : Bytes) (d : TypeDetails) (idx : Index) (name : Bytes)
    → knows idx k ≡ true
    → knows (insert k d idx) name ≡ knows idx name
knows-insert_known k d idx name h = elim (Bool-cases (bytes_eq k name)) [
  | inl e ↦
      ground (arith, knows-insert k d idx name, e, h, ap (knows idx) ((bytes_eq_iff k name).0 e))
  | inr e ↦ ground (arith, knows-insert k d idx name, e)
]

pub knows-update :
    (k : Bytes) (g : TypeDetails → TypeDetails) (idx : Index) (name : Bytes)
    → knows (update k g idx) name ≡ knows idx name
unfolding update
knows-update k g idx name = elim (Option-cases (lookup k idx)) [
  | inl e ↦ rw (update, e) refl
  | inr (d, e) ↦ rw (update, e) (knows-insert_known k (g d) idx name (ap exists e))
]

abbrev pub Grows : Index → Index → Type 0
Grows idx idx' = (name : Bytes) → knows idx name ≡ true → knows idx' name ≡ true

-- The names of a finite list that are not in the index.
abbrev pub remaining : List Bytes → Index → ℕ
remaining [] idx = 0
remaining (n ∷ ns) idx = let rest = remaining ns idx in if knows idx n then rest else suc rest

pub remaining-Grows :
    (ns : List Bytes) (idx idx' : Index) → Grows idx idx' → remaining ns idx' ≤ remaining ns idx
remaining-Grows [] idx idx' g = omega arith
remaining-Grows (n ∷ ns) idx idx' g = ground (arith, g n, remaining-Grows ns idx idx' g)

pub remaining-less :
    (ns : List Bytes) (idx idx' : Index) (n : Bytes)
    → Grows idx idx'
    → listed n ns ≡ true
    → knows idx n ≡ false
    → knows idx' n ≡ true
    → remaining ns idx' < remaining ns idx
remaining-less [] idx idx' n g l k k' = absurd (ground (arith, l))
remaining-less (m ∷ ns) idx idx' n g l k k' = elim (Bool-cases (bytes_eq m n)) [
  | inl e ↦ ground (
    arith,
    ap (knows idx) ((bytes_eq_iff m n).0 e),
    ap (knows idx') ((bytes_eq_iff m n).0 e),
    k,
    k',
    remaining-Grows ns idx idx' g,
  )
  | inr e ↦ ground (arith, e, l, g m, remaining-less ns idx idx' n g (ground (arith, e, l)) k k')
]
