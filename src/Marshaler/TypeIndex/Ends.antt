-- ===== src/Marshaler/TypeIndex/Ends.antt =====
-- internal/marshaler/typeindex.go: indexing a type ends, and leaves no type without its parts.
use gokdl.Base.{
  ℕ, zero, suc, ◌+◌, ◌*◌, ◌≤◌, ◌<◌, ◌≡◌, ◌∙◌, inl, inr, Bool, false, Bytes, bytes_eq, bytes_eq_iff,
  bytes_eq_refl, arith, Bool-cases,
}
use gokdl.Document.Properties.{insert}
use gokdl.Marshaler.TypeIndex.{
  Kind, TypeInfo, Index, Outcome, indexed, unexported_structure, no_fuel, is_pointer,
  index_contents, index_type, details_of,
}
use gokdl.Marshaler.TypeIndex.Growth.{knows, knows-insert, remaining, remaining-less}
use gokdl.Marshaler.TypeIndex.Closed.{Known, named, pointed, PartsKnown, Good}
use gokdl.Marshaler.TypeIndex.Contents.{TypeLaws, index_contents-Good}

product_less : (a b w : ℕ) → a < b → a * w + w ≤ b * w
product_less a b w l = grind arith

module _ (info : ℕ → TypeInfo) (to_lower trim_space : Bytes → Bytes) (case_sensitive : Bool) where
  abbrev Knows : Index → ℕ → Type 0
  Knows = Known info to_lower trim_space case_sensitive

  abbrev Parts : Index → TypeInfo → Kind → Type 0
  Parts = PartsKnown info to_lower trim_space case_sensitive

  abbrev Holds : Index → (Index → Type 0) → Outcome → Type 0
  Holds = Good info to_lower trim_space case_sensitive

  module _ (laws : TypeLaws info to_lower trim_space case_sensitive) where
    abbrev left : Index → ℕ
    left = remaining laws.names

    Good-map :
        (idx : Index) (P Q : Index → Type 0) (o : Outcome)
        → ((i : Index) → P i → Q i)
        → Holds idx P o
        → Holds idx Q o
    Good-map idx P Q (indexed i) f (g, c, p) = (g, c, f i p)
    Good-map idx P Q unexported_structure f h = tt
    Good-map idx P Q no_fuel f h = h

    -- The fuel that a call needs.
    abbrev pub needed : ℕ → Index → ℕ
    needed t idx = left idx * (laws.bound + 2) + laws.rank t + 1

    -- What the index holds behind the call for a new type.
    new_type-Good :
        (t : ℕ) (idx : Index) (o : Outcome)
        → is_pointer (info t).kind ≡ false
        → knows idx (info t).name ≡ false
        → Holds
            (insert (info t).name (details_of (info t)) idx)
            (λ i. Parts i (info t) (info t).kind)
            o
        → Holds idx (λ i. Knows i t) o
    new_type-Good t idx (indexed i) e k (g, c, p) =
        let name = (info t).name in
        let start = insert name (details_of (info t)) idx in
        (
          λ n x. g n (ground (arith, knows-insert name (details_of (info t)) idx n, x)),
          λ n x. elim (c n x) [
            | inl x' ↦ elim (Bool-cases (bytes_eq name n)) [
              | inl b ↦ inr (t, (bytes_eq_iff name n).0 b, p)
              | inr b ↦ inl (ground (arith, knows-insert name (details_of (info t)) idx n, x', b))
            ]
            | inr y ↦ inr y
          ],
          named e (
              g name (
                knows-insert name (details_of (info t)) idx name
                ∙ ground (arith, bytes_eq_refl name))),
        )
    new_type-Good t idx unexported_structure e k h = tt
    new_type-Good t idx no_fuel e k h = h

    left-insert :
        (t : ℕ) (idx : Index)
        → knows idx (info t).name ≡ false
        → left (insert (info t).name (details_of (info t)) idx) < left idx
    left-insert t idx k =
        let start = insert (info t).name (details_of (info t)) idx in
        remaining-less laws.names idx start (info t).name
          (λ n x. ground (arith, knows-insert (info t).name (details_of (info t)) idx n, x))
          (laws.all_names t) k
          (knows-insert (info t).name (details_of (info t)) idx (info t).name
            ∙ ground (arith, bytes_eq_refl (info t).name))

    fuel_left :
        (t u : ℕ) (idx i : Index) (fuel : ℕ)
        → needed t idx ≤ suc fuel
        → left i < left idx
        → needed u i ≤ fuel
    fuel_left t u idx i fuel h l =
        omega (arith, h, laws.rank_bound u, product_less (left i) (left idx) (laws.bound + 2) l)

    rank_left :
        (t : ℕ) (idx : Index) (fuel : ℕ) {m : ℕ}
        → needed t idx ≤ suc fuel
        → m < left idx
        → laws.rank t ≤ fuel
    rank_left t idx fuel h l = omega (arith, h)

    -- With the fuel that it needs `indexType` does not run out of it. It ends with the error of an
    -- unexported field for the structure, or with an index that keeps its names, holds the type, and
    -- holds the parts of each type that it gained. The types are as Go has them: finitely many names, no
    -- circle of pointers or of embedded structs.
    pub index_type-Good :
        (fuel t : ℕ) (idx : Index)
        → needed t idx ≤ fuel
        → Holds idx (λ i. Knows i t) (index_type info to_lower trim_space case_sensitive fuel t idx)
    unfolding index_type
    index_type-Good zero t idx h = absurd (omega (arith, h))
    index_type-Good (suc fuel) t idx h = elim (Bool-cases (is_pointer (info t).kind)) [
      | inl e ↦
          rw (index_type, e)
            (Good-map idx (λ i. Knows i (info t).elem) (λ i. Knows i t)
              (index_type info to_lower trim_space case_sensitive fuel (info t).elem idx)
              (λ i k. pointed e k)
              (index_type-Good fuel (info t).elem idx (omega (arith, h, laws.pointer_rank t e))))
      | inr e ↦ elim (Bool-cases (knows idx (info t).name)) [
        | inl k ↦ rw (index_type, e, k) (λ n x. x, λ n x. inl x, named e k)
        | inr k ↦
            let start = insert (info t).name (details_of (info t)) idx in
            let rec = index_type info to_lower trim_space case_sensitive fuel in
            rw (index_type, e, k)
              (new_type-Good t idx
                (index_contents info to_lower trim_space case_sensitive rec fuel (info t) start
                  (info t).kind)
                e k
                (index_contents-Good info to_lower trim_space case_sensitive laws (left idx) rec
                  fuel t start (info t).kind
                  (λ u i l. index_type-Good fuel u i (fuel_left t u idx i fuel h l))
                  (left-insert t idx k) (rank_left t idx fuel h (left-insert t idx k))))
      ]
    ]
