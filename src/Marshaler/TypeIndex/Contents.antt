-- ===== src/Marshaler/TypeIndex/Contents.antt =====
-- internal/marshaler/typeindex.go: indexing the fields of a structure, or what a type is made of.
use gokdl.Base.{
  ℕ, zero, suc, ◌≤◌, ◌<◌, ◌≡◌, refl, sym, ◌∙◌, ◌⊎◌, inl, inr, Bool, true, false, not, ◌&&◌, List,
  [], ◌∷◌, ◌++◌, some, All, Bytes, arith, Bool-cases, if◌then◌else◌,
}
use gokdl.Document.Properties.Order.{listed}
use gokdl.Marshaler.TypeIndex.{
  Kind, pointer, map_kind, struct, sequence, other_kind, Field, TypeInfo, Index, Outcome, indexed,
  unexported_structure, no_fuel, update, is_pointer, index_field, index_struct_fields,
  index_contents, field_details, add_attrs, add_field,
}
use gokdl.Marshaler.Tags.{field_tag_or_name}
use gokdl.Marshaler.TypeIndex.Growth.{knows, knows-update, Grows, remaining, remaining-Grows}
use gokdl.Marshaler.TypeIndex.Closed.{
  Known, FieldsKnown, no_fields, inner, left_out, typed, PartsKnown, Good, is_embedded,
  is_structured, Known-Grows, FieldsKnown-Grows, and_then-Good, Good-same,
}

module _ (info : ℕ → TypeInfo) (to_lower trim_space : Bytes → Bytes) (case_sensitive : Bool) where
  abbrev embeds : Field → Bool
  embeds = is_embedded info to_lower trim_space case_sensitive

  abbrev structures : Field → Bool
  structures = is_structured info to_lower trim_space case_sensitive

  abbrev Knows : Index → ℕ → Type 0
  Knows = Known info to_lower trim_space case_sensitive

  abbrev Fields : Index → List Field → Type 0
  Fields = FieldsKnown info to_lower trim_space case_sensitive

  abbrev Parts : Index → TypeInfo → Kind → Type 0
  Parts = PartsKnown info to_lower trim_space case_sensitive

  abbrev Holds : Index → (Index → Type 0) → Outcome → Type 0
  Holds = Good info to_lower trim_space case_sensitive

  -- What Go has of its types: finitely many in a program, embedded structs and pointers without a circle.
  pub record TypeLaws : Type 0 where
    pub names : List Bytes
    pub all_names : (t : ℕ) → listed (info t).name names ≡ true
    pub rank : ℕ → ℕ
    pub bound : ℕ
    pub rank_bound : (t : ℕ) → rank t ≤ bound
    pub pointer_rank : (t : ℕ) → is_pointer (info t).kind ≡ true → rank (info t).elem < rank t
    pub embedded_rank :
        (t : ℕ) → All (λ f. embeds f ≡ true → rank f.field_type < rank t) (info t).fields

  module _ (laws : TypeLaws) where
    abbrev left : Index → ℕ
    left = remaining laws.names

    -- What the recursive calls do, on an index that lacks fewer names.
    abbrev Recursive : ℕ → (ℕ → Index → Outcome) → Type 0
    Recursive r rec = (t : ℕ) (idx : Index) → left idx < r → Holds idx (λ i. Knows i t) (rec t idx)

    abbrev FieldKnown : Field → Index → Type 0
    FieldKnown f idx = Knows idx f.field_type ⊎ (f.exported && not (structures f) ≡ false)

    same-Grows :
        (idx idx' : Index) → ((n : Bytes) → knows idx' n ≡ knows idx n) → left idx' ≤ left idx
    same-Grows idx idx' s = remaining-Grows laws.names idx idx' (λ n e. s n ∙ e)

    field_branch-Good :
        (f : Field) (x s : Bool) (idx a : Index) (o : Outcome)
        → ((n : Bytes) → knows a n ≡ knows idx n)
        → Holds idx (λ i. Knows i f.field_type) o
        → Holds idx
            (λ i. Knows i f.field_type ⊎ (x && not s ≡ false))
            (if x
              then if s then indexed a else o
              else if s
              then unexported_structure
              else indexed idx)
    field_branch-Good f true true idx a o e h =
        (λ n k. e n ∙ k, λ n k. inl (sym (e n) ∙ k), inr refl)
    field_branch-Good f true false idx a (indexed i) e (g, c, p) = (g, c, inl p)
    field_branch-Good f true false idx a unexported_structure e h = tt
    field_branch-Good f true false idx a no_fuel e h = h
    field_branch-Good f false true idx a o e h = tt
    field_branch-Good f false false idx a o e h = (λ n k. k, λ n k. inl k, inr refl)

    index_field-Good :
        (r : ℕ) (rec : ℕ → Index → Outcome) (owner : Bytes) (embed : List ℕ) (n : ℕ) (f : Field)
        (idx : Index)
        → Recursive r rec
        → left idx < r
        → Holds idx
            (FieldKnown f)
            (index_field info to_lower trim_space case_sensitive rec owner embed n f idx)
    unfolding index_field
    index_field-Good r rec owner embed n f idx h l =
        let fld = field_details info to_lower trim_space case_sensitive f embed n in
        let known = update owner (add_attrs fld.attrs fld) idx in
        let holder = update owner (λ d. record d { structure_struct_field = some fld }) known in
        let name = field_tag_or_name to_lower trim_space f.tag f.name case_sensitive in
        let full = update owner (add_field name fld) known in
        let same : (m : Bytes) → knows full m ≡ knows idx m = λ m.
          knows-update owner (add_field name fld) known m
          ∙ knows-update owner (add_attrs fld.attrs fld) idx m in
        field_branch-Good f f.exported (structures f) idx holder (rec f.field_type full)
          (λ m.
            knows-update owner (λ d. record d { structure_struct_field = some fld }) known m
            ∙ knows-update owner (add_attrs fld.attrs fld) idx m)
          (Good-same info to_lower trim_space case_sensitive idx full (λ i. Knows i f.field_type)
            (rec f.field_type full) same
            (h f.field_type full (omega (arith, l, same-Grows idx full same))))

    abbrev RankedBelow : ℕ → List Field → Type 0
    RankedBelow d fs = All (λ f. embeds f ≡ true → laws.rank f.field_type < d) fs

    RankedBelow-weaken : (a b : ℕ) (fs : List Field) → a ≤ b → RankedBelow a fs → RankedBelow b fs
    RankedBelow-weaken a b [] l h = tt
    RankedBelow-weaken a b (f ∷ fs) l h =
        (λ e. omega (arith, l, h.0 e), RankedBelow-weaken a b fs l h.1)

    add-FieldKnown :
        (f : Field) (fs : List Field) (idx idx' : Index)
        → Grows idx idx'
        → FieldKnown f idx
        → Fields idx' fs
        → Fields idx' (f ∷ fs)
    add-FieldKnown f fs idx idx' g (inl k) h =
        typed (Known-Grows info to_lower trim_space case_sensitive idx idx' f.field_type g k) h
    add-FieldKnown f fs idx idx' g (inr e) h = left_out e h

    index_struct_fields-Good :
        (r : ℕ) (rec : ℕ → Index → Outcome) (depth : ℕ) (owner : Bytes) (embed : List ℕ) (n : ℕ)
        (fs : List Field) (idx : Index)
        → Recursive r rec
        → left idx < r
        → RankedBelow depth fs
        → Holds idx
            (λ i. Fields i fs)
            (index_struct_fields info to_lower trim_space case_sensitive rec depth owner embed n fs
              idx)
    unfolding index_struct_fields
    index_struct_fields-Good r rec depth owner embed n [] idx h l b =
        (λ m e. e, λ m e. inl e, no_fields)
    index_struct_fields-Good r rec zero owner embed n (f ∷ fs) idx h l b =
        elim (Bool-cases (embeds f)) [
          | inl e ↦ absurd (omega (arith, b.0 e))
          | inr e ↦
              rw (index_struct_fields, e)
                (and_then-Good info to_lower trim_space case_sensitive idx (FieldKnown f)
                  (λ i. Fields i fs) (λ i. Fields i (f ∷ fs))
                  (index_field info to_lower trim_space case_sensitive rec owner embed n f idx)
                  (index_struct_fields info to_lower trim_space case_sensitive rec zero owner embed
                    (suc n) fs)
                  (index_field-Good r rec owner embed n f idx h l)
                  (λ i g p.
                    index_struct_fields-Good r rec zero owner embed (suc n) fs i h
                      (omega (arith, l, remaining-Grows laws.names idx i g)) b.1)
                  (add-FieldKnown f fs))
        ]
    index_struct_fields-Good r rec (suc depth) owner embed n (f ∷ fs) idx h l b =
        elim (Bool-cases (embeds f)) [
          | inl e ↦
              rw (index_struct_fields, e)
                (and_then-Good info to_lower trim_space case_sensitive idx
                  (λ i. Fields i (info f.field_type).fields) (λ i. Fields i fs)
                  (λ i. Fields i (f ∷ fs))
                  (index_struct_fields info to_lower trim_space case_sensitive rec depth owner
                    (embed ++ n ∷ []) 0 (info f.field_type).fields idx)
                  (index_struct_fields info to_lower trim_space case_sensitive rec (suc depth) owner
                    embed (suc n) fs)
                  (index_struct_fields-Good r rec depth owner (embed ++ n ∷ []) 0
                    (info f.field_type).fields idx h l
                    (RankedBelow-weaken (laws.rank f.field_type) depth (info f.field_type).fields
                      (omega (arith, b.0 e)) (laws.embedded_rank f.field_type)))
                  (λ i g p.
                    index_struct_fields-Good r rec (suc depth) owner embed (suc n) fs i h
                      (omega (arith, l, remaining-Grows laws.names idx i g)) b.1)
                  (λ i i' g p q.
                    inner e
                      (FieldsKnown-Grows info to_lower trim_space case_sensitive i i'
                        (info f.field_type).fields g p)
                      q))
          | inr e ↦
              rw (index_struct_fields, e)
                (and_then-Good info to_lower trim_space case_sensitive idx (FieldKnown f)
                  (λ i. Fields i fs) (λ i. Fields i (f ∷ fs))
                  (index_field info to_lower trim_space case_sensitive rec owner embed n f idx)
                  (index_struct_fields info to_lower trim_space case_sensitive rec (suc depth) owner
                    embed (suc n) fs)
                  (index_field-Good r rec owner embed n f idx h l)
                  (λ i g p.
                    index_struct_fields-Good r rec (suc depth) owner embed (suc n) fs i h
                      (omega (arith, l, remaining-Grows laws.names idx i g)) b.1)
                  (add-FieldKnown f fs))
        ]

    pub index_contents-Good :
        (r : ℕ) (rec : ℕ → Index → Outcome) (depth t : ℕ) (idx : Index) (k : Kind)
        → Recursive r rec
        → left idx < r
        → laws.rank t ≤ depth
        → Holds idx
            (λ i. Parts i (info t) k)
            (index_contents info to_lower trim_space case_sensitive rec depth (info t) idx k)
    unfolding index_contents
    index_contents-Good r rec depth t idx map_kind h l b =
        and_then-Good info to_lower trim_space case_sensitive idx (λ i. Knows i (info t).key)
          (λ i. Knows i (info t).elem) (λ i. Parts i (info t) map_kind) (rec (info t).key idx)
          (rec (info t).elem) (h (info t).key idx l)
          (λ i g p. h (info t).elem i (omega (arith, l, remaining-Grows laws.names idx i g)))
          (λ i i' g p q.
            (Known-Grows info to_lower trim_space case_sensitive i i' (info t).key g p, q))
    index_contents-Good r rec depth t idx struct h l b =
        index_struct_fields-Good r rec depth (info t).name [] 0 (info t).fields idx h l
          (RankedBelow-weaken (laws.rank t) depth (info t).fields b (laws.embedded_rank t))
    index_contents-Good r rec depth t idx sequence h l b = h (info t).elem idx l
    index_contents-Good r rec depth t idx pointer h l b = (λ n e. e, λ n e. inl e, tt)
    index_contents-Good r rec depth t idx other_kind h l b = (λ n e. e, λ n e. inl e, tt)
