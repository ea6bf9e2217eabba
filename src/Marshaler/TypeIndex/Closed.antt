-- ===== src/Marshaler/TypeIndex/Closed.antt =====
-- internal/marshaler/typeindex.go: an index that holds the parts of what it gained.
use gokdl.Base.{ℕ, ◌≡◌, sym, ◌∙◌, ◌⊎◌, inl, inr, Bool, true, false, not, ◌&&◌, List, [], ◌∷◌, Bytes}
use gokdl.Marshaler.TypeIndex.{
  Kind, pointer, map_kind, struct, sequence, other_kind, Field, TypeInfo, Index, Outcome, indexed,
  unexported_structure, no_fuel, and_then, is_pointer, embedded, is_structure,
}
use gokdl.Marshaler.TypeIndex.Growth.{knows, Grows}

module _ (info : ℕ → TypeInfo) (to_lower trim_space : Bytes → Bytes) (case_sensitive : Bool) where
  abbrev pub is_embedded : Field → Bool
  is_embedded = embedded info to_lower trim_space case_sensitive

  abbrev pub is_structured : Field → Bool
  is_structured = is_structure info to_lower trim_space case_sensitive

  -- The type, or what its pointers lead to, is in the index.
  pub data Known (idx : Index) : ℕ → Type 0 where
    named :
        {t : ℕ} → is_pointer (info t).kind ≡ false → knows idx (info t).name ≡ true → Known idx t
    pointed : {t : ℕ} → is_pointer (info t).kind ≡ true → Known idx (info t).elem → Known idx t

  -- The types of the fields are in the index, those of the embedded structs' fields too. Fields that are
  -- not exported or hold the structure are left out.
  pub data FieldsKnown (idx : Index) : List Field → Type 0 where
    no_fields : FieldsKnown idx []
    inner :
        {f : Field} {fs : List Field}
        → is_embedded f ≡ true
        → FieldsKnown idx (info f.field_type).fields
        → FieldsKnown idx fs
        → FieldsKnown idx (f ∷ fs)
    left_out :
        {f : Field} {fs : List Field}
        → f.exported && not (is_structured f) ≡ false
        → FieldsKnown idx fs
        → FieldsKnown idx (f ∷ fs)
    typed :
        {f : Field} {fs : List Field}
        → Known idx f.field_type
        → FieldsKnown idx fs
        → FieldsKnown idx (f ∷ fs)

  abbrev pub PartsKnown : Index → TypeInfo → Kind → Type 0
  PartsKnown idx i map_kind = Known idx i.key × Known idx i.elem
  PartsKnown idx i struct = FieldsKnown idx i.fields
  PartsKnown idx i sequence = Known idx i.elem
  PartsKnown idx i pointer = Unit
  PartsKnown idx i other_kind = Unit

  pub Known-Grows : (idx idx' : Index) (t : ℕ) → Grows idx idx' → Known idx t → Known idx' t
  Known-Grows idx idx' t g (named k h) = named k (g (info t).name h)
  Known-Grows idx idx' t g (pointed k h) = pointed k (Known-Grows idx idx' (info t).elem g h)

  pub FieldsKnown-Grows :
      (idx idx' : Index) (fs : List Field)
      → Grows idx idx'
      → FieldsKnown idx fs
      → FieldsKnown idx' fs
  FieldsKnown-Grows idx idx' [] g no_fields = no_fields
  FieldsKnown-Grows idx idx' (f ∷ fs) g (inner e h k) =
      inner e (FieldsKnown-Grows idx idx' (info f.field_type).fields g h)
        (FieldsKnown-Grows idx idx' fs g k)
  FieldsKnown-Grows idx idx' (f ∷ fs) g (left_out e k) =
      left_out e (FieldsKnown-Grows idx idx' fs g k)
  FieldsKnown-Grows idx idx' (f ∷ fs) g (typed h k) =
      typed (Known-Grows idx idx' f.field_type g h) (FieldsKnown-Grows idx idx' fs g k)

  PartsKnown-Grows :
      (idx idx' : Index) (i : TypeInfo) (k : Kind)
      → Grows idx idx'
      → PartsKnown idx i k
      → PartsKnown idx' i k
  PartsKnown-Grows idx idx' i map_kind g h =
      (Known-Grows idx idx' i.key g h.0, Known-Grows idx idx' i.elem g h.1)
  PartsKnown-Grows idx idx' i struct g h = FieldsKnown-Grows idx idx' i.fields g h
  PartsKnown-Grows idx idx' i sequence g h = Known-Grows idx idx' i.elem g h
  PartsKnown-Grows idx idx' i pointer g h = tt
  PartsKnown-Grows idx idx' i other_kind g h = tt

  -- A name in the second index is in the first, or that of a type whose parts are in the second.
  abbrev pub Closes : Index → Index → Type 0
  Closes idx idx' =
      (name : Bytes)
      → knows idx' name ≡ true
      → (knows idx name ≡ true)
        ⊎ ((t : ℕ) × ((info t).name ≡ name) × PartsKnown idx' (info t) (info t).kind)

  -- The index grows, its new types come with their parts, and something holds of it; or the error.
  abbrev pub Good : Index → (Index → Type 0) → Outcome → Type 0
  Good idx P (indexed idx') = Grows idx idx' × Closes idx idx' × P idx'
  Good idx P unexported_structure = Unit
  Good idx P no_fuel = ⊥

  Closes-trans : (a b c : Index) → Grows b c → Closes a b → Closes b c → Closes a c
  Closes-trans a b c g h k name e = elim (k name e) [
    | inl e' ↦ elim (h name e') [
      | inl e'' ↦ inl e''
      | inr (t, n, p) ↦ inr (t, n, PartsKnown-Grows b c (info t) (info t).kind g p)
    ]
    | inr x ↦ inr x
  ]

  pub and_then-Good :
      (idx : Index) (P Q R : Index → Type 0) (o : Outcome) (f : Index → Outcome)
      → Good idx P o
      → ((idx' : Index) → Grows idx idx' → P idx' → Good idx' Q (f idx'))
      → ((idx' idx'' : Index) → Grows idx' idx'' → P idx' → Q idx'' → R idx'')
      → Good idx R (and_then o f)
  and_then-Good idx P Q R (indexed idx') f (g, c, p) h r = after (f idx') (h idx' g p)
    where
      after : (o : Outcome) → Good idx' Q o → Good idx R o
      after (indexed idx'') (g', c', q) =
          (λ n e. g' n (g n e), Closes-trans idx idx' idx'' g' c c', r idx' idx'' g' p q)
      after unexported_structure x = tt
      after no_fuel x = x
  and_then-Good idx P Q R unexported_structure f g h r = tt
  and_then-Good idx P Q R no_fuel f g h r = g

  -- An index that holds the same names.
  pub Good-same :
      (idx idx' : Index) (P : Index → Type 0) (o : Outcome)
      → ((name : Bytes) → knows idx' name ≡ knows idx name)
      → Good idx' P o
      → Good idx P o
  Good-same idx idx' P (indexed i) s (g, c, p) = (
    λ n e. g n (s n ∙ e),
    λ n e. elim (c n e) [ inl e' ↦ inl (sym (s n) ∙ e') | inr x ↦ inr x ],
    p,
  )
  Good-same idx idx' P unexported_structure s h = tt
  Good-same idx idx' P no_fuel s h = h
