-- ===== src/Document/Properties/Order.antt =====
-- document/properties.go: the order of the properties is that in which their names were first added.
use gokdl.Base.{
  ◌≡◌, refl, Bool, true, false, not, ◌&&◌, List, [], ◌∷◌, ◌++◌, some, Bytes, bytes_eq, bytes_eq_iff,
  arith, if◌then◌else◌, ap, ◌∙◌,
}
use gokdl.Document.Properties.{Properties, lookup, insert, exists, add, get, no_properties}

-- A key is among the names.
abbrev pub listed : Bytes → List Bytes → Bool
listed k [] = false
listed k (j ∷ js) = if bytes_eq j k then true else listed k js

-- No name stands twice.
abbrev pub distinct : List Bytes → Bool
distinct [] = true
distinct (k ∷ ks) = not (listed k ks) && distinct ks

listed-append :
    (k j : Bytes) (ks : List Bytes)
    → listed k (ks ++ j ∷ []) ≡ (if bytes_eq j k then true else listed k ks)
listed-append k j [] = refl
listed-append k j (i ∷ ks) = ground (arith, listed-append k j ks)

distinct-append :
    (j : Bytes) (ks : List Bytes)
    → distinct ks ≡ true
    → listed j ks ≡ false
    → distinct (ks ++ j ∷ []) ≡ true
distinct-append j [] d n = refl
distinct-append j (i ∷ ks) d n =
    ground (arith, distinct-append j ks, listed-append i j ks, bytes_eq_iff i j, bytes_eq_iff j i)

module _ {V : Type 0} where
  pub lookup-insert :
      (k j : Bytes) (v : V) (m : List (Bytes × V))
      → lookup j (insert k v m) ≡ (if bytes_eq k j then some v else lookup j m)
  unfolding lookup insert
  lookup-insert k j v [] = refl
  lookup-insert k j v ((i, w) ∷ m) =
      ground (arith, bytes_eq_iff k j, bytes_eq_iff i k, bytes_eq_iff i j, lookup-insert k j v m)

  -- The order names each key of the map once, and no other.
  pub record IsValid (p : Properties V) : Type 0 where
    pub once : distinct p.order ≡ true
    pub keys : (k : Bytes) → listed k p.order ≡ exists (lookup k p.props)

  pub no_properties-IsValid : IsValid no_properties
  unfolding lookup
  no_properties-IsValid = record { once = refl; keys = λ k. refl }

  add_keys :
      (name : Bytes) (v : V) (p : Properties V)
      → IsValid p
      → (k : Bytes) → listed k (add name v p).order ≡ exists (lookup k (add name v p).props)
  unfolding add
  add_keys name v p h k = ground (
    arith,
    lookup-insert name k v p.props,
    listed-append k name p.order,
    h.keys k,
    h.keys name,
    bytes_eq_iff name k,
  )

  -- Where the order names each key of the map once and no other, it does so behind `Add`.
  pub add-IsValid : (name : Bytes) (v : V) (p : Properties V) → IsValid p → IsValid (add name v p)
  unfolding add
  add-IsValid name v p h = record {
    once = ground (arith, distinct-append name p.order, h.keys name, h.once);
    keys = add_keys name v p h;
  }

  -- `Get` behind `Add`: the new value under the name, and what was there under any other.
  pub get-add :
      (name k : Bytes) (v : V) (p : Properties V)
      → get (add name v p) k ≡ (if bytes_eq name k then some v else get p k)
  unfolding get add
  get-add name k v p = lookup-insert name k v p.props

  -- The names: a new one goes to the end, a known one leaves the order as it is.
  pub order-add :
      (name : Bytes) (v : V) (p : Properties V)
      → IsValid p
      → (add name v p).order ≡ (if listed name p.order then p.order else p.order ++ name ∷ [])
  unfolding add
  order-add name v p h = ground (arith, h.keys name)

  -- Adding a list of pairs.
  pub add_all : List (Bytes × V) → Properties V → Properties V
  add_all [] p = p
  add_all ((k, v) ∷ m) p = add_all m (add k v p)

  -- The names in the order of their first occurrence, behind those already there.
  pub first_occurrences : List Bytes → List (Bytes × V) → List Bytes
  first_occurrences ks [] = ks
  first_occurrences ks ((k, v) ∷ m) = first_occurrences (if listed k ks then ks else ks ++ k ∷ []) m

  -- From properties whose order names each key of the map once and no other: however often names are
  -- added, those that are new stand behind the old ones in the order of their first occurrences.
  pub order-add_all :
      (m : List (Bytes × V)) (p : Properties V)
      → IsValid p
      → (add_all m p).order ≡ first_occurrences p.order m
  unfolding add_all first_occurrences
  order-add_all [] p h = refl
  order-add_all ((k, v) ∷ m) p h =
      order-add_all m (add k v p) (add-IsValid k v p h)
      ∙ ap (λ ks. first_occurrences ks m) (order-add k v p h)
