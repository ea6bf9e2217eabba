-- ===== src/Document/Properties.antt =====
-- document/properties.go: the ordered properties of a node. The Go map is an association list.
pub mod Order
use gokdl.Base.{
  ℕ, ◌<◌, Bool, true, false, ◌&&◌, List, [], ◌∷◌, ◌++◌, Option, none, some, Bytes, bytes_eq, length,
  ltb, if◌then◌else◌,
}

module _ {V : Type 0} where
  -- `props[key]`.
  unfoldable pub lookup : Bytes → List (Bytes × V) → Option V
  unfolding bytes_eq
  lookup k [] = none
  lookup k ((j, v) ∷ m) = if bytes_eq j k then some v else lookup k m

  -- `props[key] = v`.
  unfoldable pub insert : Bytes → V → List (Bytes × V) → List (Bytes × V)
  unfolding bytes_eq
  insert k v [] = (k, v) ∷ []
  insert k v ((j, w) ∷ m) = if bytes_eq j k then (k, v) ∷ m else (j, w) ∷ insert k v m

  abbrev pub exists : Option V → Bool
  exists none = false
  exists (some _) = true

-- `allocated` is whether `order` is not nil.
pub record Properties (V : Type 0) : Type 0 where
  pub allocated : Bool
  pub order : List Bytes
  pub props : List (Bytes × V)

module _ {V : Type 0} where
  -- The zero value.
  abbrev pub no_properties : Properties V
  no_properties = record { allocated = false; order = []; props = [] }

  unfoldable pub alloc : Properties V → Properties V
  alloc p = record { allocated = true; order = []; props = [] }

  unfoldable pub get : Properties V → Bytes → Option V
  unfolding lookup
  get p key = lookup key p.props

  unfoldable pub len : Properties V → ℕ
  len p = length p.order

  -- `Add`, on allocated properties: a nil map would panic.
  unfoldable pub add : Bytes → V → Properties V → Properties V
  unfolding lookup insert
  add name v p = record {
    allocated = p.allocated;
    order = if exists (lookup name p.props) then p.order else p.order ++ name ∷ [];
    props = insert name v p.props;
  }

  unfoldable pub exist : Properties V → Bool
  exist p = ltb 0 (length p.order)
