-- ===== src/Marshaler/Keys.antt =====
-- internal/marshaler/marshal_sort_keys.go: the keys of a Go map in the order of their text.
pub mod Determinism
use gokdl.Base.{ℕ, Bool, true, false, ◌&&◌, ◌||◌, List, [], ◌∷◌, Bytes, ◌==◌, ltb, if◌then◌else◌}
use gokdl.Coerce.{Any, ValueLib}
use gokdl.Coerce.Strings.{to_string}

-- `<` on strings.
unfoldable pub less : Bytes → Bytes → Bool
less s [] = false
less [] (d ∷ t) = true
less (c ∷ s) (d ∷ t) = ltb c d || c == d && less s t

-- A key with its text in `ss`.
pub record Key : Type 0 where
  pub text : Bytes
  pub key : Any

-- `sort.SliceStable` by the texts: a key goes before those that are not less.
unfoldable pub insert_key : Key → List Key → List Key
unfolding less
insert_key x [] = x ∷ []
insert_key x (y ∷ ys) =
    let rest = insert_key x ys in if less y.text x.text then y ∷ rest else x ∷ y ∷ ys

unfoldable pub stable_sort : List Key → List Key
unfolding insert_key
stable_sort [] = []
stable_sort (x ∷ xs) = insert_key x (stable_sort xs)

unfoldable pub with_texts : ValueLib → List Any → List Key
unfolding to_string
with_texts lib [] = []
with_texts lib (v ∷ vs) = record { text = to_string lib v; key = v } ∷ with_texts lib vs

abbrev keys_of : List Key → List Any
keys_of [] = []
keys_of (x ∷ xs) = x.key ∷ keys_of xs

unfoldable pub sort_map_keys : ValueLib → List Any → List Any
unfolding with_texts stable_sort
sort_map_keys lib vs = keys_of (stable_sort (with_texts lib vs))
