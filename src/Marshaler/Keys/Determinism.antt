-- ===== src/Marshaler/Keys/Determinism.antt =====
-- internal/marshaler/marshal_sort_keys.go: the order in which a map gives its keys does not matter.
use gokdl.Base.{◌≡◌, refl, ap, ◌∙◌, Bool, true, false, not, ◌&&◌, ◌||◌, List, [], ◌∷◌, Bytes, arith}
use gokdl.Coerce.{Any, ValueLib}
use gokdl.Coerce.Strings.{to_string}
use gokdl.Marshaler.Keys.{less, Key, insert_key, stable_sort, with_texts, sort_map_keys, keys_of}

less_irreflexive : (s : Bytes) → less s s ≡ false
unfolding less
less_irreflexive [] = refl
less_irreflexive (c ∷ s) = ground (arith, less_irreflexive s)

less_asymmetric : (s t : Bytes) → less s t ≡ true → less t s ≡ false
unfolding less
less_asymmetric s [] h = ground (arith, h)
less_asymmetric [] (d ∷ t) h = refl
less_asymmetric (c ∷ s) (d ∷ t) h = ground (arith, less_asymmetric s t)

less_transitive : (s t u : Bytes) → less s t ≡ true → less t u ≡ true → less s u ≡ true
unfolding less
less_transitive s t [] h k = ground (arith, k)
less_transitive s [] (e ∷ u) h k = ground (arith, h)
less_transitive [] (d ∷ t) (e ∷ u) h k = refl
less_transitive (c ∷ s) (d ∷ t) (e ∷ u) h k = ground (arith, less_transitive s t u)

less_total : (s t : Bytes) → less s t ≡ false → less t s ≡ false → s ≡ t
unfolding less
less_total [] [] h k = refl
less_total [] (d ∷ t) h k = absurd (ground (arith, h))
less_total (c ∷ s) [] h k = absurd (ground (arith, k))
less_total (c ∷ s) (d ∷ t) h k = ground (arith, less_total s t)

-- Two texts one of which is less.
abbrev pub differ : Bytes → Bytes → Bool
differ s t = less s t || less t s

insert_key_comm :
    (x y : Key) (l : List Key)
    → differ x.text y.text ≡ true
    → insert_key x (insert_key y l) ≡ insert_key y (insert_key x l)
unfolding insert_key
insert_key_comm x y [] h =
    ground (arith, h, less_asymmetric x.text y.text, less_asymmetric y.text x.text)
insert_key_comm x y (z ∷ l) h = ground (
  arith,
  h,
  less_asymmetric x.text y.text,
  less_asymmetric y.text x.text,
  less_transitive z.text x.text y.text,
  less_transitive z.text y.text x.text,
  insert_key_comm x y l h,
)

module _ (lib : ValueLib) where
  -- Other orders of the same keys: neighbours change places if their texts differ.
  pub data Reordered : List Any → List Any → Type 0 where
    same : {vs : List Any} → Reordered vs vs
    behind : {v : Any} {vs ws : List Any} → Reordered vs ws → Reordered (v ∷ vs) (v ∷ ws)
    swapped :
        {v w : Any} {vs : List Any}
        → differ (to_string lib v) (to_string lib w) ≡ true
        → Reordered (v ∷ w ∷ vs) (w ∷ v ∷ vs)
    both : {us vs ws : List Any} → Reordered us vs → Reordered vs ws → Reordered us ws

  sorted_alike :
      {vs ws : List Any}
      → Reordered vs ws
      → stable_sort (with_texts lib vs) ≡ stable_sort (with_texts lib ws)
  unfolding stable_sort with_texts
  sorted_alike same = refl
  sorted_alike (behind {v} r) =
      ap (insert_key (record { text = to_string lib v; key = v })) (sorted_alike r)
  sorted_alike (swapped {v} {w} {vs} d) =
      insert_key_comm (record { text = to_string lib v; key = v })
        (record { text = to_string lib w; key = w }) (stable_sort (with_texts lib vs)) d
  sorted_alike (both r s) = sorted_alike r ∙ sorted_alike s

  -- The sorted keys are the same in whatever order the map gives the keys, if keys of the same text keep
  -- their places among each other.
  pub sort_map_keys-Reordered :
      {vs ws : List Any} → Reordered vs ws → sort_map_keys lib vs ≡ sort_map_keys lib ws
  unfolding sort_map_keys
  sort_map_keys-Reordered r = ap keys_of (sorted_alike r)

-- Each key's text is not greater than the next one's.
abbrev pub ascending : List Key → Bool
ascending [] = true
ascending (x ∷ []) = true
ascending (x ∷ y ∷ ys) = not (less y.text x.text) && ascending (y ∷ ys)

insert_key-ascending :
    (x : Key) (ys : List Key) → ascending ys ≡ true → ascending (insert_key x ys) ≡ true
unfolding insert_key
insert_key-ascending x [] h = refl
insert_key-ascending x (y ∷ []) h = ground (arith, less_asymmetric y.text x.text)
insert_key-ascending x (y ∷ z ∷ zs) h =
    ground (arith, less_asymmetric y.text x.text, insert_key-ascending x (z ∷ zs))

pub stable_sort-ascending : (xs : List Key) → ascending (stable_sort xs) ≡ true
unfolding stable_sort
stable_sort-ascending [] = refl
stable_sort-ascending (x ∷ xs) = insert_key-ascending x (stable_sort xs) (stable_sort-ascending xs)
