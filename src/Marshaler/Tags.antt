-- ===== src/Marshaler/Tags.antt =====
-- internal/marshaler/util.go and the attributes of typeindex.go: names and tags of struct fields.
-- `strings.TrimSpace` and `strings.ToLower` are parameters.
use gokdl.Base.{Bool, true, false, ◌||◌, List, [], ◌∷◌, Bytes, bytes_eq, codes, drop, if◌then◌else◌}
use gokdl.Go.Strings.{cut, split_at}

-- The tag is what `tag.Get("kdl")` gives: empty without one.
unfoldable pub field_attrs : Bytes → List Bytes
unfolding split_at
field_attrs [] = []
field_attrs (c ∷ tag) = drop 1 (split_at b',' (c ∷ tag))

-- `structFieldAttrs.Has`, `slices.Contains` and `inStrSlice`.
unfoldable pub has : List Bytes → Bytes → Bool
unfolding bytes_eq
has [] attr = false
has (v ∷ attrs) attr = if bytes_eq v attr then true else has attrs attr

unfoldable pub is_multiple : List Bytes → Bool
unfolding has
is_multiple attrs = has attrs (codes "multiple")

unfoldable pub is_capture : List Bytes → Bool
unfolding bytes_eq
is_capture [] = false
is_capture (v ∷ attrs) =
    if bytes_eq v (codes "arg")
      || bytes_eq v (codes "args")
      || bytes_eq v (codes "props")
      || bytes_eq v (codes "children")
    then true
    else is_capture attrs

module _ (to_lower trim_space : Bytes → Bytes) where
  unfoldable pub normalize_key : Bytes → Bool → Bytes
  normalize_key name case_sensitive =
      if case_sensitive then trim_space name else to_lower (trim_space name)

  -- `SplitN` with 2 gives what stands before the first comma.
  unfoldable pub parse_tag_name : Bytes → Bytes
  unfolding cut
  parse_tag_name tag = to_lower (cut b',' tag).0

  abbrev or_name : Bytes → Bytes → Bytes
  or_name [] normalized = normalized
  or_name (c ∷ s) normalized = c ∷ s

  unfoldable pub field_tag_or_name : Bytes → Bytes → Bool → Bytes
  unfolding parse_tag_name normalize_key
  field_tag_or_name [] name case_sensitive = normalize_key name case_sensitive
  field_tag_or_name (c ∷ tag) name case_sensitive =
      or_name (parse_tag_name (c ∷ tag)) (normalize_key name case_sensitive)
