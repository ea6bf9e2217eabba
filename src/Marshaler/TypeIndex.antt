-- ===== src/Marshaler/TypeIndex.antt =====
-- internal/marshaler/typeindex.go: the index of the types that a value may hold. A `reflect.Type` is a
-- number; what package reflect says of it, and which custom functions are registered, is a parameter.
pub mod Growth
pub mod Closed
pub mod Contents
pub mod Ends
use Prim.Native.Nat.{bit_or}
use gokdl.Document.Flag
use gokdl.Base.{
  ℕ, zero, suc, ◌+◌, Bool, true, false, ◌&&◌, ◌||◌, List, [], ◌∷◌, ◌++◌, Option, none, some, Bytes,
  bytes_eq, codes, drop, length, ◌==◌, if◌then◌else◌,
}
use gokdl.Document.Properties.{lookup, insert, exists}
use gokdl.Go.Strings.{has_prefix}
use gokdl.Marshaler.Tags.{field_attrs, has, field_tag_or_name}

-- The kinds that are told apart; `sequence` is a slice or an array.
pub data Kind : Type 0 where
  pointer map_kind struct sequence other_kind : Kind

-- `reflect.StructField`; the tag is that of "kdl".
pub record Field : Type 0 where
  pub name : Bytes
  pub field_type : ℕ
  pub anonymous : Bool
  pub exported : Bool
  pub tag : Bytes

-- A method of the pointer to the type, and whether its interface is satisfied.
pub record Method : Type 0 where
  pub name : Bytes
  pub satisfied : Bool

-- For a type, whether each of the four maps of custom functions has it.
pub record Registered : Type 0 where
  pub unmarshaler : Bool
  pub value_unmarshaler : Bool
  pub marshaler : Bool
  pub value_marshaler : Bool

-- `name` is `String()`. `custom` is of the type, `pointer_custom` of the pointer to it.
pub record TypeInfo : Type 0 where
  pub name : Bytes
  pub kind : Kind
  pub key : ℕ
  pub elem : ℕ
  pub fields : List Field
  pub methods : List Method
  pub custom : Registered
  pub pointer_custom : Registered

pub record FieldDetails : Type 0 where
  pub field_index : ℕ
  pub embed_index : List ℕ
  pub format : Bytes
  pub attrs : List Bytes

-- A method's index is `none` for -1.
pub record TypeDetails : Type 0 where
  pub struct_fields : List (Bytes × FieldDetails)
  pub struct_attrs : List (Bytes × List FieldDetails)
  pub struct_field_name_list : List Bytes
  pub structure_struct_field : Option FieldDetails
  pub text_unmarshaler_method : Option ℕ
  pub kdl_unmarshaler_method : Option ℕ
  pub kdl_value_unmarshaler_method : Option ℕ
  pub text_marshaler_method : Option ℕ
  pub kdl_marshaler_method : Option ℕ
  pub kdl_value_marshaler_method : Option ℕ
  pub custom_arshalers : ℕ

-- `newTypeDetails`, and `GetEmpty`.
abbrev pub new_type_details : TypeDetails
new_type_details = record {
  struct_fields = [];
  struct_attrs = [];
  struct_field_name_list = [];
  structure_struct_field = none;
  text_unmarshaler_method = none;
  kdl_unmarshaler_method = none;
  kdl_value_unmarshaler_method = none;
  text_marshaler_method = none;
  kdl_marshaler_method = none;
  kdl_value_marshaler_method = none;
  custom_arshalers = 0;
}

abbrev pub Index : Type 0
Index = List (Bytes × TypeDetails)

-- The index, the error of an unexported field with the attribute structure, or no fuel.
pub data Outcome : Type 0 where
  indexed : Index → Outcome
  unexported_structure no_fuel : Outcome

abbrev pub and_then : Outcome → (Index → Outcome) → Outcome
and_then (indexed idx) f = f idx
and_then unexported_structure f = unexported_structure
and_then no_fuel f = no_fuel

-- A round of the loop over the methods.
unfoldable pub with_method : Method → ℕ → TypeDetails → TypeDetails
unfolding bytes_eq
with_method m i d =
    if bytes_eq m.name (codes "UnmarshalText") && m.satisfied
    then record d { text_unmarshaler_method = some i }
    else if bytes_eq m.name (codes "UnmarshalKDL") && m.satisfied
    then record d { kdl_unmarshaler_method = some i }
    else if bytes_eq m.name (codes "UnmarshalKDLValue") && m.satisfied
    then record d { kdl_value_unmarshaler_method = some i }
    else if bytes_eq m.name (codes "MarshalText") && m.satisfied
    then record d { text_marshaler_method = some i }
    else if bytes_eq m.name (codes "MarshalKDL") && m.satisfied
    then record d { kdl_marshaler_method = some i }
    else if bytes_eq m.name (codes "MarshalKDLValue") && m.satisfied
    then record d { kdl_value_marshaler_method = some i }
    else d

unfoldable pub with_methods : List Method → ℕ → TypeDetails → TypeDetails
unfolding with_method
with_methods [] i d = d
with_methods (m ∷ ms) i d = with_methods ms (suc i) (with_method m i d)

-- `CustomArshalers |= flag`.
abbrev pub with_flag : Bool → ℕ → ℕ → ℕ
with_flag true flag flags = bit_or flags flag
with_flag false flag flags = flags

abbrev pub has_custom_unmarshaler : ℕ
has_custom_unmarshaler = 1

abbrev pub has_custom_value_unmarshaler : ℕ
has_custom_value_unmarshaler = 2

abbrev pub has_custom_marshaler : ℕ
has_custom_marshaler = 4

abbrev pub has_custom_value_marshaler : ℕ
has_custom_value_marshaler = 8

abbrev pub custom_flags : Registered → ℕ → ℕ
custom_flags r flags = with_flag r.value_marshaler has_custom_value_marshaler (
    with_flag r.marshaler has_custom_marshaler (
      with_flag r.value_unmarshaler has_custom_value_unmarshaler
        (with_flag r.unmarshaler has_custom_unmarshaler flags)))

abbrev is_some : Option ℕ → Bool
is_some none = false
is_some (some i) = true

unfoldable pub can_unmarshal_text : TypeDetails → Bool
can_unmarshal_text d = is_some d.text_unmarshaler_method

unfoldable pub can_unmarshal_kdl : TypeDetails → Bool
unfolding Flag.has
can_unmarshal_kdl d =
    is_some d.kdl_unmarshaler_method || Flag.has d.custom_arshalers has_custom_unmarshaler

unfoldable pub can_unmarshal_kdl_value : TypeDetails → Bool
unfolding Flag.has
can_unmarshal_kdl_value d =
    is_some d.kdl_value_unmarshaler_method
    || Flag.has d.custom_arshalers has_custom_value_unmarshaler

unfoldable pub can_marshal_text : TypeDetails → Bool
can_marshal_text d = is_some d.text_marshaler_method

unfoldable pub can_marshal_kdl : TypeDetails → Bool
unfolding Flag.has
can_marshal_kdl d =
    is_some d.kdl_marshaler_method || Flag.has d.custom_arshalers has_custom_marshaler

unfoldable pub can_marshal_kdl_value : TypeDetails → Bool
unfolding Flag.has
can_marshal_kdl_value d =
    is_some d.kdl_value_marshaler_method || Flag.has d.custom_arshalers has_custom_value_marshaler

unfoldable pub details_of : TypeInfo → TypeDetails
unfolding with_methods
details_of t = with_methods t.methods 0 (record new_type_details {
  custom_arshalers = custom_flags t.pointer_custom (custom_flags t.custom 0);
})

-- The details are a shared object: a change under their name in the index.
unfoldable pub update : Bytes → (TypeDetails → TypeDetails) → Index → Index
unfolding lookup insert
update name g idx = elim (lookup name idx) [ none ↦ idx | some d ↦ insert name (g d) idx ]

-- `StructAttrs[name] = append(StructAttrs[name], fld)`.
abbrev pub listed_fields : Option (List FieldDetails) → List FieldDetails
listed_fields none = []
listed_fields (some l) = l

-- The format of the last attribute that begins with "format:".
unfoldable pub format_of : List Bytes → Bytes → Bytes
unfolding has_prefix
format_of [] found = found
format_of (a ∷ attrs) found =
    format_of attrs (if has_prefix a (codes "format:") then drop 7 a else found)

unfoldable pub add_attrs : List Bytes → FieldDetails → TypeDetails → TypeDetails
unfolding lookup insert
add_attrs [] fld d = d
add_attrs (a ∷ attrs) fld d = add_attrs attrs fld (record d {
  struct_attrs = insert a (listed_fields (lookup a d.struct_attrs) ++ fld ∷ []) d.struct_attrs;
})

unfoldable pub add_field : Bytes → FieldDetails → TypeDetails → TypeDetails
unfolding insert
add_field name fld d = record d {
  struct_fields = insert name fld d.struct_fields;
  struct_field_name_list = d.struct_field_name_list ++ name ∷ [];
}

-- `typeIndexer.Get`: a leading star is dropped.
unfoldable pub get_details : Bytes → Index → Option TypeDetails
unfolding lookup
get_details [] idx = none
get_details (c ∷ name) idx = if c == b'*' then lookup name idx else lookup (c ∷ name) idx

abbrev pub is_pointer : Kind → Bool
is_pointer pointer = true
is_pointer _ = false

abbrev pub is_struct : Kind → Bool
is_struct struct = true
is_struct _ = false

module _ (info : ℕ → TypeInfo) (to_lower trim_space : Bytes → Bytes) (case_sensitive : Bool) where
  abbrev pub embedded : Field → Bool
  embedded f = is_struct (info f.field_type).kind && f.anonymous

  unfoldable pub field_details : Field → List ℕ → ℕ → FieldDetails
  unfolding field_attrs format_of
  field_details f embed n = record {
    field_index = n;
    embed_index = embed;
    format = format_of (field_attrs f.tag) [];
    attrs = field_attrs f.tag;
  }

  abbrev pub is_structure : Field → Bool
  unfolding field_attrs has
  is_structure f = has (field_attrs f.tag) (codes "structure")

  -- A field that is no embedded struct; `rec` is `indexType`.
  unfoldable pub index_field : (ℕ → Index → Outcome) → Bytes → List ℕ → ℕ → Field → Index → Outcome
  unfolding field_details add_attrs add_field update field_tag_or_name field_attrs has
  index_field rec owner embed n f idx =
      let fld = field_details f embed n in
      let known = update owner (add_attrs fld.attrs fld) idx in
      if f.exported
      then if is_structure f
        then indexed (update owner (λ d. record d { structure_struct_field = some fld }) known)
        else rec f.field_type (
            update owner
              (add_field (field_tag_or_name to_lower trim_space f.tag f.name case_sensitive) fld)
              known)
      else if is_structure f
      then unexported_structure
      else indexed idx

  -- `indexStructFields`; `depth` bounds how deep structs are embedded.
  unfoldable pub index_struct_fields :
      (ℕ → Index → Outcome) → ℕ → Bytes → List ℕ → ℕ → List Field → Index → Outcome
  unfolding index_field
  index_struct_fields rec depth owner embed n [] idx = indexed idx
  index_struct_fields rec zero owner embed n (f ∷ fs) idx = elim (embedded f) [
    | true ↦ no_fuel
    | false ↦
        and_then (index_field rec owner embed n f idx)
          (λ idx'. index_struct_fields rec zero owner embed (suc n) fs idx')
  ]
  index_struct_fields rec (suc depth) owner embed n (f ∷ fs) idx = elim (embedded f) [
    | true ↦
        and_then
          (index_struct_fields rec depth owner (embed ++ n ∷ []) 0 (info f.field_type).fields idx)
          (λ idx'. index_struct_fields rec (suc depth) owner embed (suc n) fs idx')
    | false ↦
        and_then (index_field rec owner embed n f idx)
          (λ idx'. index_struct_fields rec (suc depth) owner embed (suc n) fs idx')
  ]

  -- The `switch` on the kind. A new struct's maps are empty already.
  unfoldable pub index_contents : (ℕ → Index → Outcome) → ℕ → TypeInfo → Index → Kind → Outcome
  unfolding index_struct_fields
  index_contents rec depth t idx map_kind = and_then (rec t.key idx) (rec t.elem)
  index_contents rec depth t idx struct = index_struct_fields rec depth t.name [] 0 t.fields idx
  index_contents rec depth t idx sequence = rec t.elem idx
  index_contents rec depth t idx pointer = indexed idx
  index_contents rec depth t idx other_kind = indexed idx

  -- `indexType`. The loop over pointers is the first case.
  unfoldable pub index_type : ℕ → ℕ → Index → Outcome
  unfolding index_contents details_of lookup insert
  index_type zero t idx = no_fuel
  index_type (suc fuel) t idx = elim (is_pointer (info t).kind) [
    | true ↦ index_type fuel (info t).elem idx
    | false ↦ elim (exists (lookup (info t).name idx)) [
      | true ↦ indexed idx
      | false ↦
          index_contents (index_type fuel) fuel (info t)
            (insert (info t).name (details_of (info t)) idx) (info t).kind
    ]
  ]
