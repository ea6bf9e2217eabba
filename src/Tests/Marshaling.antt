-- ===== src/Tests/Marshaling.antt =====
-- internal/marshaler and document.Value.ResolvedValue: runs.
use gokdl.Base.{
  ℤ, ℕ, zero, suc, ◌≡◌, ◌↔◌, refl, true, false, List, [], ◌∷◌, some, Bytes, pos, negsuc, codes,
  arith, bytes_eq, ◌<◌, ◌≤◌, All,
}
use gokdl.Coerce.{string, signed, w8, w64}
use gokdl.Coerce.Strings.{to_string}
use gokdl.Coerce.Texts.{text_of}
use gokdl.Document.Properties.{lookup}
use gokdl.Document.Properties.Order.{listed}
use gokdl.Document.Render.{value_string}
use gokdl.Document.Render.NoQuotes.{text_value}
use gokdl.Document.Resolved.{resolved_value, resolved_value-annotation}
use gokdl.Marshaler.ByteSlices.{Encodings}
use gokdl.Marshaler.Direct.{int_dest, stored, direct_set}
use gokdl.Marshaler.Direct.Bounds.{fits, low_bits, direct_set-fits}
use gokdl.Marshaler.Durations.{hms_duration, parse_hms_duration, format_duration}
use gokdl.Marshaler.Durations.RoundTrip.{parse_hms_duration-format_duration}
use gokdl.Marshaler.Keys.{less, sort_map_keys}
use gokdl.Marshaler.Keys.Determinism.{swapped, differ, sort_map_keys-Reordered}
use gokdl.Marshaler.TypeIndex.{
  Registered, Field, TypeInfo, pointer, struct, other_kind, is_pointer, index_type,
}
use gokdl.Marshaler.TypeIndex.Closed.{Known, Good, is_embedded}
use gokdl.Marshaler.TypeIndex.Contents.{TypeLaws}
use gokdl.Marshaler.TypeIndex.Ends.{index_type-Good}
use gokdl.Marshaler.Texts.{has_value, marshal_text_value}
use gokdl.Tokenizer.Scanner.State.{new_slice}
use gokdl.Tokenizer.CType.{is_disallowed_v2_rune}
use gokdl.Tokenizer.Token.{version_v1}
use gokdl.Tests.Floats.{floats, values, clock}

parse_hms_duration-format_duration_example :
    parse_hms_duration (format_duration (negsuc 3_661_000_000_004))
    ≡ hms_duration (negsuc 3_661_000_000_004)
parse_hms_duration-format_duration_example =
    parse_hms_duration-format_duration (negsuc 3_661_000_000_004) (omega arith)

-- Encodings that leave the bytes as they are.
abbrev plain : Encodings
plain = record { encode = λ _ b. b; decode = λ _ b. some b }

differ_texts :
    differ (to_string values (string (codes "b"))) (to_string values (string (codes "a"))) ≡ true
unfolding less to_string text_of
differ_texts = refl

sort_map_keys-Reordered_example :
    sort_map_keys values (string (codes "b") ∷ string (codes "a") ∷ [])
    ≡ sort_map_keys values (string (codes "a") ∷ string (codes "b") ∷ [])
sort_map_keys-Reordered_example = sort_map_keys-Reordered values (swapped differ_texts)

resolved_value-annotation_example :
    (resolved_value floats (text_value floats (codes "id") (codes "x") 0 0)
      ≡ string (codes "(id)x"))
    × (value_string floats (text_value floats (codes "id") (codes "x") 0 0) ≡ codes "x")
resolved_value-annotation_example = resolved_value-annotation floats (codes "id") (codes "x") 0 0

direct_set-fits_example :
    (r : ℤ) × (direct_set floats values clock false (int_dest w8) (signed w64 (pos 300)) []
      ≡ stored (signed w8 r))
    × (fits w8 r ≡ true)
    × (low_bits w8 r ≡ low_bits w8 (pos 300))
    × ((r ≡ pos 300) ↔ (fits w8 (pos 300) ≡ true))
direct_set-fits_example = direct_set-fits floats values clock false w8 w64 (pos 300) (omega arith)

-- A struct of a text and of a pointer to the struct.
abbrev a_field : Bytes → ℕ → Field
a_field name t = record {
  name = name;
  field_type = t;
  anonymous = false;
  exported = true;
  tag = [];
}

abbrev nothing_registered : Registered
nothing_registered = record {
  unmarshaler = false;
  value_unmarshaler = false;
  marshaler = false;
  value_marshaler = false;
}

abbrev shape : ℕ → TypeInfo
shape zero = record {
  name = codes "T";
  kind = struct;
  key = 0;
  elem = 0;
  fields = a_field (codes "Next") 1 ∷ a_field (codes "Text") 2 ∷ [];
  methods = [];
  custom = nothing_registered;
  pointer_custom = nothing_registered;
}
shape (suc zero) = record {
  name = codes "*T";
  kind = pointer;
  key = 0;
  elem = 0;
  fields = [];
  methods = [];
  custom = nothing_registered;
  pointer_custom = nothing_registered;
}
shape (suc (suc n)) = record {
  name = codes "string";
  kind = other_kind;
  key = 0;
  elem = 0;
  fields = [];
  methods = [];
  custom = nothing_registered;
  pointer_custom = nothing_registered;
}

abbrev same : Bytes → Bytes
same s = s

abbrev shape_names : List Bytes
shape_names = codes "T" ∷ codes "*T" ∷ codes "string" ∷ []

named_shapes : (t : ℕ) → listed (shape t).name shape_names ≡ true
unfolding bytes_eq
named_shapes zero = refl
named_shapes (suc zero) = refl
named_shapes (suc (suc n)) = refl

abbrev shape_rank : ℕ → ℕ
shape_rank (suc zero) = 1
shape_rank _ = 0

rank_is_bounded : (t : ℕ) → shape_rank t ≤ 1
rank_is_bounded zero = omega arith
rank_is_bounded (suc zero) = omega arith
rank_is_bounded (suc (suc n)) = omega arith

pointers_lead_down :
    (t : ℕ) → is_pointer (shape t).kind ≡ true → shape_rank (shape t).elem < shape_rank t
pointers_lead_down zero e = absurd (ground (arith, e))
pointers_lead_down (suc zero) e = omega arith
pointers_lead_down (suc (suc n)) e = absurd (ground (arith, e))

none_embedded :
    (t : ℕ)
    → All
        (λ f. is_embedded shape same same false f ≡ true → shape_rank f.field_type < shape_rank t)
        (shape t).fields
none_embedded zero = (λ e. absurd (ground (arith, e)), (λ e. absurd (ground (arith, e)), tt))
none_embedded (suc zero) = tt
none_embedded (suc (suc n)) = tt

abbrev shape_laws : TypeLaws shape same same false
shape_laws = record {
  names = shape_names;
  all_names = named_shapes;
  rank = shape_rank;
  bound = 1;
  rank_bound = rank_is_bounded;
  pointer_rank = pointers_lead_down;
  embedded_rank = none_embedded;
}

index_type-Good_example :
    Good shape same same false []
      (λ i. Known shape same same false i 0)
      (index_type shape same same false 20 0 [])
unfolding lookup
index_type-Good_example = index_type-Good shape same same false shape_laws 20 0 [] (omega arith)

only_first_token :
    marshal_text_value floats (new_slice 0 version_v1 []) (codes "foo bar")
    ≡ has_value (text_value floats [] (codes "foo") 0 0)
unfolding marshal_text_value new_slice is_disallowed_v2_rune
only_first_token = refl
