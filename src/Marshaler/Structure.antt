-- ===== src/Marshaler/Structure.antt =====
-- internal/marshaler/typeindex.go: the comments that a struct keeps of the nodes it was read from.
-- A Go map is an association list.
pub mod Comments
use gokdl.Base.{
  ℕ, Bool, true, false, ◌||◌, ◌&&◌, not, List, [], ◌∷◌, ◌++◌, Option, none, some, Bytes, ◌==◌, ltb,
  length, if◌then◌else◌,
}
use gokdl.Document.Flag.{simple_string}
use gokdl.Document.Node.{Node, Comment}
use gokdl.Document.Properties.{Properties, lookup, insert, len}
use gokdl.Document.Quote.{append_quoted_string}
use gokdl.Document.Render.{append_value, string, unformatted_string}
use gokdl.Document.Value.{Value}
use gokdl.Go.Strconv.{FloatLib}
use gokdl.Go.Strings.{runes}
use gokdl.Tokenizer.CType.{is_bare_identifier_version}
use gokdl.Tokenizer.Token.{version_v1}

abbrev pub Comments : Type 0
Comments = List (Bytes × Comment)

pub record Structure : Type 0 where
  pub comments : Comments
  pub children : List (Bytes × Comments)

abbrev child_comments : Option Comments → Comments
child_comments none = []
child_comments (some m) = m

abbrev pub with_comment : Bytes → Option Comment → Structure → Structure
with_comment key none s = s
with_comment key (some c) s = record s { comments = insert key c s.comments }

module _ (floats : FloatLib) where
  abbrev of_value : Option Value → Bytes
  of_value none = []
  of_value (some v) = unformatted_string floats v

  -- `Properties.AppendTo`.
  unfoldable pub append_properties : List Bytes → List (Bytes × Value) → Bytes → Bytes
  unfolding is_bare_identifier_version append_quoted_string runes lookup
  append_properties [] props b = b
  append_properties (k ∷ ks) props b =
      let spaced = b ++ b' ' ∷ [] in
      let named =
        if ltb 0 (length k) && is_bare_identifier_version (runes k) 0 version_v1
        then spaced ++ k
        else append_quoted_string spaced k b'"' in
      append_properties ks props (named ++ b'=' ∷ of_value (lookup k props))

  -- `AppendTo` of each argument, with commas.
  unfoldable pub append_arguments : Bool → List Value → Bytes → Bytes
  unfolding append_value
  append_arguments first [] b = b
  append_arguments first (v ∷ vs) b =
      append_arguments false vs
        (append_value floats v (if first then b else b ++ b',' ∷ []) simple_string)

  -- `getKey` of a node that is not nil.
  unfoldable pub get_key : Bytes → Node → Bytes
  unfolding append_arguments append_properties len
  get_key name n =
      if length n.children == 0 || length n.arguments == 0 && len n.properties == 0
      then name
      else append_properties n.properties.order n.properties.props
          (append_arguments true n.arguments (name ++ b':' ∷ []) ++ b':' ∷ [])

  -- A node without a comment changes nothing.
  unfoldable pub set_comment : Bytes → Node → Structure → Structure
  unfolding get_key insert
  set_comment name n s = with_comment (get_key name n) n.comment s

  unfoldable pub get_comment : Bytes → Node → Structure → Option Comment
  unfolding get_key lookup
  get_comment name n s = lookup (get_key name n) s.comments

  -- `Name.String()`; every node has a name here.
  abbrev pub name_string : Option Value → Bytes
  name_string none = []
  name_string (some v) = string floats v

  unfoldable pub node_key : Node → Bytes
  unfolding get_key
  node_key n = get_key (name_string n.name) n

  unfoldable pub set_child_structure : Node → Node → Structure → Structure
  unfolding node_key lookup insert
  set_child_structure mapnode kv s = elim kv.comment [
    | none ↦ s
    | some c ↦ record s {
      children =
          insert (node_key mapnode)
            (insert (node_key kv) c (child_comments (lookup (node_key mapnode) s.children)))
            s.children;
    }
  ]

  unfoldable pub get_child_structure : Node → Node → Structure → Option Comment
  unfolding node_key lookup
  get_child_structure mapnode kv s = elim (lookup (node_key mapnode) s.children) [
    | none ↦ none
    | some m ↦ lookup (node_key kv) m
  ]
