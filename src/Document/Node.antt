-- ===== src/Document/Node.antt =====
-- document/node.go and document/document.go: nodes, and what the parser does to them.
use gokdl.Base.{ℕ, List, [], ◌∷◌, ◌++◌, Option, none, some, Bytes, if◌then◌else◌}
use gokdl.Document.Properties.{Properties, no_properties, alloc, add}
use gokdl.Document.Value.{Value}

pub record Comment : Type 0 where
  pub before : Bytes
  pub after : Bytes

-- A child is the number of its node in the parser's store.
pub record Node : Type 0 where
  pub name : Option Value
  pub type_annot : Bytes
  pub arguments : List Value
  pub properties : Properties Value
  pub children : List ℕ
  pub comment : Option Comment

-- `NewNode`.
abbrev pub new_node : Node
new_node = record {
  name = none;
  type_annot = [];
  arguments = [];
  properties = no_properties;
  children = [];
  comment = none;
}

abbrev pub add_child : ℕ → Node → Node
add_child child n = record n { children = n.children ++ child ∷ [] }

abbrev pub set_name_value : Value → Node → Node
set_name_value v n = record n { name = some v }

abbrev pub add_argument_value : Value → Node → Node
add_argument_value v n = record n { arguments = n.arguments ++ v ∷ [] }

abbrev pub allocated_properties : Properties Value → Properties Value
allocated_properties p = if p.allocated then p else alloc p

-- `AddPropertyValue` with no type annotation of its own.
unfoldable pub add_property_value : Bytes → Value → Node → Node
unfolding alloc add
add_property_value name v n = record n {
  properties = add name v (allocated_properties n.properties);
}
