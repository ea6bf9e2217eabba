-- ===== src/Parser/Context.antt =====
-- internal/parser/context.go: the parser's context and its operations. Nodes live in a store, and a
-- `*Node` is the node's number there. The stacks hold their top first. Fields that nothing reads
-- (`VersionSetter`, `versionMarkerStep`) and the allocator, which gives zeroed nodes, are left out.
use Prim.Native.Nat.{bit_and}
use gokdl.Base.{
  ℕ, Bool, true, false, not, List, [], ◌∷◌, ◌++◌, Option, none, some, Bytes, ◌==◌, length, modify,
  if◌then◌else◌,
}
use gokdl.Document.Node.{
  Node, new_node, add_child, set_name_value, add_argument_value, add_property_value,
}
use gokdl.Document.Render.{value_string}
use gokdl.Document.Value.{Value, value_ok, value_error, value_from_token}
use gokdl.Go.Strconv.{FloatLib}
use gokdl.Parser.Recent.{RecentTokens, no_tokens}
use gokdl.Parser.State.{
  ParserState, ParseError, value_failed, node_stack_empty, state_stack_empty, unexpected_error,
  expected_value_error,
}
use gokdl.Tokenizer.Token.{Version, Token, cleared, valid}

-- `ParseContextOptions` without the size estimate.
pub record Options : Type 0 where
  pub relaxed : ℕ
  pub flags : ℕ
  pub version : Version

-- `Has(ParseComments)`.
unfoldable pub parses_comments : Options → Bool
parses_comments o = not (bit_and o.flags 1 == 0)

pub record ParseContext : Type 0 where
  pub nodes : List Node
  pub doc : List ℕ
  pub states : List ParserState
  pub state : ParserState
  pub node : List ℕ
  pub ident : Token
  pub type_annot : Token
  pub continuation : Bool
  pub continuation_newline_seen : Bool
  pub just_continued_line : Bool
  pub ignore_next_node : Bool
  pub ignore_next_arg_prop : Bool
  pub ignore_children : ℕ
  pub after_ignored_child_block : Bool
  pub ignore_child_block_from_continuation : Bool
  pub ignore_from_continuation : Bool
  pub opts : Options
  pub comment : Bytes
  pub last_added_node : Option ℕ
  pub recent : RecentTokens

-- `NewContextOptions`.
abbrev pub new_context : Options → ParseContext
new_context o = record {
  nodes = [];
  doc = [];
  states = [];
  state = ParserState.document;
  node = [];
  ident = cleared;
  type_annot = cleared;
  continuation = false;
  continuation_newline_seen = false;
  just_continued_line = false;
  ignore_next_node = false;
  ignore_next_arg_prop = false;
  ignore_children = 0;
  after_ignored_child_block = false;
  ignore_child_block_from_continuation = false;
  ignore_from_continuation = false;
  opts = o;
  comment = [];
  last_added_node = none;
  recent = no_tokens;
}

-- What a handler leaves: a context, a context with `ErrReenterState`, another error, or a nil
-- dereference. The context that comes with another error is never read again.
pub data Outcome : Type 0 where
  ok : ParseContext → Outcome
  reenter : ParseContext → Outcome
  fail : ParseError → Outcome
  panic : Outcome

infixl 5 ◌>>=◌
abbrev pub ◌>>=◌ : Outcome → (ParseContext → Outcome) → Outcome
ok c >>= f = f c
reenter c >>= f = reenter c
fail e >>= f = fail e
panic >>= f = panic

abbrev pub unexpected_token : ParseContext → Token → Outcome
unexpected_token c t = fail (unexpected_error c.state (valid c.type_annot) t.id)

abbrev pub expected_value_after_type : ParseContext → Token → Outcome
expected_value_after_type c t = fail (expected_value_error t.id)

-- `createNode`: the new node's number is the length of the store.
unfoldable pub create_node : ParseContext → ParseContext
create_node c = record c {
  nodes = c.nodes ++ new_node ∷ [];
  node = length c.nodes ∷ c.node;
  last_added_node = some (length c.nodes);
}

-- The part of `addNode` that attaches the new node to the node that was current, or to the document.
attach : ℕ → List ℕ → ParseContext → ParseContext
attach id [] c = record c { doc = c.doc ++ id ∷ [] }
attach id (parent ∷ _) c = record c { nodes = modify parent (add_child id) c.nodes }

unfoldable pub add_node : ParseContext → ParseContext
unfolding attach create_node
add_node c = attach (length c.nodes) c.node (create_node c)

-- A write through the pointer on top of the node stack, which is nil if the stack is empty.
abbrev pub on_current_node : (Node → Node) → ParseContext → Outcome
on_current_node f c = elim c.node [
  | [] ↦ panic
  | n ∷ _ ↦ ok (record c { nodes = modify n f c.nodes })
]

unfoldable pub pop_node : ParseContext → Outcome
pop_node c = elim c.node [ [] ↦ fail node_stack_empty | n ∷ ns ↦ ok (record c { node = ns }) ]

unfoldable pub pop_state : ParseContext → Outcome
pop_state c = elim c.states [
  | [] ↦ fail state_stack_empty
  | s ∷ ss ↦ ok (record c { state = s; states = ss })
]

unfoldable pub pop_node_and_state : ParseContext → Outcome
unfolding pop_state pop_node
pop_node_and_state c = do c' ← pop_state c; pop_node c'

abbrev pub push_state : ParserState → ParseContext → ParseContext
push_state s c = record c { states = c.state ∷ c.states; state = s }

abbrev pub start_continuation : ParseContext → ParseContext
start_continuation c = record c { continuation = true; continuation_newline_seen = false }

abbrev pub stop_continuation : ParseContext → ParseContext
stop_continuation c = record c { continuation = false; continuation_newline_seen = false }

abbrev pub mark_ignore_from_continuation : ParseContext → ParseContext
mark_ignore_from_continuation c = record c {
  ignore_from_continuation = c.just_continued_line;
  just_continued_line = false;
}

-- `typeAnnot.Clear()` and `ident.Clear()`.
abbrev pub clear_saved : ParseContext → ParseContext
clear_saved c = record c { type_annot = cleared; ident = cleared }

-- `v.Type` is set if there is an annotation.
abbrev pub annotate : Token → Value → Value
annotate annot v = if valid annot then record v { type_annot = annot.content } else v

module _ (floats : FloatLib) where
  -- `setNodeNameToken` on the node that was just pushed.
  unfoldable pub set_node_name_token : Token → ParseContext → Outcome
  set_node_name_token t c = elim (value_from_token floats t) [
    | value_ok v ↦ on_current_node (set_name_value v) c
    | value_error e ↦ fail (value_failed e)
  ]

  -- `addArgumentToken(c.currentNode(), …)`.
  unfoldable pub add_argument_token : Token → Token → ParseContext → Outcome
  add_argument_token t annot c = elim (value_from_token floats t) [
    | value_ok v ↦ on_current_node (add_argument_value (annotate annot v)) c
    | value_error e ↦ fail (value_failed e)
  ]

  -- `addPropertyToken(c.currentNode(), …)`.
  unfoldable pub add_property_token : Token → Token → Token → ParseContext → Outcome
  add_property_token name t annot c = elim (value_from_token floats name) [
    | value_ok n ↦ elim (value_from_token floats t) [
      | value_ok v ↦
          on_current_node (add_property_value (value_string floats n) (annotate annot v)) c
      | value_error e ↦ fail (value_failed e)
    ]
    | value_error e ↦ fail (value_failed e)
  ]
