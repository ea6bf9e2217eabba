-- ===== src/Parser/Safety/Table.antt =====
-- internal/parser/transitions.go: every entry of the table keeps the invariant.
use gokdl.Base.{refl, List, [], ◌∷◌, Option, none, some}
use gokdl.Go.Strconv.{FloatLib}
use gokdl.Parser.Machine.Transitions.{
  Handler, document_transitions, children_transitions, arg_prop_transitions,
  property_value_transitions, params_transitions, type_annot_transitions, type_done_transitions,
  node_transitions, node_end_transitions, property_transitions, state_transitions, first_handler,
  find_handler,
}
use gokdl.Parser.Safety.Inside.{
  node_brace_close-Keeps, node_whitespace-Keeps, node_terminator-Keeps, node_equals-Keeps,
  node_brace_open-Keeps, v2_comment-Keeps, node_end_whitespace-Keeps, node_end_of_line-Keeps,
  property_equals-Keeps, params_equals-Keeps, params_token_comment-Keeps, params_comment-Keeps,
  params_line_comment-Keeps, params_bare_identifier-Keeps, params_value-Keeps,
  params_brace_open-Keeps, params_terminator-Keeps, arg_equals-Keeps, params_suffixed_decimal-Keeps,
  arg_token_comment-Keeps, arg_brace_open-Keeps, arg_whitespace-Keeps, arg_terminator-Keeps,
  arg_value-Keeps, arg_brace_close-Keeps, property_class_value-Keeps,
}
use gokdl.Parser.Safety.Outer.{
  Keeps, document_identifier-Keeps, children_identifier-Keeps, untyped_whitespace-Keeps,
  begin_continuation-Keeps, begin_type_annot-Keeps, document_terminator-Keeps, outer_comment-Keeps,
  outer_token_comment-Keeps, children_newline-Keeps, children_brace_close-Keeps, v2_only-Keeps,
  v2_continuation-Keeps, type_name-Keeps, type_parens_close-Keeps,
}
use gokdl.Parser.State.{ParserState}
use gokdl.Tokenizer.Token.{TokenId, classes}

-- A predicate of the handler, if there is one.
abbrev pub Holds {ℓ} : (Handler → Type ℓ) → Option Handler → Type ℓ
Holds P none = Unit
Holds P (some h) = P h

module _ (floats : FloatLib) where
  document_Keeps :
      (id : TokenId) → Holds (Keeps ParserState.document) (document_transitions floats id)
  unfolding document_transitions
  document_Keeps TokenId.whitespace = untyped_whitespace-Keeps ParserState.document
  document_Keeps TokenId.class_identifier = document_identifier-Keeps floats
  document_Keeps TokenId.parens_open = begin_type_annot-Keeps ParserState.document refl
  document_Keeps TokenId.class_terminator = document_terminator-Keeps
  document_Keeps TokenId.class_comment = outer_comment-Keeps ParserState.document
  document_Keeps TokenId.token_comment = outer_token_comment-Keeps ParserState.document
  document_Keeps TokenId.continuation = begin_continuation-Keeps ParserState.document
  document_Keeps _ = tt

  children_Keeps :
      (id : TokenId) → Holds (Keeps ParserState.children) (children_transitions floats id)
  unfolding children_transitions
  children_Keeps TokenId.whitespace = untyped_whitespace-Keeps ParserState.children
  children_Keeps TokenId.class_comment = outer_comment-Keeps ParserState.children
  children_Keeps TokenId.continuation = begin_continuation-Keeps ParserState.children
  children_Keeps TokenId.token_comment = outer_token_comment-Keeps ParserState.children
  children_Keeps TokenId.parens_open = begin_type_annot-Keeps ParserState.children refl
  children_Keeps TokenId.newline = children_newline-Keeps ParserState.children
  children_Keeps TokenId.class_identifier = children_identifier-Keeps floats
  children_Keeps TokenId.brace_close = children_brace_close-Keeps
  children_Keeps _ = tt

  arg_prop_Keeps :
      (id : TokenId) → Holds (Keeps ParserState.arg_prop) (arg_prop_transitions floats id)
  unfolding arg_prop_transitions
  arg_prop_Keeps TokenId.token_comment = arg_token_comment-Keeps floats
  arg_prop_Keeps TokenId.brace_open = arg_brace_open-Keeps floats
  arg_prop_Keeps TokenId.equals = arg_equals-Keeps
  arg_prop_Keeps TokenId.whitespace = arg_whitespace-Keeps floats
  arg_prop_Keeps TokenId.class_comment = v2_comment-Keeps ParserState.arg_prop
  arg_prop_Keeps TokenId.continuation = begin_continuation-Keeps ParserState.arg_prop
  arg_prop_Keeps TokenId.class_terminator = arg_terminator-Keeps floats
  arg_prop_Keeps TokenId.class_value = arg_value-Keeps floats
  arg_prop_Keeps TokenId.brace_close = arg_brace_close-Keeps floats
  arg_prop_Keeps _ = tt

  property_value_Keeps :
      (id : TokenId)
      → Holds (Keeps ParserState.property_value) (property_value_transitions floats id)
  unfolding property_value_transitions
  property_value_Keeps TokenId.whitespace = v2_only-Keeps ParserState.property_value
  property_value_Keeps TokenId.class_comment = v2_only-Keeps ParserState.property_value
  property_value_Keeps TokenId.continuation = v2_continuation-Keeps ParserState.property_value
  property_value_Keeps TokenId.parens_open = begin_type_annot-Keeps ParserState.property_value refl
  property_value_Keeps TokenId.class_value = property_class_value-Keeps floats
  property_value_Keeps TokenId.brace_close = node_brace_close-Keeps ParserState.property_value refl
  property_value_Keeps _ = tt

  params_Keeps :
      (id : TokenId) → Holds (Keeps ParserState.node_params) (params_transitions floats id)
  unfolding params_transitions
  params_Keeps TokenId.whitespace = untyped_whitespace-Keeps ParserState.node_params
  params_Keeps TokenId.equals = params_equals-Keeps
  params_Keeps TokenId.token_comment = params_token_comment-Keeps
  params_Keeps TokenId.class_comment = params_comment-Keeps
  params_Keeps TokenId.single_line_comment = params_line_comment-Keeps
  params_Keeps TokenId.continuation = begin_continuation-Keeps ParserState.node_params
  params_Keeps TokenId.parens_open = begin_type_annot-Keeps ParserState.node_params refl
  params_Keeps TokenId.bare_identifier = params_bare_identifier-Keeps
  params_Keeps TokenId.brace_close = node_brace_close-Keeps ParserState.node_params refl
  params_Keeps TokenId.suffixed_decimal = params_suffixed_decimal-Keeps floats
  params_Keeps TokenId.class_string = params_value-Keeps
  params_Keeps TokenId.class_non_string_value = params_value-Keeps
  params_Keeps TokenId.brace_open = params_brace_open-Keeps
  params_Keeps TokenId.class_terminator = params_terminator-Keeps
  params_Keeps _ = tt

type_annot_Keeps : (id : TokenId) → Holds (Keeps ParserState.type_annot) (type_annot_transitions id)
unfolding type_annot_transitions
type_annot_Keeps TokenId.whitespace = v2_only-Keeps ParserState.type_annot
type_annot_Keeps TokenId.class_comment = v2_only-Keeps ParserState.type_annot
type_annot_Keeps TokenId.continuation = v2_continuation-Keeps ParserState.type_annot
type_annot_Keeps TokenId.bare_identifier = type_name-Keeps
type_annot_Keeps TokenId.class_string = type_name-Keeps
type_annot_Keeps _ = tt

type_done_Keeps : (id : TokenId) → Holds (Keeps ParserState.type_done) (type_done_transitions id)
unfolding type_done_transitions
type_done_Keeps TokenId.whitespace = v2_only-Keeps ParserState.type_done
type_done_Keeps TokenId.class_comment = v2_only-Keeps ParserState.type_done
type_done_Keeps TokenId.continuation = v2_continuation-Keeps ParserState.type_done
type_done_Keeps TokenId.parens_close = type_parens_close-Keeps
type_done_Keeps _ = tt

node_Keeps : (id : TokenId) → Holds (Keeps ParserState.node) (node_transitions id)
unfolding node_transitions
node_Keeps TokenId.whitespace = node_whitespace-Keeps
node_Keeps TokenId.class_terminator = node_terminator-Keeps
node_Keeps TokenId.equals = node_equals-Keeps
node_Keeps TokenId.brace_open = node_brace_open-Keeps
node_Keeps TokenId.continuation = begin_continuation-Keeps ParserState.node
node_Keeps TokenId.class_comment = v2_comment-Keeps ParserState.node
node_Keeps TokenId.brace_close = node_brace_close-Keeps ParserState.node refl
node_Keeps _ = tt

node_end_Keeps : (id : TokenId) → Holds (Keeps ParserState.node_end) (node_end_transitions id)
unfolding node_end_transitions
node_end_Keeps TokenId.whitespace = node_end_whitespace-Keeps
node_end_Keeps TokenId.class_end_of_line = node_end_of_line-Keeps
node_end_Keeps _ = tt

property_Keeps : (id : TokenId) → Holds (Keeps ParserState.property) (property_transitions id)
unfolding property_transitions
property_Keeps TokenId.equals = property_equals-Keeps
property_Keeps TokenId.brace_close = node_brace_close-Keeps ParserState.property refl
property_Keeps _ = tt

pub state_transitions-Keeps :
    (floats : FloatLib) (s : ParserState) (id : TokenId)
    → Holds (Keeps s) (state_transitions floats s id)
unfolding state_transitions
state_transitions-Keeps floats ParserState.document = document_Keeps floats
state_transitions-Keeps floats ParserState.children = children_Keeps floats
state_transitions-Keeps floats ParserState.type_annot = type_annot_Keeps
state_transitions-Keeps floats ParserState.type_done = type_done_Keeps
state_transitions-Keeps floats ParserState.node = node_Keeps
state_transitions-Keeps floats ParserState.node_params = params_Keeps floats
state_transitions-Keeps floats ParserState.node_end = node_end_Keeps
state_transitions-Keeps floats ParserState.property = property_Keeps
state_transitions-Keeps floats ParserState.arg_prop = arg_prop_Keeps floats
state_transitions-Keeps floats ParserState.property_value = property_value_Keeps floats

-- The look-up finds entries of the table only.
pub first_handler-Holds {ℓ} :
    (P : Handler → Type ℓ) (transitions : TokenId → Option Handler) (ids : List TokenId)
    → ((id : TokenId) → Holds P (transitions id))
    → Holds P (first_handler transitions ids)
unfolding first_handler
first_handler-Holds P transitions [] all = tt
first_handler-Holds P transitions (id ∷ ids) all =
    chosen (transitions id) (all id) (first_handler-Holds P transitions ids all)
  where
    chosen :
        (o : Option Handler)
        → Holds P o
        → Holds P (first_handler transitions ids)
        → Holds P (elim o [ some h ↦ some h | none ↦ first_handler transitions ids ])
    chosen none _ later = later
    chosen (some h) here _ = here

pub find_handler-Keeps :
    (floats : FloatLib) (s : ParserState) (id : TokenId)
    → Holds (Keeps s) (find_handler floats s id)
unfolding find_handler
find_handler-Keeps floats s id =
    first_handler-Holds (Keeps s) (state_transitions floats s) (id ∷ classes id)
      (state_transitions-Keeps floats s)
