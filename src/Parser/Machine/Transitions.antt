-- ===== src/Parser/Machine/Transitions.antt =====
-- internal/parser/transitions.go: `stateTransitions`, and the look-up of a handler in parser.go.
use gokdl.Base.{Option, none, some, List, [], ◌∷◌}
use gokdl.Go.Strconv.{FloatLib}
use gokdl.Parser.Context.{ParseContext, Outcome}
use gokdl.Parser.Handlers.ArgProp.{
  arg_equals, arg_token_comment, arg_brace_open, arg_whitespace, arg_terminator, arg_value,
  arg_brace_close, property_class_value,
}
use gokdl.Parser.Handlers.InNode.{
  node_brace_close, node_whitespace, node_terminator, node_equals, node_brace_open, v2_comment,
  node_end_whitespace, node_end_of_line, property_equals,
}
use gokdl.Parser.Handlers.Outer.{
  untyped_whitespace, begin_continuation, begin_type_annot, document_identifier,
  children_identifier, document_terminator, outer_comment, outer_token_comment, children_newline,
  children_brace_close,
}
use gokdl.Parser.Handlers.Params.{
  params_equals, params_token_comment, params_comment, params_line_comment, params_bare_identifier,
  params_value, params_suffixed_decimal, params_brace_open, params_terminator,
}
use gokdl.Parser.Handlers.Types.{v2_only, v2_continuation, type_name, type_parens_close}
use gokdl.Parser.State.{ParserState}
use gokdl.Tokenizer.Token.{TokenId, Token, classes}

abbrev pub Handler : Type 0
Handler = ParseContext → Token → Outcome

module _ (floats : FloatLib) where
  unfoldable pub document_transitions : TokenId → Option Handler
  document_transitions TokenId.whitespace = some untyped_whitespace
  document_transitions TokenId.class_identifier = some (document_identifier floats)
  document_transitions TokenId.parens_open = some begin_type_annot
  document_transitions TokenId.class_terminator = some document_terminator
  document_transitions TokenId.class_comment = some outer_comment
  document_transitions TokenId.token_comment = some outer_token_comment
  document_transitions TokenId.continuation = some begin_continuation
  document_transitions _ = none

  unfoldable pub children_transitions : TokenId → Option Handler
  children_transitions TokenId.whitespace = some untyped_whitespace
  children_transitions TokenId.class_comment = some outer_comment
  children_transitions TokenId.continuation = some begin_continuation
  children_transitions TokenId.token_comment = some outer_token_comment
  children_transitions TokenId.parens_open = some begin_type_annot
  children_transitions TokenId.newline = some children_newline
  children_transitions TokenId.class_identifier = some (children_identifier floats)
  children_transitions TokenId.brace_close = some children_brace_close
  children_transitions _ = none

  unfoldable pub arg_prop_transitions : TokenId → Option Handler
  arg_prop_transitions TokenId.token_comment = some (arg_token_comment floats)
  arg_prop_transitions TokenId.brace_open = some (arg_brace_open floats)
  arg_prop_transitions TokenId.equals = some arg_equals
  arg_prop_transitions TokenId.whitespace = some (arg_whitespace floats)
  arg_prop_transitions TokenId.class_comment = some v2_comment
  arg_prop_transitions TokenId.continuation = some begin_continuation
  arg_prop_transitions TokenId.class_terminator = some (arg_terminator floats)
  arg_prop_transitions TokenId.class_value = some (arg_value floats)
  arg_prop_transitions TokenId.brace_close = some (arg_brace_close floats)
  arg_prop_transitions _ = none

  unfoldable pub property_value_transitions : TokenId → Option Handler
  property_value_transitions TokenId.whitespace = some v2_only
  property_value_transitions TokenId.class_comment = some v2_only
  property_value_transitions TokenId.continuation = some v2_continuation
  property_value_transitions TokenId.parens_open = some begin_type_annot
  property_value_transitions TokenId.class_value = some (property_class_value floats)
  property_value_transitions TokenId.brace_close = some node_brace_close
  property_value_transitions _ = none

  unfoldable pub params_transitions : TokenId → Option Handler
  params_transitions TokenId.whitespace = some untyped_whitespace
  params_transitions TokenId.equals = some params_equals
  params_transitions TokenId.token_comment = some params_token_comment
  params_transitions TokenId.class_comment = some params_comment
  params_transitions TokenId.single_line_comment = some params_line_comment
  params_transitions TokenId.continuation = some begin_continuation
  params_transitions TokenId.parens_open = some begin_type_annot
  params_transitions TokenId.bare_identifier = some params_bare_identifier
  params_transitions TokenId.brace_close = some node_brace_close
  params_transitions TokenId.suffixed_decimal = some (params_suffixed_decimal floats)
  params_transitions TokenId.class_string = some params_value
  params_transitions TokenId.class_non_string_value = some params_value
  params_transitions TokenId.brace_open = some params_brace_open
  params_transitions TokenId.class_terminator = some params_terminator
  params_transitions _ = none

unfoldable pub type_annot_transitions : TokenId → Option Handler
type_annot_transitions TokenId.whitespace = some v2_only
type_annot_transitions TokenId.class_comment = some v2_only
type_annot_transitions TokenId.continuation = some v2_continuation
type_annot_transitions TokenId.bare_identifier = some type_name
type_annot_transitions TokenId.class_string = some type_name
type_annot_transitions _ = none

unfoldable pub type_done_transitions : TokenId → Option Handler
type_done_transitions TokenId.whitespace = some v2_only
type_done_transitions TokenId.class_comment = some v2_only
type_done_transitions TokenId.continuation = some v2_continuation
type_done_transitions TokenId.parens_close = some type_parens_close
type_done_transitions _ = none

unfoldable pub node_transitions : TokenId → Option Handler
node_transitions TokenId.whitespace = some node_whitespace
node_transitions TokenId.class_terminator = some node_terminator
node_transitions TokenId.equals = some node_equals
node_transitions TokenId.brace_open = some node_brace_open
node_transitions TokenId.continuation = some begin_continuation
node_transitions TokenId.class_comment = some v2_comment
node_transitions TokenId.brace_close = some node_brace_close
node_transitions _ = none

unfoldable pub node_end_transitions : TokenId → Option Handler
node_end_transitions TokenId.whitespace = some node_end_whitespace
node_end_transitions TokenId.class_end_of_line = some node_end_of_line
node_end_transitions _ = none

unfoldable pub property_transitions : TokenId → Option Handler
property_transitions TokenId.equals = some property_equals
property_transitions TokenId.brace_close = some node_brace_close
property_transitions _ = none

-- `stateTransitions`.
unfoldable pub state_transitions : FloatLib → ParserState → TokenId → Option Handler
state_transitions floats ParserState.document = document_transitions floats
state_transitions floats ParserState.children = children_transitions floats
state_transitions floats ParserState.type_annot = type_annot_transitions
state_transitions floats ParserState.type_done = type_done_transitions
state_transitions floats ParserState.node = node_transitions
state_transitions floats ParserState.node_params = params_transitions floats
state_transitions floats ParserState.node_end = node_end_transitions
state_transitions floats ParserState.property = property_transitions
state_transitions floats ParserState.arg_prop = arg_prop_transitions floats
state_transitions floats ParserState.property_value = property_value_transitions floats

-- The first kind of the list that has a handler.
unfoldable pub first_handler : (TokenId → Option Handler) → List TokenId → Option Handler
first_handler transitions [] = none
first_handler transitions (id ∷ ids) = elim (transitions id) [
  | some h ↦ some h
  | none ↦ first_handler transitions ids
]

-- The handler of the kind itself, or of the first of its classes that has one.
unfoldable pub find_handler : FloatLib → ParserState → TokenId → Option Handler
unfolding first_handler
find_handler floats s id = first_handler (state_transitions floats s) (id ∷ classes id)
