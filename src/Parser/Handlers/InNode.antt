-- ===== src/Parser/Handlers/InNode.antt =====
-- internal/parser/transitions.go: the functions of stateNode, stateNodeEnd and stateProperty, and the
-- closing brace that the states inside a node share.
use gokdl.Base.{◌+◌, false, ◌||◌, ltb, if◌then◌else◌}
use gokdl.Parser.Context.{
  ParseContext, Outcome, ok, reenter, ◌>>=◌, unexpected_token, pop_node_and_state, push_state,
  stop_continuation,
}
use gokdl.Parser.State.{ParserState}
use gokdl.Tokenizer.CType.{permit, yaml_toml_assignments}
use gokdl.Tokenizer.Token.{Token, valid, is_v2}

-- The node ends, and its parent's state sees the brace again.
unfoldable pub node_brace_close : ParseContext → Token → Outcome
unfolding pop_node_and_state
node_brace_close c t = do c' ← pop_node_and_state c; reenter c'

abbrev pub go_to : ParserState → ParseContext → Outcome
go_to s c = ok (record c { state = s })

unfoldable pub node_whitespace : ParseContext → Token → Outcome
node_whitespace c t = go_to ParserState.node_params c

unfoldable pub node_terminator : ParseContext → Token → Outcome
unfolding pop_node_and_state
node_terminator c t = if c.continuation then ok c else pop_node_and_state c

unfoldable pub node_equals : ParseContext → Token → Outcome
unfolding permit
node_equals c t =
    if permit c.opts.relaxed yaml_toml_assignments
    then go_to ParserState.node_params c
    else unexpected_token c t

-- An ignored child block begins.
abbrev pub enter_ignored : ParseContext → ParseContext
enter_ignored c = record c {
  ignore_child_block_from_continuation = c.ignore_from_continuation;
  ignore_from_continuation = false;
  ignore_children = c.ignore_children + 1;
}

unfoldable pub node_brace_open : ParseContext → Token → Outcome
node_brace_open c t =
    if c.ignore_next_node || ltb 0 c.ignore_children
    then ok
        (push_state ParserState.children (record (enter_ignored c) { ignore_next_node = false }))
    else ok (push_state ParserState.children c)

-- The comment functions of stateNode and stateArgProp.
unfoldable pub v2_comment : ParseContext → Token → Outcome
v2_comment c t = if is_v2 c.opts.version then ok c else unexpected_token c t

unfoldable pub node_end_whitespace : ParseContext → Token → Outcome
node_end_whitespace c t = ok c

unfoldable pub node_end_of_line : ParseContext → Token → Outcome
unfolding pop_node_and_state
node_end_of_line c t =
    if c.continuation
    then go_to ParserState.node_params (stop_continuation c)
    else pop_node_and_state c

unfoldable pub property_equals : ParseContext → Token → Outcome
property_equals c t =
    if valid c.type_annot then unexpected_token c t else go_to ParserState.property_value c
