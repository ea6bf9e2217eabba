-- ===== src/Parser/Handlers/Params.antt =====
-- internal/parser/transitions.go: the functions of stateNodeParams.
use gokdl.Base.{Bool, true, false, not, ◌&&◌, ◌||◌, ltb, if◌then◌else◌}
use gokdl.Go.Strconv.{FloatLib}
use gokdl.Parser.Context.{
  ParseContext, Outcome, ok, ◌>>=◌, unexpected_token, expected_value_after_type, pop_node_and_state,
  push_state, mark_ignore_from_continuation, clear_saved, add_argument_token,
}
use gokdl.Parser.Handlers.InNode.{go_to, enter_ignored}
use gokdl.Parser.Handlers.Outer.{typed_v1}
use gokdl.Parser.State.{ParserState}
use gokdl.Tokenizer.CType.{permit, nginx_syntax, yaml_toml_assignments}
use gokdl.Tokenizer.Token.{TokenId, Token, valid, is_v2}

unfoldable pub params_equals : ParseContext → Token → Outcome
unfolding permit
params_equals c t =
    if permit c.opts.relaxed yaml_toml_assignments
      && not (valid c.type_annot)
      && not (valid c.ident)
    then ok c
    else unexpected_token c t

unfoldable pub params_token_comment : ParseContext → Token → Outcome
params_token_comment c t =
    if valid c.type_annot
    then unexpected_token c t
    else ok (record (mark_ignore_from_continuation c) { ignore_next_arg_prop = true })

unfoldable pub params_comment : ParseContext → Token → Outcome
params_comment c t = if typed_v1 c then unexpected_token c t else ok c

unfoldable pub params_line_comment : ParseContext → Token → Outcome
params_line_comment c t = if c.ignore_next_arg_prop then ok c else go_to ParserState.node_end c

-- A value or a name that the next token decides about.
abbrev pub save_ident : Token → ParserState → ParseContext → Outcome
save_ident t s c = ok (record c { ident = t; state = s })

unfoldable pub params_bare_identifier : ParseContext → Token → Outcome
unfolding permit
params_bare_identifier c t =
    if permit c.opts.relaxed nginx_syntax || is_v2 c.opts.version
    then save_ident t ParserState.arg_prop c
    else save_ident t ParserState.property c

unfoldable pub params_value : ParseContext → Token → Outcome
params_value c t = save_ident t ParserState.arg_prop c

-- An argument is added, or dropped behind a slashdash.
unfoldable pub add_or_ignore : FloatLib → Token → ParseContext → Outcome
unfolding add_argument_token
add_or_ignore floats t c =
    if c.ignore_next_arg_prop
    then ok (record c { ignore_next_arg_prop = false })
    else add_argument_token floats t c.type_annot c

module _ (floats : FloatLib) where
  -- The annotation is cleared before the argument is added.
  unfoldable pub params_suffixed_decimal : ParseContext → Token → Outcome
  unfolding add_or_ignore
  params_suffixed_decimal c t = do
    c' ← add_or_ignore floats t (clear_saved c)
    go_to ParserState.node_params c'

unfoldable pub params_brace_open : ParseContext → Token → Outcome
params_brace_open c t =
    if c.ignore_next_arg_prop || ltb 0 c.ignore_children
    then ok (
        push_state ParserState.children (record (enter_ignored c) { ignore_next_arg_prop = false }))
    else ok (push_state ParserState.children c)

abbrev is_newline_id : TokenId → Bool
is_newline_id TokenId.newline = true
is_newline_id _ = false

unfoldable pub params_terminator : ParseContext → Token → Outcome
unfolding pop_node_and_state
params_terminator c t =
    if c.continuation
    then ok c
    else if c.ignore_next_arg_prop
    then (if is_newline_id t.id then ok c else unexpected_token c t)
    else if valid c.type_annot
    then expected_value_after_type c t
    else pop_node_and_state c
