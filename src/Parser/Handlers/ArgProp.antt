-- ===== src/Parser/Handlers/ArgProp.antt =====
-- internal/parser/transitions.go: the functions of stateArgProp and statePropertyValue.
use gokdl.Base.{◌+◌, Bool, true, false, not, ◌||◌, ltb, if◌then◌else◌}
use gokdl.Go.Strconv.{FloatLib}
use gokdl.Parser.Context.{
  ParseContext, Outcome, ok, ◌>>=◌, unexpected_token, expected_value_after_type, pop_node_and_state,
  push_state, mark_ignore_from_continuation, clear_saved, add_argument_token, add_property_token,
}
use gokdl.Parser.Handlers.InNode.{go_to, node_brace_close}
use gokdl.Parser.Handlers.Params.{add_or_ignore}
use gokdl.Parser.State.{ParserState}
use gokdl.Tokenizer.Token.{TokenId, Token, valid, is_v2}

-- `BareIdentifier`, `QuotedString` or `RawString`.
abbrev names_property : TokenId → Bool
names_property TokenId.bare_identifier = true
names_property TokenId.quoted_string = true
names_property TokenId.raw_string = true
names_property _ = false

unfoldable pub arg_equals : ParseContext → Token → Outcome
arg_equals c t =
    if valid c.type_annot || not (names_property c.ident.id)
    then unexpected_token c t
    else go_to ParserState.property_value c

module _ (floats : FloatLib) where
  -- The saved token is an argument; it and its annotation are cleared.
  unfoldable pub flush : ParseContext → Outcome
  unfolding add_or_ignore
  flush c = do c' ← add_or_ignore floats c.ident c; ok (clear_saved c')

  unfoldable pub flush_saved : ParseContext → Outcome
  unfolding flush
  flush_saved c = if valid c.ident then flush c else ok c

  -- The token comment's part before the flags: the slashdash covers the saved token, or that is added.
  unfoldable pub flush_before_slashdash : ParseContext → Outcome
  unfolding add_argument_token
  flush_before_slashdash c =
      if c.ignore_next_arg_prop
      then ok (record c { ignore_next_arg_prop = false })
      else if valid c.ident
      then add_argument_token floats c.ident c.type_annot c
      else ok c

  abbrev pub mark_slashdash : ParseContext → Outcome
  mark_slashdash c =
      go_to ParserState.node_params
        (mark_ignore_from_continuation (record c { ignore_next_arg_prop = true }))

  abbrev pub after_flush : Token → ParseContext → Outcome
  after_flush t c =
      if valid c.ident
      then mark_slashdash (clear_saved c)
      else if valid c.type_annot
      then expected_value_after_type c t
      else mark_slashdash c

  unfoldable pub arg_token_comment : ParseContext → Token → Outcome
  unfolding flush_before_slashdash
  arg_token_comment c t = do c' ← flush_before_slashdash c; after_flush t c'

  abbrev open_block : ParseContext → Outcome
  open_block c =
      if c.ignore_next_arg_prop || ltb 0 c.ignore_children
      then ok (
          push_state ParserState.children
            (record c { ignore_next_arg_prop = false; ignore_children = c.ignore_children + 1 }))
      else ok (push_state ParserState.children c)

  unfoldable pub arg_brace_open : ParseContext → Token → Outcome
  unfolding flush_saved
  arg_brace_open c t = do c' ← flush_saved c; open_block c'

  unfoldable pub arg_whitespace : ParseContext → Token → Outcome
  unfolding flush
  arg_whitespace c t =
      if is_v2 c.opts.version then ok c else (do c' ← flush c; go_to ParserState.node_params c')

  unfoldable pub arg_terminator : ParseContext → Token → Outcome
  unfolding flush_saved pop_node_and_state
  arg_terminator c t =
      if c.continuation then ok c else (do c' ← flush_saved c; pop_node_and_state c')

  unfoldable pub arg_value : ParseContext → Token → Outcome
  unfolding flush
  arg_value c t = do c' ← flush c; ok (record c' { ident = t })

  unfoldable pub arg_brace_close : ParseContext → Token → Outcome
  unfolding flush_saved node_brace_close
  arg_brace_close c t = do c' ← flush_saved c; node_brace_close c' t

  abbrev pub add_or_ignore_property : Token → ParseContext → Outcome
  add_or_ignore_property t c =
      if c.ignore_next_arg_prop
      then ok (record c { ignore_next_arg_prop = false })
      else add_property_token floats c.ident t c.type_annot c

  unfoldable pub property_class_value : ParseContext → Token → Outcome
  unfolding add_property_token
  property_class_value c t = do
    c' ← add_or_ignore_property t c
    go_to ParserState.node (clear_saved c')
