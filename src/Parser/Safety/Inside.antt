-- ===== src/Parser/Safety/Inside.antt =====
-- internal/parser/transitions.go: the invariant under the functions inside a node.
use gokdl.Base.{◌≡◌, refl, true, arith}
use gokdl.Go.Strconv.{FloatLib}
use gokdl.Parser.Context.{ParseContext, ok, ◌>>=◌, pop_node_and_state, clear_saved}
use gokdl.Parser.Handlers.ArgProp.{
  arg_equals, arg_token_comment, arg_brace_open, arg_whitespace, arg_terminator, arg_value,
  arg_brace_close, property_class_value, flush, flush_saved, flush_before_slashdash, after_flush,
  add_or_ignore_property,
}
use gokdl.Parser.Handlers.InNode.{
  node_brace_close, node_whitespace, node_terminator, node_equals, node_brace_open, v2_comment,
  node_end_whitespace, node_end_of_line, property_equals, go_to,
}
use gokdl.Parser.Handlers.Params.{
  params_equals, params_token_comment, params_comment, params_line_comment, params_bare_identifier,
  params_value, params_suffixed_decimal, params_brace_open, params_terminator, add_or_ignore,
}
use gokdl.Parser.Safety.Outer.{Keeps}
use gokdl.Parser.Safety.Stacks.{
  Safe, value_from_token-reads, in_node, unexpected_error-safe, expected_value_error-safe,
  pop_node_and_state-Safe, WellStacked-in_node, >>=-Safe, if-Safe, Yields, At,
}
use gokdl.Parser.State.{ParserState}
use gokdl.Tokenizer.Token.{Token, valid, is_v2}

pub node_brace_close-Keeps : (s : ParserState) → in_node s ≡ true → Keeps s node_brace_close
unfolding node_brace_close
node_brace_close-Keeps s h c t e v = ground arith

pub node_whitespace-Keeps : Keeps ParserState.node node_whitespace
unfolding node_whitespace
node_whitespace-Keeps c t e v =
    ground (arith, WellStacked-in_node c.state ParserState.node_params c.states)

pub node_terminator-Keeps : Keeps ParserState.node node_terminator
unfolding node_terminator
node_terminator-Keeps c t e v = ground arith

pub node_equals-Keeps : Keeps ParserState.node node_equals
unfolding node_equals
node_equals-Keeps c t e v = ground (
  arith,
  unexpected_error-safe c.state (valid c.type_annot) t.id,
  WellStacked-in_node c.state ParserState.node_params c.states,
)

pub node_brace_open-Keeps : Keeps ParserState.node node_brace_open
unfolding node_brace_open
node_brace_open-Keeps c t e v = ground arith

pub v2_comment-Keeps : (s : ParserState) → Keeps s v2_comment
unfolding v2_comment
v2_comment-Keeps s c t e v = ground (arith, unexpected_error-safe c.state (valid c.type_annot) t.id)

pub node_end_whitespace-Keeps : Keeps ParserState.node_end node_end_whitespace
unfolding node_end_whitespace
node_end_whitespace-Keeps c t e v = v

pub node_end_of_line-Keeps : Keeps ParserState.node_end node_end_of_line
unfolding node_end_of_line
node_end_of_line-Keeps c t e v = ground (
  arith,
  WellStacked-in_node c.state ParserState.node_params c.states,
  pop_node_and_state-Safe c v,
)

pub property_equals-Keeps : Keeps ParserState.property property_equals
unfolding property_equals
property_equals-Keeps c t e v = ground (
  arith,
  unexpected_error-safe c.state (valid c.type_annot) t.id,
  WellStacked-in_node c.state ParserState.property_value c.states,
)

pub params_equals-Keeps : Keeps ParserState.node_params params_equals
unfolding params_equals
params_equals-Keeps c t e v =
    ground (arith, unexpected_error-safe c.state (valid c.type_annot) t.id)

pub params_token_comment-Keeps : Keeps ParserState.node_params params_token_comment
unfolding params_token_comment
params_token_comment-Keeps c t e v =
    ground (arith, unexpected_error-safe c.state (valid c.type_annot) t.id)

pub params_comment-Keeps : Keeps ParserState.node_params params_comment
unfolding params_comment
params_comment-Keeps c t e v =
    ground (arith, unexpected_error-safe c.state (valid c.type_annot) t.id)

pub params_line_comment-Keeps : Keeps ParserState.node_params params_line_comment
unfolding params_line_comment
params_line_comment-Keeps c t e v =
    ground (arith, WellStacked-in_node c.state ParserState.node_end c.states)

pub params_bare_identifier-Keeps : Keeps ParserState.node_params params_bare_identifier
unfolding params_bare_identifier
params_bare_identifier-Keeps c t e v = ground (
  arith,
  WellStacked-in_node c.state ParserState.arg_prop c.states,
  WellStacked-in_node c.state ParserState.property c.states,
)

pub params_value-Keeps : Keeps ParserState.node_params params_value
unfolding params_value
params_value-Keeps c t e v =
    ground (arith, WellStacked-in_node c.state ParserState.arg_prop c.states)

pub params_brace_open-Keeps : Keeps ParserState.node_params params_brace_open
unfolding params_brace_open
params_brace_open-Keeps c t e v = ground arith

pub params_terminator-Keeps : Keeps ParserState.node_params params_terminator
unfolding params_terminator
params_terminator-Keeps c t e v =
    ground (
      arith,
      unexpected_error-safe c.state (valid c.type_annot) t.id,
      expected_value_error-safe t.id,
    )

pub arg_equals-Keeps : Keeps ParserState.arg_prop arg_equals
unfolding arg_equals
arg_equals-Keeps c t e v = ground (
  arith,
  unexpected_error-safe c.state (valid c.type_annot) t.id,
  WellStacked-in_node c.state ParserState.property_value c.states,
)

-- A move to another state of the node keeps the invariant.
moved :
    (s s' : ParserState)
    → in_node s ≡ true
    → in_node s' ≡ true
    → (c : ParseContext) → At s c
    → Safe (go_to s' c)
moved s s' h h' c (e, v) = ground (arith, WellStacked-in_node c.state s' c.states)

module _ (floats : FloatLib) where
  add_or_ignore-Yields :
      (s : ParserState) (t : Token) (c : ParseContext)
      → in_node s ≡ true
      → At s c
      → Yields (At s) (add_or_ignore floats t c)
  unfolding add_or_ignore
  add_or_ignore-Yields s t c h (e, v) = ground (arith, value_from_token-reads floats t)

  flush-Yields :
      (c : ParseContext)
      → At ParserState.arg_prop c
      → Yields (At ParserState.arg_prop) (flush floats c)
  unfolding flush
  flush-Yields c a = ground (arith, add_or_ignore-Yields ParserState.arg_prop c.ident c refl a)

  flush_saved-Yields :
      (c : ParseContext)
      → At ParserState.arg_prop c
      → Yields (At ParserState.arg_prop) (flush_saved floats c)
  unfolding flush_saved
  flush_saved-Yields c a = ground (arith, flush-Yields c a)

  pub params_suffixed_decimal-Keeps : Keeps ParserState.node_params (params_suffixed_decimal floats)
  unfolding params_suffixed_decimal
  params_suffixed_decimal-Keeps c t e v =
      >>=-Safe (At ParserState.node_params) (add_or_ignore floats t (clear_saved c)) _
        (add_or_ignore-Yields ParserState.node_params t (clear_saved c) refl (ground arith))
        (moved ParserState.node_params ParserState.node_params refl refl)

  flush_before_slashdash-Yields :
      (c : ParseContext)
      → At ParserState.arg_prop c
      → Yields (At ParserState.arg_prop) (flush_before_slashdash floats c)
  unfolding flush_before_slashdash
  flush_before_slashdash-Yields c (e, v) = ground (arith, value_from_token-reads floats c.ident)

  after_flush-Safe :
      (t : Token) (c : ParseContext) → At ParserState.arg_prop c → Safe (after_flush floats t c)
  after_flush-Safe t c (e, v) = ground (
    arith,
    expected_value_error-safe t.id,
    WellStacked-in_node c.state ParserState.node_params c.states,
  )

  pub arg_token_comment-Keeps : Keeps ParserState.arg_prop (arg_token_comment floats)
  unfolding arg_token_comment
  arg_token_comment-Keeps c t e v =
      >>=-Safe (At ParserState.arg_prop) (flush_before_slashdash floats c) (after_flush floats t)
        (flush_before_slashdash-Yields c (e, v)) (λ c' a. after_flush-Safe t c' a)

  pub arg_brace_open-Keeps : Keeps ParserState.arg_prop (arg_brace_open floats)
  unfolding arg_brace_open
  arg_brace_open-Keeps c t e v =
      >>=-Safe (At ParserState.arg_prop) (flush_saved floats c) _ (flush_saved-Yields c (e, v))
        (λ c' a. ground arith)

  pub arg_whitespace-Keeps : Keeps ParserState.arg_prop (arg_whitespace floats)
  unfolding arg_whitespace
  arg_whitespace-Keeps c t e v =
      if-Safe (is_v2 c.opts.version) (ok c) (flush floats c >>= go_to ParserState.node_params)
        (λ v2. v)
        (λ v1.
          >>=-Safe (At ParserState.arg_prop) (flush floats c) _ (flush-Yields c (e, v))
            (moved ParserState.arg_prop ParserState.node_params refl refl))

  pub arg_terminator-Keeps : Keeps ParserState.arg_prop (arg_terminator floats)
  unfolding arg_terminator
  arg_terminator-Keeps c t e v =
      if-Safe c.continuation (ok c) (flush_saved floats c >>= pop_node_and_state) (λ on. v)
        (λ off.
          >>=-Safe (At ParserState.arg_prop) (flush_saved floats c) pop_node_and_state
            (flush_saved-Yields c (e, v)) (λ c' a. pop_node_and_state-Safe c' a.1 (ground arith)))

  pub arg_value-Keeps : Keeps ParserState.arg_prop (arg_value floats)
  unfolding arg_value
  arg_value-Keeps c t e v =
      >>=-Safe (At ParserState.arg_prop) (flush floats c) _ (flush-Yields c (e, v))
        (λ c' a. ground arith)

  pub arg_brace_close-Keeps : Keeps ParserState.arg_prop (arg_brace_close floats)
  unfolding arg_brace_close
  arg_brace_close-Keeps c t e v =
      >>=-Safe (At ParserState.arg_prop) (flush_saved floats c) _ (flush_saved-Yields c (e, v))
        (λ c' a. node_brace_close-Keeps ParserState.arg_prop refl c' t a.0 a.1)

  add_or_ignore_property-Yields :
      (t : Token) (c : ParseContext)
      → At ParserState.property_value c
      → Yields (At ParserState.property_value) (add_or_ignore_property floats t c)
  unfolding property_class_value
  add_or_ignore_property-Yields t c (e, v) =
      ground (arith, value_from_token-reads floats t, value_from_token-reads floats c.ident)

  pub property_class_value-Keeps : Keeps ParserState.property_value (property_class_value floats)
  unfolding property_class_value
  property_class_value-Keeps c t e v =
      >>=-Safe (At ParserState.property_value) (add_or_ignore_property floats t c) _
        (add_or_ignore_property-Yields t c (e, v))
        (λ c' a.
          moved ParserState.property_value ParserState.node refl refl (clear_saved c')
            (ground arith))
