-- ===== src/Parser/Safety/Reentry.antt =====
-- internal/parser/parser.go: `ErrReenterState` is never returned outside a node, nor at the end of the
-- input.
use mathlib.Core.Path.{subst}
use gokdl.Base.{sym, ◌≡◌, Bool, true, false, ◌∷◌, Option, none, some, arith, if◌then◌else◌}
use gokdl.Go.Strconv.{FloatLib}
use gokdl.Parser.Context.{
  ParseContext, Outcome, ok, reenter, fail, panic, ◌>>=◌, pop_node_and_state, pop_state,
  unexpected_token,
}
use gokdl.Parser.Handlers.ArgProp.{arg_terminator, flush_saved}
use gokdl.Parser.Handlers.InNode.{node_terminator, node_end_of_line}
use gokdl.Parser.Handlers.Outer.{
  untyped_whitespace, begin_continuation, begin_type_annot, document_identifier,
  children_identifier, document_terminator, outer_comment, outer_token_comment, children_newline,
  children_brace_close, name_node, begin_node, comment_after, leave_ignored,
}
use gokdl.Parser.Handlers.Params.{params_terminator}
use gokdl.Parser.Machine.Step.{
  parse_step, parse_token, handle, track_continuation, check_ignored_block, needs_separator,
}
use gokdl.Parser.Machine.Transitions.{
  Handler, document_transitions, children_transitions, state_transitions, find_handler,
  first_handler, arg_prop_transitions, property_value_transitions, params_transitions,
  type_annot_transitions, type_done_transitions, node_transitions, node_end_transitions,
  property_transitions,
}
use gokdl.Parser.Recent.{add}
use gokdl.Parser.Safety.Stacks.{is_outer}
use gokdl.Parser.Safety.Table.{Holds, first_handler-Holds}
use gokdl.Parser.State.{ParserState, missing_separator, token_label}
use gokdl.Tokenizer.Token.{TokenId, Token, classes}

-- The outcome is not `ErrReenterState`.
abbrev pub Moves : Outcome → Type 0
Moves (reenter c) = ⊥
Moves _ = Unit

abbrev Advances : Handler → Type 0
Advances h = (c : ParseContext) (t : Token) → Moves (h c t)

>>=-Moves :
    (m : Outcome) (f : ParseContext → Outcome)
    → Moves m
    → ((c : ParseContext) → Moves (f c))
    → Moves (m >>= f)
>>=-Moves (ok c) f y h = h c
>>=-Moves (reenter c) f y h = absurd y
>>=-Moves (fail e) f y h = tt
>>=-Moves panic f y h = tt

if-Moves : (b : Bool) (m n : Outcome) → Moves m → Moves n → Moves (if b then m else n)
if-Moves true m n h k = h
if-Moves false m n h k = k

name_node-Moves : (floats : FloatLib) (t : Token) (c : ParseContext) → Moves (name_node floats t c)
unfolding name_node
name_node-Moves floats t c = ground arith

pop_state-Moves : (c : ParseContext) → Moves (pop_state c)
unfolding pop_state
pop_state-Moves c = ground arith

pop_node_and_state-Moves : (c : ParseContext) → Moves (pop_node_and_state c)
unfolding pop_node_and_state
pop_node_and_state-Moves c = ground arith

untyped_whitespace-Advances : Advances untyped_whitespace
untyped_whitespace-Advances c t = ground arith

begin_continuation-Advances : Advances begin_continuation
begin_continuation-Advances c t = tt

begin_type_annot-Advances : Advances begin_type_annot
begin_type_annot-Advances c t = tt

document_terminator-Advances : Advances document_terminator
unfolding document_terminator
document_terminator-Advances c t = ground arith

outer_comment-Advances : Advances outer_comment
unfolding outer_comment
outer_comment-Advances c t = ground arith

outer_token_comment-Advances : Advances outer_token_comment
unfolding outer_token_comment
outer_token_comment-Advances c t = ground arith

children_newline-Advances : Advances children_newline
unfolding children_newline
children_newline-Advances c t = tt

comment_after-Moves : (c : ParseContext) → Moves (comment_after c)
unfolding comment_after
comment_after-Moves c = ground arith

children_brace_close-Advances : Advances children_brace_close
unfolding children_brace_close
children_brace_close-Advances c t =
    if-Moves c.ignore_next_node (unexpected_token c t) _ tt (
      >>=-Moves (comment_after (leave_ignored c)) pop_state (comment_after-Moves _) pop_state-Moves)

module _ (floats : FloatLib) where
  document_identifier-Advances : Advances (document_identifier floats)
  unfolding document_identifier
  document_identifier-Advances c t = name_node-Moves floats t (begin_node c.ignore_next_node c)

  children_identifier-Advances : Advances (children_identifier floats)
  unfolding children_identifier
  children_identifier-Advances c t = name_node-Moves floats t (begin_node _ c)

  document_Advances : (id : TokenId) → Holds Advances (document_transitions floats id)
  unfolding document_transitions
  document_Advances TokenId.whitespace = untyped_whitespace-Advances
  document_Advances TokenId.class_identifier = document_identifier-Advances
  document_Advances TokenId.parens_open = begin_type_annot-Advances
  document_Advances TokenId.class_terminator = document_terminator-Advances
  document_Advances TokenId.class_comment = outer_comment-Advances
  document_Advances TokenId.token_comment = outer_token_comment-Advances
  document_Advances TokenId.continuation = begin_continuation-Advances
  document_Advances _ = tt

  children_Advances : (id : TokenId) → Holds Advances (children_transitions floats id)
  unfolding children_transitions
  children_Advances TokenId.whitespace = untyped_whitespace-Advances
  children_Advances TokenId.class_comment = outer_comment-Advances
  children_Advances TokenId.continuation = begin_continuation-Advances
  children_Advances TokenId.token_comment = outer_token_comment-Advances
  children_Advances TokenId.parens_open = begin_type_annot-Advances
  children_Advances TokenId.newline = children_newline-Advances
  children_Advances TokenId.class_identifier = children_identifier-Advances
  children_Advances TokenId.brace_close = children_brace_close-Advances
  children_Advances _ = tt

  outer_Advances :
      (s : ParserState) (id : TokenId)
      → is_outer s ≡ true
      → Holds Advances (find_handler floats s id)
  unfolding find_handler state_transitions
  outer_Advances ParserState.document id o =
      first_handler-Holds Advances (document_transitions floats) (id ∷ classes id) document_Advances
  outer_Advances ParserState.children id o =
      first_handler-Holds Advances (children_transitions floats) (id ∷ classes id) children_Advances
  outer_Advances _ id o = cc

  handle-Moves :
      (t : Token) (c : ParseContext)
      → Holds Advances (find_handler floats c.state t.id)
      → Moves (handle floats t c)
  unfolding handle
  handle-Moves t c h = found (find_handler floats c.state t.id) h
    where
      found :
          (o : Option Handler)
          → Holds Advances o
          → Moves (elim o [ none ↦ unexpected_token c t | some h ↦ h c t ])
      found none _ = tt
      found (some h) k = k c t

-- What a step before the handler's call leaves.
abbrev Gives : (ParseContext → Type 0) → Outcome → Type 0
Gives P (ok c) = P c
Gives P (reenter c) = ⊥
Gives P (fail e) = Unit
Gives P panic = Unit

>>=-Moves_at :
    (P : ParseContext → Type 0) (m : Outcome) (f : ParseContext → Outcome)
    → Gives P m
    → ((c : ParseContext) → P c → Moves (f c))
    → Moves (m >>= f)
>>=-Moves_at P (ok c) f y h = h c y
>>=-Moves_at P (reenter c) f y h = absurd y
>>=-Moves_at P (fail e) f y h = tt
>>=-Moves_at P panic f y h = tt

check_ignored_block-outer :
    (t : Token) (c : ParseContext)
    → is_outer c.state ≡ true
    → Gives (λ c'. is_outer c'.state ≡ true) (check_ignored_block t c)
unfolding check_ignored_block
check_ignored_block-outer t c o = ground arith

check_ignored_block-Gives :
    (t : Token) (c : ParseContext) → Gives (λ _. Unit {0}) (check_ignored_block t c)
unfolding check_ignored_block
check_ignored_block-Gives t c = ground arith

track_continuation-outer :
    (t : Token) (c : ParseContext)
    → is_outer c.state ≡ true
    → is_outer (track_continuation t c).state ≡ true
unfolding track_continuation
track_continuation-outer t c o = ground arith

node_terminator-Advances : Advances node_terminator
unfolding node_terminator
node_terminator-Advances c t = ground arith

node_end_of_line-Advances : Advances node_end_of_line
unfolding node_end_of_line
node_end_of_line-Advances c t = ground arith

params_terminator-Advances : Advances params_terminator
unfolding params_terminator
params_terminator-Advances c t = ground arith

module _ (floats : FloatLib) where
  flush_saved-Moves : (c : ParseContext) → Moves (flush_saved floats c)
  unfolding flush_saved
  flush_saved-Moves c = ground arith

  arg_terminator-Advances : Advances (arg_terminator floats)
  unfolding arg_terminator
  arg_terminator-Advances c t = if-Moves c.continuation (ok c) _ tt (
      >>=-Moves (flush_saved floats c) pop_node_and_state (flush_saved-Moves c)
        pop_node_and_state-Moves)

  eof_Advances : (s : ParserState) → Holds Advances (find_handler floats s TokenId.eof)
  unfolding find_handler first_handler classes state_transitions document_transitions
      children_transitions arg_prop_transitions property_value_transitions params_transitions
      type_annot_transitions type_done_transitions node_transitions node_end_transitions
      property_transitions
  eof_Advances ParserState.document = document_terminator-Advances
  eof_Advances ParserState.children = tt
  eof_Advances ParserState.type_annot = tt
  eof_Advances ParserState.type_done = tt
  eof_Advances ParserState.node = node_terminator-Advances
  eof_Advances ParserState.node_params = params_terminator-Advances
  eof_Advances ParserState.node_end = node_end_of_line-Advances
  eof_Advances ParserState.property = tt
  eof_Advances ParserState.arg_prop = arg_terminator-Advances
  eof_Advances ParserState.property_value = tt

  -- In stateDocument and stateChildren a step on any token never asks for the token once more.
  pub parse_step-Moves :
      (c : ParseContext) (t : Token) → is_outer c.state ≡ true → Moves (parse_step floats c t)
  unfolding parse_step parse_token
  parse_step-Moves c t o =
      let c₁ = record c { recent = add c.recent t } in
      if-Moves (needs_separator c₁ t) (fail (missing_separator (token_label t.id))) _ tt (
        >>=-Moves_at (λ c'. is_outer c'.state ≡ true) (check_ignored_block t c₁) _
          (check_ignored_block-outer t c₁ o)
          (λ c' o'. handle-Moves floats t (track_continuation t c') (
            outer_Advances floats (track_continuation t c').state t.id
              (track_continuation-outer t c' o'))))

  -- The end of the input is never given again.
  pub parse_step-eof_Moves :
      (c : ParseContext) (t : Token) → t.id ≡ TokenId.eof → Moves (parse_step floats c t)
  unfolding parse_step parse_token
  parse_step-eof_Moves c t e =
      let c₁ = record c { recent = add c.recent t } in
      if-Moves (needs_separator c₁ t) (fail (missing_separator (token_label t.id))) _ tt (
        >>=-Moves_at (λ _. Unit {0}) (check_ignored_block t c₁) _ (check_ignored_block-Gives t c₁)
          (λ c' _. handle-Moves floats t (track_continuation t c') (
            subst (λ id. Holds Advances (find_handler floats (track_continuation t c').state id))
              (sym e) (eof_Advances (track_continuation t c').state))))
