-- ===== src/Parser/Safety/Outer.antt =====
-- internal/parser/transitions.go: the invariant under the functions outside a node.
use gokdl.Base.{suc, ◌≡◌, ◌≢◌, inl, inr, Bool, true, length, Bool-cases, ◌==◌, arith}
use gokdl.Go.Strconv.{FloatLib}
use gokdl.Parser.Context.{
  ParseContext, Outcome, pop_state, push_state, set_node_name_token, unexpected_token, ◌>>=◌,
}
use gokdl.Parser.Handlers.Outer.{
  untyped_whitespace, begin_continuation, begin_type_annot, document_identifier,
  children_identifier, document_terminator, outer_comment, outer_token_comment, children_newline,
  children_brace_close, begin_node, name_node, take_comment, take_type, comment_after,
  leave_ignored,
}
use gokdl.Parser.Handlers.Types.{v2_only, v2_continuation, type_name, type_parens_close}
use gokdl.Parser.Machine.Transitions.{Handler}
use gokdl.Parser.Safety.Stacks.{
  value_from_token-reads, Inv, Safe, WellStacked, node_depth, is_outer, takes_type, is_some,
  pop_state-Safe, WellStacked-type_done, >>=-Safe, if-Safe, pending_in_children, Yields, At,
  unexpected_error-safe, expected_value_error-safe,
}
use gokdl.Parser.State.{ParserState}
use gokdl.Tokenizer.Token.{Token, valid}

no_node_in_children :
    (c : ParseContext) → c.state ≡ ParserState.children → Inv c → length c.node ≢ 0
no_node_in_children c e v = ground (arith, pending_in_children c.states)

-- A handler keeps the invariant in a state.
abbrev pub Keeps : ParserState → Handler → Type 0
Keeps s h = (c : ParseContext) (t : Token) → c.state ≡ s → Inv c → Safe (h c t)

-- A node was pushed, and its state was not yet.
pub record Begun (c : ParseContext) : Type 0 where
  pub outer : is_outer c.state ≡ true
  pub stacked : WellStacked c.state c.states
  pub depth : length c.node ≡ suc (node_depth c.state c.states)
  pub last_added : is_some c.last_added_node ≡ true

pub begin_node-Begun :
    (ignored : Bool) (c : ParseContext)
    → Inv c
    → is_outer c.state ≡ true
    → Begun (begin_node ignored c)
unfolding begin_node
begin_node-Begun ignored c v o = ground arith

set_node_name_token-Yields :
    (floats : FloatLib) (t : Token) (c : ParseContext)
    → Begun c
    → Yields Begun (set_node_name_token floats t c)
unfolding set_node_name_token
set_node_name_token-Yields floats t c b = ground (arith, value_from_token-reads floats t)

take_comment-Yields : (c : ParseContext) → Begun c → Yields Begun (take_comment c)
unfolding take_comment
take_comment-Yields c b = ground arith

take_type-Yields : (c : ParseContext) → Begun c → Yields Begun (take_type c)
unfolding take_type
take_type-Yields c b = ground arith

Begun-push_state : (c : ParseContext) → Begun c → Inv (push_state ParserState.node c)
Begun-push_state c b = ground arith

>>=-Begun :
    (m : Outcome) (f : ParseContext → Outcome)
    → Yields Begun m
    → ((c : ParseContext) → Begun c → Safe (f c))
    → Safe (m >>= f)
>>=-Begun = >>=-Safe Begun

pub name_node-Safe :
    (floats : FloatLib) (t : Token) (c : ParseContext) → Begun c → Safe (name_node floats t c)
unfolding name_node
name_node-Safe floats t c b =
    >>=-Begun (set_node_name_token floats t c) _ (set_node_name_token-Yields floats t c b) (λ c₁ b₁.
      >>=-Begun (take_comment c₁) _ (take_comment-Yields c₁ b₁)
        (λ c₂ b₂. >>=-Begun (take_type c₂) _ (take_type-Yields c₂ b₂) Begun-push_state))

module _ (floats : FloatLib) where
  pub document_identifier-Keeps : Keeps ParserState.document (document_identifier floats)
  unfolding document_identifier
  document_identifier-Keeps c t s v =
      name_node-Safe floats t _ (begin_node-Begun _ c v (ground arith))

  pub children_identifier-Keeps : Keeps ParserState.children (children_identifier floats)
  unfolding children_identifier
  children_identifier-Keeps c t s v =
      name_node-Safe floats t _ (begin_node-Begun _ c v (ground arith))

pub untyped_whitespace-Keeps : (s : ParserState) → Keeps s untyped_whitespace
untyped_whitespace-Keeps s c t e v =
    ground (arith, unexpected_error-safe c.state (valid c.type_annot) t.id)

pub begin_continuation-Keeps : (s : ParserState) → Keeps s begin_continuation
begin_continuation-Keeps s c t e v = ground arith

pub begin_type_annot-Keeps : (s : ParserState) → takes_type s ≡ true → Keeps s begin_type_annot
begin_type_annot-Keeps s h c t e v = ground arith

pub document_terminator-Keeps : Keeps ParserState.document document_terminator
unfolding document_terminator
document_terminator-Keeps c t e v = ground (arith, expected_value_error-safe t.id)

pub outer_comment-Keeps : (s : ParserState) → Keeps s outer_comment
unfolding outer_comment
outer_comment-Keeps s c t e v =
    ground (arith, unexpected_error-safe c.state (valid c.type_annot) t.id)

pub outer_token_comment-Keeps : (s : ParserState) → Keeps s outer_token_comment
unfolding outer_token_comment
outer_token_comment-Keeps s c t e v =
    ground (arith, unexpected_error-safe c.state (valid c.type_annot) t.id)

pub children_newline-Keeps : (s : ParserState) → Keeps s children_newline
unfolding children_newline
children_newline-Keeps s c t e v = v

leave_ignored-At :
    (c : ParseContext) → At ParserState.children c → At ParserState.children (leave_ignored c)
unfolding leave_ignored
leave_ignored-At c a = ground arith

comment_after-Yields :
    (c : ParseContext)
    → At ParserState.children c
    → Yields (At ParserState.children) (comment_after c)
unfolding comment_after
comment_after-Yields c (e, v) = elim (Bool-cases (length c.node == 0)) [
  | inl nothing ↦ absurd (no_node_in_children c e v (ground arith))
  | inr node ↦ ground arith
]

pub children_brace_close-Keeps : Keeps ParserState.children children_brace_close
unfolding children_brace_close
children_brace_close-Keeps c t e v =
    if-Safe c.ignore_next_node (unexpected_token c t)
      (comment_after (leave_ignored c) >>= pop_state)
      (λ ignored. unexpected_error-safe c.state _ t.id)
      (λ seen.
        >>=-Safe (At ParserState.children) (comment_after (leave_ignored c)) pop_state
          (comment_after-Yields _ (leave_ignored-At c (e, v)))
          (λ c' a. pop_state-Safe c' a.1 (ground arith) (ground arith)))

pub v2_only-Keeps : (s : ParserState) → Keeps s v2_only
v2_only-Keeps s c t e v = ground (arith, unexpected_error-safe c.state (valid c.type_annot) t.id)

pub v2_continuation-Keeps : (s : ParserState) → Keeps s v2_continuation
v2_continuation-Keeps s c t e v =
    ground (arith, unexpected_error-safe c.state (valid c.type_annot) t.id)

pub type_name-Keeps : Keeps ParserState.type_annot type_name
unfolding type_name
type_name-Keeps c t e v = ground (arith, WellStacked-type_done c.states)

pub type_parens_close-Keeps : Keeps ParserState.type_done type_parens_close
unfolding type_parens_close
type_parens_close-Keeps c t e v = ground arith
