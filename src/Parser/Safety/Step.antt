-- ===== src/Parser/Safety/Step.antt =====
-- internal/parser/parser.go: the invariant under a step and a run.
use gokdl.Base.{refl, Option, none, some, arith}
use gokdl.Go.Strconv.{FloatLib}
use gokdl.Parser.Context.{ParseContext, fail, unexpected_token}
use gokdl.Parser.Machine.Step.{
  parse_step, parse_token, handle, track_continuation, check_ignored_block, needs_separator,
}
use gokdl.Parser.Machine.Transitions.{Handler, find_handler}
use gokdl.Parser.Recent.{add}
use gokdl.Parser.Safety.Outer.{Keeps}
use gokdl.Parser.Safety.Stacks.{
  Inv, Safe, Yields, >>=-Safe, if-Safe, unexpected_error-safe, ignored_block_error-safe,
}
use gokdl.Parser.Safety.Table.{Holds, find_handler-Keeps}
use gokdl.Parser.State.{missing_separator, token_label}
use gokdl.Tokenizer.Token.{Token, valid}

handle-Safe : (floats : FloatLib) (t : Token) (c : ParseContext) → Inv c → Safe (handle floats t c)
unfolding handle
handle-Safe floats t c v =
    found (find_handler floats c.state t.id) (find_handler-Keeps floats c.state t.id)
  where
    found :
        (o : Option Handler)
        → Holds (Keeps c.state) o
        → Safe (elim o [ none ↦ unexpected_token c t | some h ↦ h c t ])
    found none _ = unexpected_error-safe c.state (valid c.type_annot) t.id
    found (some h) k = k c t refl v

track_continuation-Inv : (t : Token) (c : ParseContext) → Inv c → Inv (track_continuation t c)
unfolding track_continuation
track_continuation-Inv t c v = ground arith

check_ignored_block-Yields :
    (t : Token) (c : ParseContext) → Inv c → Yields Inv (check_ignored_block t c)
unfolding check_ignored_block
check_ignored_block-Yields t c v = ground (arith, ignored_block_error-safe t.id)

parse_token-Safe :
    (floats : FloatLib) (c : ParseContext) (t : Token) → Inv c → Safe (parse_token floats c t)
unfolding parse_token
parse_token-Safe floats c t v =
    if-Safe (needs_separator c t) (fail (missing_separator (token_label t.id))) _ (λ _. refl)
      (λ _.
        >>=-Safe Inv (check_ignored_block t c) _ (check_ignored_block-Yields t c v)
          (λ c' v'. handle-Safe floats t _ (track_continuation-Inv t c' v')))

-- A step on any token, from a context that keeps the invariant of the stacks, keeps it, and neither
-- dereferences nil nor finds a stack empty; a token is given again to a state outside a node only.
pub parse_step-Safe :
    (floats : FloatLib) (c : ParseContext) (t : Token) → Inv c → Safe (parse_step floats c t)
unfolding parse_step
parse_step-Safe floats c t v =
    parse_token-Safe floats (record c { recent = add c.recent t }) t (ground arith)
