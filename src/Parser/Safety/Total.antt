-- ===== src/Parser/Safety/Total.antt =====
-- internal/parser/parser.go and kdl.go: a run over any tokens ends, in two rounds a token at most, and
-- neither dereferences nil nor finds a stack empty.
use gokdl.Base.{ℕ, zero, suc, ◌≤◌, ◌≡◌, refl, true, false, List, [], ◌∷◌, arith}
use gokdl.Go.Strconv.{FloatLib}
use gokdl.Parser.Context.{ParseContext, Outcome, ok, reenter, fail, panic, Options, new_context}
use gokdl.Parser.Machine.Run.{
  Run, finished, rejected, reentry, crashed, exhausted, enough, parse_tokens, parse_one,
  parse_all_context, finish_run, eof_behind,
}
use gokdl.Parser.Machine.Step.{parse_step}
use gokdl.Parser.Safety.Reentry.{Moves, parse_step-Moves, parse_step-eof_Moves}
use gokdl.Parser.Safety.Stacks.{Inv, Safe, is_outer, is_internal_error, new_context-Inv}
use gokdl.Parser.Safety.Step.{parse_step-Safe}
use gokdl.Tokenizer.Token.{TokenId, Token}

-- The run ended with a context that keeps the invariant, or with an error of the input.
abbrev pub Sound : Run → Type 0
Sound (finished c) = Inv c
Sound (rejected e t) = is_internal_error e ≡ false
Sound (reentry t) = ⊥
Sound crashed = ⊥
Sound exhausted = ⊥

module _ (floats : FloatLib) where
  -- The rest of the run, from the outcome of a step.
  abbrev rest_of : ℕ → Token → List Token → Outcome → Run
  rest_of fuel t ts o = elim o [
    | ok c' ↦ parse_tokens floats fuel c' ts
    | reenter c' ↦ parse_tokens floats fuel c' (t ∷ ts)
    | fail e ↦ rejected e t
    | panic ↦ crashed
  ]

  abbrev RunsOn : ℕ → List Token → Type 0
  RunsOn fuel ts = (c : ParseContext) → Inv c → Sound (parse_tokens floats fuel c ts)

  -- A step that does not give the token again.
  rest_of-Moves :
      (fuel : ℕ) (t : Token) (ts : List Token) (o : Outcome)
      → Safe o
      → Moves o
      → RunsOn fuel ts
      → Sound (rest_of fuel t ts o)
  rest_of-Moves fuel t ts (ok c) s m next = next c s
  rest_of-Moves fuel t ts (reenter c) s m next = absurd m
  rest_of-Moves fuel t ts (fail e) s m next = s
  rest_of-Moves fuel t ts panic s m next = s

  outer_Sound :
      (fuel : ℕ) (c : ParseContext) (t : Token) (ts : List Token)
      → Inv c
      → is_outer c.state ≡ true
      → RunsOn fuel ts
      → Sound (parse_tokens floats (suc fuel) c (t ∷ ts))
  unfolding parse_tokens
  outer_Sound fuel c t ts v o next =
      rest_of-Moves fuel t ts (parse_step floats c t) (parse_step-Safe floats c t v)
        (parse_step-Moves floats c t o) next

  rest_of-Sound :
      (fuel : ℕ) (t : Token) (ts : List Token) (o : Outcome)
      → Safe o
      → RunsOn (suc fuel) ts
      → RunsOn fuel ts
      → Sound (rest_of (suc fuel) t ts o)
  rest_of-Sound fuel t ts (ok c) s next later = next c s
  rest_of-Sound fuel t ts (reenter c) s next later = outer_Sound fuel c t ts s.0 s.1 later
  rest_of-Sound fuel t ts (fail e) s next later = s
  rest_of-Sound fuel t ts panic s next later = s

  pub parse_tokens-Sound : (ts : List Token) (fuel : ℕ) → enough ts ≤ fuel → RunsOn fuel ts
  unfolding parse_tokens
  parse_tokens-Sound [] fuel h c v = v
  parse_tokens-Sound (t ∷ ts) zero h c v = absurd (omega arith)
  parse_tokens-Sound (t ∷ ts) (suc zero) h c v = absurd (omega arith)
  parse_tokens-Sound (t ∷ ts) (suc (suc fuel)) h c v =
      rest_of-Sound fuel t ts (parse_step floats c t) (parse_step-Safe floats c t v)
        (parse_tokens-Sound ts (suc fuel) (omega arith)) (parse_tokens-Sound ts fuel (omega arith))

  -- `parseOne` over any tokens, from a new context with any options: the run ends, two rounds a token
  -- suffice, no nil is dereferenced, `ErrReenterState` does not get out, an error is not about an
  -- empty stack or a loop of unquoting without fuel, and what is left keeps the invariant of the stacks.
  pub parse_one-Sound : (o : Options) (ts : List Token) → Sound (parse_one floats o ts)
  unfolding parse_one
  parse_one-Sound o ts =
      parse_tokens-Sound ts (enough ts) (omega arith) (new_context o) (new_context-Inv o)

  eof_behind-eof : (ts : List Token) → (eof_behind ts).id ≡ TokenId.eof
  unfolding eof_behind
  eof_behind-eof [] = refl
  eof_behind-eof (t ∷ ts) = refl

  abbrev last_of : Token → Outcome → Run
  last_of eof o = elim o [
    | ok c' ↦ finished c'
    | reenter c' ↦ reentry eof
    | fail e ↦ rejected e eof
    | panic ↦ crashed
  ]

  last_of-Sound : (eof : Token) (o : Outcome) → Safe o → Moves o → Sound (last_of eof o)
  last_of-Sound eof (ok c) s m = s
  last_of-Sound eof (reenter c) s m = absurd m
  last_of-Sound eof (fail e) s m = s
  last_of-Sound eof panic s m = s

  finish_run-Sound :
      (eof : Token) (r : Run) → eof.id ≡ TokenId.eof → Sound r → Sound (finish_run floats eof r)
  unfolding finish_run
  finish_run-Sound eof (finished c) e v =
      last_of-Sound eof (parse_step floats c eof) (parse_step-Safe floats c eof v)
        (parse_step-eof_Moves floats c eof e)
  finish_run-Sound eof (rejected x t) e v = v
  finish_run-Sound eof (reentry t) e v = v
  finish_run-Sound eof crashed e v = v
  finish_run-Sound eof exhausted e v = v

  -- `ParseAllContext` over any tokens, from a context that keeps the invariant of the stacks: the run,
  -- with the end token behind the tokens, ends in two rounds a token; no nil is dereferenced,
  -- `ErrReenterState` does not get out, an error is not about an empty stack or a loop of
  -- unquoting without fuel, and what is left keeps the invariant.
  pub parse_all_context-Sound :
      (c : ParseContext) (ts : List Token) → Inv c → Sound (parse_all_context floats c ts)
  unfolding parse_all_context
  parse_all_context-Sound c ts v =
      finish_run-Sound (eof_behind ts) _ (eof_behind-eof ts)
        (parse_tokens-Sound ts (enough ts) (omega arith) c v)
