-- ===== src/Kdl/Interleaved.antt =====
-- kdl.go: the loop of parseOne, which scans a token when the parser is ready for it, against a scan of
-- the whole input with a run of the parser behind it.
use gokdl.Base.{ℕ, zero, suc, ◌≡◌, refl, sym, ◌∙◌, ap, List, [], ◌∷◌, ◌++◌, Bool, arith}
use gokdl.Go.Strconv.{FloatLib}
use gokdl.Kdl.{
  Parsed, parsed, scan_failed, parse_failed, options_of, behind_token, behind_loop, give,
  parse_loop, parse_scanner,
}
use gokdl.Kdl.Total.{give-Sound, scan_rest, loop_rest}
use gokdl.Parser.Context.{ParseContext, Outcome, ok, reenter, fail, panic, new_context}
use gokdl.Parser.Machine.Run.{
  Run, finished, rejected, reentry, crashed, exhausted, enough, parse_tokens, parse_one,
}
use gokdl.Parser.Machine.Step.{parse_step}
use gokdl.Parser.Safety.Reentry.{Moves, parse_step-Moves}
use gokdl.Parser.Safety.Stacks.{Inv, Safe, new_context-Inv}
use gokdl.Parser.Safety.Step.{parse_step-Safe}
use gokdl.Parser.Safety.Total.{Sound, parse_tokens-Sound}
use gokdl.Tokenizer.Input.{count}
use gokdl.Tokenizer.Scanner.Loop.{Ending, ended, stopped, ending_of, scan_from, scan}
use gokdl.Tokenizer.Scanner.Next.{Next, token, halted, read_next}
use gokdl.Tokenizer.Scanner.State.{Scanner}
use gokdl.Tokenizer.Token.{Token, Version}

-- The tokens that a scan gives, the end token included.
abbrev pub tokens_given : List Token × Ending → List Token
tokens_given (ts, ended t) = ts ++ t ∷ []
tokens_given (ts, stopped e) = ts

-- What is made of the ending of the scan and of the run over its tokens: an error of the parser comes
-- first.
abbrev pub answer : Ending → Run → Parsed
answer e (rejected x t) = parse_failed (rejected x t)
answer e (reentry t) = parse_failed (reentry t)
answer e crashed = parse_failed crashed
answer e exhausted = parse_failed exhausted
answer (ended t) (finished c) = parsed Version.version_auto c
answer (stopped e) (finished c) = scan_failed e

abbrev pub without_version : Parsed → Parsed
without_version (parsed v c) = parsed Version.version_auto c
without_version (scan_failed e) = scan_failed e
without_version (parse_failed r) = parse_failed r

-- The rest of a run, behind what the first token gave.
abbrev and_then : Run → (ParseContext → Run) → Run
and_then (finished c) next = next c
and_then (rejected e t) next = rejected e t
and_then (reentry t) next = reentry t
and_then crashed next = crashed
and_then exhausted next = exhausted

module _ (floats : FloatLib) where
  abbrev rest_of : ℕ → Token → List Token → Outcome → Run
  rest_of fuel t ts o = elim o [
    | ok c' ↦ parse_tokens floats fuel c' ts
    | reenter c' ↦ parse_tokens floats fuel c' (t ∷ ts)
    | fail e ↦ rejected e t
    | panic ↦ crashed
  ]

  abbrev OneMore : ℕ → Type 0
  OneMore fuel =
      (c : ParseContext) (ts : List Token)
      → Sound (parse_tokens floats fuel c ts)
      → parse_tokens floats (suc fuel) c ts ≡ parse_tokens floats fuel c ts

  rest_of-more :
      (fuel : ℕ) (t : Token) (ts : List Token) (o : Outcome)
      → Sound (rest_of fuel t ts o)
      → OneMore fuel
      → rest_of (suc fuel) t ts o ≡ rest_of fuel t ts o
  rest_of-more fuel t ts (ok c) h next = next c ts h
  rest_of-more fuel t ts (reenter c) h next = next c (t ∷ ts) h
  rest_of-more fuel t ts (fail e) h next = refl
  rest_of-more fuel t ts panic h next = refl

  -- More fuel than a run needs makes no difference.
  parse_tokens-more : (fuel : ℕ) → OneMore fuel
  unfolding parse_tokens
  parse_tokens-more fuel c [] h = refl
  parse_tokens-more zero c (t ∷ ts) h = absurd h
  parse_tokens-more (suc fuel) c (t ∷ ts) h =
      rest_of-more fuel t ts (parse_step floats c t) h (parse_tokens-more fuel)

  abbrev run_rest : List Token → ParseContext → Run
  run_rest ts c = parse_tokens floats (enough ts) c ts

  again-first :
      (t : Token) (ts : List Token) (o : Outcome)
      → Safe o
      → Moves o
      → rest_of (enough ts) t ts o ≡ and_then (rest_of 0 t [] o) (run_rest ts)
  unfolding parse_tokens
  again-first t ts (ok c) s m = refl
  again-first t ts (reenter c) s m = absurd m
  again-first t ts (fail e) s m = refl
  again-first t ts panic s m = refl

  step-first :
      (t : Token) (ts : List Token) (o : Outcome)
      → Safe o
      → rest_of (suc (enough ts)) t ts o ≡ and_then (rest_of 1 t [] o) (run_rest ts)
  unfolding parse_tokens
  step-first t ts (ok c) s =
      parse_tokens-more (enough ts) c ts
        (parse_tokens-Sound floats ts (enough ts) (omega arith) c s)
  step-first t ts (reenter c) s =
      again-first t ts (parse_step floats c t) (parse_step-Safe floats c t s.0)
        (parse_step-Moves floats c t s.1)
  step-first t ts (fail e) s = refl
  step-first t ts panic s = refl

  -- A run over tokens is that over the first, and then that over the others.
  run-first :
      (c : ParseContext) (t : Token) (ts : List Token)
      → Inv c
      → run_rest (t ∷ ts) c ≡ and_then (give floats c t) (run_rest ts)
  unfolding parse_tokens give
  run-first c t ts v = step-first t ts (parse_step floats c t) (parse_step-Safe floats c t v)

  tokens_given-first :
      (t : Token) (ts : List Token) (e : Ending)
      → tokens_given (t ∷ ts, e) ≡ t ∷ tokens_given (ts, e)
  tokens_given-first t ts (ended u) = refl
  tokens_given-first t ts (stopped x) = refl

  -- The document or the error of the batch, from a context.
  abbrev batch : List Token × Ending → ParseContext → Parsed
  batch r c = answer r.1 (run_rest (tokens_given r) c)

  abbrev LoopAgrees : ℕ → Type 0
  LoopAgrees fuel =
      (s : Scanner) (c : ParseContext)
      → Inv c
      → without_version (parse_loop floats fuel s c).0 ≡ batch (scan_from fuel s) c

  behind_token-agrees :
      (fuel : ℕ) (s : Scanner) (r : Run)
      → Sound r
      → LoopAgrees fuel
      → without_version (behind_token (parse_loop floats fuel s) s r).0
        ≡ answer (scan_from fuel s).1 (and_then r (run_rest (tokens_given (scan_from fuel s))))
  behind_token-agrees fuel s (finished c) h next = next s c h
  behind_token-agrees fuel s (rejected e t) h next = refl
  behind_token-agrees fuel s (reentry t) h next = refl
  behind_token-agrees fuel s crashed h next = refl
  behind_token-agrees fuel s exhausted h next = refl

  end_token-agrees :
      (t : Token) (s : Scanner) (r : Run)
      → without_version (behind_token (λ c. (parsed s.version c, s)) s r).0 ≡ answer (ended t) r
  end_token-agrees t s (finished c) = refl
  end_token-agrees t s (rejected e u) = refl
  end_token-agrees t s (reentry u) = refl
  end_token-agrees t s crashed = refl
  end_token-agrees t s exhausted = refl

  behind_loop-agrees :
      (s : Scanner) (c : ParseContext) (e : Ending)
      → without_version (behind_loop floats s c e).0 ≡ batch ([], e) c
  unfolding behind_loop give parse_tokens
  behind_loop-agrees s c (ended t) = end_token-agrees t _ (give floats c t)
  behind_loop-agrees s c (stopped e) = refl

  loop_rest-agrees :
      (fuel : ℕ) (c : ParseContext) (n : Next)
      → Inv c
      → LoopAgrees fuel
      → without_version (loop_rest floats fuel c n).0 ≡ batch (scan_rest floats fuel n) c
  loop_rest-agrees fuel c (token t s) v next =
      let r = scan_from fuel s in
      behind_token-agrees fuel s (give floats c t) (give-Sound floats c t v) next
      ∙ ap (answer r.1) (sym (run-first c t (tokens_given r) v))
      ∙ ap (λ ts. answer r.1 (run_rest ts c)) (sym (tokens_given-first t r.0 r.1))
  loop_rest-agrees fuel c (halted e s) v next = behind_loop-agrees s c (ending_of e s)

  parse_loop-agrees : (fuel : ℕ) → LoopAgrees fuel
  unfolding parse_loop scan_from parse_tokens
  parse_loop-agrees zero s c v = refl
  parse_loop-agrees (suc fuel) s c v =
      loop_rest-agrees fuel c (read_next s) v (parse_loop-agrees fuel)

  -- `parseOne`, which scans a token when the parser wants the next and leaves the rest unread at an error,
  -- gives the document or the error that a scan of the whole input gives with a run of the parser
  -- over all its tokens behind it, an error of the parser before one of the scanner; from any scanner.
  -- The version in the document is left out.
  pub parse_scanner-parse_one :
      (comments : Bool) (s : Scanner)
      → without_version (parse_scanner floats comments s).0
        ≡ answer (scan s).1 (parse_one floats (options_of s comments) (tokens_given (scan s)))
  unfolding parse_scanner scan parse_one
  parse_scanner-parse_one comments s =
      parse_loop-agrees (suc (count s.input)) s (new_context (options_of s comments))
        (new_context-Inv _)
