-- ===== src/Kdl/Total.antt =====
-- kdl.go: a run from bytes ends with a document or with an error about the input; and which version
-- answers when none is set.
use gokdl.Base.{ℕ, zero, suc, ◌≡◌, refl, Bool, false, if◌then◌else◌, List, [], ◌∷◌, Bytes, arith}
use gokdl.Go.Strconv.{FloatLib}
use gokdl.Kdl.{
  Parsed, parsed, scan_failed, parse_failed, options_of, behind_token, behind_loop, give,
  parse_loop, parse_scanner, panics, fall_back, parse, close,
}
use gokdl.Parser.Context.{ParseContext, new_context}
use gokdl.Parser.Machine.Run.{Run, finished, rejected, reentry, crashed, exhausted}
use gokdl.Parser.Safety.Stacks.{Inv, is_internal_error, new_context-Inv}
use gokdl.Parser.Safety.Total.{Sound, parse_tokens-Sound}
use gokdl.Tokenizer.Input.{count}
use gokdl.Tokenizer.Input.Consumed.{AboutInput}
use gokdl.Tokenizer.Scanner.Loop.{Ending, ended, stopped, ending_of, scan_from, scan}
use gokdl.Tokenizer.Scanner.Lossless.{Tiles, scan-Tiles}
use gokdl.Tokenizer.Scanner.Next.{Next, token, halted, read_next}
use gokdl.Tokenizer.Scanner.State.{Scanner, new_slice}
use gokdl.Tokenizer.Token.{Token, Version, version_auto, version_v1, version_v2}

-- The run of the parser was rejected, with an error that is not about an empty stack or the fuel of the
-- model.
abbrev Rejected : Run → Type 0
Rejected (rejected e t) = is_internal_error e ≡ false
Rejected (finished c) = ⊥
Rejected (reentry t) = ⊥
Rejected crashed = ⊥
Rejected exhausted = ⊥

-- A document that keeps the invariant of the stacks, or an error about the input.
abbrev pub Answered : Parsed → Type 0
Answered (parsed v c) = Inv c
Answered (scan_failed e) = AboutInput e
Answered (parse_failed r) = Rejected r

-- The tokens end with the end token or with an error about the input.
abbrev EndsWell : Ending → Type 0
EndsWell (ended t) = Unit
EndsWell (stopped e) = AboutInput e

Tiles-EndsWell : (b : Bytes) (r : List Token × Ending) → Tiles b r → EndsWell r.1
Tiles-EndsWell b (ts, ended t) h = tt
Tiles-EndsWell b (ts, stopped e) h = h

behind_token-Answered :
    (next : ParseContext → Parsed × Scanner) (s : Scanner) (r : Run)
    → Sound r
    → ((c : ParseContext) → Inv c → Answered (next c).0)
    → Answered (behind_token next s r).0
behind_token-Answered next s (finished c) k h = h c k
behind_token-Answered next s (rejected e t) k h = k
behind_token-Answered next s (reentry t) k h = absurd k
behind_token-Answered next s crashed k h = absurd k
behind_token-Answered next s exhausted k h = absurd k

module _ (floats : FloatLib) where
  -- A token is given twice at most, and the run ends.
  pub give-Sound : (c : ParseContext) (t : Token) → Inv c → Sound (give floats c t)
  unfolding give
  give-Sound c t v = parse_tokens-Sound floats (t ∷ []) 2 (omega arith) c v

  behind_loop-Answered :
      (s : Scanner) (c : ParseContext) (e : Ending)
      → EndsWell e
      → Inv c
      → Answered (behind_loop floats s c e).0
  unfolding behind_loop
  behind_loop-Answered s c (ended t) h v =
      behind_token-Answered _ _ (give floats c t) (give-Sound c t v) (λ c' k. k)
  behind_loop-Answered s c (stopped e) h v = h

  abbrev pub scan_rest : ℕ → Next → List Token × Ending
  scan_rest fuel n = elim n [
    | token t s' ↦ let (ts, e) = scan_from fuel s' in (t ∷ ts, e)
    | halted e s' ↦ ([], ending_of e s')
  ]

  abbrev pub loop_rest : ℕ → ParseContext → Next → Parsed × Scanner
  loop_rest fuel c n = elim n [
    | token t s' ↦ behind_token (parse_loop floats fuel s') s' (give floats c t)
    | halted e s' ↦ behind_loop floats s' c (ending_of e s')
  ]

  abbrev LoopAnswered : ℕ → Type 0
  LoopAnswered fuel =
      (s : Scanner) (c : ParseContext)
      → EndsWell (scan_from fuel s).1
      → Inv c
      → Answered (parse_loop floats fuel s c).0

  loop_rest-Answered :
      (fuel : ℕ) (c : ParseContext) (n : Next)
      → EndsWell (scan_rest fuel n).1
      → Inv c
      → LoopAnswered fuel
      → Answered (loop_rest fuel c n).0
  loop_rest-Answered fuel c (token t s') h v next =
      behind_token-Answered _ s' (give floats c t) (give-Sound c t v) (λ c' k. next s' c' h k)
  loop_rest-Answered fuel c (halted e s') h v next = behind_loop-Answered s' c (ending_of e s') h v

  -- Where the scanner's tokens end well, so does the loop that gives them to the parser.
  parse_loop-Answered : (fuel : ℕ) → LoopAnswered fuel
  unfolding parse_loop scan_from
  parse_loop-Answered zero s c h v = h
  parse_loop-Answered (suc fuel) s c h v =
      loop_rest-Answered fuel c (read_next s) h v (parse_loop-Answered fuel)

module _ (floats : FloatLib) (comments : Bool) (relaxed : ℕ) (b : Bytes) where
  slice-Answered :
      (v : Version) → Answered (parse_scanner floats comments (new_slice relaxed v b)).0
  unfolding parse_scanner scan
  slice-Answered v =
      let s = new_slice relaxed v b in
      parse_loop-Answered floats (suc (count s.input)) s (new_context (options_of s comments))
        (Tiles-EndsWell b (scan s) (scan-Tiles relaxed v b)) (new_context-Inv _)

  -- The document of KDL v2 or its panic, or else whatever KDL v1 gives.
  abbrev first_answer : Parsed → Parsed → Parsed
  first_answer (parsed v c) other = parsed v c
  first_answer (scan_failed e) other = other
  first_answer (parse_failed r) other = if panics r then parse_failed r else other

  -- Whatever scanner `Close` has seen, the test of its offset fails.
  closed_offset :
      (p : Parsed) (s : Scanner)
      → fall_back floats comments relaxed b p (close s)
        ≡ first_answer p (parse_scanner floats comments (new_slice relaxed version_v1 b)).0
  unfolding fall_back close
  closed_offset (parsed v c) s = refl
  closed_offset (scan_failed e) s = ground arith
  closed_offset (parse_failed r) s = ground arith

  -- Where no version is set, the document of KDL v2 is given if there is one, and otherwise what KDL v1
  -- gives, be it an error: the error of KDL v2 never gets out, since the test of how far its scanner has
  -- come reads a scanner that is closed.
  parse-auto_lem :
      parse floats comments relaxed version_auto b
      ≡ first_answer
          (parse floats comments relaxed version_v2 b)
          (parse floats comments relaxed version_v1 b)
  unfolding parse parse_scanner
  parse-auto_lem =
      let s = new_slice relaxed version_v2 b in
      let r = parse_loop floats (suc (count s.input)) s (new_context (options_of s comments)) in
      closed_offset r.0 r.1

  first_answer-Answered : (p q : Parsed) → Answered p → Answered q → Answered (first_answer p q)
  first_answer-Answered (parsed v c) q h k = h
  first_answer-Answered (scan_failed e) q h k = k
  first_answer-Answered (parse_failed r) q h k = ground arith

  -- From any bytes, with any flags and any version, the scanner and the parser, token by token, end with
  -- a document, whose context keeps the invariant of the stacks, or with an error about the input: the
  -- parser dereferences no nil, no stack is found empty, `ErrReenterState` does not get out, and no loop
  -- runs out of fuel, that of the unquoting included. Among the errors is `out_of_range`, the panic of
  -- `ValueFromToken` on a token that is too short.
  pub parse-Answered : (v : Version) → Answered (parse floats comments relaxed v b)
  unfolding parse
  parse-Answered version_v1 = slice-Answered version_v1
  parse-Answered version_v2 = slice-Answered version_v2
  parse-Answered version_auto =
      rw parse-auto_lem
        (first_answer-Answered _ _ (slice-Answered version_v2) (slice-Answered version_v1))
