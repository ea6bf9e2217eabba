-- ===== src/Parser/Machine/Run.antt =====
-- internal/parser/parser.go: `ParseAllContext`; kdl.go: the loop of `parseOne`, over the scanner's tokens.
use gokdl.Base.{ℕ, zero, suc, ◌+◌, List, [], ◌∷◌, length}
use gokdl.Go.Strconv.{FloatLib}
use gokdl.Parser.Context.{ParseContext, ok, reenter, fail, panic, Options, new_context}
use gokdl.Parser.Machine.Step.{parse_step}
use gokdl.Parser.State.{ParseError}
use gokdl.Tokenizer.Token.{TokenId, Token, Version}

-- How a run ends: with a context, an error at a token, `ErrReenterState` as an error, a nil
-- dereference, or without fuel.
pub data Run : Type 0 where
  finished : ParseContext → Run
  rejected : ParseError → Token → Run
  reentry : Token → Run
  crashed : Run
  exhausted : Run

-- The loop over the tokens: `ErrReenterState` gives the same token to the parser once more.
unfoldable pub parse_tokens : FloatLib → ℕ → ParseContext → List Token → Run
parse_tokens floats fuel c [] = finished c
parse_tokens floats zero c (t ∷ ts) = exhausted
parse_tokens floats (suc fuel) c (t ∷ ts) = elim (parse_step floats c t) [
  | ok c' ↦ parse_tokens floats fuel c' ts
  | reenter c' ↦ parse_tokens floats fuel c' (t ∷ ts)
  | fail e ↦ rejected e t
  | panic ↦ crashed
]

-- A token takes two rounds at most.
abbrev pub enough : List Token → ℕ
enough [] = 0
enough (_ ∷ ts) = suc (suc (enough ts))

-- `parseOne`, whose scanner ends its tokens with one of kind `eof`.
unfoldable pub parse_one : FloatLib → Options → List Token → Run
unfolding parse_tokens
parse_one floats o ts = parse_tokens floats (enough ts) (new_context o) ts

-- The end token: behind the last token.
last_or : Token → List Token → Token
last_or t [] = t
last_or t (u ∷ ts) = last_or u ts

abbrev pub eof_at : ℕ → ℕ → Token
eof_at l k = record {
  id = TokenId.eof;
  content = [];
  line = l;
  column = k;
  version = Version.version_auto;
}

unfoldable pub eof_behind : List Token → Token
unfolding last_or
eof_behind [] = eof_at 0 0
eof_behind (t ∷ ts) =
    eof_at (last_or t ts).line ((last_or t ts).column + length (last_or t ts).content)

-- The end token is given once: `ErrReenterState` is an error there.
unfoldable pub finish_run : FloatLib → Token → Run → Run
finish_run floats eof (finished c) = elim (parse_step floats c eof) [
  | ok c' ↦ finished c'
  | reenter c' ↦ reentry eof
  | fail e ↦ rejected e eof
  | panic ↦ crashed
]
finish_run floats eof (rejected e t) = rejected e t
finish_run floats eof (reentry t) = reentry t
finish_run floats eof crashed = crashed
finish_run floats eof exhausted = exhausted

-- `ParseAllContext`.
unfoldable pub parse_all_context : FloatLib → ParseContext → List Token → Run
unfolding parse_tokens finish_run eof_behind
parse_all_context floats c ts =
    finish_run floats (eof_behind ts) (parse_tokens floats (enough ts) c ts)
