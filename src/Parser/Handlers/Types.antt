-- ===== src/Parser/Handlers/Types.antt =====
-- internal/parser/transitions.go: the functions of stateTypeAnnot and stateTypeDone.
use gokdl.Base.{not, if◌then◌else◌}
use gokdl.Parser.Context.{
  ParseContext, Outcome, ok, unexpected_token, pop_state, start_continuation,
}
use gokdl.Parser.State.{ParserState}
use gokdl.Tokenizer.Token.{Token, is_v2}

-- Whitespace and comments, which KDL v2 alone allows.
abbrev pub v2_only : ParseContext → Token → Outcome
v2_only c t = if not (is_v2 c.opts.version) then unexpected_token c t else ok c

abbrev pub v2_continuation : ParseContext → Token → Outcome
v2_continuation c t =
    if not (is_v2 c.opts.version) then unexpected_token c t else ok (start_continuation c)

unfoldable pub type_name : ParseContext → Token → Outcome
type_name c t = ok (record c { type_annot = t; state = ParserState.type_done })

unfoldable pub type_parens_close : ParseContext → Token → Outcome
unfolding pop_state
type_parens_close c t = pop_state c
