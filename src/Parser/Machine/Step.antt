-- ===== src/Parser/Machine/Step.antt =====
-- internal/parser/parser.go: `parse` and `Parse`, the step for one token.
use gokdl.Base.{
  ◌+◌, ◌-◌, Bool, true, false, not, ◌&&◌, ◌||◌, none, some, ◌==◌, length, get_or, leb,
  if◌then◌else◌,
}
use gokdl.Go.Strconv.{FloatLib}
use gokdl.Parser.Context.{
  ParseContext, Outcome, ok, fail, ◌>>=◌, unexpected_token, stop_continuation,
}
use gokdl.Parser.Machine.Transitions.{find_handler}
use gokdl.Parser.Recent.{add, get}
use gokdl.Parser.State.{missing_separator, ignored_block_error, token_label}
use gokdl.Tokenizer.Token.{TokenId, Token, cleared, is_v2}

unfoldable pub tokens_adjacent : Token → Token → Bool
tokens_adjacent prev curr =
    if not (prev.line == curr.line) then false else curr.column == prev.column + length prev.content

-- The kinds of the second `switch` of `requiresV2Separation`.
unfoldable pub is_value_token : TokenId → Bool
is_value_token TokenId.bare_identifier = true
is_value_token TokenId.raw_string = true
is_value_token TokenId.quoted_string = true
is_value_token TokenId.decimal = true
is_value_token TokenId.hexadecimal = true
is_value_token TokenId.octal = true
is_value_token TokenId.binary = true
is_value_token TokenId.suffixed_decimal = true
is_value_token TokenId.boolean = true
is_value_token TokenId.null = true
is_value_token TokenId.keyword = true
is_value_token _ = false

-- `isValueLikeToken`: those kinds and the closing brace.
unfoldable pub is_value_like_token : TokenId → Bool
unfolding is_value_token
is_value_like_token TokenId.brace_close = true
is_value_like_token id = is_value_token id

abbrev is_parens_close : TokenId → Bool
is_parens_close TokenId.parens_close = true
is_parens_close _ = false

abbrev is_token_comment : TokenId → Bool
is_token_comment TokenId.token_comment = true
is_token_comment _ = false

unfoldable pub requires_v2_separation : Token → Token → Bool
unfolding tokens_adjacent is_value_like_token is_value_token
requires_v2_separation prev curr =
    if not (tokens_adjacent prev curr)
    then false
    else is_value_like_token prev.id && is_value_token curr.id
      || is_parens_close prev.id && is_token_comment curr.id

-- `recent[len(recent)-2]`, where there are two.
unfoldable pub needs_separator : ParseContext → Token → Bool
unfolding get requires_v2_separation
needs_separator c t =
    is_v2 c.opts.version
    && leb 2 (length (get c.recent))
    && requires_v2_separation (get_or (get c.recent) (length (get c.recent) - 2) cleared) t

-- What the kinds of tokens mean behind an ignored child block.
pub data BehindBlock : Type 0 where
  stays ends refused : BehindBlock

abbrev pub behind_block : TokenId → BehindBlock
behind_block TokenId.whitespace = stays
behind_block TokenId.single_line_comment = stays
behind_block TokenId.multi_line_comment = stays
behind_block TokenId.newline = ends
behind_block TokenId.eof = ends
behind_block TokenId.continuation = ends
behind_block _ = refused

unfoldable pub check_ignored_block : Token → ParseContext → Outcome
check_ignored_block t c =
    if c.after_ignored_child_block
    then elim (behind_block t.id) [
      | stays ↦ ok c
      | ends ↦ ok (record c { after_ignored_child_block = false })
      | refused ↦ fail (ignored_block_error t.id)
    ]
    else ok c

-- `isTriviaToken`, with the newline told apart.
pub data Trivia : Type 0 where
  line_break blank significant : Trivia

abbrev pub trivia : TokenId → Trivia
trivia TokenId.newline = line_break
trivia TokenId.whitespace = blank
trivia TokenId.single_line_comment = blank
trivia TokenId.multi_line_comment = blank
trivia _ = significant

-- The part of `parse` about a continued line.
unfoldable pub track_continuation : Token → ParseContext → ParseContext
track_continuation t c =
    if c.continuation
    then elim (trivia t.id) [
      | line_break ↦
          if c.continuation_newline_seen
          then stop_continuation c
          else record c { continuation_newline_seen = true }
      | blank ↦ c
      | significant ↦ record (stop_continuation c) { just_continued_line = true }
    ]
    else elim (trivia t.id) [ significant ↦ record c { just_continued_line = false } | _ ↦ c ]

-- The handler's call.
unfoldable pub handle : FloatLib → Token → ParseContext → Outcome
handle floats t c = elim (find_handler floats c.state t.id) [
  | none ↦ unexpected_token c t
  | some h ↦ h c t
]

-- `parse`.
unfoldable pub parse_token : FloatLib → ParseContext → Token → Outcome
unfolding needs_separator check_ignored_block track_continuation handle
parse_token floats c t =
    if needs_separator c t
    then fail (missing_separator (token_label t.id))
    else (check_ignored_block t c >>= λ c'. handle floats t (track_continuation t c'))

-- `Parse`.
unfoldable pub parse_step : FloatLib → ParseContext → Token → Outcome
unfolding parse_token add
parse_step floats c t = parse_token floats (record c { recent = add c.recent t }) t
