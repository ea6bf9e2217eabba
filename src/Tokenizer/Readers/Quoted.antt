-- ===== src/Tokenizer/Readers/Quoted.antt =====
-- internal/tokenizer/readtype.go: strings between quotes, on one line in KDL v2.
use gokdl.Base.{
  ℕ, Bool, true, false, not, ◌&&◌, ◌||◌, Option, none, some, Bytes, ◌==◌, if◌then◌else◌,
}
use gokdl.Tokenizer.CType.{is_white_space, is_newline}
use gokdl.Tokenizer.Input.{
  Input, finish, broken, rune, invalid_rune, unexpected_end, unexpected_character, Read, failed,
  peek, is_seen,
}
use gokdl.Tokenizer.Readers.While.{read_while_state, bytes_only}
use gokdl.Tokenizer.Token.{Version, is_v2}

-- The variables of the closure.
pub record Quoted : Type 0 where
  pub escaped : Bool
  pub folding : Bool
  pub done : Bool
  pub first : Bool

-- The `switch` of the closure. A newline that ends the literal in KDL v2 sets an error that the
-- function does not look at.
unfoldable pub quoted_switch : ℕ → Version → Quoted → ℕ → Input → Option Quoted
unfolding is_newline
quoted_switch q v s c t =
    if c == b'\\'
    then (if is_v2 v && is_seen (peek t) b'/'
        then none
        else some (record s { escaped = not s.escaped }))
    else if c == q
    then some (if s.escaped then record s { escaped = false } else record s { done = true })
    else if c == b' ' || c == b'\t'
    then some (if is_v2 v && s.escaped then record s { escaped = false; folding = true } else s)
    else if c == b'\n' || c == b'\r'
    then (if not (is_v2 v)
        then some s
        else if not s.escaped
        then none
        else some (record s { escaped = false; folding = true }))
    else some (if s.escaped then record s { escaped = false } else s)

-- The closure.
unfoldable pub quoted_rune : ℕ → Version → Quoted → ℕ → Input → Option Quoted
unfolding quoted_switch
quoted_rune q v s c t =
    if s.first
    then some (record s { first = false })
    else if s.done
    then none
    else if s.folding && (is_white_space c || is_newline c)
    then some s
    else quoted_switch q v (record s { folding = false }) c t

abbrev pub at_quote : Quoted
at_quote = record { escaped = false; folding = false; done = false; first = true }

-- `readQuotedStringQ`.
unfoldable pub read_quoted_string_q : ℕ → Version → Input → Read Bytes
unfolding quoted_rune read_while_state
read_quoted_string_q q v finish = failed unexpected_end
read_quoted_string_q q v (broken b) = failed invalid_rune
read_quoted_string_q q v (rune c b t) =
    if not (c == q)
    then failed (unexpected_character c)
    else bytes_only (read_while_state (quoted_rune q v) at_quote 2 (rune c b t))
