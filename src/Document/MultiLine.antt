-- ===== src/Document/MultiLine.antt =====
-- document/strings.go: `UnquoteMultiLineString`, `UnquoteMultiLineExpressionString` and their helpers.
pub mod Lines
pub mod Result
pub mod Fuel
pub mod Totality
use gokdl.Base.{
  ℕ, zero, suc, ◌+◌, ◌-◌, ◌*◌, Bool, true, false, not, ◌&&◌, ◌||◌, List, [], ◌∷◌, ◌++◌, Option,
  none, some, Bytes, ◌==◌, leb, ltb, codes, one_of, length, take, drop, if◌then◌else◌,
}
use gokdl.Document.Unquote.{
  Unquoted, done, invalid, out_of_fuel, Round, next, refused, checked_rune, cut_brace, hex_value,
  skip_space,
}
use Lines.{
  first_newline, last_newline, is_inline_whitespace_only, has_line_continuation, index_backslash,
}
use Result.{
  TextResult, text, failed, no_fuel, TextError, err_invalid, opening_line_content,
  closing_line_content, insufficient_indentation, ◌>>=◌, from_unquoted,
}
use gokdl.Document.RawString.{hash_run}
use gokdl.Go.Strings.{has_prefix, has_suffix, runes, all_space}
use gokdl.Go.Utf8.{decode_rune, append_rune, is_space}

-- `parseMultilineClosingEscape`: the place of a lone backslash, with only whitespace round it.
unfoldable pub parse_multiline_closing_escape : Bytes → Option ℕ
unfolding index_backslash is_inline_whitespace_only
parse_multiline_closing_escape s = elim (index_backslash s) [
  | none ↦ none
  | some i ↦
      if not (is_inline_whitespace_only (take i s))
        || not (is_inline_whitespace_only (drop (suc i) s))
      then none
      else some i
]

-- The content, the indentation of the closing line, and whether a backslash closes it.
pub record Tail : Type 0 where
  pub content : Bytes
  pub indent : Bytes
  pub closing_escaped : Bool

abbrev pub tail_of : Bytes → Bytes → Bool → TextResult Tail
tail_of c i e = text (record { content = c; indent = i; closing_escaped = e })

abbrev pub tail_in_line : Bytes → Bytes → Bytes → Bytes → TextResult Tail
tail_in_line prefix closing line before = elim (parse_multiline_closing_escape line) [
  | some i ↦ tail_of before (take i line) true
  | none ↦ tail_of prefix closing false
]

-- The line before the closing line, where that one holds whitespace only.
unfoldable pub parse_previous_line : Bytes → Bytes → TextResult Tail
parse_previous_line prefix closing = elim (last_newline prefix) [
  | none ↦ tail_in_line prefix closing prefix []
  | some (start, len) ↦ tail_in_line prefix closing (drop (start + len) prefix) (take start prefix)
]

unfoldable pub parse_multiline_tail : Bytes → TextResult Tail
unfolding parse_previous_line last_newline parse_multiline_closing_escape
parse_multiline_tail s = elim (last_newline s) [
  | none ↦ elim (parse_multiline_closing_escape s) [
    | some i ↦ tail_of [] (take i s) true
    | none ↦ tail_of [] s false
  ]
  | some (start, len) ↦ elim (parse_multiline_closing_escape (drop (start + len) s)) [
    | some i ↦ tail_of (take start s) (take i (drop (start + len) s)) true
    | none ↦
        if not (is_inline_whitespace_only (drop (start + len) s))
        then failed closing_line_content
        else parse_previous_line (take start s) (drop (start + len) s)
  ]
]

-- A line of the content, its line break and what follows.
abbrev pub next_line : Bytes → Bytes × Bytes × Bytes
next_line s = elim (first_newline s 0) [
  | none ↦ (s, [], [])
  | some (i, len) ↦ (take i s, take len (drop i s), drop (i + len) s)
]

-- What a round of `dedentMultilineContent` writes; `none` for insufficient indentation.
abbrev pub dedent_line : Bool → Bytes → Bytes → Option Bytes
dedent_line continued indent line =
    if all_space (runes line)
    then some []
    else if not continued && not (has_prefix line indent)
    then none
    else if continued
    then some line
    else some (drop (length indent) line)

-- The loop takes a byte in each round, so the length of the content is fuel enough.
unfoldable pub dedent_loop : ℕ → Bool → Bytes → Bytes → Bytes → TextResult Bytes
dedent_loop fuel continued indent out [] = text out
dedent_loop zero continued indent out (c ∷ s) = no_fuel
dedent_loop (suc fuel) continued indent out (c ∷ s) =
    let (line, newline, rest) = next_line (c ∷ s) in
    elim (dedent_line continued indent line) [
      | none ↦ failed insufficient_indentation
      | some kept ↦
          dedent_loop fuel (has_line_continuation line) indent (out ++ (kept ++ newline)) rest
    ]

unfoldable pub dedent_multiline_content : Bytes → Bytes → TextResult Bytes
unfolding dedent_loop
dedent_multiline_content content indent = dedent_loop (length content) false indent [] content

-- `case 'u'`; `s` follows the `u`.
unfoldable pub multiline_unicode : Bytes → Bytes → Round
multiline_unicode b [] = refused
multiline_unicode b (o ∷ s) = if not (o == b'{') then refused else elim (cut_brace [] s) [
  | none ↦ refused
  | some (digits, rest) ↦
      if ltb 6 (length digits) then refused else checked_rune b (hex_value digits) rest
]

unfoldable pub multiline_switch : ℕ → Bytes → ℕ → Bytes → Round
multiline_switch quote b r s =
    if r == b'n'
    then next (b ++ b'\n' ∷ []) [] s
    else if r == b'r'
    then next (b ++ b'\r' ∷ []) [] s
    else if r == b't'
    then next (b ++ b'\t' ∷ []) [] s
    else if r == b'b'
    then next (b ++ 8 ∷ []) [] s
    else if r == b'f'
    then next (b ++ 12 ∷ []) [] s
    else if r == b's'
    then next (b ++ b' ' ∷ []) [] s
    else if r == quote || r == b'\\'
    then next (b ++ r ∷ []) [] s
    else if r == b'u'
    then multiline_unicode b s
    else refused

-- Behind a backslash.
unfoldable pub multiline_escape : ℕ → Bool → Bytes → Bytes → Round
multiline_escape quote trailing b [] = if trailing then next b [] [] else refused
multiline_escape quote trailing b (c ∷ s) =
    let (r, size) = decode_rune (c ∷ s) in
    if is_space r
    then next b [] (skip_space (length (c ∷ s)) (c ∷ s))
    else multiline_switch quote b r (drop size (c ∷ s))

unfoldable pub multiline_step : ℕ → Bool → Bytes → ℕ → Bytes → Round
multiline_step quote trailing b c s =
    let (r, size) = decode_rune (c ∷ s) in
    if not (r == b'\\')
    then next (append_rune b r) [] (drop size (c ∷ s))
    else multiline_escape quote trailing b s

unfoldable pub multiline_loop : ℕ → ℕ → Bool → Bytes → Bytes → Unquoted
multiline_loop fuel quote trailing b [] = done b
multiline_loop zero quote trailing b (c ∷ s) = out_of_fuel
multiline_loop (suc fuel) quote trailing b (c ∷ s) = elim (multiline_step quote trailing b c s) [
  | next b' _ rest ↦ multiline_loop fuel quote trailing b' rest
  | refused ↦ invalid
]

unfoldable pub append_unquoted_multiline_content : Bytes → Bytes → ℕ → Bool → Unquoted
unfolding multiline_loop multiline_step multiline_escape multiline_switch multiline_unicode
append_unquoted_multiline_content b s quote trailing = multiline_loop (length s) quote trailing b s

-- The text between the delimiters, behind the rest of the opening line.
abbrev pub body_of : Bytes → Bytes → TextResult Bytes
body_of s delim =
    if ltb (length s) (length delim + length delim)
      || not (has_prefix s delim)
      || not (has_suffix s delim)
    then failed err_invalid
    else elim (first_newline
        (take (length s - (length delim + length delim)) (drop (length delim) s)) 0) [
          | none ↦ failed err_invalid
          | some (i, len) ↦
              let body = take (length s - (length delim + length delim)) (drop (length delim) s) in
              if not (is_inline_whitespace_only (take i body))
              then failed opening_line_content
              else text (drop (i + len) body)
        ]

-- The leading hashes, and the token without its hashes.
unfoldable pub count_hashes : Bytes → ℕ
count_hashes [] = 0
count_hashes (c ∷ s) = if c == b'#' then suc (count_hashes s) else 0

abbrev pub strip_hashes : Bytes → Bytes → ℕ → TextResult Bytes
strip_hashes s delim zero = text s
strip_hashes s delim (suc n) =
    if not (has_prefix (drop (suc n) s) delim) || not (has_suffix s (delim ++ hash_run (suc n)))
    then failed err_invalid
    else text (take (length s - (suc n + suc n)) (drop (suc n) s))

abbrev pub finish_token : ℕ → ℕ → Bool → Bytes → TextResult (Bytes × ℕ)
finish_token (suc n) quote escaped content = text (content, suc n)
finish_token zero quote escaped content = do
  let content' = if escaped then content ++ b'\\' ∷ [] else content
  b ← from_unquoted (append_unquoted_multiline_content [] content' quote escaped)
  text (b, 0)

-- The text and its number of hashes.
unfoldable pub unquote_multi_line_token : Bytes → Bytes → ℕ → Bool → TextResult (Bytes × ℕ)
unfolding count_hashes parse_multiline_tail dedent_multiline_content
    append_unquoted_multiline_content first_newline is_inline_whitespace_only
unquote_multi_line_token s delim quote allow_raw = do
  let n = if allow_raw then count_hashes s else 0
  token ← strip_hashes s delim n
  body ← body_of token delim
  tail ← parse_multiline_tail body
  if not (is_inline_whitespace_only tail.indent) then failed closing_line_content else (do
    dedented ← dedent_multiline_content tail.content tail.indent
    finish_token n quote tail.closing_escaped dedented)

unfoldable pub unquote_multi_line_string : Bytes → TextResult (Bytes × ℕ)
unfolding unquote_multi_line_token
unquote_multi_line_string s = unquote_multi_line_token s (b'"' ∷ b'"' ∷ b'"' ∷ []) b'"' true

unfoldable pub unquote_multi_line_expression_string : Bytes → TextResult Bytes
unfolding unquote_multi_line_token
unquote_multi_line_expression_string s = do
  (v, _) ← unquote_multi_line_token s (b'`' ∷ b'`' ∷ b'`' ∷ []) b'`' false
  text v
