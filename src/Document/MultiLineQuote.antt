-- ===== src/Document/MultiLineQuote.antt =====
-- document/strings.go: `AppendMultiLineString` and `AppendMultiLineExpressionString`.
use gokdl.Base.{
  ℕ, ◌-◌, true, false, not, ◌&&◌, List, [], ◌∷◌, ◌++◌, Bytes, ◌==◌, ltb, length, take, drop, get_or,
  codes, if◌then◌else◌,
}
use gokdl.Document.Quote.{append_quoted_string}

-- `strings.Split(s, "\n")`; `line` is the current part.
split_lines : Bytes → Bytes → List Bytes
split_lines line [] = line ∷ []
split_lines line (c ∷ s) = elim (c == b'\n') [
  | true ↦ line ∷ split_lines [] s
  | false ↦ split_lines (line ++ c ∷ []) s
]

-- A line with its escapes, without the quotes round it.
unquoted_line : ℕ → Bytes → Bytes
unquoted_line quote line =
    let quoted = append_quoted_string [] line quote in take (length quoted - 2) (drop 1 quoted)

write_lines : ℕ → List Bytes → Bytes
write_lines quote [] = []
write_lines quote (l ∷ []) = unquoted_line quote l
write_lines quote (l ∷ m ∷ ls) = unquoted_line quote l ++ b'\n' ∷ write_lines quote (m ∷ ls)

unfoldable pub append_multi_line_quoted_string : Bytes → Bytes → ℕ → Bytes → Bytes
unfolding write_lines unquoted_line split_lines append_quoted_string
append_multi_line_quoted_string b s quote delim =
    b ++ (delim ++ b'\n' ∷ (write_lines quote (split_lines [] s) ++ delim))

unfoldable pub append_multi_line_string : Bytes → Bytes → Bytes
unfolding append_multi_line_quoted_string
append_multi_line_string b s = append_multi_line_quoted_string b s b'"' (codes "\"\"\"")

-- Where the text does not end in a line break, one goes before the last three bytes.
unfoldable pub append_multi_line_expression_string : Bytes → Bytes → Bytes
unfolding append_multi_line_quoted_string
append_multi_line_expression_string b s =
    let w = append_multi_line_quoted_string b s b'`' (codes "```") in
    if ltb 0 (length s) && not (get_or s (length s - 1) 0 == b'\n')
    then take (length w - 3) w ++ b'\n' ∷ codes "```"
    else w
