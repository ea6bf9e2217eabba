-- ===== src/Tokenizer/Scanner/Excerpt.antt =====
-- internal/tokenizer/scanner.go: the excerpt of the input in an error message, with a caret below it.
pub mod Bounds
use gokdl.Base.{
  ℕ, zero, suc, ◌+◌, ◌-◌, Bool, true, false, [], ◌∷◌, ◌++◌, Option, none, some, Bytes, ◌==◌, leb,
  ltb, length, get_or, take, drop, replicate, if◌then◌else◌,
}
use gokdl.Tokenizer.CType.{is_newline}

-- Where the line of an offset begins: the loop back to the newline before it. Each byte is taken for a rune.
unfoldable pub line_start : Bytes → ℕ → ℕ
unfolding is_newline
line_start raw zero = 0
line_start raw (suc k) =
    let rest = line_start raw k in if is_newline (get_or raw k 0) then suc k else rest

-- How many bytes stand before the next newline.
unfoldable pub line_length : Bytes → ℕ
unfolding is_newline
line_length [] = 0
line_length (c ∷ s) = let rest = line_length s in if is_newline c then 0 else suc rest

-- `raw[start:end]`; `none` is the panic.
unfoldable pub slice : Bytes → ℕ → ℕ → Option Bytes
slice raw start end =
    if leb start end
    then if leb end (length raw) then some (take (end - start) (drop start raw)) else none
    else none

unfoldable pub without_tabs : Bytes → Bytes
without_tabs [] = []
without_tabs (c ∷ s) = (if c == b'\t' then b' ' else c) ∷ without_tabs s

-- Three points in place of the first bytes; a panic if there are fewer.
unfoldable pub mark_elided : Bool → Bytes → Option Bytes
mark_elided false line = some line
mark_elided true (a ∷ b ∷ c ∷ s) = some (b'.' ∷ b'.' ∷ b'.' ∷ s)
mark_elided true _ = none

-- The line, a newline, and the caret in its column.
abbrev with_caret : ℕ → Option Bytes → Option Bytes
with_caret caret none = none
with_caret caret (some line) = some (line ++ b'\n' ∷ (replicate (caret - 1) b' ' ++ b'^' ∷ []))

abbrev elide : Bool → Option Bytes → Option Bytes
unfolding without_tabs mark_elided
elide elided none = none
elide elided (some line) = mark_elided elided (without_tabs line)

-- The text from a line's beginning and end and the caret's offset.
unfoldable pub excerpt : Bytes → ℕ → ℕ → ℕ → Option Bytes
unfolding slice elide
excerpt raw start end caret =
    if ltb 64 caret
    then with_caret 64 (elide true (slice raw (start + (caret - 64)) end))
    else with_caret caret (elide false (slice raw start end))

abbrev pub clamped : Bytes → ℕ → ℕ
clamped raw offset = if ltb (length raw) offset then length raw else offset

abbrev pub search_from : Bytes → ℕ → ℕ
search_from raw offset = if offset == length raw then offset - 1 else offset

-- `extractLineAtOffset`, of an offset that is not negative.
unfoldable pub extract_line_at_offset : Bytes → ℕ → Option Bytes
unfolding line_start line_length excerpt
extract_line_at_offset [] offset = some (b'^' ∷ [])
extract_line_at_offset (c ∷ s) offset =
    let raw = c ∷ s in
    let o = clamped raw offset in
    let start = line_start raw (search_from raw o) in
    excerpt raw start (start + line_length (drop start raw)) (o - start + 1)

-- The loop to the beginning of a line: `left` lines are to be passed, `i` bytes have been.
unfoldable pub start_of_line : Bytes → ℕ → ℕ → ℕ → ℕ
unfolding is_newline
start_of_line [] left i start = start
start_of_line (c ∷ s) zero i start = start
start_of_line (c ∷ s) (suc left) i start =
    if is_newline c
    then start_of_line s left (suc i) (suc i)
    else start_of_line s (suc left) (suc i) start

abbrev at_least_one : ℕ → ℕ
at_least_one zero = 1
at_least_one (suc n) = suc n

abbrev at_most : ℕ → ℕ → ℕ
at_most bound n = if ltb bound n then bound else n

-- `ExtractLineAtPosition`, of a line and a column that count from one.
unfoldable pub extract_line_at_position : Bytes → ℕ → ℕ → Option Bytes
unfolding start_of_line line_length extract_line_at_offset
extract_line_at_position [] line column = some (b'^' ∷ [])
extract_line_at_position (c ∷ s) line column =
    let raw = c ∷ s in
    let start = start_of_line raw (at_least_one line - 1) 0 0 in
    let width = line_length (drop start raw) + 1 in
    extract_line_at_offset raw
      (at_most (length raw - 1) (start + at_most width (at_least_one column) - 1))
