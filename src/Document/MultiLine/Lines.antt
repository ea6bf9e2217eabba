-- ===== src/Document/MultiLine/Lines.antt =====
-- document/strings.go: the line helpers of multi-line strings.
use gokdl.Base.{
  ℕ, suc, ◌+◌, ◌-◌, Bool, true, false, not, ◌&&◌, ◌||◌, List, [], ◌∷◌, Option, none, some, Bytes,
  ◌==◌, ltb, if◌then◌else◌,
}
use gokdl.Go.Strings.{runes}
use gokdl.Go.Utf8.{is_space}

abbrev starts_with_lf : Bytes → Bool
starts_with_lf [] = false
starts_with_lf (c ∷ _) = c == b'\n'

-- `firstNewline`: the place and length of the first line break, counted from `i`.
unfoldable pub first_newline : Bytes → ℕ → Option (ℕ × ℕ)
first_newline [] i = none
first_newline (c ∷ s) i =
    let later = first_newline s (i + 1) in
    if c == b'\n'
    then some (i, 1)
    else if c == b'\r'
    then some (i, if starts_with_lf s then 2 else 1)
    else later

-- A line break that ends at `i`, behind the byte `previous`.
break_at : ℕ → ℕ → ℕ → Option (ℕ × ℕ)
break_at previous c i =
    if c == b'\n'
    then (if ltb 0 i && previous == b'\r' then some (i - 1, 2) else some (i, 1))
    else if c == b'\r'
    then some (i, 1)
    else none

last_newline_from : ℕ → Bytes → ℕ → Option (ℕ × ℕ)
last_newline_from previous [] i = none
last_newline_from previous (c ∷ s) i = elim (last_newline_from c s (i + 1)) [
  | some p ↦ some p
  | none ↦ break_at previous c i
]

-- `lastNewline`, which looks from the end.
unfoldable pub last_newline : Bytes → Option (ℕ × ℕ)
unfolding last_newline_from break_at
last_newline s = last_newline_from 0 s 0

all_inline : List ℕ → Bool
all_inline [] = true
all_inline (r ∷ rs) =
    if r == b'\n' || r == b'\r' then false else if not (is_space r) then false else all_inline rs

unfoldable pub is_inline_whitespace_only : Bytes → Bool
unfolding all_inline is_space runes
is_inline_whitespace_only s = all_inline (runes s)

-- Whether the last rune that is no space is a backslash. The source decodes from the end; decoding
-- from the front gives the same runes, since it falls back into step at every leading byte.
continues : Bool → List ℕ → Bool
continues found [] = found
continues found (r ∷ rs) = continues (if is_space r then found else r == b'\\') rs

unfoldable pub has_line_continuation : Bytes → Bool
unfolding continues is_space runes
has_line_continuation line = continues false (runes line)

-- The place of the first backslash; in UTF-8 no other rune holds that byte.
unfoldable pub index_backslash : Bytes → Option ℕ
index_backslash [] = none
index_backslash (c ∷ s) = elim (c == b'\\') [
  | true ↦ some 0
  | false ↦ elim (index_backslash s) [ none ↦ none | some i ↦ some (suc i) ]
]
