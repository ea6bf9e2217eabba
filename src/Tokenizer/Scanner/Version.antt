-- ===== src/Tokenizer/Scanner/Version.antt =====
-- internal/tokenizer/scanner.go: `detectVersion`, which only peeks.
use gokdl.Base.{
  ℕ, Bool, true, false, not, ◌&&◌, ◌||◌, [], ◌∷◌, Option, none, some, Bytes, codes, ◌==◌,
  if◌then◌else◌,
}
use gokdl.Tokenizer.CType.{is_newline}
use gokdl.Tokenizer.Input.{Input, finish, broken, rune}
use gokdl.Tokenizer.Scanner.State.{Scanner}
use gokdl.Tokenizer.Token.{Version, version_auto, version_v1, version_v2}

infixl 5 ◌>>=◌
abbrev ◌>>=◌ : {A B : Type 0} → Option A → (A → Option B) → Option B
◌>>=◌ none f = none
◌>>=◌ (some a) f = f a

abbrev is_blank : ℕ → Bool
is_blank c = c == b' ' || c == b'\t'

-- The loops over blanks.
unfoldable pub skip_blanks : Input → Input
skip_blanks finish = finish
skip_blanks (broken b) = broken b
skip_blanks (rune c b t) = let rest = skip_blanks t in if is_blank c then rest else rune c b t

-- The place behind the runes, where they are there.
unfoldable pub after_runes : Bytes → Input → Option Input
after_runes [] t = some t
after_runes (expected ∷ s) finish = none
after_runes (expected ∷ s) (broken b) = none
after_runes (expected ∷ s) (rune c b t) =
    let rest = after_runes s t in if not (c == expected) then none else rest

-- One blank at least.
unfoldable pub after_blanks : Input → Option Input
unfolding skip_blanks
after_blanks finish = none
after_blanks (broken b) = none
after_blanks (rune c b t) = if is_blank c then some (skip_blanks t) else none

-- The number of the version.
unfoldable pub version_number : Input → Option (Version × Input)
version_number finish = none
version_number (broken b) = none
version_number (rune c b t) =
    if c == b'1' then some (version_v1, t) else if c == b'2' then some (version_v2, t) else none

-- Behind the number: blanks, then a newline or the end.
unfoldable pub at_line_end : Input → Bool
unfolding is_newline
at_line_end finish = true
at_line_end (broken b) = false
at_line_end (rune c b t) = is_newline c

-- The marker behind the slash, from its dash.
unfoldable pub marked_version : Input → Option Version
unfolding after_runes skip_blanks after_blanks version_number at_line_end
marked_version t = do
  u ← after_runes (codes "-") t
  w ← after_runes (codes "kdl-version") (skip_blanks u)
  x ← after_blanks w
  (v, y) ← version_number x
  if at_line_end (skip_blanks y) then some v else none

unfoldable pub behind_bom : Input → Input
behind_bom finish = finish
behind_bom (broken b) = broken b
behind_bom (rune c b t) = if c == 0xFEFF then t else rune c b t

abbrev pub with_version : Scanner → Option Version → Scanner
with_version s (some v) = record s { version = v; marker_detected = true }
with_version s none = s

-- `detectVersion`, behind its first test, from behind the byte order mark.
unfoldable pub detect_from : Scanner → Input → Scanner
unfolding marked_version
detect_from s finish = s
detect_from s (broken b) = s
detect_from s (rune c b t) =
    if not (c == b'/')
    then (if not (c == 0) then record s { marker_detected = true } else s)
    else with_version s (marked_version t)

-- `detectVersion`.
unfoldable pub detect_version : Scanner → Scanner
unfolding detect_from behind_bom
detect_version s = if s.marker_detected then s else detect_from s (behind_bom s.input)

abbrev pub is_auto : Version → Bool
is_auto version_auto = true
is_auto version_v1 = false
is_auto version_v2 = false

-- The first lines of `readNext`.
unfoldable pub detected : Scanner → Scanner
unfolding detect_version
detected s = if is_auto s.version && not s.marker_detected then detect_version s else s
