-- ===== src/Tokenizer/Readers/Comments.antt =====
-- internal/tokenizer/readtype.go: comments.
use gokdl.Base.{zero, suc, Bool, true, false, ◌&&◌, Bytes, ◌==◌, if◌then◌else◌, ℤ, pos, negsuc}
use gokdl.Tokenizer.CType.{is_newline}
use gokdl.Tokenizer.Input.{
  Input, finish, broken, rune, copy_from_mark, invalid_rune, unexpected_end, Read, got, failed,
}
use gokdl.Tokenizer.Readers.While.{stopped, ended, at_error, read_until}

-- `depth++` and `depth--` on Go's int, which the input's length bounds.
abbrev pub deeper : ℤ → ℤ
deeper (pos n) = pos (suc n)
deeper (negsuc zero) = pos 0
deeper (negsuc (suc n)) = negsuc n

abbrev pub shallower : ℤ → ℤ
shallower (pos zero) = negsuc 0
shallower (pos (suc n)) = pos n
shallower (negsuc n) = negsuc (suc n)

abbrev pub is_zero : ℤ → Bool
is_zero (pos zero) = true
is_zero _ = false

-- The loop of `readMultiLineComment`. A round takes a rune, and a second one behind `*` or `/` where
-- that makes a pair.
unfoldable pub comment_from : Input → ℤ → Input → Read Bytes
comment_from start depth finish = failed unexpected_end
comment_from start depth (broken b) = failed invalid_rune
comment_from start depth (rune c b finish) = failed unexpected_end
comment_from start depth (rune c b (broken b')) = failed invalid_rune
comment_from start depth (rune c b (rune d b' t)) =
    let closed = comment_from start (shallower depth) t in
    let opened = comment_from start (deeper depth) t in
    let other = comment_from start depth (rune d b' t) in
    if c == b'*' && d == b'/'
    then (if is_zero (shallower depth) then got (copy_from_mark start t) t else closed)
    else if c == b'/' && d == b'*'
    then opened
    else other

-- `readMultiLineComment`.
unfoldable pub read_multi_line_comment : Input → Read Bytes
unfolding comment_from
read_multi_line_comment t = comment_from t (pos 0) t

-- `readSingleLineComment`: the end of the input ends it too.
unfoldable pub read_single_line_comment : Input → Read Bytes
unfolding read_until is_newline
read_single_line_comment t = elim (read_until is_newline false t) [
  | stopped b u ↦ got b u
  | ended b u ↦ got b u
  | at_error ↦ failed invalid_rune
]
