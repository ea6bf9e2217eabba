-- ===== src/Tokenizer/Readers/Triple.antt =====
-- internal/tokenizer/readtype.go: strings between three quotes or three backticks.
use gokdl.Base.{ℕ, zero, suc, ◌&&◌, ◌||◌, Bytes, ◌==◌, if◌then◌else◌}
use gokdl.Tokenizer.Input.{
  Input, finish, broken, rune, count, copy_from_mark, unexpected_end, content_after_opening,
  out_of_fuel, Read, got, failed, get, skip, peek, peek_two, is_seen, or_unexpected_end,
  all_unexpected_end, ◌>>=◌,
}
use gokdl.Tokenizer.Readers.Raw.{match_hashes}

-- The three opening quotes are consumed.
abbrev pub get_three : Input → Read (Unit {0})
get_three t = all_unexpected_end (get t) >>= λ _ u.
    all_unexpected_end (get u) >>= λ _ w. all_unexpected_end (get w) >>= λ _ x. got tt x

-- Blanks up to the newline, which is not consumed.
unfoldable pub opening_line : Input → Read (Unit {0})
opening_line finish = failed unexpected_end
opening_line (broken b) = failed unexpected_end
opening_line (rune c b t) =
    let rest = opening_line t in
    if c == b' ' || c == b'\t'
    then rest
    else if c == b'\n' || c == b'\r'
    then got tt (rune c b t)
    else failed content_after_opening

-- The last loop of `readMultiLineStringRawNoMark`, and of `readMultiLineExpressionString`, which has
-- another quote and no hashes. A round takes a rune, so the number of runes is fuel enough.
unfoldable pub triple_content : ℕ → ℕ → ℕ → Input → Read (Unit {0})
unfolding match_hashes
triple_content zero quote hash_count t = failed out_of_fuel
triple_content (suc fuel) quote hash_count t = or_unexpected_end (get t) >>= λ c u.
    let (matched, w) = match_hashes hash_count (skip (skip u)) in
    let escaped = all_unexpected_end (get u) >>= λ _ x. triple_content fuel quote hash_count x in
    let behind_hashes = triple_content fuel quote hash_count w in
    let behind = triple_content fuel quote hash_count u in
    if c == b'\\' && hash_count == 0
    then escaped
    else if c == quote && (is_seen (peek u) quote && is_seen (peek_two u) quote)
    then (if matched then got tt w else behind_hashes)
    else behind

abbrev pub read_triple : ℕ → ℕ → Input → Read (Unit {0})
read_triple quote hash_count t = get_three t >>= λ _ u.
    opening_line u >>= λ _ w. triple_content (suc (count w)) quote hash_count w

-- `readMultiLineStringRawNoMark`; the mark is `start`.
unfoldable pub read_multi_line_string_raw_no_mark : Input → ℕ → Input → Read Bytes
unfolding opening_line triple_content
read_multi_line_string_raw_no_mark start hash_count t =
    read_triple b'"' hash_count t >>= λ _ u. got (copy_from_mark start u) u

-- `readMultiLineString`.
unfoldable pub read_multi_line_string : Input → Read Bytes
unfolding read_multi_line_string_raw_no_mark
read_multi_line_string t = read_multi_line_string_raw_no_mark t 0 t

-- `readMultiLineExpressionString`.
unfoldable pub read_multi_line_expression_string : Input → Read Bytes
unfolding opening_line triple_content
read_multi_line_expression_string t = read_triple b'`' 0 t >>= λ _ u. got (copy_from_mark t u) u
