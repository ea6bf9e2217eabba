-- ===== src/Tokenizer/Readers/Raw.antt =====
-- internal/tokenizer/readtype.go: raw strings.
use gokdl.Base.{ℕ, zero, suc, Bool, true, false, not, ◌&&◌, Bytes, ◌==◌, if◌then◌else◌}
use gokdl.Tokenizer.CType.{is_newline}
use gokdl.Tokenizer.Input.{
  Input, finish, broken, rune, count, copy_from_mark, unexpected_character, out_of_fuel, Read, got,
  failed, get, or_unexpected_end, ◌>>=◌,
}
use gokdl.Tokenizer.Token.{Version, is_v2}

-- The loop over the closing hashes: whether all were there, and the place behind them.
unfoldable pub match_hashes : ℕ → Input → Bool × Input
match_hashes zero t = (true, t)
match_hashes (suc n) finish = (false, finish)
match_hashes (suc n) (broken b) = (false, broken b)
match_hashes (suc n) (rune c b t) =
    let rest = match_hashes n t in if not (c == b'#') then (false, rune c b t) else rest

-- `readRawStringContent`. A round takes a rune, so the number of runes is fuel enough.
unfoldable pub raw_content : ℕ → ℕ → Version → Input → Read (Unit {0})
unfolding match_hashes
raw_content zero hash_count v t = failed out_of_fuel
raw_content (suc fuel) hash_count v t = or_unexpected_end (get t) >>= λ c u.
    let (matched, w) = match_hashes hash_count u in
    let behind_quote = raw_content fuel hash_count v w in
    let behind = raw_content fuel hash_count v u in
    if c == b'"'
    then (if matched then got tt w else behind_quote)
    else if is_v2 v && is_newline c
    then failed (unexpected_character c)
    else behind

unfoldable pub read_raw_string_content : ℕ → Version → Input → Read (Unit {0})
unfolding raw_content
read_raw_string_content hash_count v t = raw_content (suc (count t)) hash_count v t

-- The loop `hashLoop` over the opening hashes, up to the quote.
unfoldable pub opening_hashes : ℕ → Input → Read ℕ
opening_hashes hashes finish = or_unexpected_end (get finish)
opening_hashes hashes (broken b) = or_unexpected_end (get (broken b))
opening_hashes hashes (rune c b t) =
    let more = opening_hashes (suc hashes) t in
    if c == b'"' then got hashes t else if c == b'#' then more else failed (unexpected_character c)

-- `readRawString`.
unfoldable pub read_raw_string : Version → Input → Read Bytes
unfolding opening_hashes read_raw_string_content
read_raw_string v t = or_unexpected_end (get t) >>= λ c u.
    if not (c == b'r')
    then failed (unexpected_character c)
    else opening_hashes 0 u >>= λ hashes w.
        read_raw_string_content hashes v w >>= λ _ x. got (copy_from_mark t x) x
