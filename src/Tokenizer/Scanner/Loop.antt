-- ===== src/Tokenizer/Scanner/Loop.antt =====
-- internal/tokenizer/scanner.go: `Scan` until it returns false, `ScanAll` and `ScanOne`.
use gokdl.Base.{
  ℕ, zero, suc, ◌||◌, ◌&&◌, List, [], ◌∷◌, Option, none, some, Bytes, ◌==◌, if◌then◌else◌,
}
use gokdl.Tokenizer.Input.{
  Input, finish, broken, rune, count, decode, ScanError, end_of_input, out_of_fuel,
}
use gokdl.Tokenizer.Scanner.Next.{Next, token, halted, read_next}
use gokdl.Tokenizer.Scanner.State.{Scanner, advance}
use gokdl.Tokenizer.Token.{TokenId, Token}

-- How the tokens end: with the end token, or with an error.
pub data Ending : Type 0 where
  ended : Token → Ending
  stopped : ScanError → Ending

-- Where the input stands at `io.EOF`. A lone `/`, `0` or `?` is only peeked at, and so is the `n`
-- of `#n`; whatever else ends inside a token is consumed.
unfoldable pub place_at_end : Input → Input
place_at_end finish = finish
place_at_end (broken b) = broken b
place_at_end (rune c b finish) =
    if c == b'/' || c == b'0' || c == b'?' then rune c b finish else finish
place_at_end (rune c b (broken b')) = finish
place_at_end (rune c b (rune d b' finish)) =
    if c == b'#' && d == b'n' then rune d b' finish else finish
place_at_end (rune c b (rune d b' (broken b''))) = finish
place_at_end (rune c b (rune d b' (rune _ _ _))) = finish

-- `eofToken` with the position.
unfoldable pub eof_token : Scanner → Token
eof_token s = record {
  id = TokenId.eof;
  content = [];
  line = s.line;
  column = s.column;
  version = s.version;
}

-- What `Scan` makes of an error.
unfoldable pub ending_of : ScanError → Scanner → Ending
unfolding eof_token place_at_end advance
ending_of e s = elim e [
  | end_of_input ↦ ended (eof_token (advance s (place_at_end s.input)))
  | other ↦ stopped other
]

-- The tokens that `Scan` gives, with their ending. A token takes a rune, so the number of runes is
-- fuel enough.
unfoldable pub scan_from : ℕ → Scanner → List Token × Ending
unfolding read_next ending_of
scan_from zero s = ([], stopped out_of_fuel)
scan_from (suc fuel) s = elim (read_next s) [
  | token t s' ↦ let (ts, e) = scan_from fuel s' in (t ∷ ts, e)
  | halted e s' ↦ ([], ending_of e s')
]

unfoldable pub scan : Scanner → List Token × Ending
unfolding scan_from
scan s = scan_from (suc (count s.input)) s

-- `ScanAll`, whose loop makes the calls of `Scan`.
unfoldable pub scan_all : Scanner → Option (List Token)
unfolding scan
scan_all s = let (ts, e) = scan s in elim e [ ended t ↦ some ts | stopped x ↦ none ]

-- `ScanOne`, on the scanner that all its calls share.
unfoldable pub scan_one : Scanner → Bytes → Next
unfolding read_next decode
scan_one s b = read_next (record s { offset = 0; input = decode b })
