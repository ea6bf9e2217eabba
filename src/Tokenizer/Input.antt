-- ===== src/Tokenizer/Input.antt =====
-- internal/tokenizer/scanner.go: the input of a scanner, as the runes that `utf8.DecodeRune` gives.
-- The cache of peeked runes is no part of it: a peek reads the runes again.
pub mod Consumed
pub mod RoundTrip
use gokdl.Base.{
  ℕ, zero, suc, ◌+◌, ◌-◌, Bool, true, false, ◌&&◌, ◌||◌, not, List, [], ◌∷◌, ◌++◌, Option, none,
  some, Bytes, ◌==◌, length, take, drop, if◌then◌else◌,
}
use gokdl.Go.Utf8.{decode_rune, rune_error}

-- A rune with the bytes that hold it.
pub record Rune : Type 0 where
  pub code : ℕ
  pub bytes : Bytes

-- The input ends, goes on with bytes that are no rune, or with a rune.
pub data Input : Type 0 where
  finish : Input
  broken : Bytes → Input
  rune : ℕ → Bytes → Input → Input

-- `utf8.DecodeRune`, again and again. U+FFFD counts as broken, whatever bytes hold it. Each round
-- takes a byte, so the length is fuel enough.
unfoldable pub decode_from : ℕ → Bytes → Input
decode_from fuel [] = finish
decode_from zero (c ∷ s) = broken (c ∷ s)
decode_from (suc fuel) (c ∷ s) =
    let (r, size) = decode_rune (c ∷ s) in
    let rest = decode_from fuel (drop size (c ∷ s)) in
    if r == rune_error then broken (c ∷ s) else rune r (take size (c ∷ s)) rest

unfoldable pub decode : Bytes → Input
unfolding decode_from decode_rune
decode s = decode_from (length s) s

abbrev pub runes_of : Input → List Rune
runes_of finish = []
runes_of (broken b) = []
runes_of (rune c b t) = record { code = c; bytes = b } ∷ runes_of t

abbrev pub count : Input → ℕ
count finish = 0
count (broken b) = 0
count (rune c b t) = suc (count t)

abbrev pub bytes_of : List Rune → Bytes
bytes_of [] = []
bytes_of (r ∷ rs) = r.bytes ++ bytes_of rs

-- The runes between two places of the input.
abbrev pub between : Input → Input → List Rune
between start now = take (count start - count now) (runes_of start)

-- `copyFromMark`, and `copyInput` with the sizes of the runes that are then skipped.
abbrev pub copy_from_mark : Input → Input → Bytes
copy_from_mark start now = bytes_of (between start now)

-- The errors, as far as the program tells them apart, with the character of the message.
pub data ScanError : Type 0 where
  end_of_input invalid_rune unexpected_end end_of_token : ScanError
  unexpected_character : ℕ → ScanError
  content_after_opening missing_quote bare_keyword out_of_fuel : ScanError

-- What a reader gives: a value and the place behind it, or an error.
pub data Read (A : Type 0) : Type 0 where
  got : A → Input → Read A
  failed : ScanError → Read A

infixl 5 ◌>>=◌
abbrev pub ◌>>=◌ : {A B : Type 0} → Read A → (A → Input → Read B) → Read B
◌>>=◌ (got a t) f = f a t
◌>>=◌ (failed e) f = failed e

-- `get`: the next rune is consumed.
abbrev pub get : Input → Read ℕ
get finish = failed end_of_input
get (broken b) = failed invalid_rune
get (rune c b t) = got c t

-- `skip`, which ignores an error.
abbrev pub skip : Input → Input
skip finish = finish
skip (broken b) = broken b
skip (rune c b t) = t

-- `peek`, with no error for the end.
pub data Peek : Type 0 where
  seen : ℕ → Peek
  at_end : Peek
  at_invalid : Peek

abbrev pub peek : Input → Peek
peek finish = at_end
peek (broken b) = at_invalid
peek (rune c b t) = seen c

-- The second rune of `peekTwo`, and the third of `peekThree`; an error of an earlier one is theirs.
abbrev pub peek_two : Input → Peek
peek_two finish = at_end
peek_two (broken b) = at_invalid
peek_two (rune c b t) = peek t

abbrev pub peek_three : Input → Peek
peek_three finish = at_end
peek_three (broken b) = at_invalid
peek_three (rune c b t) = peek_two t

abbrev pub is_seen : Peek → ℕ → Bool
is_seen (seen c) d = c == d
is_seen at_end d = false
is_seen at_invalid d = false

-- The error of a `peek` or `get` that did not give a rune; the end becomes `io.ErrUnexpectedEOF`.
abbrev pub unexpected_eof : ScanError → ScanError
unexpected_eof end_of_input = unexpected_end
unexpected_eof e = e

abbrev pub or_unexpected_end : {A : Type 0} → Read A → Read A
or_unexpected_end (got a t) = got a t
or_unexpected_end (failed e) = failed (unexpected_eof e)

-- Every error becomes `io.ErrUnexpectedEOF`.
abbrev pub all_unexpected_end : {A : Type 0} → Read A → Read A
all_unexpected_end (got a t) = got a t
all_unexpected_end (failed e) = failed unexpected_end
