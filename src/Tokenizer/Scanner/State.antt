-- ===== src/Tokenizer/Scanner/State.antt =====
-- internal/tokenizer/scanner.go: the state of a scanner, and its position.
use gokdl.Base.{ℕ, suc, ◌+◌, Bool, false, List, [], ◌∷◌, Bytes, length, if◌then◌else◌}
use gokdl.Tokenizer.CType.{is_newline}
use gokdl.Tokenizer.Input.{Rune, Input, decode, between}
use gokdl.Tokenizer.Token.{Version}

-- `offset` is what `Offset` gives, in bytes.
pub record Scanner : Type 0 where
  pub relaxed : ℕ
  pub version : Version
  pub marker_detected : Bool
  pub offset : ℕ
  pub line : ℕ
  pub column : ℕ
  pub input : Input

-- `NewSlice`, with the fields that its callers set.
unfoldable pub new_slice : ℕ → Version → Bytes → Scanner
unfolding decode
new_slice relaxed v s = record {
  relaxed = relaxed;
  version = v;
  marker_detected = false;
  offset = 0;
  line = 0;
  column = 0;
  input = decode s;
}

-- What `get` does to the position. Behind a newline the column is 1, while it begins with 0.
unfoldable pub pass : Scanner → Rune → Scanner
unfolding is_newline
pass s r =
    if is_newline r.code
    then record s { offset = s.offset + length r.bytes; line = suc s.line; column = 1 }
    else record s { offset = s.offset + length r.bytes; column = suc s.column }

unfoldable pub pass_all : Scanner → List Rune → Scanner
unfolding pass
pass_all s [] = s
pass_all s (r ∷ rs) = pass_all (pass s r) rs

-- The runes up to `u` are consumed.
unfoldable pub advance : Scanner → Input → Scanner
unfolding pass_all
advance s u = record (pass_all s (between s.input u)) { input = u }
