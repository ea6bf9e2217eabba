-- ===== src/Tokenizer/Readers/While.antt =====
-- internal/tokenizer/scanner.go: `readWhile` and `readUntil`. A closure that keeps a state between its
-- calls is a function of that state; it sees the runes behind, as `peekAt` does.
use gokdl.Base.{
  ℕ, Bool, true, false, not, [], Option, none, some, Bytes, ltb, length, if◌then◌else◌,
}
use gokdl.Tokenizer.CType.{is_white_space}
use gokdl.Tokenizer.Input.{
  Input, finish, broken, rune, copy_from_mark, invalid_rune, end_of_token, unexpected_character,
  Read, got, failed,
}

module _ {S : Type 0} where
  -- Behind the loop, at the rune `c` or, with 0 for `c`, at the end.
  unfoldable pub end_while : ℕ → Input → Input → ℕ → Bool → S → Read (S × Bytes)
  end_while min_length start t c valid s =
      if not valid
      then failed (unexpected_character c)
      else if ltb (length (copy_from_mark start t)) min_length
      then failed end_of_token
      else got (s, copy_from_mark start t) t

  -- The loop; `none` is where `validRune` returns false.
  unfoldable pub while_from :
      (S → ℕ → Input → Option S) → ℕ → Input → Bool → S → Input → Read (S × Bytes)
  unfolding end_while
  while_from valid_rune min_length start valid s finish =
      end_while min_length start finish 0 valid s
  while_from valid_rune min_length start valid s (broken b) = failed invalid_rune
  while_from valid_rune min_length start valid s (rune c b t) = elim (valid_rune s c t) [
    | some s' ↦ while_from valid_rune min_length start true s' t
    | none ↦ end_while min_length start (rune c b t) c valid s
  ]

  -- `readWhile`, with the last state.
  unfoldable pub read_while_state : (S → ℕ → Input → Option S) → S → ℕ → Input → Read (S × Bytes)
  unfolding while_from
  read_while_state valid_rune s min_length t = while_from valid_rune min_length t false s t

-- A closure without a state.
abbrev pub stateless : (ℕ → Bool) → Unit {0} → ℕ → Input → Option (Unit {0})
stateless p s c t = if p c then some tt else none

abbrev pub bytes_only : {S : Type 0} → Read (S × Bytes) → Read Bytes
bytes_only (got (s, b) t) = got b t
bytes_only (failed e) = failed e

-- `readWhile`.
unfoldable pub read_while : (ℕ → Bool) → ℕ → Input → Read Bytes
unfolding read_while_state
read_while p min_length t = bytes_only (read_while_state (stateless p) tt min_length t)

-- What `readUntil` gives beside a literal: the end is told apart.
pub data Until : Type 0 where
  stopped : Bytes → Input → Until
  ended : Bytes → Input → Until
  at_error : Until

unfoldable pub until_from : (ℕ → Bool) → Bool → Input → Input → Until
until_from stop include start finish = ended (copy_from_mark start finish) finish
until_from stop include start (broken b) = at_error
until_from stop include start (rune c b t) = elim (stop c) [
  | false ↦ until_from stop include start t
  | true ↦
      if include
      then stopped (copy_from_mark start t) t
      else stopped (copy_from_mark start (rune c b t)) (rune c b t)
]

-- `readUntil`.
unfoldable pub read_until : (ℕ → Bool) → Bool → Input → Until
unfolding until_from
read_until stop include t = until_from stop include t t

-- Behind the white space, where the loop leaves the cursor.
unfoldable pub behind_white_space : Input → Input
behind_white_space finish = finish
behind_white_space (broken b) = broken b
behind_white_space (rune c b t) =
    let rest = behind_white_space t in if is_white_space c then rest else rune c b t

abbrev pub literal_of : Read Bytes → Bytes
literal_of (got b t) = b
literal_of (failed e) = []

-- `readWhitespace`, which drops the error of bytes that are no rune: the literal is then nil.
unfoldable pub read_whitespace : Input → Read Bytes
unfolding read_while behind_white_space
read_whitespace t = got (literal_of (read_while is_white_space 1 t)) (behind_white_space t)
