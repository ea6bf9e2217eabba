-- ===== src/Tokenizer/Scanner/Next.antt =====
-- internal/tokenizer/scanner.go: `readNext`, the next token.
use gokdl.Base.{ℕ, Bool, false, not, ◌&&◌, ◌||◌, [], ◌∷◌, Bytes, ◌==◌, one_of, if◌then◌else◌}
use gokdl.Tokenizer.CType.{
  is_white_space, is_newline, is_digit, permit, nginx_syntax, yaml_toml_assignments,
}
use gokdl.Tokenizer.Input.{
  Input, finish, broken, rune, copy_from_mark, ScanError, end_of_input, invalid_rune,
  unexpected_character, Read, got, failed, skip, Peek, seen, at_end, at_invalid, peek_two, is_seen,
}
use gokdl.Tokenizer.Readers.Comments.{read_multi_line_comment, read_single_line_comment}
use gokdl.Tokenizer.Readers.Hash.{read_hash_token}
use gokdl.Tokenizer.Readers.Identifier.{read_identifier, with_kind}
use gokdl.Tokenizer.Readers.Number.{read_decimal, read_hexadecimal, read_octal, read_binary}
use gokdl.Tokenizer.Readers.While.{read_whitespace}
use gokdl.Tokenizer.Scanner.State.{Scanner, advance}
use gokdl.Tokenizer.Scanner.Version.{detected}
use gokdl.Tokenizer.Token.{TokenId, Token, Version, is_v2}

-- A token of one rune or of two: `copyInput` with their sizes, and `skip` for each.
unfoldable pub single : TokenId → Input → Read (TokenId × Bytes)
single id t = got (id, copy_from_mark t (skip t)) (skip t)

unfoldable pub double : TokenId → Input → Read (TokenId × Bytes)
double id t = got (id, copy_from_mark t (skip (skip t))) (skip (skip t))

-- The case of U+FEFF.
unfoldable pub read_bom : ℕ → Input → Read (TokenId × Bytes)
unfolding single
read_bom offset t =
    if not (offset == 0) then failed (unexpected_character 0xFEFF) else single TokenId.whitespace t

-- The case of a carriage return.
unfoldable pub read_return : Input → Read (TokenId × Bytes)
unfolding single double
read_return t =
    if is_seen (peek_two t) b'\n' then double TokenId.newline t else single TokenId.newline t

-- The case of a slash.
unfoldable pub read_slash : ℕ → Version → Input → Read (TokenId × Bytes)
unfolding double read_multi_line_comment read_single_line_comment read_identifier permit
read_slash relaxed v t = elim (peek_two t) [
  | seen d ↦
      if d == b'*'
      then with_kind TokenId.multi_line_comment (read_multi_line_comment t)
      else if d == b'/'
      then with_kind TokenId.single_line_comment (read_single_line_comment t)
      else if d == b'-'
      then double TokenId.token_comment t
      else if permit relaxed nginx_syntax
      then read_identifier relaxed v t
      else failed (unexpected_character d)
  | at_end ↦ failed end_of_input
  | at_invalid ↦ failed invalid_rune
]

-- The cases of parentheses and of a backslash.
unfoldable pub read_unless_nginx : ℕ → Version → TokenId → Input → Read (TokenId × Bytes)
unfolding single read_identifier permit
read_unless_nginx relaxed v id t =
    if permit relaxed nginx_syntax then read_identifier relaxed v t else single id t

-- The case of `?`, `+` and `-`.
unfoldable pub read_signed : ℕ → Version → ℕ → Input → Read (TokenId × Bytes)
unfolding read_identifier read_decimal is_digit
read_signed relaxed v c t = elim (peek_two t) [
  | seen d ↦
      if c == b'?'
      then read_identifier relaxed v t
      else if is_digit d
      then read_decimal relaxed t
      else read_identifier relaxed v t
  | at_end ↦ if not (c == b'?') then read_identifier relaxed v t else failed end_of_input
  | at_invalid ↦ failed invalid_rune
]

-- The case of `0`.
unfoldable pub read_zero : ℕ → Input → Read (TokenId × Bytes)
unfolding read_hexadecimal read_octal read_binary read_decimal
read_zero relaxed t = elim (peek_two t) [
  | seen d ↦
      if d == b'x'
      then with_kind TokenId.hexadecimal (read_hexadecimal t)
      else if d == b'o'
      then with_kind TokenId.octal (read_octal t)
      else if d == b'b'
      then with_kind TokenId.binary (read_binary t)
      else read_decimal relaxed t
  | at_end ↦ failed end_of_input
  | at_invalid ↦ failed invalid_rune
]

abbrev pub is_digit_seen : Peek → Bool
is_digit_seen (seen d) = is_digit d
is_digit_seen at_end = false
is_digit_seen at_invalid = false

-- The default case.
unfoldable pub read_default : ℕ → Version → ℕ → Input → Read (TokenId × Bytes)
unfolding read_hash_token read_single_line_comment read_identifier single permit is_digit
read_default relaxed v c t =
    if c == b'.' && is_v2 v && is_digit_seen (peek_two t)
    then failed (unexpected_character c)
    else if c == b'#' && is_v2 v
    then read_hash_token v t
    else if c == b'#' && permit relaxed nginx_syntax
    then with_kind TokenId.single_line_comment (read_single_line_comment t)
    else if c == b':' && permit relaxed yaml_toml_assignments
    then single TokenId.whitespace t
    else read_identifier relaxed v t

-- The cases that take one rune, whatever the flags.
unfoldable pub punctuation : ℕ → TokenId
punctuation c =
    if c == b'{'
    then TokenId.brace_open
    else if c == b'}'
    then TokenId.brace_close
    else if c == b'='
    then TokenId.equals
    else if c == b';'
    then TokenId.semicolon
    else TokenId.unknown

-- The `switch` behind the cases of space.
unfoldable pub read_visible : ℕ → Version → ℕ → Input → Read (TokenId × Bytes)
unfolding read_slash read_unless_nginx punctuation single read_signed read_zero read_decimal
    read_default is_digit
read_visible relaxed v c t =
    if c == b'/'
    then read_slash relaxed v t
    else if c == b'('
    then read_unless_nginx relaxed v TokenId.parens_open t
    else if c == b')'
    then read_unless_nginx relaxed v TokenId.parens_close t
    else if one_of (b'{' ∷ b'}' ∷ b'=' ∷ b';' ∷ []) c
    then single (punctuation c) t
    else if c == b','
    then failed (unexpected_character c)
    else if c == b'\\'
    then read_unless_nginx relaxed v TokenId.continuation t
    else if c == b'?' || c == b'+' || c == b'-'
    then read_signed relaxed v c t
    else if c == b'0'
    then read_zero relaxed t
    else if is_digit c
    then read_decimal relaxed t
    else read_default relaxed v c t

-- The `switch` of `readNext`. Its first case lists the runes of `isWhiteSpace`; the one of newlines lists
-- those of `isNewline` but for the carriage return, which has its own.
unfoldable pub token_switch : Scanner → Input → Read (TokenId × Bytes)
unfolding read_whitespace read_bom read_return single read_visible is_white_space is_newline
token_switch s finish = failed end_of_input
token_switch s (broken b) = failed invalid_rune
token_switch s (rune c b t) =
    if is_white_space c
    then with_kind TokenId.whitespace (read_whitespace (rune c b t))
    else if c == 0xFEFF
    then read_bom s.offset (rune c b t)
    else if c == b'\r'
    then read_return (rune c b t)
    else if is_newline c
    then single TokenId.newline (rune c b t)
    else read_visible s.relaxed s.version c (rune c b t)

-- A token with the scanner behind it, or an error with the scanner in front of what it met.
pub data Next : Type 0 where
  token : Token → Scanner → Next
  halted : ScanError → Scanner → Next

unfoldable pub next_of : Scanner → Read (TokenId × Bytes) → Next
unfolding advance
next_of s (got (id, b) u) =
    token (record { id = id; content = b; line = s.line; column = s.column; version = s.version })
      (advance s u)
next_of s (failed e) = halted e s

-- `readNext`.
unfoldable pub read_next : Scanner → Next
unfolding next_of token_switch detected
read_next s = let s' = detected s in next_of s' (token_switch s' s'.input)
