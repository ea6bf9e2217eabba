-- ===== src/Tokenizer/Readers/Identifier.antt =====
-- internal/tokenizer/readtype.go: `readIdentifier`, which tells strings and bare identifiers apart.
use gokdl.Base.{ℕ, not, ◌&&◌, ◌||◌, Bytes, ◌==◌, leb, ltb, if◌then◌else◌}
use gokdl.Tokenizer.CType.{is_digit, is_bare_identifier_start_char_version, permit, nginx_syntax}
use gokdl.Tokenizer.Input.{
  Input, finish, broken, rune, end_of_input, invalid_rune, unexpected_character, Read, got, failed,
  seen, at_end, at_invalid, peek_two, is_seen, ◌>>=◌,
}
use gokdl.Tokenizer.Readers.Bare.{read_bare_identifier}
use gokdl.Tokenizer.Readers.Hash.{is_triple}
use gokdl.Tokenizer.Readers.Quoted.{read_quoted_string_q}
use gokdl.Tokenizer.Readers.Raw.{read_raw_string}
use gokdl.Tokenizer.Readers.Triple.{read_multi_line_string, read_multi_line_expression_string}
use gokdl.Tokenizer.Token.{TokenId, Version, is_v2}

abbrev pub with_kind : TokenId → Read Bytes → Read (TokenId × Bytes)
with_kind id r = r >>= λ s u. got (id, s) u

-- Behind the `switch`: a bare identifier, whose start is tested where two runes are there.
unfoldable pub read_bare : ℕ → Version → ℕ → Input → Read (TokenId × Bytes)
unfolding is_bare_identifier_start_char_version is_digit read_bare_identifier
read_bare relaxed v c t = elim (peek_two t) [
  | seen d ↦
      if not (is_bare_identifier_start_char_version c relaxed v)
        && not (c == b'-' && not (is_digit d))
      then failed (unexpected_character c)
      else read_bare_identifier relaxed v t
  | at_end ↦ read_bare_identifier relaxed v t
  | at_invalid ↦ read_bare_identifier relaxed v t
]

-- The `switch` of `readIdentifier`, at the rune `c`.
unfoldable pub identifier_switch : ℕ → Version → ℕ → Input → Read (TokenId × Bytes)
unfolding read_bare is_triple read_quoted_string_q read_raw_string read_multi_line_string
    read_multi_line_expression_string permit
identifier_switch relaxed v c t =
    if c == b'r' && not (is_v2 v) && (is_seen (peek_two t) b'#' || is_seen (peek_two t) b'"')
    then with_kind TokenId.raw_string (read_raw_string v t)
    else if c == b'"'
    then with_kind TokenId.quoted_string (
        if is_v2 v && is_triple b'"' t
        then read_multi_line_string t
        else read_quoted_string_q b'"' v t)
    else if c == b'`'
    then with_kind TokenId.expression_string (
        if is_triple b'`' t
        then read_multi_line_expression_string t
        else read_quoted_string_q b'`' v t)
    else if c == b'\'' && not (is_v2 v) && permit relaxed nginx_syntax
    then with_kind TokenId.quoted_string (read_quoted_string_q b'\'' v t)
    else read_bare relaxed v c t

-- `readIdentifier`.
unfoldable pub read_identifier : ℕ → Version → Input → Read (TokenId × Bytes)
unfolding identifier_switch
read_identifier relaxed v finish = failed end_of_input
read_identifier relaxed v (broken b) = failed invalid_rune
read_identifier relaxed v (rune c b t) =
    if leb c 0x20 || ltb 0x10FFFF c
    then failed (unexpected_character c)
    else identifier_switch relaxed v c (rune c b t)
