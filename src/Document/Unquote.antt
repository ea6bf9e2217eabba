-- ===== src/Document/Unquote.antt =====
-- document/strings.go: `AppendUnquotedString` and `UnquoteString`. On an error only the error is
-- modelled: no caller reads the buffer that is returned with it.
pub mod Fuel
use mathlib.Core.List.{reverse}
use gokdl.Base.{
  ℕ, zero, suc, ◌+◌, ◌-◌, ◌*◌, Bool, not, ◌&&◌, ◌||◌, [], ◌∷◌, ◌++◌, Option, none, some, Bytes,
  ◌==◌, leb, ltb, codes, one_of, length, take, drop, get_or, if◌then◌else◌,
}
use gokdl.Go.Utf8.{decode_rune, append_rune, is_space, rune_error}

-- The bytes, `ErrInvalid`, or a mark that the fuel ran out.
pub data Unquoted : Type 0 where
  done : Bytes → Unquoted
  invalid : Unquoted
  out_of_fuel : Unquoted

-- `hexTable`: a byte that is no hexadecimal digit counts as 0.
unfoldable pub hex_table : ℕ → ℕ
hex_table c =
    if leb b'0' c && leb c b'9'
    then c - b'0'
    else if leb b'a' c && leb c b'f'
    then c - b'a' + 10
    else if leb b'A' c && leb c b'F'
    then c - b'A' + 10
    else 0

abbrev pub is_whitespace_escape_char : ℕ → Bool
is_whitespace_escape_char = one_of (b' ' ∷ b'\t' ∷ b'\r' ∷ b'\n' ∷ [])

abbrev pub is_whitespace_escape_rune : ℕ → Bool
is_whitespace_escape_rune = is_space

-- The loop over whitespace runes. Each takes a byte at least, so the length is fuel enough.
unfoldable pub skip_space : ℕ → Bytes → Bytes
unfolding decode_rune is_space
skip_space zero s = s
skip_space (suc fuel) [] = []
skip_space (suc fuel) (c ∷ s) =
    let rest = skip_space fuel (drop (decode_rune (c ∷ s)).1 (c ∷ s)) in
    if is_whitespace_escape_rune (decode_rune (c ∷ s)).0 then rest else c ∷ s

-- The text up to the closing brace, and what follows the brace.
unfoldable pub cut_brace : Bytes → Bytes → Option (Bytes × Bytes)
cut_brace digits [] = none
cut_brace digits (c ∷ s) =
    let rest = cut_brace (digits ++ c ∷ []) s in if c == b'}' then some (digits, s) else rest

-- The loop over the digits, backwards. Six digits do not overflow an int32.
hex_sum : Bytes → ℕ → ℕ → ℕ
hex_sum [] r factor = r
hex_sum (c ∷ s) r factor = hex_sum s (r + hex_table c * factor) (factor * 16)

unfoldable pub hex_value : Bytes → ℕ
unfolding hex_sum hex_table
hex_value digits = hex_sum (reverse digits) 0 1

-- What a round of the loop leaves: the buffer, the pending bytes and the rest.
pub data Round : Type 0 where
  next : Bytes → Bytes → Bytes → Round
  refused : Round

abbrev pub checked_rune : Bytes → ℕ → Bytes → Round
checked_rune b r rest =
    if ltb 0x10FFFF r
    then refused
    else if leb 0xD800 r && leb r 0xDFFF
    then refused
    else next (append_rune b r) [] rest

-- `case 'u'`; `s` follows the `u`.
unfoldable pub unicode_escape : Bytes → Bytes → Round
unfolding cut_brace hex_value append_rune
unicode_escape b [] = refused
unicode_escape b (o ∷ s) =
    if ltb (length (o ∷ s)) 3 || not (o == b'{') then refused else elim (cut_brace [] s) [
      | none ↦ refused
      | some (digits, rest) ↦
          if ltb 6 (length digits) then refused else checked_rune b (hex_value digits) rest
    ]

-- The `switch` on the byte behind a backslash.
unfoldable pub escape_switch : ℕ → Bytes → ℕ → Bytes → Round
unfolding unicode_escape
escape_switch quote b c s =
    if c == quote || c == b'\\'
    then next (b ++ c ∷ []) [] s
    else if c == b'n'
    then next (b ++ b'\n' ∷ []) [] s
    else if c == b'r'
    then next (b ++ b'\r' ∷ []) [] s
    else if c == b't'
    then next (b ++ b'\t' ∷ []) [] s
    else if c == b'b'
    then next (b ++ 8 ∷ []) [] s
    else if c == b'f'
    then next (b ++ 12 ∷ []) [] s
    else if c == b's'
    then next (b ++ b' ' ∷ []) [] s
    else if c == b'u'
    then unicode_escape b s
    else if c == b'/'
    then next (b ++ c ∷ []) [] s
    else refused

-- Behind the backslash at `s[i]`.
unfoldable pub read_escape : ℕ → Bytes → Bytes → Round
unfolding escape_switch skip_space
read_escape quote b [] = refused
read_escape quote b (c ∷ s) =
    if is_whitespace_escape_char c
    then (if not (is_whitespace_escape_rune (decode_rune (c ∷ s)).0)
        then refused
        else next b [] (skip_space (length (c ∷ s)) (c ∷ s)))
    else escape_switch quote b c s

-- One round of the loop at `c = s[i]`, with the pending `s[start:i]`.
unfoldable pub unquote_step : ℕ → Bytes → Bytes → ℕ → Bytes → Round
unfolding read_escape decode_rune
unquote_step quote b pending c s =
    if not (c == b'\\' || leb 0x80 c)
    then next b (pending ++ c ∷ []) s
    else if leb 0x80 c
    then (let (r, size) = decode_rune (c ∷ s) in
        if r == rune_error && size == 1
        then next (b ++ (pending ++ codes "\\ufffd")) [] s
        else next b (pending ++ take size (c ∷ s)) (drop size (c ∷ s)))
    else read_escape quote (b ++ pending) s

-- The loop; the source's first pass over plain bytes is its case of no escape.
unfoldable pub unquote_loop : ℕ → ℕ → Bytes → Bytes → Bytes → Unquoted
unquote_loop fuel quote b pending [] = done (b ++ pending)
unquote_loop zero quote b pending (c ∷ s) = out_of_fuel
unquote_loop (suc fuel) quote b pending (c ∷ s) = elim (unquote_step quote b pending c s) [
  | next b' pending' rest ↦ unquote_loop fuel quote b' pending' rest
  | refused ↦ invalid
]

-- The text between the quotes.
abbrev pub inner : Bytes → Bytes
inner s = take (length s - 2) (drop 1 s)

unfoldable pub append_unquoted_string : Bytes → Bytes → ℕ → Unquoted
append_unquoted_string b s quote =
    if ltb (length s) 2 || not (get_or s 0 0 == quote) || not (get_or s (length s - 1) 0 == quote)
    then invalid
    else unquote_loop (length (inner s)) quote b [] (inner s)

unfoldable pub unquote_string : Bytes → Unquoted
unfolding append_unquoted_string
unquote_string [] = done []
unquote_string (q ∷ s) =
    if one_of (b'"' ∷ b'\'' ∷ b'`' ∷ []) q then append_unquoted_string [] (q ∷ s) q else invalid
