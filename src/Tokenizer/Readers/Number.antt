-- ===== src/Tokenizer/Readers/Number.antt =====
-- internal/tokenizer/readtype.go: numbers.
use gokdl.Base.{
  ℕ, suc, Bool, true, false, not, ◌&&◌, ◌||◌, [], ◌∷◌, Option, none, some, Bytes, get_elem?, ◌==◌,
  leb, ltb, one_of, if◌then◌else◌,
}
use gokdl.Tokenizer.CType.{
  is_digit, is_separator, is_white_space, is_newline, is_bare_identifier_char_version, permit,
  nginx_syntax,
}
use gokdl.Tokenizer.Input.{
  Input, copy_from_mark, end_of_input, invalid_rune, unexpected_character, Read, got, failed, skip,
  seen, at_end, at_invalid, peek, is_seen, ◌>>=◌,
}
use gokdl.Tokenizer.Readers.While.{read_while, read_while_state}
use gokdl.Tokenizer.Token.{TokenId, Version}

-- relaxed/relaxed.go: `MultiplierSuffixes`.
abbrev pub multiplier_suffixes : ℕ
multiplier_suffixes = 4

-- The variables of the closures of `readInteger`.
pub record IntegerState : Type 0 where
  pub first : Bool
  pub multiplier_ok : Bool
  pub has_multiplier : Bool

-- The letters of a multiplier; the fifth is U+00B5.
unfoldable pub is_multiplier : ℕ → Bool
is_multiplier =
    one_of (
      b'h' ∷ b'm' ∷ b's' ∷ b'u' ∷ 0xB5 ∷ b'k' ∷ b'K' ∷ b'M' ∷ b'g' ∷ b'G' ∷ b't' ∷ b'T' ∷ b'b' ∷ [])

-- The first closure.
unfoldable pub plain_digit : IntegerState → ℕ → Input → Option IntegerState
unfolding is_digit
plain_digit s c t =
    if s.first
    then (if is_digit c then some (record s { first = false }) else none)
    else if is_digit c || c == b'_'
    then some s
    else none

-- The second closure, behind its test of the first rune.
unfoldable pub suffix_switch : IntegerState → ℕ → Option IntegerState
unfolding is_digit is_multiplier
suffix_switch s c =
    if s.multiplier_ok && is_multiplier c
    then some (record s { has_multiplier = true })
    else if is_digit c || c == b'_'
    then some s
    else none

-- The second closure, where suffixes are permitted.
unfoldable pub suffixed_digit : IntegerState → ℕ → Input → Option IntegerState
unfolding suffix_switch
suffixed_digit s c t =
    if s.first && (c == b'+' || c == b'-')
    then some (record s { first = false; multiplier_ok = false })
    else suffix_switch (record s { first = false }) c

abbrev pub at_integer : IntegerState
at_integer = record { first = true; multiplier_ok = true; has_multiplier = false }

abbrev pub integer_kind : Read (IntegerState × Bytes) → Read TokenId
integer_kind (got (s, b) t) =
    got (if s.has_multiplier then TokenId.suffixed_decimal else TokenId.decimal) t
integer_kind (failed e) = failed e

-- `readInteger`; its callers take the literal from their own mark.
unfoldable pub read_integer : ℕ → Input → Read TokenId
unfolding plain_digit suffixed_digit read_while_state permit
read_integer relaxed t = integer_kind (
    if permit relaxed multiplier_suffixes
    then read_while_state suffixed_digit at_integer 1 t
    else read_while_state plain_digit at_integer 1 t)

-- `readSignedInteger`, likewise.
unfoldable pub read_signed_integer : ℕ → Input → Read TokenId
unfolding read_integer
read_signed_integer relaxed t = elim (peek t) [
  | seen c ↦
      if c == b'+' || c == b'-' then read_integer relaxed (skip t) else read_integer relaxed t
  | at_end ↦ failed end_of_input
  | at_invalid ↦ failed invalid_rune
]

-- The fraction, whose kind replaces the kind so far.
unfoldable pub read_fraction : ℕ → TokenId → Input → Read TokenId
unfolding read_integer
read_fraction relaxed id t =
    if is_seen (peek t) b'.' then read_integer relaxed (skip t) else got id t

-- The exponent, whose kind is dropped.
unfoldable pub read_exponent : ℕ → TokenId → Input → Read TokenId
unfolding read_signed_integer
read_exponent relaxed id t =
    if is_seen (peek t) b'e' || is_seen (peek t) b'E'
    then (read_signed_integer relaxed (skip t) >>= λ _ u. got id u)
    else got id t

-- `isBareIdentifierChar`, which has no version.
unfoldable pub is_bare_identifier_char : ℕ → ℕ → Bool
unfolding is_bare_identifier_char_version
is_bare_identifier_char relaxed c =
    is_bare_identifier_char_version c relaxed false Version.version_auto

-- What may follow the number: a separator, or with `NGINXSyntax` more of a bare identifier.
unfoldable pub behind_decimal : ℕ → TokenId → Input → Read TokenId
unfolding is_separator permit is_bare_identifier_char read_while
behind_decimal relaxed id t = elim (peek t) [
  | seen c ↦
      if is_separator c
      then got id t
      else if permit relaxed nginx_syntax && is_bare_identifier_char relaxed c
      then (read_while (is_bare_identifier_char relaxed) 1 t >>= λ _ u.
          got TokenId.bare_identifier u)
      else failed (unexpected_character c)
  | at_end ↦ got id t
  | at_invalid ↦ got id t
]

-- `readDecimal`.
unfoldable pub read_decimal : ℕ → Input → Read (TokenId × Bytes)
unfolding read_signed_integer read_fraction read_exponent behind_decimal
read_decimal relaxed t = read_signed_integer relaxed t >>= λ id u.
    read_fraction relaxed id u >>= λ id' w. read_exponent relaxed id' w >>= λ id'' x.
    behind_decimal relaxed id'' x >>= λ id''' y. got (id''', copy_from_mark t y) y

-- The closures of the three bases: the first two runes are skipped.
unfoldable pub base_digit : (ℕ → Bool) → ℕ → ℕ → Input → Option ℕ
base_digit digit n c t = if ltb n 2 then some (suc n) else if digit c then some n else none

-- Whether the byte at the index is `_`.
abbrev pub is_underscore : Option ℕ → Bool
is_underscore (some c) = c == b'_'
is_underscore none = false

unfoldable pub behind_base : ℕ × Bytes → Input → Read Bytes
unfolding is_white_space is_newline
behind_base (n, lit) t =
    if is_underscore (get_elem? lit 2) then failed (unexpected_character b'_') else elim (peek t) [
      | seen c ↦
          if not (is_white_space c) && not (is_newline c)
          then failed (unexpected_character c)
          else got lit t
      | at_end ↦ got lit t
      | at_invalid ↦ got lit t
    ]

-- `readNumericBase`.
unfoldable pub read_numeric_base : (ℕ → Bool) → Input → Read Bytes
unfolding base_digit read_while_state behind_base
read_numeric_base digit t = read_while_state (base_digit digit) 0 3 t >>= behind_base

abbrev pub is_hexadecimal : ℕ → Bool
is_hexadecimal c =
    (leb b'0' c && leb c b'9')
    || (leb b'a' c && leb c b'f')
    || (leb b'A' c && leb c b'F')
    || c == b'_'

abbrev pub is_octal : ℕ → Bool
is_octal c = (leb b'0' c && leb c b'7') || c == b'_'

abbrev pub is_binary : ℕ → Bool
is_binary c = c == b'0' || c == b'1' || c == b'_'

-- `readHexadecimal`, `readOctal` and `readBinary`.
unfoldable pub read_hexadecimal : Input → Read Bytes
unfolding read_numeric_base
read_hexadecimal t = read_numeric_base is_hexadecimal t

unfoldable pub read_octal : Input → Read Bytes
unfolding read_numeric_base
read_octal t = read_numeric_base is_octal t

unfoldable pub read_binary : Input → Read Bytes
unfolding read_numeric_base
read_binary t = read_numeric_base is_binary t
