-- ===== src/Tokenizer/CType.antt =====
-- internal/tokenizer/ctype.go: the character classes, and relaxed/relaxed.go's flags.
pub mod Separators
use Prim.Native.Nat.{bit_and}
use gokdl.Base.{
  ℕ, Bool, true, false, not, ◌&&◌, ◌||◌, List, [], ◌∷◌, ◌==◌, leb, ltb, one_of, if◌then◌else◌,
}
use gokdl.Tokenizer.Token.{Version, is_v2}

-- `relaxed.Flags` is the bit set of the three flags.
abbrev pub nginx_syntax : ℕ
nginx_syntax = 1

abbrev pub yaml_toml_assignments : ℕ
yaml_toml_assignments = 2

unfoldable pub permit : ℕ → ℕ → Bool
permit f q = not (bit_and f q == 0)

unfoldable pub is_disallowed_v2_rune : ℕ → Bool
is_disallowed_v2_rune = one_of (
    0x7F ∷ 0x200E ∷ 0x200F ∷ 0x202A ∷ 0x202B ∷ 0x202D ∷ 0x202E ∷ 0x2066 ∷ 0x2067 ∷ 0x2068 ∷ 0x2069
    ∷ 0x202C ∷ [])

unfoldable pub is_white_space : ℕ → Bool
is_white_space = one_of (
    b'\t' ∷ b' ' ∷ 0x00A0 ∷ 0x1680 ∷ 0x2000 ∷ 0x2001 ∷ 0x2002 ∷ 0x2003 ∷ 0x2004 ∷ 0x2005 ∷ 0x2006
    ∷ 0x2007 ∷ 0x2008 ∷ 0x2009 ∷ 0x200A ∷ 0x202F ∷ 0x205F ∷ 0x3000 ∷ [])

unfoldable pub is_newline : ℕ → Bool
is_newline = one_of (b'\r' ∷ b'\n' ∷ 0x0b ∷ 0x0c ∷ 0x85 ∷ 0x2028 ∷ 0x2029 ∷ [])

unfoldable pub is_line_space : ℕ → Bool
is_line_space c = is_white_space c || is_newline c

unfoldable pub is_digit : ℕ → Bool
is_digit c = leb b'0' c && leb c b'9'

unfoldable pub is_sign : ℕ → Bool
is_sign c = c == b'-' || c == b'+'

unfoldable pub is_separator : ℕ → Bool
is_separator c = is_white_space c || is_newline c || c == b';'

-- The characters that KDL v2 never allows in a bare identifier.
abbrev reserved_v2 : List ℕ
reserved_v2 =
    b'(' ∷ b')' ∷ b'{' ∷ b'}' ∷ b'[' ∷ b']' ∷ b'/' ∷ b'\\' ∷ b'"' ∷ b'#' ∷ b';' ∷ b'=' ∷ []

unfoldable pub is_bare_v2 : ℕ → Bool → Bool
is_bare_v2 c first =
    if one_of reserved_v2 c then false else if first && is_digit c then false else true

-- KDL v1, and `VersionAuto`.
unfoldable pub is_bare_v1 : ℕ → ℕ → Bool → Bool
is_bare_v1 c r first =
    if first && is_digit c
    then false
    else if one_of (b'{' ∷ b'}' ∷ b'<' ∷ b'>' ∷ b';' ∷ b'[' ∷ b']' ∷ b'=' ∷ b',' ∷ []) c
    then false
    else if one_of (b'(' ∷ b')' ∷ b'/' ∷ b'\\' ∷ b'"' ∷ []) c
    then permit r nginx_syntax
    else if c == b':'
    then not (permit r yaml_toml_assignments) || permit r nginx_syntax
    else true

unfoldable pub is_bare_identifier_char_version : ℕ → ℕ → Bool → Version → Bool
unfolding is_bare_v1 is_bare_v2
is_bare_identifier_char_version c r first v =
    if is_newline c || is_white_space c
    then false
    else if ltb c 0x20 || ltb 0x10FFFF c
    then false
    else if is_disallowed_v2_rune c
    then false
    else if is_v2 v
    then is_bare_v2 c first
    else is_bare_v1 c r first

unfoldable pub is_bare_identifier_start_char_version : ℕ → ℕ → Version → Bool
is_bare_identifier_start_char_version c r v = is_bare_identifier_char_version c r true v

-- The loop of `IsBareIdentifierVersion` over the runes; the flag is `first`.
unfoldable pub all_bare : List ℕ → ℕ → Bool → Version → Bool
all_bare [] rf first v = true
all_bare (r ∷ rs) rf first v =
    if not (is_bare_identifier_char_version r rf first v) then false else all_bare rs rf false v

-- `IsBareIdentifierVersion` over the runes of the string, as `range` gives them.
unfoldable pub is_bare_identifier_version : List ℕ → ℕ → Version → Bool
unfolding all_bare
is_bare_identifier_version [] rf v = false
is_bare_identifier_version (r ∷ rs) rf v = all_bare (r ∷ rs) rf true v
