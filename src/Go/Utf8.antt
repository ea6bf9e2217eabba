-- ===== src/Go/Utf8.antt =====
-- unicode/utf8's decoding and encoding of a rune, and unicode.IsSpace, as their documentation has it.
use gokdl.Base.{
  ℕ, ◌+◌, ◌-◌, ◌*◌, ◌/◌, ◌%◌, Bool, ◌&&◌, ◌||◌, [], ◌∷◌, ◌++◌, Bytes, ◌==◌, leb, ltb, one_of,
  if◌then◌else◌,
}

abbrev pub rune_error : ℕ
rune_error = 0xFFFD

abbrev within : ℕ → ℕ → ℕ → Bool
within lo hi c = leb lo c && leb c hi

abbrev is_tail : ℕ → Bool
is_tail c = within 0x80 0xBF c

abbrev bad : ℕ × ℕ
bad = (rune_error, 1)

decode2 : ℕ → Bytes → ℕ × ℕ
decode2 a [] = bad
decode2 a (b ∷ _) = if is_tail b then ((a - 0xC0) * 64 + (b - 0x80), 2) else bad

-- The second byte after a leading byte of three.
second3 : ℕ → ℕ → Bool
second3 a b =
    if a == 0xE0 then within 0xA0 0xBF b else if a == 0xED then within 0x80 0x9F b else is_tail b

decode3 : ℕ → Bytes → ℕ × ℕ
unfolding second3
decode3 a (b ∷ c ∷ _) =
    if second3 a b && is_tail c then ((a - 0xE0) * 4096 + (b - 0x80) * 64 + (c - 0x80), 3) else bad
decode3 a _ = bad

second4 : ℕ → ℕ → Bool
second4 a b =
    if a == 0xF0 then within 0x90 0xBF b else if a == 0xF4 then within 0x80 0x8F b else is_tail b

decode4 : ℕ → Bytes → ℕ × ℕ
unfolding second4
decode4 a (b ∷ c ∷ d ∷ _) =
    if second4 a b && is_tail c && is_tail d
    then ((a - 0xF0) * 262144 + (b - 0x80) * 4096 + (c - 0x80) * 64 + (d - 0x80), 4)
    else bad
decode4 a _ = bad

-- `DecodeRune`: the first rune and its size; a wrong encoding is `RuneError` with size 1.
unfoldable pub decode_rune : Bytes → ℕ × ℕ
unfolding decode2 decode3 decode4
decode_rune [] = (rune_error, 0)
decode_rune (a ∷ s) =
    if ltb a 0x80
    then (a, 1)
    else if within 0xC2 0xDF a
    then decode2 a s
    else if within 0xE0 0xEF a
    then decode3 a s
    else if within 0xF0 0xF4 a
    then decode4 a s
    else bad

-- `AppendRune`.
unfoldable pub append_rune : Bytes → ℕ → Bytes
append_rune b r =
    if ltb r 0x80
    then b ++ r ∷ []
    else if ltb r 0x800
    then b ++ (0xC0 + r / 64) ∷ (0x80 + r % 64) ∷ []
    else if ltb 0x10FFFF r || within 0xD800 0xDFFF r
    then b ++ 0xEF ∷ 0xBF ∷ 0xBD ∷ []
    else if ltb r 0x10000
    then b ++ (0xE0 + r / 4096) ∷ (0x80 + r / 64 % 64) ∷ (0x80 + r % 64) ∷ []
    else b
      ++ (0xF0 + r / 262144) ∷ (0x80 + r / 4096 % 64) ∷ (0x80 + r / 64 % 64) ∷ (0x80 + r % 64) ∷ []

-- `unicode.IsSpace`.
unfoldable pub is_space : ℕ → Bool
is_space r =
    one_of
      (b'\t' ∷ b'\n' ∷ 0x0b ∷ 0x0c ∷ b'\r' ∷ b' ' ∷ 0x85 ∷ 0xA0 ∷ 0x1680 ∷ 0x2028 ∷ 0x2029 ∷ 0x202F
        ∷ 0x205F ∷ 0x3000 ∷ [])
      r
    || within 0x2000 0x200A r
