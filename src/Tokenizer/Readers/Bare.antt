-- ===== src/Tokenizer/Readers/Bare.antt =====
-- internal/tokenizer/readtype.go: bare identifiers.
use gokdl.Base.{ℕ, Bool, false, not, ◌&&◌, ◌||◌, Bytes, bytes_eq, codes, if◌then◌else◌}
use gokdl.Tokenizer.CType.{
  is_digit, is_sign, is_bare_identifier_char_version, is_bare_identifier_start_char_version,
}
use gokdl.Tokenizer.Input.{
  Input, finish, broken, rune, invalid_rune, unexpected_end, unexpected_character, bare_keyword,
  Read, got, failed, ◌>>=◌,
}
use gokdl.Tokenizer.Readers.While.{read_while}
use gokdl.Tokenizer.Token.{TokenId, Version, is_v2}

-- The literals that KDL v2 writes with a hash.
unfoldable pub is_v2_keyword : Bytes → Bool
unfolding bytes_eq
is_v2_keyword s =
    bytes_eq s (codes "true")
    || bytes_eq s (codes "false")
    || bytes_eq s (codes "null")
    || bytes_eq s (codes "inf")
    || bytes_eq s (codes "-inf")
    || bytes_eq s (codes "nan")

unfoldable pub kind_of_literal : Bytes → TokenId
unfolding bytes_eq
kind_of_literal s =
    if bytes_eq s (codes "true") || bytes_eq s (codes "false")
    then TokenId.boolean
    else if bytes_eq s (codes "null")
    then TokenId.null
    else TokenId.bare_identifier

-- The literal and its kind.
unfoldable pub read_literal : ℕ → Version → Input → Read (TokenId × Bytes)
unfolding is_v2_keyword kind_of_literal read_while
read_literal relaxed v t =
    read_while (λ c. is_bare_identifier_char_version c relaxed false v) 1 t >>= λ s u.
    if is_v2 v && is_v2_keyword s then failed bare_keyword else got (kind_of_literal s, s) u

-- `readBareIdentifier`.
unfoldable pub read_bare_identifier : ℕ → Version → Input → Read (TokenId × Bytes)
unfolding read_literal is_sign
read_bare_identifier relaxed v finish = failed unexpected_end
read_bare_identifier relaxed v (broken b) = failed invalid_rune
read_bare_identifier relaxed v (rune c b t) =
    if is_sign c
    then elim t [
      | finish ↦
          read_while is_sign 1 (rune c b finish) >>= λ s u. got (TokenId.bare_identifier, s) u
      | broken b' ↦ failed invalid_rune
      | rune d b' u ↦
          if is_digit d
          then failed (unexpected_character d)
          else read_literal relaxed v (rune c b (rune d b' u))
    ]
    else if not (is_bare_identifier_start_char_version c relaxed v)
    then failed (unexpected_character c)
    else read_literal relaxed v (rune c b t)
