-- ===== src/Tokenizer/Readers/Hash.antt =====
-- internal/tokenizer/readtype.go: `readHashToken`, the keywords and the raw strings of KDL v2.
use gokdl.Base.{ℕ, suc, Bool, not, ◌&&◌, ◌||◌, [], ◌∷◌, Bytes, codes, ◌==◌, if◌then◌else◌}
use gokdl.Tokenizer.Input.{
  Input, finish, broken, rune, copy_from_mark, end_of_input, invalid_rune, unexpected_end,
  unexpected_character, missing_quote, Read, got, failed, get, skip, seen, at_end, at_invalid, peek,
  peek_two, peek_three, is_seen, ◌>>=◌,
}
use gokdl.Tokenizer.Readers.Raw.{read_raw_string_content}
use gokdl.Tokenizer.Readers.Triple.{read_multi_line_string_raw_no_mark}
use gokdl.Tokenizer.Token.{TokenId, Version}

-- The loop over the runes of a keyword.
unfoldable pub expect_runes : Bytes → Input → Read (Unit {0})
expect_runes [] t = got tt t
expect_runes (expected ∷ s) finish = failed end_of_input
expect_runes (expected ∷ s) (broken b) = failed invalid_rune
expect_runes (expected ∷ s) (rune c b t) =
    let rest = expect_runes s t in
    if not (c == expected) then failed (unexpected_character c) else rest

-- The keyword, with the kind it has; `start` is the place of the hash.
unfoldable pub read_keyword : TokenId → Bytes → Input → Input → Read (TokenId × Bytes)
unfolding expect_runes
read_keyword id expected start t =
    expect_runes expected t >>= λ _ u. got (id, copy_from_mark start u) u

-- The loop that counts the hashes: any error is an unexpected end.
unfoldable pub count_hashes : ℕ → Input → Read ℕ
count_hashes n finish = failed unexpected_end
count_hashes n (broken b) = failed unexpected_end
count_hashes n (rune c b t) =
    let more = count_hashes (suc n) t in if not (c == b'#') then got n (rune c b t) else more

unfoldable pub is_triple : ℕ → Input → Bool
is_triple q t = is_seen (peek t) q && is_seen (peek_two t) q && is_seen (peek_three t) q

-- Behind the hashes: three quotes, or one.
unfoldable pub read_hash_string : Version → Input → ℕ → Input → Read (TokenId × Bytes)
unfolding read_raw_string_content read_multi_line_string_raw_no_mark is_triple
read_hash_string v start hash_count t =
    if is_triple b'"' t
    then (read_multi_line_string_raw_no_mark start hash_count t >>= λ s u.
        got (TokenId.quoted_string, s) u)
    else elim (peek t) [
      | seen c ↦
          if not (c == b'"')
          then failed missing_quote
          else read_raw_string_content hash_count v (skip t) >>= λ _ u.
              got (TokenId.raw_string, copy_from_mark start u) u
      | at_end ↦ failed unexpected_end
      | at_invalid ↦ failed unexpected_end
    ]

-- `#null` or `#nan`: the second rune tells.
unfoldable pub read_null_or_nan : Input → Input → Read (TokenId × Bytes)
unfolding read_keyword
read_null_or_nan start t = elim (peek_two t) [
  | seen c ↦
      if c == b'u'
      then read_keyword TokenId.null (codes "null") start t
      else read_keyword TokenId.keyword (codes "nan") start t
  | at_end ↦ failed end_of_input
  | at_invalid ↦ failed invalid_rune
]

-- The `switch` of `readHashToken`, at the rune `c` behind the hash.
unfoldable pub hash_switch : Version → Input → ℕ → Input → Read (TokenId × Bytes)
unfolding count_hashes read_hash_string read_keyword read_null_or_nan
hash_switch v start c t =
    if c == b'"' || c == b'#'
    then (count_hashes 1 t >>= λ n u. read_hash_string v start n u)
    else if c == b't'
    then read_keyword TokenId.boolean (codes "true") start t
    else if c == b'f'
    then read_keyword TokenId.boolean (codes "false") start t
    else if c == b'n'
    then read_null_or_nan start t
    else if c == b'i'
    then read_keyword TokenId.keyword (codes "inf") start t
    else if c == b'-'
    then read_keyword TokenId.keyword (codes "-inf") start t
    else failed (unexpected_character c)

-- `readHashToken`.
unfoldable pub read_hash_token : Version → Input → Read (TokenId × Bytes)
unfolding hash_switch
read_hash_token v t = get t >>= λ _ u. elim (peek u) [
  | seen c ↦ hash_switch v t c u
  | at_end ↦ failed unexpected_end
  | at_invalid ↦ failed invalid_rune
]
