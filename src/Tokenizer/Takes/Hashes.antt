-- ===== src/Tokenizer/Takes/Hashes.antt =====
-- internal/tokenizer/readtype.go: what `readHashToken` consumes.
use gokdl.Base.{ℕ, suc, refl, not, ◌||◌, [], ◌∷◌, Bytes, codes, ◌==◌, arith}
use gokdl.Tokenizer.Input.{Input, finish, broken, rune, copy_from_mark, get, skip, peek, peek_two}
use gokdl.Tokenizer.Input.Consumed.{
  Behind, Moves, Behind-refl, Behind-trans, Behind-rune, Moves-weaken, Behind-Moves, if-Moves,
  get-Moves, skip-Behind,
}
use gokdl.Tokenizer.Readers.Hash.{
  expect_runes, read_keyword, count_hashes, is_triple, read_hash_string, read_null_or_nan,
  hash_switch, read_hash_token,
}
use gokdl.Tokenizer.Takes.{
  Takes, itself, snd, if-Takes, Peek-Takes, copy_from_mark-Takes, >>=-Takes, after-Takes,
}
use gokdl.Tokenizer.Takes.Strings.{
  read_raw_string_content-Moves, read_multi_line_string_raw_no_mark-Takes,
}
use gokdl.Tokenizer.Token.{TokenId, Version}

expect_runes-Moves : (s : Bytes) (t : Input) → Moves 0 t (expect_runes s t)
unfolding expect_runes
expect_runes-Moves [] t = Behind-refl t
expect_runes-Moves (c ∷ s) finish = tt
expect_runes-Moves (c ∷ s) (broken b) = tt
expect_runes-Moves (c ∷ s) (rune d b t) = if-Moves 0 (rune d b t) (not (d == c)) _ _ tt (
    Moves-weaken 0 1 _ _ (omega arith)
      (Behind-Moves 1 0 _ t _ (Behind-rune d b t) (expect_runes-Moves s t)))

read_keyword-Takes :
    (id : TokenId) (s : Bytes) (start t : Input)
    → Behind 1 start t
    → Takes snd start (read_keyword id s start t)
unfolding read_keyword
read_keyword-Takes id s start t b =
    after-Takes snd start 1 0 t _ _ b (expect_runes-Moves s t) (λ _ u b'. (b', refl))

count_hashes-Moves : (n : ℕ) (t : Input) → Moves 0 t (count_hashes n t)
unfolding count_hashes
count_hashes-Moves n finish = tt
count_hashes-Moves n (broken b) = tt
count_hashes-Moves n (rune c b t) = if-Moves 0 (rune c b t) (not (c == b'#')) _ _ (Behind-refl _) (
    Moves-weaken 0 1 _ _ (omega arith)
      (Behind-Moves 1 0 _ t _ (Behind-rune c b t) (count_hashes-Moves (suc n) t)))

read_hash_string-Takes :
    (v : Version) (start : Input) (n : ℕ) (t : Input)
    → Behind 1 start t
    → Takes snd start (read_hash_string v start n t)
unfolding read_hash_string
read_hash_string-Takes v start n t b =
    if-Takes snd start (is_triple b'"' t) _ _
      (>>=-Takes itself snd start _ _ (read_multi_line_string_raw_no_mark-Takes start 1 n t b)
        (λ s. refl))
      (Peek-Takes snd start (peek t) _ _ _
        (λ c. if-Takes snd start (not (c == b'"')) _ _ tt (
          copy_from_mark-Takes snd start _ (λ _ u. (TokenId.raw_string, copy_from_mark start u))
            (Moves-weaken 1 2 start _ (omega arith) (
              Behind-Moves 1 1 start (skip t) _ (Behind-trans 1 0 start t _ b (skip-Behind t))
                (read_raw_string_content-Moves n v (skip t))))
            (λ _ u. refl)))
        tt tt)

read_null_or_nan-Takes :
    (start t : Input) → Behind 1 start t → Takes snd start (read_null_or_nan start t)
unfolding read_null_or_nan
read_null_or_nan-Takes start t b =
    Peek-Takes snd start (peek_two t) _ _ _
      (λ c.
        if-Takes snd start (c == b'u') _ _
          (read_keyword-Takes TokenId.null (codes "null") start t b)
          (read_keyword-Takes TokenId.keyword (codes "nan") start t b))
      tt tt

hash_switch-Takes :
    (v : Version) (start : Input) (c : ℕ) (t : Input)
    → Behind 1 start t
    → Takes snd start (hash_switch v start c t)
unfolding hash_switch
hash_switch-Takes v start c t b =
    if-Takes snd start (c == b'"' || c == b'#') _ _
      (after-Takes snd start 1 0 t _ _ b (count_hashes-Moves 1 t)
        (λ n u b'. read_hash_string-Takes v start n u b'))
      (if-Takes snd start (c == b't') _ _
        (read_keyword-Takes TokenId.boolean (codes "true") start t b)
        (if-Takes snd start (c == b'f') _ _
          (read_keyword-Takes TokenId.boolean (codes "false") start t b)
          (if-Takes snd start (c == b'n') _ _ (read_null_or_nan-Takes start t b) (
            if-Takes snd start (c == b'i') _ _
              (read_keyword-Takes TokenId.keyword (codes "inf") start t b)
              (if-Takes snd start (c == b'-') _ _
                (read_keyword-Takes TokenId.keyword (codes "-inf") start t b) tt)))))

pub read_hash_token-Takes : (v : Version) (t : Input) → Takes snd t (read_hash_token v t)
unfolding read_hash_token
read_hash_token-Takes v t =
    after-Takes snd t 0 1 t (get t) _ (Behind-refl t) (get-Moves t)
      (λ _ u b. Peek-Takes snd t (peek u) _ _ _ (λ c. hash_switch-Takes v t c u b) tt tt)
