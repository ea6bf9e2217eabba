-- ===== src/Tokenizer/Takes/Names.antt =====
-- internal/tokenizer/readtype.go: what the readers of identifiers consume.
use gokdl.Base.{ℕ, refl, false, not, ◌&&◌, ◌||◌, Bytes, ◌==◌, leb, ltb, arith, if◌then◌else◌}
use gokdl.Tokenizer.CType.{
  is_digit, is_sign, is_bare_identifier_char_version, is_bare_identifier_start_char_version, permit,
  nginx_syntax,
}
use gokdl.Tokenizer.Input.{
  Input, finish, broken, rune, invalid_rune, unexpected_character, bare_keyword, Read, got, failed,
  peek_two, is_seen, ◌>>=◌,
}
use gokdl.Tokenizer.Readers.Bare.{
  is_v2_keyword, kind_of_literal, read_literal, read_bare_identifier,
}
use gokdl.Tokenizer.Readers.Hash.{is_triple}
use gokdl.Tokenizer.Readers.Identifier.{with_kind, read_bare, identifier_switch, read_identifier}
use gokdl.Tokenizer.Readers.While.{read_while}
use gokdl.Tokenizer.Takes.{Takes, itself, snd, if-Takes, Peek-Takes, >>=-Takes}
use gokdl.Tokenizer.Takes.Loops.{read_while-Takes}
use gokdl.Tokenizer.Takes.Strings.{
  read_raw_string-Takes, read_quoted_string_q-Takes, read_multi_line_string-Takes,
  read_multi_line_expression_string-Takes,
}
use gokdl.Tokenizer.Token.{TokenId, Version, is_v2}

pub with_kind-Takes :
    (id : TokenId) (t : Input) (r : Read Bytes) → Takes itself t r → Takes snd t (with_kind id r)
with_kind-Takes id t r h = >>=-Takes itself snd t r (λ s. (id, s)) h (λ s. refl)

checked-Takes :
    (v : Version) (t : Input) (r : Read Bytes)
    → Takes itself t r
    → Takes snd t (
        r >>= λ s u.
        if is_v2 v && is_v2_keyword s then failed bare_keyword else got (kind_of_literal s, s) u)
checked-Takes v t (got s u) h =
    if-Takes snd t (is_v2 v && is_v2_keyword s) _ (got (kind_of_literal s, s) u) tt h
checked-Takes v t (failed e) h = h

read_literal-Takes :
    (relaxed : ℕ) (v : Version) (t : Input) → Takes snd t (read_literal relaxed v t)
unfolding read_literal
read_literal-Takes relaxed v t =
    checked-Takes v t _
      (read_while-Takes (λ c. is_bare_identifier_char_version c relaxed false v) 1 t (omega arith))

pub read_bare_identifier-Takes :
    (relaxed : ℕ) (v : Version) (t : Input) → Takes snd t (read_bare_identifier relaxed v t)
unfolding read_bare_identifier
read_bare_identifier-Takes relaxed v finish = tt
read_bare_identifier-Takes relaxed v (broken b) = tt
read_bare_identifier-Takes relaxed v (rune c b t) =
    if-Takes snd (rune c b t) (is_sign c) _ _ (sign t) (
      if-Takes snd (rune c b t) (not (is_bare_identifier_start_char_version c relaxed v)) _ _ tt
        (read_literal-Takes relaxed v (rune c b t)))
  where
    sign :
        (t : Input)
        → Takes snd (rune c b t) (elim t [
          | finish ↦
              read_while is_sign 1 (rune c b finish) >>= λ s u. got (TokenId.bare_identifier, s) u
          | broken b' ↦ failed invalid_rune
          | rune d b' u ↦
              if is_digit d
              then failed (unexpected_character d)
              else read_literal relaxed v (rune c b (rune d b' u))
        ])
    sign finish =
        with_kind-Takes TokenId.bare_identifier (rune c b finish)
          (read_while is_sign 1 (rune c b finish))
          (read_while-Takes is_sign 1 (rune c b finish) (omega arith))
    sign (broken b') = tt
    sign (rune d b' u) =
        if-Takes snd (rune c b (rune d b' u)) (is_digit d) (failed (unexpected_character d))
          (read_literal relaxed v (rune c b (rune d b' u))) tt
          (read_literal-Takes relaxed v (rune c b (rune d b' u)))

read_bare-Takes :
    (relaxed : ℕ) (v : Version) (c : ℕ) (t : Input) → Takes snd t (read_bare relaxed v c t)
unfolding read_bare
read_bare-Takes relaxed v c t =
    let bare = read_bare_identifier-Takes relaxed v t in
    Peek-Takes snd t (peek_two t) _ _ _
      (λ d.
        if-Takes snd t
          (not (is_bare_identifier_start_char_version c relaxed v)
            && not (c == b'-' && not (is_digit d)))
          _ _ tt bare)
      bare bare

identifier_switch-Takes :
    (relaxed : ℕ) (v : Version) (c : ℕ) (t : Input) → Takes snd t (identifier_switch relaxed v c t)
unfolding identifier_switch
identifier_switch-Takes relaxed v c t =
    if-Takes snd t
      (c == b'r' && not (is_v2 v) && (is_seen (peek_two t) b'#' || is_seen (peek_two t) b'"')) _ _
      (with_kind-Takes TokenId.raw_string t _ (read_raw_string-Takes v t))
      (if-Takes snd t (c == b'"') _ _
        (with_kind-Takes TokenId.quoted_string t _ (
          if-Takes itself t (is_v2 v && is_triple b'"' t) _ _ (read_multi_line_string-Takes t)
            (read_quoted_string_q-Takes b'"' v t)))
        (if-Takes snd t (c == b'`') _ _
          (with_kind-Takes TokenId.expression_string t _ (
            if-Takes itself t (is_triple b'`' t) _ _ (read_multi_line_expression_string-Takes t)
              (read_quoted_string_q-Takes b'`' v t)))
          (if-Takes snd t (c == b'\'' && not (is_v2 v) && permit relaxed nginx_syntax) _ _
            (with_kind-Takes TokenId.quoted_string t _ (read_quoted_string_q-Takes b'\'' v t))
            (read_bare-Takes relaxed v c t))))

pub read_identifier-Takes :
    (relaxed : ℕ) (v : Version) (t : Input) → Takes snd t (read_identifier relaxed v t)
unfolding read_identifier
read_identifier-Takes relaxed v finish = tt
read_identifier-Takes relaxed v (broken b) = tt
read_identifier-Takes relaxed v (rune c b t) =
    if-Takes snd (rune c b t) (leb c 0x20 || ltb 0x10FFFF c) _ _ tt
      (identifier_switch-Takes relaxed v c (rune c b t))
