-- ===== src/Tokenizer/Takes/Next.antt =====
-- internal/tokenizer/scanner.go: what `readNext` consumes.
use gokdl.Base.{
  ℕ, ◌≡◌, refl, ◌⊎◌, inl, inr, Bool, Bool-cases, true, false, not, ◌&&◌, ◌||◌, [], ◌∷◌, Bytes, ◌==◌,
  ltb, length, one_of, arith, if◌then◌else◌,
}
use gokdl.Tokenizer.CType.{
  is_digit, is_white_space, is_newline, permit, nginx_syntax, yaml_toml_assignments,
}
use gokdl.Tokenizer.Input.{
  Input, finish, broken, rune, copy_from_mark, Read, got, failed, peek, is_seen,
}
use gokdl.Tokenizer.Input.Consumed.{AboutInput, Behind, Behind-trans, Behind-rune, skip-Behind}
use gokdl.Tokenizer.Readers.Comments.{read_single_line_comment}
use gokdl.Tokenizer.Readers.Identifier.{with_kind}
use gokdl.Tokenizer.Readers.Number.{
  read_hexadecimal, read_octal, read_binary, is_hexadecimal, is_octal, is_binary,
}
use gokdl.Tokenizer.Readers.While.{
  end_while, while_from, read_while_state, read_while, stateless, bytes_only, literal_of,
  behind_white_space, read_whitespace,
}
use gokdl.Tokenizer.Scanner.Next.{
  single, double, read_bom, read_return, read_slash, read_unless_nginx, read_signed, read_zero,
  is_digit_seen, read_default, punctuation, read_visible, token_switch,
}
use gokdl.Tokenizer.Scanner.State.{Scanner}
use gokdl.Tokenizer.Takes.{Takes, snd, if-Takes, Peek-Takes}
use gokdl.Tokenizer.Takes.Loops.{
  Behind-step, read_multi_line_comment-Takes, read_single_line_comment-Takes,
}
use gokdl.Tokenizer.Takes.Names.{with_kind-Takes, read_identifier-Takes}
use gokdl.Tokenizer.Takes.Numbers.{read_decimal-Takes, read_numeric_base-Takes}
use gokdl.Tokenizer.Takes.Hashes.{read_hash_token-Takes}
use gokdl.Tokenizer.Token.{TokenId, Version, is_v2}

abbrev pub IsBroken : Input → Type 0
IsBroken (broken b) = Unit
IsBroken _ = ⊥

-- A literal is what was consumed, unless it is of white space in front of bytes that are no rune.
abbrev pub Spends : Input → Read (TokenId × Bytes) → Type 0
Spends t (got (id, s) u) = Behind 1 t u × ((s ≡ copy_from_mark t u) ⊎ IsBroken u)
Spends t (failed e) = AboutInput e

Takes-Spends : (t : Input) (r : Read (TokenId × Bytes)) → Takes snd t r → Spends t r
Takes-Spends t (got (id, s) u) (b, e) = (b, inl e)
Takes-Spends t (failed e) h = h

-- What a branch knows of the test may serve in it.
if-Spends :
    (t : Input) (b : Bool) (r s : Read (TokenId × Bytes))
    → (b ≡ true → Spends t r)
    → (b ≡ false → Spends t s)
    → Spends t (if b then r else s)
if-Spends t true r s h k = h refl
if-Spends t false r s h k = k refl

short_is_nil : (s : Bytes) → ltb (length s) 1 ≡ true → [] ≡ s
short_is_nil [] h = refl
short_is_nil (c ∷ s) h = absurd (ground (arith, h))

end_while-literal :
    (start t : Input) (c : ℕ)
    → literal_of (bytes_only (end_while {S = Unit} 1 start t c true tt)) ≡ copy_from_mark start t
unfolding end_while
end_while-literal start t c = elim (Bool-cases (ltb (length (copy_from_mark start t)) 1)) [
  | inl e ↦ rw e (short_is_nil (copy_from_mark start t) e)
  | inr e ↦ rw e refl
]

behind_white_space-Spends :
    (start t : Input)
    → Behind 1 start t
    → Behind 1 start (behind_white_space t)
      × ((literal_of (bytes_only (while_from (stateless is_white_space) 1 start true tt t))
            ≡ copy_from_mark start (behind_white_space t))
          ⊎ IsBroken (behind_white_space t))
unfolding while_from behind_white_space
behind_white_space-Spends start finish h = (h, inl (end_while-literal start finish 0))
behind_white_space-Spends start (broken b) h = (h, inr tt)
behind_white_space-Spends start (rune c b t) h = elim (Bool-cases (is_white_space c)) [
  | inl e ↦
      rw (e, stateless, while_from, behind_white_space)
        (behind_white_space-Spends start t (Behind-step 1 1 start c b t h (omega arith)))
  | inr e ↦
      rw (e, stateless, while_from, behind_white_space)
        (h, inl (end_while-literal start (rune c b t) c))
]

read_whitespace-Spends :
    (c : ℕ) (b : Bytes) (t : Input)
    → is_white_space c ≡ true
    → Spends (rune c b t) (with_kind TokenId.whitespace (read_whitespace (rune c b t)))
unfolding read_whitespace read_while read_while_state while_from behind_white_space
read_whitespace-Spends c b t e =
    rw (e, stateless, while_from, behind_white_space)
      (behind_white_space-Spends (rune c b t) t (Behind-rune c b t))

-- The readers of `readNext` stand in front of a rune.
module _ (c : ℕ) (b : Bytes) (t : Input) where
  single-Takes : (id : TokenId) → Takes snd (rune c b t) (single id (rune c b t))
  unfolding single
  single-Takes id = (Behind-rune c b t, refl)

  double-Takes : (id : TokenId) → Takes snd (rune c b t) (double id (rune c b t))
  unfolding double
  double-Takes id = (Behind-trans 1 0 _ t _ (Behind-rune c b t) (skip-Behind t), refl)

  read_bom-Takes : (offset : ℕ) → Takes snd (rune c b t) (read_bom offset (rune c b t))
  unfolding read_bom
  read_bom-Takes offset =
      if-Takes snd (rune c b t) (not (offset == 0)) _ _ tt (single-Takes TokenId.whitespace)

  read_return-Takes : Takes snd (rune c b t) (read_return (rune c b t))
  unfolding read_return
  read_return-Takes =
      if-Takes snd (rune c b t) (is_seen (peek t) b'\n') _ _ (double-Takes TokenId.newline)
        (single-Takes TokenId.newline)

  read_unless_nginx-Takes :
      (relaxed : ℕ) (v : Version) (id : TokenId)
      → Takes snd (rune c b t) (read_unless_nginx relaxed v id (rune c b t))
  unfolding read_unless_nginx
  read_unless_nginx-Takes relaxed v id =
      if-Takes snd (rune c b t) (permit relaxed nginx_syntax) _ _
        (read_identifier-Takes relaxed v (rune c b t)) (single-Takes id)

  read_signed-Takes :
      (relaxed : ℕ) (v : Version) (d : ℕ)
      → Takes snd (rune c b t) (read_signed relaxed v d (rune c b t))
  unfolding read_signed
  read_signed-Takes relaxed v d =
      let name = read_identifier-Takes relaxed v (rune c b t) in
      Peek-Takes snd (rune c b t) (peek t) _ _ _
        (λ e. if-Takes snd (rune c b t) (d == b'?') _ _ name (
          if-Takes snd (rune c b t) (is_digit e) _ _ (read_decimal-Takes relaxed (rune c b t))
            name))
        (if-Takes snd (rune c b t) (not (d == b'?')) _ _ name tt) tt

  read_zero-Takes : (relaxed : ℕ) → Takes snd (rune c b t) (read_zero relaxed (rune c b t))
  unfolding read_zero read_hexadecimal read_octal read_binary
  read_zero-Takes relaxed =
      let base = λ (id : TokenId) (digit : ℕ → Bool).
        with_kind-Takes id (rune c b t) _ (read_numeric_base-Takes digit (rune c b t)) in
      Peek-Takes snd (rune c b t) (peek t) _ _ _
        (λ d. if-Takes snd (rune c b t) (d == b'x') _ _ (base TokenId.hexadecimal is_hexadecimal) (
          if-Takes snd (rune c b t) (d == b'o') _ _ (base TokenId.octal is_octal) (
            if-Takes snd (rune c b t) (d == b'b') _ _ (base TokenId.binary is_binary)
              (read_decimal-Takes relaxed (rune c b t)))))
        tt tt

  line_comment-Takes :
      is_newline c ≡ false
      → Takes snd
          (rune c b t)
          (with_kind TokenId.single_line_comment (read_single_line_comment (rune c b t)))
  line_comment-Takes e = with_kind-Takes _ (rune c b t) _ (read_single_line_comment-Takes c b t e)

  read_slash-Takes :
      (relaxed : ℕ) (v : Version)
      → is_newline c ≡ false
      → Takes snd (rune c b t) (read_slash relaxed v (rune c b t))
  unfolding read_slash
  read_slash-Takes relaxed v e =
      Peek-Takes snd (rune c b t) (peek t) _ _ _
        (λ d.
          if-Takes snd (rune c b t) (d == b'*') _ _
            (with_kind-Takes TokenId.multi_line_comment (rune c b t) _
              (read_multi_line_comment-Takes (rune c b t)))
            (if-Takes snd (rune c b t) (d == b'/') _ _ (line_comment-Takes e) (
              if-Takes snd (rune c b t) (d == b'-') _ _ (double-Takes TokenId.token_comment) (
                if-Takes snd (rune c b t) (permit relaxed nginx_syntax) _ _
                  (read_identifier-Takes relaxed v (rune c b t)) tt))))
        tt tt

  read_default-Takes :
      (relaxed : ℕ) (v : Version) (d : ℕ)
      → is_newline c ≡ false
      → Takes snd (rune c b t) (read_default relaxed v d (rune c b t))
  unfolding read_default
  read_default-Takes relaxed v d e =
      if-Takes snd (rune c b t) (d == b'.' && is_v2 v && is_digit_seen (peek t)) _ _ tt (
        if-Takes snd (rune c b t) (d == b'#' && is_v2 v) _ _ (read_hash_token-Takes v (rune c b t))
          (if-Takes snd (rune c b t) (d == b'#' && permit relaxed nginx_syntax) _ _
            (line_comment-Takes e)
            (if-Takes snd (rune c b t) (d == b':' && permit relaxed yaml_toml_assignments) _ _
              (single-Takes TokenId.whitespace) (read_identifier-Takes relaxed v (rune c b t)))))

  read_visible-Takes :
      (relaxed : ℕ) (v : Version) (d : ℕ)
      → is_newline c ≡ false
      → Takes snd (rune c b t) (read_visible relaxed v d (rune c b t))
  unfolding read_visible
  read_visible-Takes relaxed v d e =
      if-Takes snd (rune c b t) (d == b'/') _ _ (read_slash-Takes relaxed v e) (
        if-Takes snd (rune c b t) (d == b'(') _ _
          (read_unless_nginx-Takes relaxed v TokenId.parens_open)
          (if-Takes snd (rune c b t) (d == b')') _ _
            (read_unless_nginx-Takes relaxed v TokenId.parens_close)
            (if-Takes snd (rune c b t) (one_of (b'{' ∷ b'}' ∷ b'=' ∷ b';' ∷ []) d) _ _
              (single-Takes (punctuation d))
              (if-Takes snd (rune c b t) (d == b',') _ _ tt (
                if-Takes snd (rune c b t) (d == b'\\') _ _
                  (read_unless_nginx-Takes relaxed v TokenId.continuation)
                  (if-Takes snd (rune c b t) (d == b'?' || d == b'+' || d == b'-') _ _
                    (read_signed-Takes relaxed v d)
                    (if-Takes snd (rune c b t) (d == b'0') _ _ (read_zero-Takes relaxed) (
                      if-Takes snd (rune c b t) (is_digit d) _ _
                        (read_decimal-Takes relaxed (rune c b t))
                        (read_default-Takes relaxed v d e)))))))))

-- A token takes one rune at least, and its literal is the bytes it takes, unless it is white space in
-- front of bytes that are no rune.
pub token_switch-Spends : (s : Scanner) (t : Input) → Spends t (token_switch s t)
unfolding token_switch
token_switch-Spends s finish = tt
token_switch-Spends s (broken b) = tt
token_switch-Spends s (rune c b t) =
    if-Spends (rune c b t) (is_white_space c) _ _ (read_whitespace-Spends c b t) (λ _.
      if-Spends (rune c b t) (c == 0xFEFF) _ _
        (λ _.
          Takes-Spends (rune c b t) (read_bom s.offset (rune c b t))
            (read_bom-Takes c b t s.offset))
        (λ _.
          if-Spends (rune c b t) (c == b'\r') _ _
            (λ _. Takes-Spends (rune c b t) (read_return (rune c b t)) (read_return-Takes c b t))
            (λ _.
              if-Spends (rune c b t) (is_newline c) _ _
                (λ _.
                  Takes-Spends (rune c b t) (single TokenId.newline (rune c b t))
                    (single-Takes c b t TokenId.newline))
                (λ f.
                  Takes-Spends (rune c b t) (read_visible s.relaxed s.version c (rune c b t))
                    (read_visible-Takes c b t s.relaxed s.version c f)))))
