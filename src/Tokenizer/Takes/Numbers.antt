-- ===== src/Tokenizer/Takes/Numbers.antt =====
-- internal/tokenizer/readtype.go: what the readers of numbers consume.
use gokdl.Base.{ℕ, ◌+◌, refl, Bool, not, ◌&&◌, ◌||◌, Bytes, get_elem?, ◌==◌, arith}
use gokdl.Tokenizer.CType.{is_separator, is_white_space, is_newline, permit, nginx_syntax}
use gokdl.Tokenizer.Input.{
  Input, Read, got, failed, skip, Peek, seen, at_end, at_invalid, peek, is_seen, ◌>>=◌,
}
use gokdl.Tokenizer.Input.Consumed.{
  Moves, Behind-refl, Moves-weaken, Behind-Moves, >>=-Moves, if-Moves, skip-Behind,
}
use gokdl.Tokenizer.Readers.Number.{
  multiplier_suffixes, IntegerState, plain_digit, suffixed_digit, at_integer, integer_kind,
  read_integer, read_signed_integer, read_fraction, read_exponent, is_bare_identifier_char,
  behind_decimal, read_decimal, base_digit, is_underscore, behind_base, read_numeric_base,
}
use gokdl.Tokenizer.Takes.{Takes, itself, snd, if-Takes, Takes-Moves, Peek-Takes, after-Takes}
use gokdl.Tokenizer.Takes.Loops.{read_while_state-Takes, read_while-Takes}
use gokdl.Tokenizer.Token.{TokenId}

pub Peek-Moves :
    {A : Type 0} (n : ℕ) (t : Input) (p : Peek) (k : ℕ → Read A) (r s : Read A)
    → ((c : ℕ) → Moves n t (k c))
    → Moves n t r
    → Moves n t s
    → Moves n t (elim p [ seen c ↦ k c | at_end ↦ r | at_invalid ↦ s ])
Peek-Moves n t (seen c) k r s h i j = h c
Peek-Moves n t at_end k r s h i j = i
Peek-Moves n t at_invalid k r s h i j = j

integer_kind-Moves :
    (t : Input) (r : Read (IntegerState × Bytes)) → Takes snd t r → Moves 1 t (integer_kind r)
integer_kind-Moves t (got (s, b) u) (h, e) = h
integer_kind-Moves t (failed e) h = h

read_integer-Moves : (relaxed : ℕ) (t : Input) → Moves 1 t (read_integer relaxed t)
unfolding read_integer
read_integer-Moves relaxed t = integer_kind-Moves t _ (
    if-Takes snd t (permit relaxed multiplier_suffixes) _ _
      (read_while_state-Takes suffixed_digit at_integer 1 t (omega arith))
      (read_while_state-Takes plain_digit at_integer 1 t (omega arith)))

-- Behind a rune that is skipped.
skip-Moves : {A : Type 0} (n : ℕ) (t : Input) (r : Read A) → Moves n (skip t) r → Moves n t r
skip-Moves n t r h =
    Moves-weaken n (0 + n) t r (omega arith) (Behind-Moves 0 n t (skip t) r (skip-Behind t) h)

read_signed_integer-Moves : (relaxed : ℕ) (t : Input) → Moves 1 t (read_signed_integer relaxed t)
unfolding read_signed_integer
read_signed_integer-Moves relaxed t =
    Peek-Moves 1 t (peek t) _ _ _
      (λ c.
        if-Moves 1 t (c == b'+' || c == b'-') _ _
          (skip-Moves 1 t _ (read_integer-Moves relaxed (skip t))) (read_integer-Moves relaxed t))
      tt tt

read_fraction-Moves :
    (relaxed : ℕ) (id : TokenId) (t : Input) → Moves 0 t (read_fraction relaxed id t)
unfolding read_fraction
read_fraction-Moves relaxed id t =
    if-Moves 0 t (is_seen (peek t) b'.') _ _
      (skip-Moves 0 t _ (Moves-weaken 0 1 _ _ (omega arith) (read_integer-Moves relaxed (skip t))))
      (Behind-refl t)

read_exponent-Moves :
    (relaxed : ℕ) (id : TokenId) (t : Input) → Moves 0 t (read_exponent relaxed id t)
unfolding read_exponent
read_exponent-Moves relaxed id t =
    if-Moves 0 t (is_seen (peek t) b'e' || is_seen (peek t) b'E') _ _
      (skip-Moves 0 t _ (
        Moves-weaken 0 1 _ _ (omega arith) (
          >>=-Moves 1 0 (skip t) _ _ (read_signed_integer-Moves relaxed (skip t))
            (λ _ u _. Behind-refl u))))
      (Behind-refl t)

behind_decimal-Moves :
    (relaxed : ℕ) (id : TokenId) (t : Input) → Moves 0 t (behind_decimal relaxed id t)
unfolding behind_decimal
behind_decimal-Moves relaxed id t =
    Peek-Moves 0 t (peek t) _ _ _
      (λ c. if-Moves 0 t (is_separator c) _ _ (Behind-refl t) (
        if-Moves 0 t (permit relaxed nginx_syntax && is_bare_identifier_char relaxed c) _ _
          (>>=-Moves 0 0 t _ _
            (Moves-weaken 0 1 t _ (omega arith) (
              Takes-Moves itself t _
                (read_while-Takes (is_bare_identifier_char relaxed) 1 t (omega arith))))
            (λ _ u _. Behind-refl u))
          tt))
      (Behind-refl t) (Behind-refl t)

pub read_decimal-Takes : (relaxed : ℕ) (t : Input) → Takes snd t (read_decimal relaxed t)
unfolding read_decimal
read_decimal-Takes relaxed t =
    after-Takes snd t 0 1 t _ _ (Behind-refl t) (read_signed_integer-Moves relaxed t) (λ id u b.
      after-Takes snd t 1 0 u _ _ b (read_fraction-Moves relaxed id u) (λ id' w b'.
        after-Takes snd t 1 0 w _ _ b' (read_exponent-Moves relaxed id' w) (λ id'' x b''.
          after-Takes snd t 1 0 x _ _ b'' (behind_decimal-Moves relaxed id'' x)
            (λ _ y b'''. (b''', refl)))))

behind_base-Takes :
    (t : Input) (r : Read (ℕ × Bytes)) → Takes snd t r → Takes itself t (r >>= behind_base)
unfolding behind_base
behind_base-Takes t (failed e) h = h
behind_base-Takes t (got (n, lit) u) h =
    if-Takes itself t (is_underscore (get_elem? lit 2)) _ _ tt (
      Peek-Takes itself t (peek u) _ _ _
        (λ c. if-Takes itself t (not (is_white_space c) && not (is_newline c)) _ _ tt h) h h)

pub read_numeric_base-Takes :
    (digit : ℕ → Bool) (t : Input) → Takes itself t (read_numeric_base digit t)
unfolding read_numeric_base
read_numeric_base-Takes digit t =
    behind_base-Takes t _ (read_while_state-Takes (base_digit digit) 0 3 t (omega arith))
