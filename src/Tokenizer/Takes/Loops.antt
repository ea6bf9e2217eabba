-- ===== src/Tokenizer/Takes/Loops.antt =====
-- internal/tokenizer/scanner.go: what `readWhile` and `readUntil` consume, and so comments.
use gokdl.Base.{
  ℕ, suc, ◌+◌, Bool-cases, inl, inr, ◌==◌, ◌&&◌, pos, ◌≤◌, ◌≡◌, refl, Bool, true, false, not,
  Option, Bytes, length, ltb, arith, ℤ,
}
use gokdl.Tokenizer.Input.{
  Input, finish, broken, rune, copy_from_mark, ScanError, Read, got, failed,
}
use gokdl.Tokenizer.Input.Consumed.{Behind, Behind-refl, Behind-trans, Behind-weaken, Behind-rune}
use gokdl.Tokenizer.Takes.{if-Takes, Option-Takes, Takes, itself, snd, Behind-copy_from_mark}
use gokdl.Tokenizer.CType.{is_newline}
use gokdl.Tokenizer.Readers.Comments.{
  is_zero, shallower, deeper, comment_from, read_multi_line_comment, read_single_line_comment,
}
use gokdl.Tokenizer.Readers.While.{
  end_while, while_from, read_while_state, stateless, bytes_only, read_while, Until, stopped, ended,
  at_error, until_from, read_until,
}

-- One rune more behind the mark.
pub Behind-step :
    (m n : ℕ) (t : Input) (c : ℕ) (b : Bytes) (u : Input)
    → Behind m t (rune c b u)
    → n ≤ suc m
    → Behind n t u
Behind-step m n t c b u h l =
    Behind-weaken n (m + 1) t u (omega arith) (Behind-trans m 1 t _ u h (Behind-rune c b u))

module _ {S : Type 0} where
  end_while-Takes :
      (n : ℕ) (start t : Input) (c : ℕ) (valid : Bool) (s : S)
      → 1 ≤ n
      → Behind 0 start t
      → Takes snd start (end_while n start t c valid s)
  unfolding end_while
  end_while-Takes n start t c valid s l h =
      if-Takes snd start (not valid) _ _ tt
        (elim (Bool-cases (ltb (length (copy_from_mark start t)) n)) [
          | inl e ↦ rw e tt
          | inr e ↦ rw e (Behind-copy_from_mark start t h (ground arith), refl)
        ])

  while_from-Takes :
      (f : S → ℕ → Input → Option S) (n : ℕ) (start : Input) (valid : Bool) (s : S) (t : Input)
      → 1 ≤ n
      → Behind 0 start t
      → Takes snd start (while_from f n start valid s t)
  unfolding while_from
  while_from-Takes f n start valid s finish l h = end_while-Takes n start finish 0 valid s l h
  while_from-Takes f n start valid s (broken b) l h = tt
  while_from-Takes f n start valid s (rune c b t) l h =
      Option-Takes snd start (f s c t) _ _
        (λ s'. while_from-Takes f n start true s' t l (Behind-step 0 0 start c b t h (omega arith)))
        (end_while-Takes n start (rune c b t) c valid s l h)

  pub read_while_state-Takes :
      (f : S → ℕ → Input → Option S) (s : S) (n : ℕ) (t : Input)
      → 1 ≤ n
      → Takes snd t (read_while_state f s n t)
  unfolding read_while_state
  read_while_state-Takes f s n t l = while_from-Takes f n t false s t l (Behind-refl t)

  pub bytes_only-Takes :
      (t : Input) (r : Read (S × Bytes)) → Takes snd t r → Takes itself t (bytes_only r)
  bytes_only-Takes t (got (s, b) u) h = h
  bytes_only-Takes t (failed e) h = h

pub read_while-Takes :
    (p : ℕ → Bool) (n : ℕ) (t : Input) → 1 ≤ n → Takes itself t (read_while p n t)
unfolding read_while
read_while-Takes p n t l = bytes_only-Takes t _ (read_while_state-Takes (stateless p) tt n t l)

comment_from-Takes :
    (start : Input) (depth : ℤ) (t : Input)
    → Behind 0 start t
    → Takes itself start (comment_from start depth t)
unfolding comment_from
comment_from-Takes start depth finish h = tt
comment_from-Takes start depth (broken b) h = tt
comment_from-Takes start depth (rune c b finish) h = tt
comment_from-Takes start depth (rune c b (broken b')) h = tt
comment_from-Takes start depth (rune c b (rune d b' t)) h =
    let one = Behind-step 0 1 start c b (rune d b' t) h (omega arith) in
    let two = Behind-step 1 1 start d b' t one (omega arith) in
    let zero = Behind-weaken 0 1 start t (omega arith) two in
    if-Takes itself start (c == b'*' && d == b'/') _ _
      (if-Takes itself start (is_zero (shallower depth)) _ _ (two, refl)
        (comment_from-Takes start (shallower depth) t zero))
      (if-Takes itself start (c == b'/' && d == b'*') _ _
        (comment_from-Takes start (deeper depth) t zero)
        (comment_from-Takes start depth (rune d b' t)
          (Behind-weaken 0 1 start _ (omega arith) one)))

pub read_multi_line_comment-Takes : (t : Input) → Takes itself t (read_multi_line_comment t)
unfolding read_multi_line_comment
read_multi_line_comment-Takes t = comment_from-Takes t (pos 0) t (Behind-refl t)

abbrev line_of : Until → Read Bytes
line_of u = elim u [
  | stopped b u ↦ got b u
  | ended b u ↦ got b u
  | at_error ↦ failed ScanError.invalid_rune
]

until_from-Takes :
    (start t : Input)
    → Behind 1 start t
    → Takes itself start (line_of (until_from is_newline false start t))
unfolding until_from
until_from-Takes start finish h = (h, refl)
until_from-Takes start (broken b) h = tt
until_from-Takes start (rune c b t) h = elim (Bool-cases (is_newline c)) [
  | inl e ↦ rw (e, Takes, until_from) (h, refl)
  | inr e ↦
      rw (e, Takes, until_from)
        (until_from-Takes start t (Behind-step 1 1 start c b t h (omega arith)))
]

-- The comment begins with a rune that is no newline.
pub read_single_line_comment-Takes :
    (c : ℕ) (b : Bytes) (t : Input)
    → is_newline c ≡ false
    → Takes itself (rune c b t) (read_single_line_comment (rune c b t))
unfolding read_single_line_comment read_until until_from
read_single_line_comment-Takes c b t e =
    rw (e, Takes) (until_from-Takes (rune c b t) t (Behind-rune c b t))
