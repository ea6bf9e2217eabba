-- ===== src/Document/QuoteUnquote/RoundTrip.antt =====
-- document/strings.go: `UnquoteString` undoes `QuoteString` on the texts of Text.
use gokdl.Base.{
  ℕ, zero, suc, ◌-◌, ◌≤◌, ◌≡◌, refl, true, false, [], ◌∷◌, ◌++◌, Bytes, length, length-append,
  get_or, take-append, drop-append, get_or-concat, arith, Bool-cases, inl, inr, append_assoc,
  append-nil, ltb, ◌∙◌, ap,
}
use gokdl.Document.Quote.{no_escape, quote_string, append_quoted_string}
use gokdl.Document.QuoteUnquote.Text.{
  Text, nil, ascii, rune, IsRune, has_escape, escape_letter, escaped, quote_scan-escaped,
}
use gokdl.Document.Unquote.{
  Unquoted, done, next, unquote_step, read_escape, escape_switch, unquote_loop,
  append_unquoted_string, unquote_string, inner,
}

step_plain :
    (c : ℕ) (b pending s : Bytes)
    → no_escape c ≡ true
    → unquote_step b'"' b pending c s ≡ next b (pending ++ c ∷ []) s
unfolding unquote_step no_escape
step_plain c b pending s n = ground arith

switch_letter :
    (c : ℕ) (b s : Bytes)
    → has_escape c ≡ true
    → escape_switch b'"' b (escape_letter c) s ≡ next (b ++ c ∷ []) [] s
unfolding escape_switch
switch_letter c b s h = ground arith

step_letter :
    (c : ℕ) (b pending s : Bytes)
    → has_escape c ≡ true
    → unquote_step b'"' b pending b'\\' (escape_letter c ∷ s) ≡ next ((b ++ pending) ++ c ∷ []) [] s
unfolding unquote_step read_escape
step_letter c b pending s h = ground (arith, switch_letter c (b ++ pending) s)

step_rune :
    (a : ℕ) (t b pending s : Bytes)
    → IsRune a t
    → unquote_step b'"' b pending a (t ++ s) ≡ next b (pending ++ a ∷ t) s
unfolding unquote_step
step_rune a t b pending s r = rw (r.decodes s) (
    ground (
      arith,
      r.high,
      r.long,
      take-append (a ∷ t) s (suc (length t)) refl,
      drop-append (a ∷ t) s (suc (length t)) refl,
    ))

pub loop_step :
    (fuel c : ℕ) (b pending s b' pending' rest : Bytes) (u : Unquoted)
    → unquote_step b'"' b pending c s ≡ next b' pending' rest
    → unquote_loop fuel b'"' b' pending' rest ≡ u
    → unquote_loop (suc fuel) b'"' b pending (c ∷ s) ≡ u
unfolding unquote_loop
loop_step fuel c b pending s b' pending' rest u e h = rw (e, unquote_loop) h

loop_done :
    (fuel : ℕ) (b pending : Bytes) → unquote_loop fuel b'"' b pending [] ≡ done (b ++ pending)
unfolding unquote_loop
loop_done zero b pending = refl
loop_done (suc fuel) b pending = refl

-- Any fuel of the length of the escaped text is enough.
unquote_loop-escaped :
    {s : Bytes} (x : Text s) (fuel : ℕ) (b pending : Bytes)
    → length (escaped x) ≤ fuel
    → unquote_loop fuel b'"' b pending (escaped x) ≡ done (b ++ (pending ++ s))
unfolding escaped
unquote_loop-escaped nil fuel b pending l = loop_done fuel b pending ∙ rw append-nil
unquote_loop-escaped (ascii c h x) zero b pending l = absurd (ground arith)
unquote_loop-escaped (ascii {s} c h x) (suc fuel) b pending l = elim (Bool-cases (no_escape c)) [
  | inl n ↦
      let l' = rw n at l in
      rw n (
        loop_step fuel c b pending (escaped x) _ _ _ _ (step_plain c b pending (escaped x) n)
          (unquote_loop-escaped x fuel b (pending ++ c ∷ []) (omega (arith, l')) ∙ rw append_assoc))
  | inr n ↦
      let l' = rw n at l in
      rw n (
        loop_step fuel b'\\' b pending (escape_letter c ∷ escaped x) _ _ _ _
          (step_letter c b pending (escaped x) (ground arith))
          (unquote_loop-escaped x fuel ((b ++ pending) ++ c ∷ []) [] (omega (arith, l'))
            ∙ simp append_assoc))
]
unquote_loop-escaped (rune a t r x) zero b pending l = absurd (omega arith)
unquote_loop-escaped (rune {s} a t r x) (suc fuel) b pending l =
    loop_step fuel a b pending (t ++ escaped x) _ _ _ _ (step_rune a t b pending (escaped x) r) (
      unquote_loop-escaped x fuel b (pending ++ a ∷ t) (omega (arith, length-append t (escaped x)))
      ∙ simp append_assoc)

pub quote_string-escaped :
    {s : Bytes} (x : Text s) → quote_string s ≡ b'"' ∷ (escaped x ++ b'"' ∷ [])
unfolding quote_string append_quoted_string
quote_string-escaped x = quote_scan-escaped x (b'"' ∷ []) []

length-quoted : (e : Bytes) → length (b'"' ∷ (e ++ b'"' ∷ [])) ≡ suc (suc (length e))
length-quoted e = omega (arith, length-append e (b'"' ∷ []))

two_less : (n : ℕ) → suc (suc n) - 2 ≡ n
two_less n = omega arith

one_less : (n : ℕ) → suc (suc n) - 1 ≡ suc n
one_less n = omega arith

not_short : (n : ℕ) → ltb (suc (suc n)) 2 ≡ false
not_short n = ground arith

inner-quoted : (e : Bytes) → inner (b'"' ∷ (e ++ b'"' ∷ [])) ≡ e
inner-quoted e = rw (length-quoted e, two_less) (take-append e (b'"' ∷ []) (length e) refl)

last-quoted :
    (e : Bytes) → get_or (b'"' ∷ (e ++ b'"' ∷ [])) (length (b'"' ∷ (e ++ b'"' ∷ [])) - 1) 0 ≡ b'"'
last-quoted e = rw (length-quoted e, one_less) (get_or-concat e b'"' 0 (length e) refl)

long_quoted : (e : Bytes) → ltb (length (b'"' ∷ (e ++ b'"' ∷ []))) 2 ≡ false
long_quoted e = rw (length-quoted e) (not_short (length e))

append_between :
    (s : Bytes)
    → ltb (length s) 2 ≡ false
    → get_or s 0 0 ≡ b'"'
    → get_or s (length s - 1) 0 ≡ b'"'
    → append_unquoted_string [] s b'"' ≡ unquote_loop (length (inner s)) b'"' [] [] (inner s)
unfolding append_unquoted_string
append_between s l f e = simp (l, f, e)

-- The checks of the quotes pass, and the loop reads what stands between them.
pub unquote_between :
    (e : Bytes) → unquote_string (b'"' ∷ (e ++ b'"' ∷ [])) ≡ unquote_loop (length e) b'"' [] [] e
unfolding unquote_string
unquote_between e =
    append_between (b'"' ∷ (e ++ b'"' ∷ [])) (long_quoted e) refl (last-quoted e)
    ∙ ap (λ i. unquote_loop (length i) b'"' [] [] i) (inner-quoted e)

-- For a text of ASCII characters that need no escape or have one of a letter, and of multi-byte runes,
-- `UnquoteString` gives the text back from what `QuoteString` makes of it.
pub unquote-quote : {s : Bytes} → Text s → unquote_string (quote_string s) ≡ done s
unquote-quote x =
    ap unquote_string (quote_string-escaped x)
    ∙ unquote_between (escaped x)
    ∙ unquote_loop-escaped x (length (escaped x)) [] [] (omega arith)
