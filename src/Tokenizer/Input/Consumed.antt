-- ===== src/Tokenizer/Input/Consumed.antt =====
-- internal/tokenizer/scanner.go: what a reader consumes is the front of its input, and what
-- `copyFromMark` gives is the bytes of that.
use gokdl.Base.{
  ℕ, ◌+◌, ◌≤◌, ◌≡◌, refl, sym, ap, ◌∙◌, Bool, true, false, List, [], ◌∷◌, ◌++◌, Bytes, length,
  length-append, take-append, arith, if◌then◌else◌,
}
use gokdl.Tokenizer.Input.{
  Rune, Input, finish, broken, rune, runes_of, count, between, bytes_of, copy_from_mark, ScanError,
  end_of_input, invalid_rune, unexpected_end, end_of_token, unexpected_character,
  content_after_opening, missing_quote, bare_keyword, out_of_fuel, unexpected_eof, Read, got,
  failed, get, skip, or_unexpected_end, all_unexpected_end, ◌>>=◌,
}

-- The input that begins with the runes.
abbrev pub prepend : List Rune → Input → Input
prepend [] t = t
prepend (r ∷ rs) t = rune r.code r.bytes (prepend rs t)

-- `u` is what is left of `t` behind at least `n` runes.
abbrev pub Behind : ℕ → Input → Input → Type 0
Behind n t u = (p : List Rune) × (t ≡ prepend p u) × (n ≤ length p)

-- The error is about the input.
abbrev pub AboutInput : ScanError → Type 0
AboutInput out_of_fuel = ⊥
AboutInput _ = Unit

-- A reader consumed at least `n` runes, or failed with an error about the input.
abbrev pub Moves : {A : Type 0} → ℕ → Input → Read A → Type 0
Moves n t (got a u) = Behind n t u
Moves n t (failed e) = AboutInput e

prepend-append : (p q : List Rune) (u : Input) → prepend (p ++ q) u ≡ prepend p (prepend q u)
prepend-append [] q u = refl
prepend-append (r ∷ p) q u = ap (rune r.code r.bytes) (prepend-append p q u)

pub Behind-refl : (t : Input) → Behind 0 t t
Behind-refl t = ([], refl, omega arith)

pub Behind-trans : (m n : ℕ) (t u v : Input) → Behind m t u → Behind n u v → Behind (m + n) t v
Behind-trans m n t u v (p, e, h) (q, f, k) =
    (p ++ q, e ∙ ap (prepend p) f ∙ sym (prepend-append p q v), omega (arith, length-append p q))

pub Behind-weaken : (m n : ℕ) (t u : Input) → m ≤ n → Behind n t u → Behind m t u
Behind-weaken m n t u l (p, e, h) = (p, e, omega arith)

pub Behind-rune : (c : ℕ) (b : Bytes) (t : Input) → Behind 1 (rune c b t) t
Behind-rune c b t = (record { code = c; bytes = b } ∷ [], refl, omega arith)

pub Moves-weaken :
    {A : Type 0} (m n : ℕ) (t : Input) (r : Read A) → m ≤ n → Moves n t r → Moves m t r
Moves-weaken m n t (got a u) l h = Behind-weaken m n t u l h
Moves-weaken m n t (failed e) l h = h

pub Behind-Moves :
    {A : Type 0} (m n : ℕ) (t u : Input) (r : Read A)
    → Behind m t u
    → Moves n u r
    → Moves (m + n) t r
Behind-Moves m n t u (got a v) b h = Behind-trans m n t u v b h
Behind-Moves m n t u (failed e) b h = h

pub >>=-Moves :
    {A B : Type 0} (m n : ℕ) (t : Input) (r : Read A) (f : A → Input → Read B)
    → Moves m t r
    → ((a : A) (u : Input) → Behind m t u → Moves n u (f a u))
    → Moves (m + n) t (r >>= f)
>>=-Moves m n t (got a u) f h k = Behind-Moves m n t u (f a u) h (k a u h)
>>=-Moves m n t (failed e) f h k = h

pub if-Moves :
    {A : Type 0} (n : ℕ) (t : Input) (b : Bool) (r s : Read A)
    → Moves n t r
    → Moves n t s
    → Moves n t (if b then r else s)
if-Moves n t true r s h k = h
if-Moves n t false r s h k = k

pub get-Moves : (t : Input) → Moves 1 t (get t)
get-Moves finish = tt
get-Moves (broken b) = tt
get-Moves (rune c b t) = Behind-rune c b t

pub skip-Behind : (t : Input) → Behind 0 t (skip t)
skip-Behind finish = Behind-refl finish
skip-Behind (broken b) = Behind-refl (broken b)
skip-Behind (rune c b t) = Behind-weaken 0 1 _ t (omega arith) (Behind-rune c b t)

unexpected_eof-AboutInput : (e : ScanError) → AboutInput e → AboutInput (unexpected_eof e)
unexpected_eof-AboutInput end_of_input h = tt
unexpected_eof-AboutInput invalid_rune h = tt
unexpected_eof-AboutInput unexpected_end h = tt
unexpected_eof-AboutInput end_of_token h = tt
unexpected_eof-AboutInput (unexpected_character c) h = tt
unexpected_eof-AboutInput content_after_opening h = tt
unexpected_eof-AboutInput missing_quote h = tt
unexpected_eof-AboutInput bare_keyword h = tt
unexpected_eof-AboutInput out_of_fuel h = h

pub or_unexpected_end-Moves :
    {A : Type 0} (n : ℕ) (t : Input) (r : Read A) → Moves n t r → Moves n t (or_unexpected_end r)
or_unexpected_end-Moves n t (got a u) h = h
or_unexpected_end-Moves n t (failed e) h = unexpected_eof-AboutInput e h

pub all_unexpected_end-Moves :
    {A : Type 0} (n : ℕ) (t : Input) (r : Read A) → Moves n t r → Moves n t (all_unexpected_end r)
all_unexpected_end-Moves n t (got a u) h = h
all_unexpected_end-Moves n t (failed e) h = tt

pub count-prepend : (p : List Rune) (u : Input) → count (prepend p u) ≡ length p + count u
count-prepend [] u = omega arith
count-prepend (r ∷ p) u = omega (arith, count-prepend p u)

pub count-Behind : (n : ℕ) (t u : Input) → Behind n t u → n + count u ≤ count t
count-Behind n t u (p, e, h) = omega (arith, ap count e, count-prepend p u)

runes_of-prepend : (p : List Rune) (u : Input) → runes_of (prepend p u) ≡ p ++ runes_of u
runes_of-prepend [] u = refl
runes_of-prepend (r ∷ p) u = ap (◌∷◌ r) (runes_of-prepend p u)

between-prepend : (p : List Rune) (u : Input) → between (prepend p u) u ≡ p
between-prepend p u =
    rw (runes_of-prepend p u) (take-append p (runes_of u) _ (omega (arith, count-prepend p u)))

-- The bytes that were consumed.
pub copy_from_mark-prepend :
    (t u : Input) (p : List Rune) → t ≡ prepend p u → copy_from_mark t u ≡ bytes_of p
copy_from_mark-prepend t u p e = rw e (ap bytes_of (between-prepend p u))

pub between-Behind : (t u : Input) (p : List Rune) → t ≡ prepend p u → between t u ≡ p
between-Behind t u p e = rw e (between-prepend p u)
