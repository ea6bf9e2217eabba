-- ===== src/Tokenizer/Takes.antt =====
-- internal/tokenizer/readtype.go and scanner.go: a reader that gives a literal consumes at least one rune,
-- and the literal is the bytes it consumed. It fails with errors about the input only: the fuel is enough.
pub mod Loops
pub mod Strings
pub mod Hashes
pub mod Names
pub mod Numbers
pub mod Next
use gokdl.Base.{
  ℕ, zero, suc, ◌+◌, ◌≤◌, ◌≡◌, refl, sym, ap, ◌∙◌, Bool, true, false, List, [], ◌∷◌, Option, none,
  some, Bytes, length, arith, if◌then◌else◌,
}
use gokdl.Tokenizer.Input.{
  Rune, Input, rune, finish, broken, copy_from_mark, bytes_of, ScanError, Read, got, failed, Peek,
  seen, at_end, at_invalid, ◌>>=◌,
}
use gokdl.Tokenizer.Input.Consumed.{
  AboutInput, Behind, Moves, Behind-refl, Behind-trans, Behind-weaken, Behind-rune,
  copy_from_mark-prepend, prepend,
}

-- What the reader gave, seen through `literal`, is what it consumed.
abbrev pub Takes : {A : Type 0} → (A → Bytes) → Input → Read A → Type 0
Takes literal t (got a u) = Behind 1 t u × (literal a ≡ copy_from_mark t u)
Takes literal t (failed e) = AboutInput e

abbrev pub itself : Bytes → Bytes
itself s = s

abbrev pub snd : {A : Type 0} → A × Bytes → Bytes
snd (a, s) = s

pub Takes-Moves :
    {A : Type 0} (literal : A → Bytes) (t : Input) (r : Read A) → Takes literal t r → Moves 1 t r
Takes-Moves literal t (got a u) (b, e) = b
Takes-Moves literal t (failed x) h = h

-- Most readers end so: the literal is copied from the mark.
pub copy_from_mark-Takes :
    {A B : Type 0} (literal : B → Bytes) (t : Input) (r : Read A) (f : A → Input → B)
    → Moves 1 t r
    → ((a : A) (u : Input) → literal (f a u) ≡ copy_from_mark t u)
    → Takes literal t (r >>= λ a u. got (f a u) u)
copy_from_mark-Takes literal t (got a u) f h k = (h, k a u)
copy_from_mark-Takes literal t (failed e) f h k = h

-- A literal goes on with its kind.
pub >>=-Takes :
    {A B : Type 0} (f : A → Bytes) (g : B → Bytes) (t : Input) (r : Read A) (h : A → B)
    → Takes f t r
    → ((a : A) → g (h a) ≡ f a)
    → Takes g t (r >>= λ a u. got (h a) u)
>>=-Takes f g t (got a u) h (b, e) k = (b, k a ∙ e)
>>=-Takes f g t (failed e) h b k = b

-- The literal is copied behind a chain of readers: what each moves adds up.
pub after-Takes :
    {A B : Type 0} (literal : B → Bytes) (start : Input) (m n : ℕ) (t : Input) (r : Read A)
    (f : A → Input → Read B)
    → Behind m start t
    → Moves n t r
    → ((a : A) (u : Input) → Behind (m + n) start u → Takes literal start (f a u))
    → Takes literal start (r >>= f)
after-Takes literal start m n t (got a u) f b h k = k a u (Behind-trans m n start t u b h)
after-Takes literal start m n t (failed e) f b h k = h

pub if-Takes :
    {A : Type 0} (f : A → Bytes) (t : Input) (b : Bool) (r s : Read A)
    → Takes f t r
    → Takes f t s
    → Takes f t (if b then r else s)
if-Takes f t true r s h k = h
if-Takes f t false r s h k = k

pub Option-Takes :
    {A S : Type 0} (f : A → Bytes) (t : Input) (o : Option S) (k : S → Read A) (r : Read A)
    → ((s : S) → Takes f t (k s))
    → Takes f t r
    → Takes f t (elim o [ some s ↦ k s | none ↦ r ])
Option-Takes f t (some s) k r h i = h s
Option-Takes f t none k r h i = i

pub Peek-Takes :
    {A : Type 0} (f : A → Bytes) (t : Input) (p : Peek) (k : ℕ → Read A) (r s : Read A)
    → ((c : ℕ) → Takes f t (k c))
    → Takes f t r
    → Takes f t s
    → Takes f t (elim p [ seen c ↦ k c | at_end ↦ r | at_invalid ↦ s ])
Peek-Takes f t (seen c) k r s h i j = h c
Peek-Takes f t at_end k r s h i j = i
Peek-Takes f t at_invalid k r s h i j = j

-- Where bytes were consumed, a rune was.
pub Behind-copy_from_mark :
    (t u : Input) → Behind 0 t u → 1 ≤ length (copy_from_mark t u) → Behind 1 t u
Behind-copy_from_mark t u ([], e, h) k =
    absurd (omega (arith, k, ap length (copy_from_mark-prepend t u [] e)))
Behind-copy_from_mark t u (r ∷ p, e, h) k = (r ∷ p, e, omega arith)
