-- ===== src/Tokenizer/Scanner/Bases.antt =====
-- internal/tokenizer/readtype.go: what a hexadecimal, octal or binary token holds.
use gokdl.Base.{
  ℕ, ◌≤◌, ◌≡◌, refl, inl, inr, Bool, Bool-cases, true, false, not, ◌&&◌, Option, none, some, Bytes,
  length, get_elem?, ltb, arith, if◌then◌else◌,
}
use gokdl.Tokenizer.CType.{is_white_space, is_newline, is_line_space}
use gokdl.Tokenizer.Input.{Input, finish, broken, rune, copy_from_mark, Read, got, failed, ◌>>=◌}
use gokdl.Tokenizer.Readers.Number.{base_digit, is_underscore, behind_base, read_numeric_base}
use gokdl.Tokenizer.Readers.While.{end_while, while_from, read_while_state}

-- No rune follows, or one that is white space or a newline.
abbrev pub AtSpace : Input → Type 0
AtSpace finish = Unit
AtSpace (broken b) = Unit
AtSpace (rune c b t) = is_line_space c ≡ true

-- A literal of three bytes at least, the third no underscore, in front of a space, a newline, the end
-- of the input or bytes that are no rune.
abbrev pub Numeral : Read Bytes → Type 0
Numeral (got s u) = (3 ≤ length s) × (is_underscore (get_elem? s 2) ≡ false) × AtSpace u
Numeral (failed e) = Unit

abbrev Long : ℕ → Read (ℕ × Bytes) → Type 0
Long n (got (k, s) u) = n ≤ length s
Long n (failed e) = Unit

end_while-Long :
    (n : ℕ) (start t : Input) (c : ℕ) (valid : Bool) (k : ℕ)
    → Long n (end_while n start t c valid k)
unfolding end_while
end_while-Long n start t c false k = tt
end_while-Long n start t c true k = elim (Bool-cases (ltb (length (copy_from_mark start t)) n)) [
  | inl e ↦ rw e tt
  | inr e ↦ rw e (ground (arith, e))
]

Option-Long :
    (n : ℕ) (o : Option ℕ) (f : ℕ → Read (ℕ × Bytes)) (r : Read (ℕ × Bytes))
    → ((k : ℕ) → Long n (f k))
    → Long n r
    → Long n (elim o [ some k ↦ f k | none ↦ r ])
Option-Long n (some k) f r h i = h k
Option-Long n none f r h i = i

while_from-Long :
    (f : ℕ → ℕ → Input → Option ℕ) (n : ℕ) (start : Input) (valid : Bool) (k : ℕ) (t : Input)
    → Long n (while_from f n start valid k t)
unfolding while_from
while_from-Long f n start valid k finish = end_while-Long n start finish 0 valid k
while_from-Long f n start valid k (broken b) = tt
while_from-Long f n start valid k (rune c b t) =
    Option-Long n (f k c t) _ _ (λ k'. while_from-Long f n start true k' t)
      (end_while-Long n start (rune c b t) c valid k)

if-Numeral :
    (b : Bool) (r s : Read Bytes)
    → (b ≡ true → Numeral r)
    → (b ≡ false → Numeral s)
    → Numeral (if b then r else s)
if-Numeral true r s h k = h refl
if-Numeral false r s h k = k refl

line_space_of :
    (c : ℕ) → (not (is_white_space c) && not (is_newline c)) ≡ false → is_line_space c ≡ true
unfolding is_line_space
line_space_of c h = ground arith

behind_base-Numeral : (r : Read (ℕ × Bytes)) → Long 3 r → Numeral (r >>= behind_base)
unfolding behind_base
behind_base-Numeral (failed e) h = tt
behind_base-Numeral (got (n, s) finish) h =
    if-Numeral (is_underscore (get_elem? s 2)) _ _ (λ _. tt) (λ e. (h, e, tt))
behind_base-Numeral (got (n, s) (broken b)) h =
    if-Numeral (is_underscore (get_elem? s 2)) _ _ (λ _. tt) (λ e. (h, e, tt))
behind_base-Numeral (got (n, s) (rune c b u)) h =
    if-Numeral (is_underscore (get_elem? s 2)) _ _ (λ _. tt)
      (λ e.
        if-Numeral (not (is_white_space c) && not (is_newline c)) _ _ (λ _. tt)
          (λ f. (h, e, line_space_of c f)))

-- A hexadecimal, octal or binary literal has three bytes at least, the third of which is no underscore,
-- and a rune that follows it is white space or a newline.
pub read_numeric_base-Numeral : (digit : ℕ → Bool) (t : Input) → Numeral (read_numeric_base digit t)
unfolding read_numeric_base read_while_state
read_numeric_base-Numeral digit t =
    behind_base-Numeral _ (while_from-Long (base_digit digit) 3 t false 0 t)
