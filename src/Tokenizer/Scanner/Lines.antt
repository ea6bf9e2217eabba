-- ===== src/Tokenizer/Scanner/Lines.antt =====
-- internal/tokenizer/scanner.go: the version and the line of each token.
use mathlib.Core.Path.{subst}
use gokdl.Base.{
  ℕ, zero, suc, inl, inr, Bool-cases, ◌+◌, ◌≡◌, refl, sym, ap, ◌∙◌, true, false, List, [], ◌∷◌,
  Bytes, arith, if◌then◌else◌,
}
use gokdl.Tokenizer.CType.{is_newline}
use gokdl.Tokenizer.Input.{decode, Rune, Input, between, count, Read, got, failed}
use gokdl.Tokenizer.Input.Consumed.{Behind}
use gokdl.Tokenizer.Scanner.Loop.{Ending, scan_from, scan, ending_of}
use gokdl.Tokenizer.Scanner.Lossless.{Steps, read_next-Steps}
use gokdl.Tokenizer.Scanner.Next.{Next, token, halted, next_of, token_switch, read_next}
use gokdl.Tokenizer.Scanner.State.{Scanner, new_slice, pass, pass_all, advance}
use gokdl.Tokenizer.Scanner.Version.{is_auto, detected}
use gokdl.Tokenizer.Token.{TokenId, Token, Version}

-- How many of the runes are newlines.
abbrev pub newlines : List Rune → ℕ
newlines [] = 0
newlines (r ∷ rs) = if is_newline r.code then suc (newlines rs) else newlines rs

pass-version : (s : Scanner) (r : Rune) → (pass s r).version ≡ s.version
unfolding pass
pass-version s r = elim (Bool-cases (is_newline r.code)) [ inl e ↦ rw e refl | inr e ↦ rw e refl ]

pass_all-version : (s : Scanner) (rs : List Rune) → (pass_all s rs).version ≡ s.version
unfolding pass_all
pass_all-version s [] = refl
pass_all-version s (r ∷ rs) = pass_all-version (pass s r) rs ∙ pass-version s r

pass-line_newline :
    (s : Scanner) (r : Rune) → is_newline r.code ≡ true → (pass s r).line ≡ suc s.line
unfolding pass
pass-line_newline s r e = rw e refl

pass-line_same : (s : Scanner) (r : Rune) → is_newline r.code ≡ false → (pass s r).line ≡ s.line
unfolding pass
pass-line_same s r e = rw e refl

pass_all-line : (s : Scanner) (rs : List Rune) → (pass_all s rs).line ≡ s.line + newlines rs
unfolding pass_all
pass_all-line s [] = omega arith
pass_all-line s (r ∷ rs) = elim (Bool-cases (is_newline r.code)) [
  | inl e ↦ rw e (omega (arith, pass_all-line (pass s r) rs, pass-line_newline s r e))
  | inr e ↦ rw e (pass_all-line (pass s r) rs ∙ ap (λ l. l + newlines rs) (pass-line_same s r e))
]

-- Each token has the version, and the line that the newlines in front of it make; the next token begins
-- at `u`, behind at least a rune.
abbrev pub Lined : Version → Input → ℕ → List Token → Type 0
Lined v t l [] = Unit
Lined v t l (x ∷ xs) =
    (x.version ≡ v)
    × (x.line ≡ l)
    × ((u : Input) × (Behind 1 t u × Lined v u (l + newlines (between t u)) xs))

detected-set : (s : Scanner) → is_auto s.version ≡ false → detected s ≡ s
unfolding detected
detected-set s e = rw e refl

-- What a step keeps, where the version is set.
abbrev Follows : Scanner → Next → Type 0
Follows s (token x s') =
    (x.version ≡ s.version)
    × (x.line ≡ s.line)
    × (s'.version ≡ s.version)
    × (s'.line ≡ s.line + newlines (between s.input s'.input))
Follows s (halted e s') = Unit

next_of-Follows : (s : Scanner) (r : Read (TokenId × Bytes)) → Follows s (next_of s r)
unfolding next_of advance
next_of-Follows s (got (id, b) u) =
    (refl, refl, pass_all-version s (between s.input u), pass_all-line s (between s.input u))
next_of-Follows s (failed e) = tt

read_next-Follows : (s : Scanner) → is_auto s.version ≡ false → Follows s (read_next s)
unfolding read_next
read_next-Follows s e =
    subst (λ s'. Follows s (next_of s' (token_switch s' s'.input))) (sym (detected-set s e))
      (next_of-Follows s (token_switch s s.input))

abbrev rest_of : ℕ → Next → List Token × Ending
rest_of fuel n = elim n [
  | token t s' ↦ let (ts, e) = scan_from fuel s' in (t ∷ ts, e)
  | halted e s' ↦ ([], ending_of e s')
]

module _ (v : Version) (set : is_auto v ≡ false) where
  abbrev LinedFrom : ℕ → Type 0
  LinedFrom fuel = (s : Scanner) → s.version ≡ v → Lined v s.input s.line (scan_from fuel s).0

  rest_of-Lined :
      (fuel : ℕ) (s : Scanner) (n : Next)
      → s.version ≡ v
      → Steps s n
      → Follows s n
      → LinedFrom fuel
      → Lined v s.input s.line (rest_of fuel n).0
  rest_of-Lined fuel s (token x s') e (b, _) (f, g, h, i) next = (
    f ∙ e,
    g,
    (s'.input, (b, subst (λ l. Lined v s'.input l (scan_from fuel s').0) i (next s' (h ∙ e)))),
  )
  rest_of-Lined fuel s (halted x s') e b f next = tt

  scan_from-Lined : (fuel : ℕ) → LinedFrom fuel
  unfolding scan_from
  scan_from-Lined zero s e = tt
  scan_from-Lined (suc fuel) s e =
      rest_of-Lined fuel s (read_next s) e (read_next-Steps s)
        (read_next-Follows s (ap is_auto e ∙ set)) (scan_from-Lined fuel)

  -- Where a version is set, each token of a scan has it, and its line is the number of newlines in the
  -- runes that the tokens in front of it took; a carriage return and a line feed are two.
  pub scan-Lined : (relaxed : ℕ) (b : Bytes) → Lined v (decode b) 0 (scan (new_slice relaxed v b)).0
  unfolding scan new_slice
  scan-Lined relaxed b = scan_from-Lined (suc (count (decode b))) (new_slice relaxed v b) refl
