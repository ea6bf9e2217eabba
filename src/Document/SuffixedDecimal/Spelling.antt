-- ===== src/Document/SuffixedDecimal/Spelling.antt =====
-- document/suffixeddec.go: what `ParseSuffixedDecimal` makes of a number and a unit.
use mathlib.Core.Path.{subst}
use gokdl.Base.{
  ℕ, zero, suc, ◌+◌, ◌<◌, ◌≡◌, refl, ap, ◌∙◌, Bool, true, false, ◌&&◌, ◌||◌, [], ◌∷◌, ◌++◌, Option,
  none, some, Bytes, ◌==◌, leb, one_of, take, drop, length, take-append, drop-append, append-nil,
  arith, codes,
}
use gokdl.Document.SuffixedDecimal.{
  SuffixedDecimal, SuffixResult, suffixed, unexpected_character, starts_with_non_digit, spelled,
  Scan, scan_step, scan_loop, finish_scan, after_scan, parse_suffixed_decimal,
}

take-drop : (n : ℕ) (b : Bytes) → take n b ++ drop n b ≡ b
take-drop zero b = refl
take-drop (suc n) [] = refl
take-drop (suc n) (c ∷ b) = ap (◌∷◌ c) (take-drop n b)

abbrev Spells : Bytes → SuffixResult → Type 0
Spells b (suffixed d) = spelled d ≡ b
Spells b (unexpected_character c) = Unit
Spells b starts_with_non_digit = Unit

finish_scan-Spells : (b : Bytes) (st : Scan) → Spells b (finish_scan b st)
finish_scan-Spells b st = split st.duration st.suffix_index
  where
    split :
        (d : Bool) (o : Option ℕ)
        → Spells b (finish_scan b (record { duration = d; suffix_index = o }))
    split true none = refl
    split false none = append-nil b
    split d (some zero) = tt
    split true (some (suc k)) = refl
    split false (some (suc k)) = take-drop (suc k) b

abbrev start : Scan
start = record { duration = false; suffix_index = none }

after_scan-Spells : (b : Bytes) (r : Scan × Option ℕ) → Spells b (after_scan b r)
after_scan-Spells b (st, none) = finish_scan-Spells b st
after_scan-Spells b (st, some c) = tt

-- What `ParseSuffixedDecimal` accepts, the number and the suffix spell again.
pub parse_suffixed_decimal-spelled :
    (b : Bytes) (d : SuffixedDecimal) → parse_suffixed_decimal b ≡ suffixed d → spelled d ≡ b
unfolding parse_suffixed_decimal
parse_suffixed_decimal-spelled b d e =
    subst (Spells b) e (after_scan-Spells b (scan_loop start 0 b))

-- Digits and points only.
abbrev pub numeric : Bytes → Bool
numeric [] = true
numeric (c ∷ s) = (leb b'0' c && leb c b'9' || c == b'.') && numeric s

-- The letters of the units.
abbrev pub is_unit : ℕ → Bool
is_unit = one_of (codes "kKmMgGtTpP")

scan_step-numeric :
    (i c : ℕ) → (leb b'0' c && leb c b'9' || c == b'.') ≡ true → scan_step start i c ≡ some start
unfolding scan_step
scan_step-numeric i c h = rw h refl

scan_numeric :
    (n s : Bytes) (i : ℕ)
    → numeric n ≡ true
    → scan_loop start i (n ++ s) ≡ scan_loop start (i + length n) s
unfolding scan_loop
scan_numeric [] s i h = ap (λ k. scan_loop start k s) (omega arith)
scan_numeric (c ∷ n) s i h =
    rw (scan_loop, scan_step-numeric i c (ground arith))
      (scan_numeric n s (i + 1) (ground arith) ∙ ap (λ k. scan_loop start k s) (omega arith))

scan_all :
    (n s : Bytes) → numeric n ≡ true → scan_loop start 0 (n ++ s) ≡ scan_loop start (length n) s
scan_all n s h = scan_numeric n s 0 h ∙ ap (λ k. scan_loop start k s) (omega arith)

abbrev unit_scan : ℕ → Bool → Scan × Option ℕ
unit_scan i d = (record { duration = d; suffix_index = some i }, none)

scan_unit :
    (i k : ℕ)
    → is_unit k ≡ true
    → (scan_loop start i (k ∷ b'b' ∷ []) ≡ unit_scan i false)
      × (scan_loop start i (k ∷ b'B' ∷ []) ≡ unit_scan i true)
unfolding scan_loop scan_step
scan_unit i k h = (ground arith, ground arith)

finish_number :
    (n s : Bytes)
    → 0 < length n
    → finish_scan (n ++ s) (unit_scan (length n) false).0
      ≡ suffixed (record { number = n; suffix = s })
finish_number [] s l = absurd (omega arith)
finish_number (c ∷ n) s l =
    rw (take-append (c ∷ n) s (length (c ∷ n)) refl, drop-append (c ∷ n) s (length (c ∷ n)) refl)
      refl

finish_duration :
    (n s : Bytes)
    → 0 < length n
    → finish_scan (n ++ s) (unit_scan (length n) true).0
      ≡ suffixed (record { number = []; suffix = n ++ s })
finish_duration [] s l = absurd (omega arith)
finish_duration (c ∷ n) s l = refl

-- Behind digits and a letter of a unit, a small `b` belongs to the unit; a capital `B` makes the whole
-- text the suffix, as for a duration.
pub parse_suffixed_decimal-unit :
    (n : Bytes) (k : ℕ)
    → numeric n ≡ true
    → 0 < length n
    → is_unit k ≡ true
    → (parse_suffixed_decimal (n ++ k ∷ b'b' ∷ [])
        ≡ suffixed (record { number = n; suffix = k ∷ b'b' ∷ [] }))
      × (parse_suffixed_decimal (n ++ k ∷ b'B' ∷ [])
          ≡ suffixed (record { number = []; suffix = n ++ k ∷ b'B' ∷ [] }))
unfolding parse_suffixed_decimal
parse_suffixed_decimal-unit n k h l u = (
  ap (after_scan _) (scan_all n (k ∷ b'b' ∷ []) h ∙ (scan_unit (length n) k u).0)
      ∙ finish_number n (k ∷ b'b' ∷ []) l,
  ap (after_scan _) (scan_all n (k ∷ b'B' ∷ []) h ∙ (scan_unit (length n) k u).1)
      ∙ finish_duration n (k ∷ b'B' ∷ []) l,
)
