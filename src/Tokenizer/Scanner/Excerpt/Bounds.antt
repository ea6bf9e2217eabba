-- ===== src/Tokenizer/Scanner/Excerpt/Bounds.antt =====
-- internal/tokenizer/scanner.go: the excerpt of the input is taken without an index out of range.
use gokdl.Base.{
  ℕ, zero, suc, ◌+◌, ◌-◌, ◌≤◌, ◌<◌, ◌≡◌, refl, ap, ◌∙◌, true, false, [], ◌∷◌, Option, none, some,
  Bytes, ltb, length, get_or, take, drop, arith, Bool-cases, inl, inr,
}
use gokdl.Tokenizer.CType.{is_newline}
use gokdl.Tokenizer.Scanner.Excerpt.{
  line_start, line_length, slice, without_tabs, mark_elided, with_caret, elide, excerpt, clamped,
  search_from, extract_line_at_offset,
}

line_start-le : (raw : Bytes) (k : ℕ) → line_start raw k ≤ k
unfolding line_start
line_start-le raw zero = omega arith
line_start-le raw (suc k) = ground (arith, line_start-le raw k)

line_length-le : (s : Bytes) → line_length s ≤ length s
unfolding line_length
line_length-le [] = omega arith
line_length-le (c ∷ s) = ground (arith, line_length-le s)

line_length-extends :
    (s : Bytes) (j : ℕ)
    → j ≤ line_length s
    → j < length s
    → is_newline (get_or s j 0) ≡ false
    → suc j ≤ line_length s
unfolding line_length
line_length-extends [] j h l n = absurd (omega (arith, l))
line_length-extends (c ∷ s) zero h l n = ground (arith, n)
line_length-extends (c ∷ s) (suc j) h l n = ground (arith, h, line_length-extends s j, n)

get_or-drop : (raw : Bytes) (s j : ℕ) → get_or (drop s raw) j 0 ≡ get_or raw (s + j) 0
get_or-drop raw zero j = ap (λ i. get_or raw i 0) (omega arith)
get_or-drop [] (suc s) j = refl
get_or-drop (c ∷ raw) (suc s) j = get_or-drop raw s j ∙ ap (λ i. get_or (c ∷ raw) i 0) suc_out
  where
    suc_out : suc (s + j) ≡ suc s + j
    suc_out = omega arith

length-drop : (raw : Bytes) (s : ℕ) → length (drop s raw) ≡ length raw - s
length-drop raw zero = omega arith
length-drop [] (suc s) = omega arith
length-drop (c ∷ raw) (suc s) = length-drop raw s ∙ omega arith

reaches_on :
    (raw : Bytes) (k s : ℕ)
    → k < length raw
    → s ≤ k
    → k ≤ s + line_length (drop s raw)
    → is_newline (get_or raw k 0) ≡ false
    → suc k ≤ s + line_length (drop s raw)
reaches_on raw k s h l r e =
    let j = k - s in
    let at : s + j ≡ k = omega (arith, l) in
    omega (
      arith,
      l,
      line_length-extends (drop s raw) j (omega (arith, r, l))
          (omega (arith, h, length-drop raw s, l))
          (ap is_newline (get_or-drop raw s j ∙ ap (λ i. get_or raw i 0) at) ∙ e),
    )

-- The line that holds the byte before an offset reaches to that offset at least.
line_reaches :
    (raw : Bytes) (k : ℕ)
    → k ≤ length raw
    → k ≤ line_start raw k + line_length (drop (line_start raw k) raw)
unfolding line_start
line_reaches raw zero h = omega arith
line_reaches raw (suc k) h = elim (Bool-cases (is_newline (get_or raw k 0))) [
  | inl e ↦ rw (line_start, e) (omega arith)
  | inr e ↦
      rw (line_start, e)
        (reaches_on raw k (line_start raw k) (omega (arith, h)) (line_start-le raw k)
          (line_reaches raw k (omega (arith, h))) e)
]

-- There is a text.
abbrev pub Given : Option Bytes → Type 0
Given none = ⊥
Given (some t) = Unit

length-take : (n : ℕ) (s : Bytes) → n ≤ length s → length (take n s) ≡ n
length-take zero s h = refl
length-take (suc n) [] h = absurd (omega (arith, h))
length-take (suc n) (c ∷ s) h = omega (arith, length-take n s (omega (arith, h)))

length-without_tabs : (s : Bytes) → length (without_tabs s) ≡ length s
unfolding without_tabs
length-without_tabs [] = refl
length-without_tabs (c ∷ s) = omega (arith, length-without_tabs s)

mark_elided-Given :
    (caret : ℕ) (line : Bytes) → 3 ≤ length line → Given (with_caret caret (mark_elided true line))
unfolding mark_elided
mark_elided-Given caret [] h = absurd (omega (arith, h))
mark_elided-Given caret (a ∷ []) h = absurd (omega (arith, h))
mark_elided-Given caret (a ∷ b ∷ []) h = absurd (omega (arith, h))
mark_elided-Given caret (a ∷ b ∷ c ∷ s) h = tt

slice-within :
    (raw : Bytes) (start end : ℕ)
    → start ≤ end
    → end ≤ length raw
    → slice raw start end ≡ some (take (end - start) (drop start raw))
unfolding slice
slice-within raw start end h k = ground (arith, h, k)

length-slice :
    (raw : Bytes) (start end : ℕ)
    → start ≤ end
    → end ≤ length raw
    → length (without_tabs (take (end - start) (drop start raw))) ≡ end - start
length-slice raw start end h k =
    length-without_tabs (take (end - start) (drop start raw))
    ∙ length-take (end - start) (drop start raw) (omega (arith, h, k, length-drop raw start))

excerpt-Given :
    (raw : Bytes) (start end caret : ℕ)
    → start ≤ end
    → end ≤ length raw
    → start + caret ≤ end + 2
    → Given (excerpt raw start end caret)
unfolding excerpt elide
excerpt-Given raw start end caret a b c = elim (Bool-cases (ltb 64 caret)) [
  | inl e ↦
      let from = start + (caret - 64) in
      let l : 64 < caret = ground (arith, e) in
      let h : from ≤ end = omega (arith, l, c) in
      rw (excerpt, e, slice-within raw from end h b)
        (mark_elided-Given 64 (without_tabs (take (end - from) (drop from raw)))
          (omega (arith, length-slice raw from end h b, l, c)))
  | inr e ↦ rw (excerpt, e, slice-within raw start end a b, mark_elided) tt
]

-- For every input and every offset that is not negative the excerpt is a text: no index of a slice or of
-- the line is out of range, in the elided form neither.
pub extract_line_at_offset-Given :
    (raw : Bytes) (offset : ℕ) → Given (extract_line_at_offset raw offset)
unfolding extract_line_at_offset
extract_line_at_offset-Given [] offset = tt
extract_line_at_offset-Given (c ∷ s) offset =
    let raw = c ∷ s in
    let o = clamped raw offset in
    let k = search_from raw o in
    let start = line_start raw k in
    let width = line_length (drop start raw) in
    let ol : o ≤ length raw = ground arith in
    let kl : k ≤ length raw = ground (arith, ol) in
    let ok : o ≤ k + 1 = ground arith in
    excerpt-Given raw start (start + width) (o - start + 1) (omega arith)
      (omega
        (arith, line_length-le (drop start raw), length-drop raw start, line_start-le raw k, kl))
      (omega (arith, line_reaches raw k kl, line_start-le raw k, ok))
