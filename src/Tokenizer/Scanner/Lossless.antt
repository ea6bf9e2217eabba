-- ===== src/Tokenizer/Scanner/Lossless.antt =====
-- internal/tokenizer/scanner.go: the tokens of a scan, one behind the other, are the input.
use mathlib.Core.Path.{subst}
use gokdl.Base.{
  ℕ, zero, suc, ◌<◌, ◌≡◌, refl, sym, ap, ◌∙◌, ◌⊎◌, inl, inr, Bool, true, false, not, ◌&&◌, List, [],
  ◌∷◌, ◌++◌, append_assoc, Option, none, some, Bytes, ◌==◌, arith, if◌then◌else◌,
}
use gokdl.Tokenizer.Input.{
  decode, Input, finish, broken, rune, count, copy_from_mark, ScanError, end_of_input, invalid_rune,
  unexpected_end, end_of_token, unexpected_character, content_after_opening, missing_quote,
  bare_keyword, out_of_fuel, Read, got, failed,
}
use gokdl.Tokenizer.Input.Consumed.{Behind, AboutInput, count-Behind}
use gokdl.Tokenizer.Input.RoundTrip.{all_bytes, all_bytes-Behind, decode-all_bytes}
use gokdl.Tokenizer.Scanner.Loop.{Ending, ended, stopped, ending_of, scan_from, scan}
use gokdl.Tokenizer.Scanner.Next.{Next, token, halted, token_switch, next_of, read_next}
use gokdl.Tokenizer.Scanner.State.{Scanner, new_slice, advance}
use gokdl.Tokenizer.Scanner.Version.{
  with_version, marked_version, detect_from, behind_bom, detect_version, is_auto, detected,
}
use gokdl.Tokenizer.Takes.Next.{IsBroken, Spends, token_switch-Spends}
use gokdl.Tokenizer.Token.{TokenId, Token, Version}

with_version-input : (s : Scanner) (v : Option Version) → (with_version s v).input ≡ s.input
with_version-input s none = refl
with_version-input s (some v) = refl

if-input :
    (s : Scanner) (b : Bool) (x y : Scanner)
    → x.input ≡ s.input
    → y.input ≡ s.input
    → (if b then x else y).input ≡ s.input
if-input s true x y h k = h
if-input s false x y h k = k

detect_from-input : (s : Scanner) (t : Input) → (detect_from s t).input ≡ s.input
unfolding detect_from
detect_from-input s finish = refl
detect_from-input s (broken b) = refl
detect_from-input s (rune c b t) =
    if-input s (not (c == b'/')) _ _ (if-input s (not (c == 0)) _ _ refl refl)
      (with_version-input s (marked_version t))

detect_version-input : (s : Scanner) → (detect_version s).input ≡ s.input
unfolding detect_version
detect_version-input s =
    if-input s s.marker_detected _ _ refl (detect_from-input s (behind_bom s.input))

-- The version is detected by peeking.
detected-input : (s : Scanner) → (detected s).input ≡ s.input
unfolding detected
detected-input s =
    if-input s (is_auto s.version && not s.marker_detected) _ _ (detect_version-input s) refl

-- The bytes of the tokens.
abbrev pub contents : List Token → Bytes
contents [] = []
contents (t ∷ ts) = t.content ++ contents ts

-- What a step of the scanner keeps.
abbrev pub Steps : Scanner → Next → Type 0
Steps s (token t s') =
    Behind 1 s.input s'.input × ((t.content ≡ copy_from_mark s.input s'.input) ⊎ IsBroken s'.input)
Steps s (halted e s') = AboutInput e × (s'.input ≡ s.input) × (token_switch s' s'.input ≡ failed e)

next_of-Steps :
    (s s' : Scanner) (r : Read (TokenId × Bytes))
    → s.input ≡ s'.input
    → Spends s'.input r
    → token_switch s' s'.input ≡ r
    → Steps s (next_of s' r)
unfolding next_of advance
next_of-Steps s s' (got (id, b) u) e (m, l) k =
    subst (λ t. Behind 1 t u × ((b ≡ copy_from_mark t u) ⊎ IsBroken u)) (sym e) (m, l)
next_of-Steps s s' (failed x) e h k = (h, sym e, k)

pub read_next-Steps : (s : Scanner) → Steps s (read_next s)
unfolding read_next
read_next-Steps s =
    next_of-Steps s (detected s) (token_switch (detected s) (detected s).input)
      (sym (detected-input s)) (token_switch-Spends (detected s) (detected s).input) refl

-- The input that is left is what `readNext` takes for the end.
abbrev pub AtEnd : Input → Type 0
AtEnd u = (s : Scanner) × (token_switch s u ≡ failed end_of_input)

-- The tokens are the input, up to what is taken for its end; or the scan stopped with an error about
-- the input.
abbrev pub Tiles : Bytes → List Token × Ending → Type 0
Tiles b (ts, ended e) = (u : Input) × (b ≡ contents ts ++ all_bytes u) × AtEnd u
Tiles b (ts, stopped e) = AboutInput e

ending_of-Tiles :
    (e : ScanError) (s : Scanner)
    → AboutInput e
    → token_switch s s.input ≡ failed e
    → Tiles (all_bytes s.input) ([], ending_of e s)
unfolding ending_of
ending_of-Tiles end_of_input s h k = (s.input, refl, (s, k))
ending_of-Tiles out_of_fuel s h k = absurd h
ending_of-Tiles invalid_rune s h k = tt
ending_of-Tiles unexpected_end s h k = tt
ending_of-Tiles end_of_token s h k = tt
ending_of-Tiles (unexpected_character c) s h k = tt
ending_of-Tiles content_after_opening s h k = tt
ending_of-Tiles missing_quote s h k = tt
ending_of-Tiles bare_keyword s h k = tt

token_switch-broken :
    (s : Scanner) (t : Input) → IsBroken t → token_switch s t ≡ failed invalid_rune
unfolding token_switch
token_switch-broken s finish h = absurd h
token_switch-broken s (broken b) h = refl
token_switch-broken s (rune c b t) h = absurd h

read_next-broken : (s : Scanner) → IsBroken s.input → read_next s ≡ halted invalid_rune (detected s)
unfolding read_next next_of
read_next-broken s h =
    ap (next_of (detected s))
      (token_switch-broken (detected s) _ (subst IsBroken (sym (detected-input s)) h))

-- What `scan_from` makes of a step.
abbrev rest_of : ℕ → Next → List Token × Ending
rest_of fuel n = elim n [
  | token t s' ↦ let (ts, e) = scan_from fuel s' in (t ∷ ts, e)
  | halted e s' ↦ ([], ending_of e s')
]

-- In front of bytes that are no rune, nothing more is scanned.
broken-stopped :
    (fuel : ℕ) (s : Scanner) → IsBroken s.input → (scan_from (suc fuel) s).1 ≡ stopped invalid_rune
unfolding scan_from ending_of
broken-stopped fuel s h = ap (λ n. (rest_of fuel n).1) (read_next-broken s h)

abbrev Tiled : ℕ → Type 0
Tiled fuel = (s : Scanner) → count s.input < fuel → Tiles (all_bytes s.input) (scan_from fuel s)

-- A token in front of what the rest is.
token-Tiles :
    (b c : Bytes) (t : Token) (r : List Token × Ending)
    → b ≡ t.content ++ c
    → Tiles c r
    → Tiles b (t ∷ r.0, r.1)
token-Tiles b c t (ts, ended e) h (u, k, l) =
    (u, h ∙ ap (◌++◌ t.content) k ∙ sym (append_assoc t.content (contents ts) (all_bytes u)), l)
token-Tiles b c t (ts, stopped e) h k = k

rest_of-Tiles :
    (fuel : ℕ) (s : Scanner) (n : Next)
    → count s.input < suc fuel
    → Steps s n
    → Tiled fuel
    → Tiles (all_bytes s.input) (rest_of fuel n)
rest_of-Tiles zero s (token t s') l (m, h) next =
    absurd (omega (arith, count-Behind 1 s.input s'.input m))
rest_of-Tiles (suc fuel) s (token t s') l (m, inl h) next =
    token-Tiles _ (all_bytes s'.input) t (scan_from (suc fuel) s')
      (all_bytes-Behind 1 s.input s'.input m ∙ ap (λ b. b ++ all_bytes s'.input) (sym h))
      (next s' (omega (arith, count-Behind 1 s.input s'.input m)))
rest_of-Tiles (suc fuel) s (token t s') l (m, inr h) next = rw (broken-stopped fuel s' h) tt
rest_of-Tiles fuel s (halted e s') l (h, i, k) next =
    subst (λ t. Tiles (all_bytes t) ([], ending_of e s')) i (ending_of-Tiles e s' h k)

scan_from-Tiles : (fuel : ℕ) → Tiled fuel
unfolding scan_from
scan_from-Tiles zero s l = absurd (omega arith)
scan_from-Tiles (suc fuel) s l =
    rest_of-Tiles fuel s (read_next s) l (read_next-Steps s) (scan_from-Tiles fuel)

-- A scan of any bytes, with any flags and version, ends; it stopped with an error about the input, or the
-- contents of its tokens, one behind the other, are the bytes up to what `readNext` takes for the end of
-- the input.
pub scan-Tiles : (relaxed : ℕ) (v : Version) (b : Bytes) → Tiles b (scan (new_slice relaxed v b))
unfolding scan new_slice
scan-Tiles relaxed v b =
    subst (λ c. Tiles c (scan (new_slice relaxed v b))) (decode-all_bytes b)
      (scan_from-Tiles (suc (count (decode b))) (new_slice relaxed v b) (omega arith))
