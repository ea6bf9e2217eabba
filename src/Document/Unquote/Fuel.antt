-- ===== src/Document/Unquote/Fuel.antt =====
-- document/strings.go: each round of unquoting takes a byte, so the length is fuel enough.
use gokdl.Base.{
  ℕ, zero, suc, ◌-◌, ◌≤◌, ◌<◌, Bool, true, false, not, ◌&&◌, ◌||◌, [], ◌∷◌, ◌++◌, Option, none,
  some, Bytes, ◌==◌, leb, ltb, one_of, length, drop, if◌then◌else◌, arith,
}
use gokdl.Document.Unquote.{
  Unquoted, done, invalid, out_of_fuel, Round, next, refused, cut_brace, skip_space, checked_rune,
  hex_value, unicode_escape, escape_switch, read_escape, unquote_step, unquote_loop, inner,
  append_unquoted_string, unquote_string, is_whitespace_escape_rune, is_whitespace_escape_char,
}
use gokdl.Go.Utf8.{decode_rune, rune_error}

pub decode_rune-size : (c : ℕ) (s : Bytes) → 0 < (decode_rune (c ∷ s)).1
unfolding decode_rune
decode_rune-size c s = ground arith

pub length-drop : (n : ℕ) (s : Bytes) → length (drop n s) ≤ length s - n
length-drop zero s = omega arith
length-drop (suc n) [] = omega arith
length-drop (suc n) (c ∷ s) = omega (arith, length-drop n s)

-- What a round leaves is no longer than a bound.
abbrev pub Leaves : ℕ → Round → Type 0
Leaves n (next b p rest) = length rest ≤ n
Leaves n refused = Unit

pub if-Leaves :
    (n : ℕ) (b : Bool) (x y : Round) → Leaves n x → Leaves n y → Leaves n (if b then x else y)
if-Leaves n true x y h k = h
if-Leaves n false x y h k = k

abbrev Cut : ℕ → Option (Bytes × Bytes) → Type 0
Cut n none = Unit
Cut n (some (digits, rest)) = length rest ≤ n

if-Cut :
    (n : ℕ) (b : Bool) (x y : Option (Bytes × Bytes))
    → Cut n x
    → Cut n y
    → Cut n (if b then x else y)
if-Cut n true x y h k = h
if-Cut n false x y h k = k

Cut-suc : (n : ℕ) (o : Option (Bytes × Bytes)) → Cut n o → Cut (suc n) o
Cut-suc n none h = h
Cut-suc n (some (digits, rest)) h = omega arith

cut_brace-Cut : (digits s : Bytes) → Cut (length s) (cut_brace digits s)
unfolding cut_brace
cut_brace-Cut digits [] = tt
cut_brace-Cut digits (c ∷ s) =
    if-Cut (suc (length s)) (c == b'}') _ _ (omega arith)
      (Cut-suc (length s) _ (cut_brace-Cut (digits ++ c ∷ []) s))

checked_rune-Leaves :
    (n r : ℕ) (b rest : Bytes) → length rest ≤ n → Leaves n (checked_rune b r rest)
checked_rune-Leaves n r b rest h =
    if-Leaves n (ltb 0x10FFFF r) refused _ tt
      (if-Leaves n (leb 0xD800 r && leb r 0xDFFF) refused _ tt h)

-- The digits were cut off, and make a rune.
pub cut_rune-Leaves :
    (n : ℕ) (b s : Bytes)
    → length s ≤ n
    → Leaves n (elim (cut_brace [] s) [
      | none ↦ refused
      | some (digits, rest) ↦
          if ltb 6 (length digits) then refused else checked_rune b (hex_value digits) rest
    ])
cut_rune-Leaves n b s h = cut (cut_brace [] s) (cut_brace-Cut [] s)
  where
    cut :
        (o : Option (Bytes × Bytes))
        → Cut (length s) o
        → Leaves n (elim o [
          | none ↦ refused
          | some (digits, rest) ↦
              if ltb 6 (length digits) then refused else checked_rune b (hex_value digits) rest
        ])
    cut none k = tt
    cut (some (digits, rest)) k =
        if-Leaves n (ltb 6 (length digits)) refused _ tt
          (checked_rune-Leaves n (hex_value digits) b rest (omega arith))

unicode_escape-Leaves : (n : ℕ) (b s : Bytes) → length s ≤ n → Leaves n (unicode_escape b s)
unfolding unicode_escape
unicode_escape-Leaves n b [] h = tt
unicode_escape-Leaves n b (o ∷ s) h =
    if-Leaves n (ltb (length (o ∷ s)) 3 || not (o == b'{')) refused _ tt
      (cut_rune-Leaves n b s (omega arith))

escape_switch-Leaves : (quote c : ℕ) (b s : Bytes) → Leaves (length s) (escape_switch quote b c s)
unfolding escape_switch
escape_switch-Leaves quote c b s =
    ground (arith, unicode_escape-Leaves (length s) b s (omega arith))

pub skip_space-shorter : (fuel : ℕ) (s : Bytes) → length (skip_space fuel s) ≤ length s
unfolding skip_space
skip_space-shorter zero s = omega arith
skip_space-shorter (suc fuel) [] = omega arith
skip_space-shorter (suc fuel) (c ∷ s) = ground (
  arith,
  skip_space-shorter fuel (drop (decode_rune (c ∷ s)).1 (c ∷ s)),
  length-drop (decode_rune (c ∷ s)).1 (c ∷ s),
)

pub Leaves-weaken : (m n : ℕ) (r : Round) → m ≤ n → Leaves m r → Leaves n r
Leaves-weaken m n (next b p rest) l h = omega arith
Leaves-weaken m n refused l h = h

read_escape-Leaves : (quote : ℕ) (b s : Bytes) → Leaves (length s) (read_escape quote b s)
unfolding read_escape
read_escape-Leaves quote b [] = tt
read_escape-Leaves quote b (c ∷ s) =
    if-Leaves _ (is_whitespace_escape_char c) _ _
      (if-Leaves _ (not (is_whitespace_escape_rune (decode_rune (c ∷ s)).0)) refused _ tt
        (skip_space-shorter (length (c ∷ s)) (c ∷ s)))
      (Leaves-weaken (length s) _ _ (omega arith) (escape_switch-Leaves quote c b s))

pub drop_rune-shorter :
    (c : ℕ) (s : Bytes) → length (drop (decode_rune (c ∷ s)).1 (c ∷ s)) ≤ length s
drop_rune-shorter c s =
    omega (arith, length-drop (decode_rune (c ∷ s)).1 (c ∷ s), decode_rune-size c s)

unquote_step-Leaves :
    (quote c : ℕ) (b pending s : Bytes) → Leaves (length s) (unquote_step quote b pending c s)
unfolding unquote_step
unquote_step-Leaves quote c b pending s =
    if-Leaves _ (not (c == b'\\' || leb 0x80 c)) _ _ (omega arith) (
      if-Leaves _ (leb 0x80 c) _ _
        (if-Leaves _ ((decode_rune (c ∷ s)).0 == rune_error && (decode_rune (c ∷ s)).1 == 1) _ _
          (omega arith) (drop_rune-shorter c s))
        (read_escape-Leaves quote (b ++ pending) s))

-- An end with the bytes or an error.
abbrev pub Ends : Unquoted → Type 0
Ends (done b) = Unit
Ends invalid = Unit
Ends out_of_fuel = ⊥

after_round-Ends :
    (fuel quote : ℕ) (r : Round)
    → Leaves fuel r
    → ((b pending s : Bytes) → length s ≤ fuel → Ends (unquote_loop fuel quote b pending s))
    → Ends (elim r [ next b p rest ↦ unquote_loop fuel quote b p rest | refused ↦ invalid ])
after_round-Ends fuel quote (next b p rest) k later = later b p rest k
after_round-Ends fuel quote refused k later = tt

unquote_loop-Ends :
    (fuel quote : ℕ) (b pending s : Bytes)
    → length s ≤ fuel
    → Ends (unquote_loop fuel quote b pending s)
unfolding unquote_loop
unquote_loop-Ends zero quote b pending [] h = tt
unquote_loop-Ends (suc fuel) quote b pending [] h = tt
unquote_loop-Ends zero quote b pending (c ∷ s) h = absurd (omega arith)
unquote_loop-Ends (suc fuel) quote b pending (c ∷ s) h =
    after_round-Ends fuel quote _
      (Leaves-weaken (length s) fuel _ (omega arith) (unquote_step-Leaves quote c b pending s))
      (unquote_loop-Ends fuel quote)

if-Ends : (b : Bool) (x y : Unquoted) → Ends x → Ends y → Ends (if b then x else y)
if-Ends true x y h k = h
if-Ends false x y h k = k

-- `UnquoteString` ends on every byte string, with the text or `ErrInvalid`.
pub unquote_string-Ends : (s : Bytes) → Ends (unquote_string s)
unfolding unquote_string append_unquoted_string
unquote_string-Ends [] = tt
unquote_string-Ends (q ∷ s) =
    if-Ends (one_of (b'"' ∷ b'\'' ∷ b'`' ∷ []) q) _ invalid
      (if-Ends _ invalid _ tt
        (unquote_loop-Ends (length (inner (q ∷ s))) q [] [] (inner (q ∷ s)) (omega arith)))
      tt
