-- ===== src/Tokenizer/Input/RoundTrip.antt =====
-- internal/tokenizer/scanner.go: the runes that `utf8.DecodeRune` gives hold all bytes of the input.
use gokdl.Base.{
  ℕ, zero, suc, ◌≡◌, refl, sym, ap, ◌∙◌, Bool, true, false, List, [], ◌∷◌, ◌++◌, append_assoc,
  Bytes, length, take, drop, ◌==◌, if◌then◌else◌,
}
use gokdl.Go.Utf8.{decode_rune, rune_error}
use gokdl.Tokenizer.Input.{
  Rune, Input, finish, broken, rune, decode_from, decode, bytes_of, copy_from_mark,
}
use gokdl.Tokenizer.Input.Consumed.{prepend, Behind, copy_from_mark-prepend}

-- The bytes of the input, those that are no rune included.
abbrev pub all_bytes : Input → Bytes
all_bytes finish = []
all_bytes (broken b) = b
all_bytes (rune c b t) = b ++ all_bytes t

all_bytes-prepend :
    (p : List Rune) (u : Input) → all_bytes (prepend p u) ≡ bytes_of p ++ all_bytes u
all_bytes-prepend [] u = refl
all_bytes-prepend (r ∷ p) u =
    ap (◌++◌ r.bytes) (all_bytes-prepend p u)
    ∙ sym (append_assoc r.bytes (bytes_of p) (all_bytes u))

pub all_bytes-Behind :
    (n : ℕ) (t u : Input) → Behind n t u → all_bytes t ≡ copy_from_mark t u ++ all_bytes u
all_bytes-Behind n t u (p, e, h) =
    ap all_bytes e
    ∙ all_bytes-prepend p u
    ∙ ap (λ b. b ++ all_bytes u) (sym (copy_from_mark-prepend t u p e))

take-drop : (n : ℕ) (s : Bytes) → take n s ++ drop n s ≡ s
take-drop zero s = refl
take-drop (suc n) [] = refl
take-drop (suc n) (c ∷ s) = ap (◌∷◌ c) (take-drop n s)

if-all_bytes :
    (s : Bytes) (b : Bool) (t u : Input)
    → all_bytes t ≡ s
    → all_bytes u ≡ s
    → all_bytes (if b then t else u) ≡ s
if-all_bytes s true t u h k = h
if-all_bytes s false t u h k = k

decode_from-all_bytes : (fuel : ℕ) (s : Bytes) → all_bytes (decode_from fuel s) ≡ s
unfolding decode_from
decode_from-all_bytes fuel [] = refl
decode_from-all_bytes zero (c ∷ s) = refl
decode_from-all_bytes (suc fuel) (c ∷ s) =
    let size = (decode_rune (c ∷ s)).1 in
    if-all_bytes (c ∷ s) ((decode_rune (c ∷ s)).0 == rune_error) _ _ refl (
      ap (◌++◌ (take size (c ∷ s))) (decode_from-all_bytes fuel (drop size (c ∷ s)))
      ∙ take-drop size (c ∷ s))

-- The runes of the input hold its bytes, in order.
pub decode-all_bytes : (s : Bytes) → all_bytes (decode s) ≡ s
unfolding decode
decode-all_bytes s = decode_from-all_bytes (length s) s
