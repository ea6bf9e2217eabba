-- ===== src/Document/MultiLine/Fuel.antt =====
-- document/strings.go: the loops of reading multi-line strings take a byte in each round.
use gokdl.Base.{ℕ, zero, suc, ◌≤◌, Bool, not, [], ◌∷◌, Bytes, ◌==◌, length, drop, arith}
use gokdl.Document.MultiLine.{
  multiline_unicode, multiline_switch, multiline_escape, multiline_step, multiline_loop,
}
use gokdl.Document.Unquote.{invalid, Round, next, refused}
use gokdl.Document.Unquote.Fuel.{
  Leaves, if-Leaves, Leaves-weaken, Ends, cut_rune-Leaves, skip_space-shorter, drop_rune-shorter,
}
use gokdl.Go.Utf8.{decode_rune, is_space}

multiline_unicode-Leaves : (n : ℕ) (b s : Bytes) → length s ≤ n → Leaves n (multiline_unicode b s)
unfolding multiline_unicode
multiline_unicode-Leaves n b [] h = tt
multiline_unicode-Leaves n b (o ∷ s) h =
    if-Leaves n (not (o == b'{')) refused _ tt (cut_rune-Leaves n b s (omega arith))

multiline_switch-Leaves :
    (quote r : ℕ) (b s : Bytes) → Leaves (length s) (multiline_switch quote b r s)
unfolding multiline_switch
multiline_switch-Leaves quote r b s =
    ground (arith, multiline_unicode-Leaves (length s) b s (omega arith))

multiline_escape-Leaves :
    (quote : ℕ) (trailing : Bool) (b s : Bytes)
    → Leaves (length s) (multiline_escape quote trailing b s)
unfolding multiline_escape
multiline_escape-Leaves quote trailing b [] =
    if-Leaves 0 trailing (next b [] []) refused (omega arith) tt
multiline_escape-Leaves quote trailing b (c ∷ s) =
    if-Leaves _ (is_space (decode_rune (c ∷ s)).0) _ _ (skip_space-shorter (length (c ∷ s)) (c ∷ s))
      (Leaves-weaken (length (drop (decode_rune (c ∷ s)).1 (c ∷ s))) _ _
        (omega (arith, drop_rune-shorter c s))
        (multiline_switch-Leaves quote (decode_rune (c ∷ s)).0 b
          (drop (decode_rune (c ∷ s)).1 (c ∷ s))))

multiline_step-Leaves :
    (quote c : ℕ) (trailing : Bool) (b s : Bytes)
    → Leaves (length s) (multiline_step quote trailing b c s)
unfolding multiline_step
multiline_step-Leaves quote c trailing b s =
    if-Leaves _ (not ((decode_rune (c ∷ s)).0 == b'\\')) _ _ (drop_rune-shorter c s)
      (multiline_escape-Leaves quote trailing b s)

after_round-Ends :
    (fuel quote : ℕ) (trailing : Bool) (r : Round)
    → Leaves fuel r
    → ((b s : Bytes) → length s ≤ fuel → Ends (multiline_loop fuel quote trailing b s))
    → Ends
        (elim r [ next b _ rest ↦ multiline_loop fuel quote trailing b rest | refused ↦ invalid ])
after_round-Ends fuel quote trailing (next b p rest) k later = later b rest k
after_round-Ends fuel quote trailing refused k later = tt

pub multiline_loop-Ends :
    (fuel quote : ℕ) (trailing : Bool) (b s : Bytes)
    → length s ≤ fuel
    → Ends (multiline_loop fuel quote trailing b s)
unfolding multiline_loop
multiline_loop-Ends zero quote trailing b [] h = tt
multiline_loop-Ends (suc fuel) quote trailing b [] h = tt
multiline_loop-Ends zero quote trailing b (c ∷ s) h = absurd (omega arith)
multiline_loop-Ends (suc fuel) quote trailing b (c ∷ s) h =
    after_round-Ends fuel quote trailing _
      (Leaves-weaken (length s) fuel _ (omega arith) (multiline_step-Leaves quote c trailing b s))
      (multiline_loop-Ends fuel quote trailing)
