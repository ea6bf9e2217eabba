-- ===== src/Parser/Recent/Window.antt =====
-- internal/parser/recent.go: the ring as a sliding window over the tokens.
use gokdl.Base.{
  ℕ, suc, ◌≡◌, refl, sym, ap, ◌∙◌, append-nil, List, [], ◌∷◌, ◌++◌, length, take, drop, replicate,
  if◌then◌else◌,
}
use gokdl.Parser.Recent.{RecentTokens, no_tokens, recent_tokens_count, add, get}
use gokdl.Tokenizer.Token.{Token, valid, cleared}

-- The slots from the oldest to the newest.
abbrev pub window : RecentTokens → List Token
window r = drop (suc r.head) r.tokens ++ take (suc r.head) r.tokens

abbrev pub only_valid : List Token → List Token
only_valid [] = []
only_valid (t ∷ ts) = let rest = only_valid ts in if valid t then t ∷ rest else rest

abbrev pub add_each : List Token → RecentTokens → RecentTokens
add_each [] r = r
add_each (t ∷ ts) r = add_each ts (add r t)

abbrev slots : (a b c d e : Token) → ℕ → RecentTokens
slots a b c d e h = record { tokens = a ∷ b ∷ c ∷ d ∷ e ∷ []; head = h }

-- Five slots, and a head among them.
data IsRing : RecentTokens → Type 0 where
  head0 : (a b c d e : Token) → IsRing (slots a b c d e 0)
  head1 : (a b c d e : Token) → IsRing (slots a b c d e 1)
  head2 : (a b c d e : Token) → IsRing (slots a b c d e 2)
  head3 : (a b c d e : Token) → IsRing (slots a b c d e 3)
  head4 : (a b c d e : Token) → IsRing (slots a b c d e 4)

get-window : (r : RecentTokens) → IsRing r → get r ≡ only_valid (window r)
unfolding get
get-window _ (head0 a b c d e) = refl
get-window _ (head1 a b c d e) = refl
get-window _ (head2 a b c d e) = refl
get-window _ (head3 a b c d e) = refl
get-window _ (head4 a b c d e) = refl

get-slide :
    (ts : List Token) (r : RecentTokens)
    → IsRing r
    → get (add_each ts r) ≡ only_valid (drop (length ts) (window r ++ ts))
unfolding add
get-slide [] r i = get-window r i ∙ ap only_valid (sym (append-nil (window r)))
get-slide (t ∷ ts) _ (head0 a b c d e) = get-slide ts _ (head1 a t c d e)
get-slide (t ∷ ts) _ (head1 a b c d e) = get-slide ts _ (head2 a b t d e)
get-slide (t ∷ ts) _ (head2 a b c d e) = get-slide ts _ (head3 a b c t e)
get-slide (t ∷ ts) _ (head3 a b c d e) = get-slide ts _ (head4 a b c d t)
get-slide (t ∷ ts) _ (head4 a b c d e) = get-slide ts _ (head0 t b c d e)

-- After any tokens were added to the zero value, `Get` gives those of the last five that are valid,
-- the oldest first.
pub get-add_each :
    (ts : List Token)
    → get (add_each ts no_tokens)
      ≡ only_valid (drop (length ts) (replicate recent_tokens_count cleared ++ ts))
get-add_each ts = get-slide ts no_tokens (head0 cleared cleared cleared cleared cleared)
