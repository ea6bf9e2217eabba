-- ===== src/Tokenizer/Scanner/Ascii.antt =====
-- document/strings.go and unicode/utf8: the quoted form of ASCII is ASCII, a rune of one byte each.
use gokdl.Base.{
  ℕ, ◌≡◌, refl, sym, ap, ◌∙◌, inl, inr, Bool, Bool-cases, true, false, ◌&&◌, ◌||◌, List, [], ◌∷◌,
  ◌++◌, Bytes, ◌==◌, ltb, arith,
}
use gokdl.Document.Quote.{no_escape}
use gokdl.Document.QuoteUnquote.Text.{has_escape, escape_letter, piece, Text, escaped}
use gokdl.Go.Utf8.{decode_rune}
use gokdl.Tokenizer.Input.{Rune, rune, decode_from, decode, bytes_of}
use gokdl.Tokenizer.Input.Consumed.{prepend}

-- Texts of ASCII characters that need no escape or have one of a letter.
pub data Ascii : Bytes → Type 0 where
  nil : Ascii []
  next : {s : Bytes} (c : ℕ) → (no_escape c || has_escape c) ≡ true → Ascii s → Ascii (c ∷ s)

abbrev pub text_of : {s : Bytes} → Ascii s → Text s
text_of nil = Text.nil
text_of (next c h x) = Text.ascii c h (text_of x)

pub decode-ascii :
    (c : ℕ) (s : Bytes) → ltb c 0x80 ≡ true → decode (c ∷ s) ≡ rune c (c ∷ []) (decode s)
unfolding decode decode_from decode_rune
decode-ascii c s h = let e : (c == 0xFFFD) ≡ false = ground (arith, h) in rw (h, e) refl

pub no_escape-ascii : (c : ℕ) → no_escape c ≡ true → ltb c 0x80 ≡ true
unfolding no_escape
no_escape-ascii c h = ground arith

pub escape_letter-ascii : (c : ℕ) → has_escape c ≡ true → ltb (escape_letter c) 0x80 ≡ true
escape_letter-ascii c h = ground arith

pub escape_of :
    (c : ℕ) → no_escape c ≡ false → (no_escape c || has_escape c) ≡ true → has_escape c ≡ true
escape_of c e h = sym (ap (λ b. b || has_escape c) e) ∙ h

-- The bytes of ASCII, and their runes.
abbrev pub all_ascii : Bytes → Bool
all_ascii [] = true
all_ascii (c ∷ s) = ltb c 0x80 && all_ascii s

abbrev pub singles : Bytes → List Rune
singles [] = []
singles (c ∷ s) = record { code = c; bytes = c ∷ [] } ∷ singles s

pub bytes_of-singles : (s : Bytes) → bytes_of (singles s) ≡ s
bytes_of-singles [] = refl
bytes_of-singles (c ∷ s) = ap (◌∷◌ c) (bytes_of-singles s)

all_ascii-head : (c : ℕ) (s : Bytes) → all_ascii (c ∷ s) ≡ true → ltb c 0x80 ≡ true
all_ascii-head c s h = ground (arith, h)

all_ascii-tail : (c : ℕ) (s : Bytes) → all_ascii (c ∷ s) ≡ true → all_ascii s ≡ true
all_ascii-tail c s h = ground (arith, h)

pub all_ascii-append :
    (s w : Bytes) → all_ascii s ≡ true → all_ascii w ≡ true → all_ascii (s ++ w) ≡ true
all_ascii-append [] w h k = k
all_ascii-append (c ∷ s) w h k =
    ap (λ b. b && all_ascii (s ++ w)) (all_ascii-head c s h)
    ∙ all_ascii-append s w (all_ascii-tail c s h) k

pub decode-all_ascii :
    (s w : Bytes) → all_ascii s ≡ true → decode (s ++ w) ≡ prepend (singles s) (decode w)
decode-all_ascii [] w h = refl
decode-all_ascii (c ∷ s) w h =
    decode-ascii c (s ++ w) (all_ascii-head c s h)
    ∙ ap (rune c (c ∷ [])) (decode-all_ascii s w (all_ascii-tail c s h))

all_ascii-piece : (c : ℕ) → (no_escape c || has_escape c) ≡ true → all_ascii (piece c) ≡ true
all_ascii-piece c h = elim (Bool-cases (no_escape c)) [
  | inl e ↦ rw e (ap (λ b. b && true) (no_escape-ascii c e))
  | inr e ↦ rw e (ap (λ b. b && true) (escape_letter-ascii c (escape_of c e h)))
]

pub all_ascii-escaped : {s : Bytes} (x : Ascii s) → all_ascii (escaped (text_of x)) ≡ true
unfolding escaped
all_ascii-escaped nil = refl
all_ascii-escaped (next c h x) =
    all_ascii-append (piece c) _ (all_ascii-piece c h) (all_ascii-escaped x)
