-- ===== src/Document/QuoteUnquote/Text.antt =====
-- The texts whose quoted form is read back: ASCII that has an escape of one letter or needs none, and
-- the multi-byte runes of UTF-8.
use gokdl.Base.{
  ℕ, suc, ◌≤◌, ◌<◌, ◌≡◌, refl, Bool, true, false, ◌||◌, [], ◌∷◌, ◌++◌, Bytes, ◌==◌, one_of, length,
  arith, if◌then◌else◌, Bool-cases, inl, inr, append_assoc, append-nil, ◌∙◌, ap,
}
use gokdl.Document.Quote.{
  Quoting, no_escape, escape_byte, quote_step, quote_byte, skip_byte, quote_loop, quote_scan,
}
use gokdl.Go.Utf8.{decode_rune}

-- The characters with an escape of one letter, beside the quote.
abbrev pub has_escape : ℕ → Bool
has_escape = one_of (b'"' ∷ b'\\' ∷ b'\n' ∷ b'\r' ∷ b'\t' ∷ 8 ∷ 12 ∷ [])

-- A rune of two bytes at least, whatever follows it.
pub record IsRune (a : ℕ) (t : Bytes) : Type 0 where
  pub high : 0x80 ≤ a
  pub long : 0 < length t
  pub value : ℕ
  pub decodes : (rest : Bytes) → decode_rune (a ∷ (t ++ rest)) ≡ (value, suc (length t))

pub data Text : Bytes → Type 0 where
  nil : Text []
  ascii : {s : Bytes} (c : ℕ) → (no_escape c || has_escape c) ≡ true → Text s → Text (c ∷ s)
  rune : {s : Bytes} (a : ℕ) (t : Bytes) → IsRune a t → Text s → Text (a ∷ (t ++ s))

-- The letter of the escape.
abbrev pub escape_letter : ℕ → ℕ
escape_letter c =
    if c == b'\n'
    then b'n'
    else if c == b'\r'
    then b'r'
    else if c == b'\t'
    then b't'
    else if c == 8
    then b'b'
    else if c == 12
    then b'f'
    else c

abbrev pub piece : ℕ → Bytes
piece c = if no_escape c then c ∷ [] else b'\\' ∷ escape_letter c ∷ []

-- The text between the quotes.
unfoldable pub escaped : {s : Bytes} → Text s → Bytes
escaped nil = []
escaped (ascii c _ x) = piece c ++ escaped x
escaped (rune a t _ x) = a ∷ (t ++ escaped x)

escape_byte-letter :
    (c : ℕ) → has_escape c ≡ true → escape_byte b'"' c ≡ b'\\' ∷ escape_letter c ∷ []
unfolding escape_byte
escape_byte-letter c h = ground arith

abbrev pub at : Bytes → Bytes → ℕ → Quoting
at o p k = record { out = o; pending = p; skip = k }

quote_loop_skips :
    (t s out pending : Bytes)
    → quote_loop b'"' (at out pending (length t)) (t ++ s)
      ≡ quote_loop b'"' (at out (pending ++ t) 0) s
unfolding quote_loop quote_byte skip_byte
quote_loop_skips [] s out pending = rw append-nil
quote_loop_skips (c ∷ t) s out pending =
    quote_loop_skips t s out (pending ++ c ∷ []) ∙ rw append_assoc

plain_step :
    (c : ℕ) (s out pending : Bytes)
    → no_escape c ≡ true
    → quote_loop b'"' (at out pending 0) (c ∷ s) ≡ quote_loop b'"' (at out (pending ++ c ∷ []) 0) s
unfolding quote_loop quote_byte quote_step
plain_step c s out pending h = rw h

quote_step-escape :
    (c : ℕ) (s : Bytes) (q : Quoting)
    → no_escape c ≡ false
    → has_escape c ≡ true
    → quote_step b'"' q c s
      ≡ record { out = q.out ++ (q.pending ++ escape_byte b'"' c); pending = []; skip = 0 }
unfolding quote_step
quote_step-escape c s q n h = ground arith

escape_step :
    (c : ℕ) (s out pending : Bytes)
    → no_escape c ≡ false
    → has_escape c ≡ true
    → quote_loop b'"' (at out pending 0) (c ∷ s)
      ≡ quote_loop b'"' (at (out ++ (pending ++ b'\\' ∷ escape_letter c ∷ [])) [] 0) s
unfolding quote_loop quote_byte
escape_step c s out pending n h =
    ap (λ q. quote_loop b'"' q s) (quote_step-escape c (c ∷ s) (at out pending 0) n h)
    ∙ ap (λ e. quote_loop b'"' (at (out ++ (pending ++ e)) [] 0) s) (escape_byte-letter c h)

no_escape-high : (a : ℕ) → 0x80 ≤ a → no_escape a ≡ false
unfolding no_escape
no_escape-high a h = ground arith

quote_step-rune :
    (a : ℕ) (t s : Bytes) (q : Quoting)
    → IsRune a t
    → quote_step b'"' q a (a ∷ (t ++ s))
      ≡ record { out = q.out; pending = q.pending ++ a ∷ []; skip = length t }
unfolding quote_step
quote_step-rune a t s q r = rw (r.decodes s) (ground (arith, no_escape-high a r.high, r.long))

rune_step :
    (a : ℕ) (t s out pending : Bytes)
    → IsRune a t
    → quote_loop b'"' (at out pending 0) (a ∷ (t ++ s))
      ≡ quote_loop b'"' (at out (pending ++ a ∷ t) 0) s
unfolding quote_loop quote_byte
rune_step a t s out pending r =
    ap (λ q. quote_loop b'"' q (t ++ s)) (quote_step-rune a t s (at out pending 0) r)
    ∙ quote_loop_skips t s out (pending ++ a ∷ [])
    ∙ ap (λ p. quote_loop b'"' (at out p 0) s) (append_assoc pending (a ∷ []) t)

-- The inner loop appends the escaped text.
pub quote_loop-escaped :
    {s : Bytes} (x : Text s) (out pending : Bytes)
    → quote_loop b'"' (at out pending 0) s ≡ out ++ (pending ++ escaped x)
unfolding escaped
quote_loop-escaped nil out pending = unfold quote_loop in rw append-nil
quote_loop-escaped (ascii {s} c h x) out pending = elim (Bool-cases (no_escape c)) [
  | inl n ↦
      plain_step c s out pending n
      ∙ quote_loop-escaped x out (pending ++ c ∷ [])
      ∙ rw n (rw append_assoc)
  | inr n ↦
      escape_step c s out pending n (ground arith)
      ∙ quote_loop-escaped x _ []
      ∙ rw n (simp append_assoc)
]
quote_loop-escaped (rune {s} a t r x) out pending =
    rune_step a t s out pending r ∙ quote_loop-escaped x out (pending ++ a ∷ t) ∙ simp append_assoc

pub scan_stops :
    (b seen : Bytes) (c : ℕ) (s : Bytes)
    → no_escape c ≡ false
    → quote_scan b b'"' seen (c ∷ s) ≡ quote_loop b'"' (at b seen 0) (c ∷ s) ++ b'"' ∷ []
unfolding quote_scan
scan_stops b seen c s n = rw n

scan_plain :
    (b seen : Bytes) (c : ℕ) (s : Bytes)
    → no_escape c ≡ true
    → quote_scan b b'"' seen (c ∷ s) ≡ quote_scan b b'"' (seen ++ c ∷ []) s
unfolding quote_scan
scan_plain b seen c s n = rw n

-- So does the outer loop, with the closing quote.
pub quote_scan-escaped :
    {s : Bytes} (x : Text s) (b seen : Bytes)
    → quote_scan b b'"' seen s ≡ b ++ (seen ++ (escaped x ++ b'"' ∷ []))
unfolding escaped
quote_scan-escaped nil b seen = unfold quote_scan in refl
quote_scan-escaped (ascii {s} c h x) b seen = elim (Bool-cases (no_escape c)) [
  | inl n ↦
      scan_plain b seen c s n ∙ quote_scan-escaped x b (seen ++ c ∷ []) ∙ rw n (rw append_assoc)
  | inr n ↦
      scan_stops b seen c s n ∙ rw (quote_loop-escaped (ascii c h x) b seen) (simp append_assoc)
]
quote_scan-escaped (rune {s} a t r x) b seen =
    scan_stops b seen a (t ++ s) (no_escape-high a r.high)
    ∙ rw (quote_loop-escaped (rune a t r x) b seen) (simp append_assoc)
