-- ===== src/Document/QuoteUnquote/Controls.antt =====
-- document/strings.go: what `UnquoteString` makes of the escape of a control character.
use gokdl.Base.{
  ℕ, zero, suc, ◌-◌, ◌/◌, ◌%◌, ◌<◌, ◌≡◌, refl, ap, sym, ◌∙◌, Bool, true, false, not, ◌&&◌, ◌||◌, [],
  ◌∷◌, ◌++◌, Bytes, ◌==◌, leb, ltb, codes, arith, if◌then◌else◌, append_assoc, append-nil,
  Bool-cases, inl, inr,
}
use gokdl.Document.Quote.{
  Quoting, no_escape, escape_byte, quote_step, quote_byte, skip_byte, quote_loop, quote_string,
  append_quoted_string,
}
use gokdl.Document.QuoteUnquote.Text.{has_escape, at, scan_stops}
use gokdl.Document.QuoteUnquote.RoundTrip.{unquote_between}
use gokdl.Document.Unquote.{
  invalid, refused, unquote_step, read_escape, escape_switch, unicode_escape, unquote_loop,
  unquote_string,
}
use gokdl.Go.Strconv.{format_uint, format_in, digit}
use gokdl.Go.Utf8.{decode_rune, rune_error}

-- A control character with no escape of its own.
abbrev pub is_control : ℕ → Bool
is_control c = (ltb c 0x20 || c == 0x7F) && not (has_escape c)

-- A text that begins with something other than an opening brace.
record Braceless (s : Bytes) : Type 0 where
  first : ℕ
  rest : Bytes
  shape : s ≡ first ∷ rest
  brace : (first == b'{') ≡ false

Braceless-append : (s t : Bytes) → Braceless s → Braceless (s ++ t)
Braceless-append s t w = record {
  first = w.first;
  rest = w.rest ++ t;
  shape = ap (λ x. x ++ t) w.shape;
  brace = w.brace;
}

digit-Braceless : (d : ℕ) → d < 16 → Braceless (digit d)
unfolding digit
digit-Braceless d h = record { first = _; rest = []; shape = refl; brace = ground arith }

format_in-Braceless : (fuel n m : ℕ) → m < 16 → Braceless (format_in fuel n 16 ++ digit m)
unfolding format_in
format_in-Braceless zero n m h = digit-Braceless m h
format_in-Braceless (suc fuel) n m h = elim (Bool-cases (ltb n 16)) [
  | inl small ↦ rw small (Braceless-append (digit n) (digit m) (digit-Braceless n (ground arith)))
  | inr large ↦ rw large (
      Braceless-append (format_in fuel (n / 16) 16 ++ digit (n % 16)) (digit m)
        (format_in-Braceless fuel (n / 16) (n % 16) (omega arith)))
]

format_uint-Braceless : (n : ℕ) → Braceless (format_uint n 16)
unfolding format_uint format_in
format_uint-Braceless n = elim (Bool-cases (ltb n 16)) [
  | inl small ↦ rw small (digit-Braceless n (ground arith))
  | inr large ↦ rw large (format_in-Braceless n (n / 16) (n % 16) (omega arith))
]

unicode_escape-Braceless : (b s : Bytes) → Braceless s → unicode_escape b s ≡ refused
unfolding unicode_escape
unicode_escape-Braceless b s w = rw w.shape (ground (arith, w.brace))

-- What was written so far.
abbrev written : Quoting → Bytes
written q = q.out ++ q.pending

-- A round only adds to what was written.
abbrev Grows : Quoting → Quoting → Type 0
Grows q r = (x : Bytes) × (written r ≡ written q ++ x)

if-Grows :
    (q : Quoting) (b : Bool) (r t : Quoting) → Grows q r → Grows q t → Grows q (if b then r else t)
if-Grows q true r t h k = h
if-Grows q false r t h k = k

pending-Grows : (q : Quoting) (c k : ℕ) → Grows q (at q.out (q.pending ++ c ∷ []) k)
pending-Grows q c k = (c ∷ [], simp append_assoc)

flushed-Grows : (q : Quoting) (e : Bytes) → Grows q (at (q.out ++ (q.pending ++ e)) [] 0)
flushed-Grows q e = (e, simp (append_assoc, append-nil))

quote_byte-Grows : (q : Quoting) (c k : ℕ) (s : Bytes) → Grows q (quote_byte b'"' q c s k)
unfolding quote_byte quote_step skip_byte
quote_byte-Grows q c zero s = if-Grows q (no_escape c) _ _ (pending-Grows q c q.skip) (
    if-Grows q (leb 0x80 c) _ _
      (if-Grows q ((decode_rune s).0 == rune_error && (decode_rune s).1 == 1) _ _
        (flushed-Grows q (codes "\\ufffd")) (pending-Grows q c ((decode_rune s).1 - 1)))
      (flushed-Grows q (escape_byte b'"' c)))
quote_byte-Grows q c (suc k) s = pending-Grows q c k

quote_loop-written :
    (s : Bytes) (q : Quoting) → (x : Bytes) × (quote_loop b'"' q s ≡ written q ++ x)
unfolding quote_loop
quote_loop-written [] q = ([], sym (append-nil (written q)))
quote_loop-written (c ∷ s) q =
    let (x, e) = quote_byte-Grows q c q.skip (c ∷ s) in
    let (y, f) = quote_loop-written s (quote_byte b'"' q c (c ∷ s) q.skip) in
    (x ++ y, f ∙ ap (λ w. w ++ y) e ∙ append_assoc (written q) x y)

quote_step-control :
    (c : ℕ) (s : Bytes)
    → is_control c ≡ true
    → quote_byte b'"' (at (b'"' ∷ []) [] 0) c s 0
      ≡ at (b'"' ∷ (codes "\\u" ++ format_uint c 16)) [] 0
unfolding quote_byte quote_step escape_byte no_escape
quote_step-control c s h = ground arith

no_escape-control : (c : ℕ) → is_control c ≡ true → no_escape c ≡ false
unfolding no_escape
no_escape-control c h = ground arith

-- The escape has no braces.
quote_string-control :
    (c : ℕ) (s : Bytes)
    → is_control c ≡ true
    → (x : Bytes) × (quote_string (c ∷ s)
        ≡ b'"' ∷ ((b'\\' ∷ b'u' ∷ (format_uint c 16 ++ x)) ++ b'"' ∷ []))
unfolding quote_string append_quoted_string quote_loop
quote_string-control c s h =
    let (x, e) = quote_loop-written s (at (b'"' ∷ (codes "\\u" ++ format_uint c 16)) [] 0) in
    (
      x,
      scan_stops (b'"' ∷ []) [] c s (no_escape-control c h)
          ∙ ap (λ q. quote_loop b'"' q s ++ b'"' ∷ []) (quote_step-control c (c ∷ s) h)
          ∙ ap (λ w. w ++ b'"' ∷ []) e
          ∙ simp (append_assoc, append-nil),
    )

unquote_step-control :
    (b s : Bytes) → Braceless s → unquote_step b'"' b [] b'\\' (b'u' ∷ s) ≡ refused
unfolding unquote_step read_escape escape_switch
unquote_step-control b s w = unicode_escape-Braceless (b ++ []) s w

loop_refused :
    (fuel c : ℕ) (b pending s : Bytes)
    → unquote_step b'"' b pending c s ≡ refused
    → unquote_loop (suc fuel) b'"' b pending (c ∷ s) ≡ invalid
unfolding unquote_loop
loop_refused fuel c b pending s e = rw (e, unquote_loop) refl

-- Where a text begins with a control character that has no escape of one letter, `UnquoteString`
-- refuses what `QuoteString` makes of the text.
pub unquote-quote_control :
    (c : ℕ) (s : Bytes) → is_control c ≡ true → unquote_string (quote_string (c ∷ s)) ≡ invalid
unquote-quote_control c s h =
    let (x, e) = quote_string-control c s h in
    ap unquote_string e
    ∙ unquote_between (b'\\' ∷ b'u' ∷ (format_uint c 16 ++ x))
    ∙ loop_refused _ b'\\' [] [] _ (
        unquote_step-control [] _ (Braceless-append (format_uint c 16) x (format_uint-Braceless c)))
