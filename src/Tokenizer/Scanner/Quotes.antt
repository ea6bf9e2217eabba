-- ===== src/Tokenizer/Scanner/Quotes.antt =====
-- internal/tokenizer/scanner.go with document/strings.go: the scanner reads what `QuoteString` writes as
-- one token.
use gokdl.Base.{
  ℕ, suc, ◌+◌, ◌≤◌, ◌≡◌, refl, sym, ap, ◌∙◌, inl, inr, Bool-cases, true, false, ◌||◌, [], ◌∷◌, ◌++◌,
  append_assoc, Option, none, some, Bytes, ltb, length, length-append, arith,
}
use gokdl.Document.Quote.{no_escape, quote_string}
use gokdl.Document.QuoteUnquote.Text.{has_escape, escape_letter, piece, escaped}
use gokdl.Document.QuoteUnquote.RoundTrip.{quote_string-escaped, unquote-quote}
use gokdl.Tokenizer.CType.{is_white_space, is_newline, is_digit}
use gokdl.Tokenizer.Input.{Input, finish, broken, rune, decode, copy_from_mark, Read, got}
use gokdl.Tokenizer.Input.Consumed.{copy_from_mark-prepend}
use gokdl.Tokenizer.Readers.Quoted.{Quoted, quoted_switch, quoted_rune, read_quoted_string_q}
use gokdl.Tokenizer.Readers.While.{end_while, while_from, read_while_state, bytes_only}
use gokdl.Document.Unquote.{unquote_string, done}
use gokdl.Tokenizer.Readers.Identifier.{with_kind, read_identifier, identifier_switch}
use gokdl.Tokenizer.Scanner.Next.{token_switch, read_visible, read_default}
use gokdl.Tokenizer.Scanner.State.{Scanner}
use gokdl.Tokenizer.Scanner.Ascii.{
  Ascii, nil, next, text_of, decode-ascii, no_escape-ascii, escape_letter-ascii, escape_of,
  all_ascii, singles, bytes_of-singles, all_ascii-append, decode-all_ascii, all_ascii-escaped,
}
use gokdl.Tokenizer.Takes.Next.{IsBroken}
use gokdl.Tokenizer.Token.{TokenId, Version, is_v2}

-- Where the loop of `readWhile` ends.
end_while-at :
    {S : Type 0} (n : ℕ) (start t : Input) (c : ℕ) (s : S) (literal : Bytes)
    → copy_from_mark start t ≡ literal
    → ltb (length literal) n ≡ false
    → bytes_only (end_while n start t c true s) ≡ got literal t
unfolding end_while
end_while-at n start t c s literal e h = rw (e, h) refl

-- In the string, in front of a character; and behind a backslash.
abbrev inside : Quoted
inside = record { escaped = false; folding = false; done = false; first = false }

abbrev behind_backslash : Quoted
behind_backslash = record { escaped = true; folding = false; done = false; first = false }

quoted_rune-plain :
    (v : Version) (c : ℕ) (t : Input)
    → no_escape c ≡ true
    → quoted_rune b'"' v inside c t ≡ some inside
unfolding quoted_rune quoted_switch no_escape
quoted_rune-plain v c t h = ground arith

quoted_rune-backslash :
    (v : Version) (t : Input)
    → is_v2 v ≡ false
    → quoted_rune b'"' v inside b'\\' t ≡ some behind_backslash
unfolding quoted_rune quoted_switch
quoted_rune-backslash v t h = rw h refl

quoted_rune-letter :
    (v : Version) (c : ℕ) (t : Input)
    → is_v2 v ≡ false
    → has_escape c ≡ true
    → quoted_rune b'"' v behind_backslash (escape_letter c) t ≡ some inside
unfolding quoted_rune quoted_switch
quoted_rune-letter v c t e h = ground arith

-- A step of the loop of `readWhile`.
while_from-step :
    {S : Type 0} (f : S → ℕ → Input → Option S) (n : ℕ) (start : Input) (s s' : S) (c : ℕ)
    (b : Bytes) (t : Input)
    → f s c t ≡ some s'
    → while_from f n start true s (rune c b t) ≡ while_from f n start true s' t
unfolding while_from
while_from-step f n start s s' c b t e =
    ap
      (λ o. elim o [
        | some s' ↦ while_from f n start true s' t
        | none ↦ end_while n start (rune c b t) c true s
      ])
      e

module _ (v : Version) (old : is_v2 v ≡ false) (start : Input) where
  abbrev loop : Quoted → Input → Read (Quoted × Bytes)
  loop s t = while_from (quoted_rune b'"' v) 2 start true s t

  loop-rune :
      (q q' : Quoted) (c : ℕ) (s : Bytes)
      → ltb c 0x80 ≡ true
      → quoted_rune b'"' v q c (decode s) ≡ some q'
      → loop q (decode (c ∷ s)) ≡ loop q' (decode s)
  loop-rune q q' c s l e =
      ap (loop q) (decode-ascii c s l)
      ∙ while_from-step (quoted_rune b'"' v) 2 start q q' c (c ∷ []) (decode s) e

  loop-piece :
      (c : ℕ) (s : Bytes)
      → (no_escape c || has_escape c) ≡ true
      → loop inside (decode (piece c ++ s)) ≡ loop inside (decode s)
  loop-piece c s h = elim (Bool-cases (no_escape c)) [
    | inl e ↦
        rw e
          (loop-rune inside inside c s (no_escape-ascii c e) (quoted_rune-plain v c (decode s) e))
    | inr e ↦ rw e (
        loop-rune inside behind_backslash b'\\' (escape_letter c ∷ s) refl
          (quoted_rune-backslash v _ old)
        ∙ loop-rune behind_backslash inside (escape_letter c) s
            (escape_letter-ascii c (escape_of c e h))
            (quoted_rune-letter v c (decode s) old (escape_of c e h)))
  ]

  loop-escaped :
      {w : Bytes} (x : Ascii w) (s : Bytes)
      → loop inside (decode (escaped (text_of x) ++ s)) ≡ loop inside (decode s)
  unfolding escaped
  loop-escaped nil s = refl
  loop-escaped (next c h x) s =
      ap (λ b. loop inside (decode b)) (append_assoc (piece c) (escaped (text_of x)) s)
      ∙ loop-piece c (escaped (text_of x) ++ s) h
      ∙ loop-escaped x s

  abbrev behind_quote : Quoted
  behind_quote = record inside { done = true }

  -- Behind the closing quote, the loop ends before the next rune.
  loop-done :
      (t : Input)
      → ¬ IsBroken t
      → ltb (length (copy_from_mark start t)) 2 ≡ false
      → bytes_only (loop behind_quote t) ≡ got (copy_from_mark start t) t
  unfolding while_from quoted_rune
  loop-done finish h l = end_while-at 2 start finish 0 behind_quote _ refl l
  loop-done (broken b) h l = absurd (h tt)
  loop-done (rune c b t) h l = end_while-at 2 start (rune c b t) c behind_quote _ refl l

module _ (v : Version) (old : is_v2 v ≡ false) {w : Bytes} (x : Ascii w) (rest : Bytes) where
  -- What `QuoteString` writes, in front of the rest.
  abbrev quoted : Bytes
  quoted = b'"' ∷ (escaped (text_of x) ++ b'"' ∷ [])

  abbrev start : Input
  start = rune b'"' (b'"' ∷ []) (decode ((escaped (text_of x) ++ b'"' ∷ []) ++ rest))

  decode-quoted : decode (quoted ++ rest) ≡ start
  decode-quoted = decode-ascii b'"' ((escaped (text_of x) ++ b'"' ∷ []) ++ rest) refl

  quoted-ascii : all_ascii quoted ≡ true
  quoted-ascii = all_ascii-append (escaped (text_of x)) (b'"' ∷ []) (all_ascii-escaped x) refl

  copy-quoted : copy_from_mark start (decode rest) ≡ quoted
  copy-quoted =
      copy_from_mark-prepend start (decode rest) (singles quoted)
        (sym decode-quoted ∙ decode-all_ascii quoted rest quoted-ascii)
      ∙ bytes_of-singles quoted

  copy-long : ltb (length (copy_from_mark start (decode rest))) 2 ≡ false
  copy-long =
      ap (λ b. ltb (length b) 2) copy-quoted
      ∙ long_enough (length (escaped (text_of x)) + 1) _
          (length-append (escaped (text_of x)) (b'"' ∷ [])) (omega arith)
    where
      long_enough : (m n : ℕ) → n ≡ m → 1 ≤ m → ltb (suc n) 2 ≡ false
      long_enough m n e h = ground arith

  -- The loop, from behind the opening quote.
  loop-quoted :
      ¬ IsBroken (decode rest)
      → bytes_only (loop v old start inside (decode ((escaped (text_of x) ++ b'"' ∷ []) ++ rest)))
        ≡ got quoted (decode rest)
  unfolding quoted_rune quoted_switch
  loop-quoted h =
      ap (λ b. bytes_only (loop v old start inside (decode b)))
        (append_assoc (escaped (text_of x)) (b'"' ∷ []) rest)
      ∙ ap bytes_only (loop-escaped v old start x (b'"' ∷ rest))
      ∙ ap bytes_only (loop-rune v old start inside (behind_quote v old start) b'"' rest refl refl)
      ∙ loop-done v old start (decode rest) h copy-long
      ∙ ap (λ b. got b (decode rest)) copy-quoted

  at_start :
      read_quoted_string_q b'"' v start
      ≡ bytes_only (loop v old start inside (decode ((escaped (text_of x) ++ b'"' ∷ []) ++ rest)))
  unfolding read_quoted_string_q read_while_state while_from quoted_rune
  at_start = refl

  -- In KDL v1, the scanner reads what `QuoteString` writes for a text of ASCII characters that need no
  -- escape or have one of a letter, in front of the end or of a rune, as one quoted string with all of it.
  pub read_quoted_string_q-quote :
      ¬ IsBroken (decode rest)
      → read_quoted_string_q b'"' v (decode (quote_string w ++ rest))
        ≡ got (quote_string w) (decode rest)
  read_quoted_string_q-quote h =
      let e = quote_string-escaped (text_of x) in
      ap (λ b. read_quoted_string_q b'"' v (decode (b ++ rest))) e
      ∙ ap (read_quoted_string_q b'"' v) decode-quoted
      ∙ at_start
      ∙ loop-quoted h
      ∙ ap (λ b. got b (decode rest)) (sym e)

-- A quote begins a string, whatever the flags.
token_switch-at_quote :
    (s : Scanner) (b : Bytes) (t : Input)
    → is_v2 s.version ≡ false
    → token_switch s (rune b'"' b t)
      ≡ with_kind TokenId.quoted_string (read_quoted_string_q b'"' s.version (rune b'"' b t))
unfolding token_switch read_visible read_default read_identifier identifier_switch is_white_space
    is_newline is_digit
token_switch-at_quote s b t old = rw old refl

-- From text to text: what `QuoteString` writes for a text of ASCII characters that need no escape or have
-- one of a letter, in front of the end or of a rune, is one quoted string for the scanner of KDL v1, with
-- any flags; its content is all that was written, and `UnquoteString` gives the text back from it.
pub token_switch-quote :
    (s : Scanner) {w : Bytes} (rest : Bytes)
    → is_v2 s.version ≡ false
    → Ascii w
    → ¬ IsBroken (decode rest)
    → (token_switch s (decode (quote_string w ++ rest))
        ≡ got (TokenId.quoted_string, quote_string w) (decode rest))
      × (unquote_string (quote_string w) ≡ done w)
token_switch-quote s {w} rest old x h =
    let e = quote_string-escaped (text_of x) in
    let start = ap (λ b. decode (b ++ rest)) e ∙ decode-quoted s.version old x rest in
    (
      ap (token_switch s) start
          ∙ token_switch-at_quote s _ _ old
          ∙ ap (λ t. with_kind TokenId.quoted_string (read_quoted_string_q b'"' s.version t))
              (sym start)
          ∙ ap (with_kind TokenId.quoted_string)
              (read_quoted_string_q-quote s.version old x rest h),
      unquote-quote (text_of x),
    )
