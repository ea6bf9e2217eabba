-- ===== src/Document/MultiLine/Totality.antt =====
-- document/strings.go: reading a multi-line string ends.
use gokdl.Base.{
  ℕ, zero, suc, ◌+◌, ◌-◌, ◌≤◌, ◌<◌, ◌≡◌, refl, Bool, true, false, not, ◌||◌, [], ◌∷◌, ◌++◌, Option,
  none, some, Bytes, length, take, drop, if◌then◌else◌, arith,
}
use gokdl.Document.MultiLine.{
  multiline_loop, append_unquoted_multiline_content, next_line, dedent_line, dedent_loop,
  dedent_multiline_content, parse_multiline_tail, parse_previous_line, tail_in_line,
  parse_multiline_closing_escape, body_of, strip_hashes, finish_token, unquote_multi_line_token,
  unquote_multi_line_string, unquote_multi_line_expression_string,
}
use gokdl.Document.MultiLine.Lines.{first_newline, last_newline, is_inline_whitespace_only}
use gokdl.Document.MultiLine.Result.{
  TextResult, text, failed, no_fuel, ◌>>=◌, from_unquoted, closing_line_content,
  insufficient_indentation, err_invalid,
}
use gokdl.Document.Unquote.{Unquoted, done, invalid, out_of_fuel}
use gokdl.Document.Unquote.Fuel.{Ends, length-drop}
use gokdl.Document.RawString.{hash_run}
use gokdl.Go.Strings.{has_prefix, has_suffix}
use gokdl.Document.MultiLine.Fuel.{multiline_loop-Ends}

-- A text or an error of the source.
abbrev pub Returns : {A : Type 0} → TextResult A → Type 0
Returns (text a) = Unit
Returns (failed e) = Unit
Returns no_fuel = ⊥

>>=-Returns :
    {A B : Type 0} (m : TextResult A) (f : A → TextResult B)
    → Returns m
    → ((a : A) → Returns (f a))
    → Returns (m >>= f)
>>=-Returns (text a) f h k = k a
>>=-Returns (failed e) f h k = tt
>>=-Returns no_fuel f h k = h

if-Returns :
    {A : Type 0} (b : Bool) (m n : TextResult A)
    → Returns m
    → Returns n
    → Returns (if b then m else n)
if-Returns true m n h k = h
if-Returns false m n h k = k

-- A line break has a byte at least.
first_newline-long : (s : Bytes) (i p l : ℕ) → first_newline s i ≡ some (p, l) → 0 < l
unfolding first_newline
first_newline-long [] i p l e = ground arith
first_newline-long (c ∷ s) i p l e = ground (arith, first_newline-long s (i + 1) p l)

after_newline : Bytes → Option (ℕ × ℕ) → Bytes × Bytes × Bytes
after_newline s o = elim o [
  | none ↦ (s, [], [])
  | some (i, len) ↦ (take i s, take len (drop i s), drop (i + len) s)
]

after_newline-shorter :
    (c : ℕ) (s : Bytes) (o : Option (ℕ × ℕ))
    → ((p l : ℕ) → o ≡ some (p, l) → 0 < l)
    → length (after_newline (c ∷ s) o).2 ≤ length s
unfolding after_newline
after_newline-shorter c s none h = omega arith
after_newline-shorter c s (some (p, l)) h = omega (arith, length-drop (p + l) (c ∷ s), h p l refl)

next_line-shorter : (c : ℕ) (s : Bytes) → length (next_line (c ∷ s)).2 ≤ length s
unfolding after_newline
next_line-shorter c s =
    after_newline-shorter c s (first_newline (c ∷ s) 0) (first_newline-long (c ∷ s) 0)

after_line-Returns :
    (o : Option Bytes) (f : Bytes → TextResult Bytes)
    → ((k : Bytes) → Returns (f k))
    → Returns (elim o [ none ↦ failed insufficient_indentation | some k ↦ f k ])
after_line-Returns none f h = tt
after_line-Returns (some k) f h = h k

dedent_loop-Returns :
    (fuel : ℕ) (continued : Bool) (indent out s : Bytes)
    → length s ≤ fuel
    → Returns (dedent_loop fuel continued indent out s)
unfolding dedent_loop
dedent_loop-Returns zero continued indent out [] h = tt
dedent_loop-Returns (suc fuel) continued indent out [] h = tt
dedent_loop-Returns zero continued indent out (c ∷ s) h = absurd (omega arith)
dedent_loop-Returns (suc fuel) continued indent out (c ∷ s) h =
    after_line-Returns (dedent_line continued indent (next_line (c ∷ s)).0) _ (λ k.
      dedent_loop-Returns fuel _ indent _ (next_line (c ∷ s)).2
        (omega (arith, next_line-shorter c s)))

tail_in_line-Returns : (a b c d : Bytes) → Returns (tail_in_line a b c d)
tail_in_line-Returns a b c d = ground arith

Option-Returns :
    {A B : Type 0} (o : Option A) (n : TextResult B) (f : A → TextResult B)
    → Returns n
    → ((a : A) → Returns (f a))
    → Returns (elim o [ none ↦ n | some a ↦ f a ])
Option-Returns none n f h k = h
Option-Returns (some a) n f h k = k a

parse_previous_line-Returns : (a b : Bytes) → Returns (parse_previous_line a b)
unfolding parse_previous_line
parse_previous_line-Returns a b =
    Option-Returns (last_newline a) _ _ (tail_in_line-Returns a b a [])
      (λ p. tail_in_line-Returns a b _ _)

parse_multiline_tail-Returns : (s : Bytes) → Returns (parse_multiline_tail s)
unfolding parse_multiline_tail
parse_multiline_tail-Returns s =
    Option-Returns (last_newline s) _ _
      (Option-Returns (parse_multiline_closing_escape s) _ _ tt (λ i. tt))
      (λ p.
        Option-Returns (parse_multiline_closing_escape (drop (p.0 + p.1) s)) _ _
          (if-Returns (not (is_inline_whitespace_only (drop (p.0 + p.1) s)))
            (failed closing_line_content) _ tt
            (parse_previous_line-Returns (take p.0 s) (drop (p.0 + p.1) s)))
          (λ i. tt))

body_of-Returns : (s delim : Bytes) → Returns (body_of s delim)
body_of-Returns s delim = ground arith

strip_hashes-Returns : (s delim : Bytes) (n : ℕ) → Returns (strip_hashes s delim n)
strip_hashes-Returns s delim zero = tt
strip_hashes-Returns s delim (suc n) =
    if-Returns
      (not (has_prefix (drop (suc n) s) delim) || not (has_suffix s (delim ++ hash_run (suc n))))
      (failed err_invalid) (text (take (length s - (suc n + suc n)) (drop (suc n) s))) tt tt

from_unquoted-Returns : (u : Unquoted) → Ends u → Returns (from_unquoted u)
from_unquoted-Returns (done b) h = tt
from_unquoted-Returns invalid h = tt
from_unquoted-Returns out_of_fuel h = h

finish_token-Returns :
    (n quote : ℕ) (escaped : Bool) (content : Bytes)
    → Returns (finish_token n quote escaped content)
unfolding append_unquoted_multiline_content
finish_token-Returns (suc n) quote escaped content = tt
finish_token-Returns zero quote escaped content =
    >>=-Returns (from_unquoted (multiline_loop (length content') quote escaped [] content')) _
      (from_unquoted-Returns _
        (multiline_loop-Ends (length content') quote escaped [] content' (omega arith)))
      (λ b. tt)
  where
    content' : Bytes
    content' = if escaped then content ++ b'\\' ∷ [] else content

unquote_multi_line_token-Returns :
    (s delim : Bytes) (quote : ℕ) (raw : Bool)
    → Returns (unquote_multi_line_token s delim quote raw)
unfolding unquote_multi_line_token dedent_multiline_content
unquote_multi_line_token-Returns s delim quote raw =
    >>=-Returns _ _ (strip_hashes-Returns s delim _) (λ token.
      >>=-Returns _ _ (body_of-Returns token delim) (λ body.
        >>=-Returns _ _ (parse_multiline_tail-Returns body) (λ tail.
          if-Returns (not (is_inline_whitespace_only tail.indent)) (failed closing_line_content) _
            tt
            (>>=-Returns _ _ (dedent_loop-Returns _ false tail.indent [] tail.content (omega arith))
              (λ dedented. finish_token-Returns _ quote tail.closing_escaped dedented)))))

first-Returns :
    (r : TextResult (Bytes × ℕ))
    → Returns r
    → Returns {A = Bytes} (◌>>=◌ {A = Bytes × ℕ} {B = Bytes} r (λ v. text v.0))
first-Returns (text v) h = tt
first-Returns (failed e) h = tt
first-Returns no_fuel h = h

-- `UnquoteMultiLineString` and `UnquoteMultiLineExpressionString` end on every byte string, with a
-- text or one of their errors.
pub unquote_multi_line_string-Returns :
    (s : Bytes)
    → Returns (unquote_multi_line_string s) × Returns (unquote_multi_line_expression_string s)
unfolding unquote_multi_line_string unquote_multi_line_expression_string
unquote_multi_line_string-Returns s = (
  unquote_multi_line_token-Returns s (b'"' ∷ b'"' ∷ b'"' ∷ []) b'"' true,
  first-Returns (unquote_multi_line_token s (b'`' ∷ b'`' ∷ b'`' ∷ []) b'`' false)
      (unquote_multi_line_token-Returns s (b'`' ∷ b'`' ∷ b'`' ∷ []) b'`' false),
)
