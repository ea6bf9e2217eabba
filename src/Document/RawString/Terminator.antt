-- ===== src/Document/RawString/Terminator.antt =====
-- document/strings.go and value.go: reading back a raw string, and the choice of its number of hashes.
use gokdl.Base.{
  ℕ, zero, suc, ◌+◌, ◌-◌, ◌≤◌, ◌<◌, ◌≡◌, refl, ◌⊎◌, inl, inr, true, false, [], ◌∷◌, ◌++◌, some,
  Bytes, length, take, drop, length-append, length-replicate, take-append, Bool-cases, arith, ap,
  ltb, sym, ◌∙◌,
}
use gokdl.Document.RawString.{
  hash_run, find_hashes, hashes_for, append_raw_string, append_raw_string_v2, enclose, index_quote,
  raw_text, without_closing, unquote_raw_token_string, hash_count, triple,
}
use gokdl.Go.Strings.{contains, has_prefix}

index_quote-hash_run : (n : ℕ) (s : Bytes) → index_quote (hash_run n ++ b'"' ∷ s) ≡ some n
unfolding index_quote
index_quote-hash_run zero s = refl
index_quote-hash_run (suc n) s = rw (index_quote-hash_run n s)

index_quote_r : (s : Bytes) {p : ℕ} → index_quote s ≡ some p → index_quote (b'r' ∷ s) ≡ some (suc p)
unfolding index_quote
index_quote_r s e = rw (e, index_quote)

drop-hash_run : (n : ℕ) (s : Bytes) → drop (suc n) (hash_run n ++ b'"' ∷ s) ≡ s
drop-hash_run zero s = refl
drop-hash_run (suc n) s = drop-hash_run n s

-- What is left of the text behind the opening quote, without the closing quote and its hashes.
content_of :
    (s : Bytes) (n : ℕ)
    → take (length (s ++ b'"' ∷ hash_run n) - 1 - n) (s ++ b'"' ∷ hash_run n) ≡ s
content_of s n =
    take-append s (b'"' ∷ hash_run n) _
      (omega (arith, length-append s (b'"' ∷ hash_run n), length-replicate {A = ℕ} n b'#'))

-- The raw string from its opening quote.
abbrev from_quote : Bytes → ℕ → Bytes
from_quote s n = s ++ b'"' ∷ hash_run n

closing_left : (s : Bytes) (n : ℕ) → ltb (length (s ++ b'"' ∷ hash_run n)) (1 + n) ≡ false
closing_left s n =
    ground (arith, length-append s (b'"' ∷ hash_run n), length-replicate {A = ℕ} n b'#')

unquote_at :
    (b : Bytes) (p n : ℕ) (rest : Bytes)
    → index_quote b ≡ some p
    → hash_count b p ≡ n
    → drop (suc p) b ≡ rest
    → ltb (length rest) (1 + n) ≡ false
    → unquote_raw_token_string b ≡ raw_text (take (length rest - 1 - n) rest) n
unfolding unquote_raw_token_string without_closing
unquote_at b p n rest i h d l = rw (i, unquote_raw_token_string) (rw (h, d, l))

hash_count-hash_run : (n : ℕ) (s : Bytes) → hash_count (hash_run n ++ s) n ≡ n
hash_count-hash_run zero s = refl
hash_count-hash_run (suc n) s = refl

-- A raw string with a given number of hashes is read back, the text and the number, whatever they are:
-- first in KDL v1's notation, then in v2's.
pub unquote-append_raw_string :
    (s : Bytes) (n : ℕ)
    → (unquote_raw_token_string (append_raw_string [] s (some n)) ≡ raw_text s n)
      × (unquote_raw_token_string (append_raw_string_v2 [] s (some n)) ≡ raw_text s n)
unfolding append_raw_string append_raw_string_v2
unquote-append_raw_string s n = (
  unquote_at (b'r' ∷ enclose s n (b'"' ∷ [])) (suc n) n (from_quote s n)
        (index_quote_r _ (index_quote-hash_run n (from_quote s n))) refl
        (drop-hash_run n (from_quote s n)) (closing_left s n)
      ∙ ap (λ t. raw_text t n) (content_of s n),
  unquote_at (enclose s n (b'"' ∷ [])) n n (from_quote s n)
        (index_quote-hash_run n (from_quote s n)) (hash_count-hash_run n _)
        (drop-hash_run n (from_quote s n)) (closing_left s n)
      ∙ ap (λ t. raw_text t n) (content_of s n),
)

has_prefix-le : (s p : Bytes) → has_prefix s p ≡ true → length p ≤ length s
unfolding has_prefix
has_prefix-le s [] h = omega arith
has_prefix-le [] (p ∷ ps) h = cc
has_prefix-le (c ∷ s) (p ∷ ps) h = ground (arith, has_prefix-le s ps)

contains-le : (s p : Bytes) → contains s p ≡ true → length p ≤ length s
unfolding contains
contains-le [] p h = has_prefix-le [] p h
contains-le (c ∷ s) p h = ground (arith, has_prefix-le (c ∷ s) p, contains-le s p)

has_prefix-append : (s p q : Bytes) → has_prefix s (p ++ q) ≡ true → has_prefix s p ≡ true
unfolding has_prefix
has_prefix-append s [] q h = refl
has_prefix-append [] (p ∷ ps) q h = cc
has_prefix-append (c ∷ s) (p ∷ ps) q h = ground (arith, has_prefix-append s ps q)

contains-append : (s p q : Bytes) → contains s (p ++ q) ≡ true → contains s p ≡ true
unfolding contains
contains-append [] p q h = has_prefix-append [] p q h
contains-append (c ∷ s) p q h = ground (arith, has_prefix-append (c ∷ s) p q, contains-append s p q)

compare_le : (n k : ℕ) → n ≤ k → (n ≡ k) ⊎ (suc n ≤ k)
compare_le n k l = omega arith

-- The number found: its terminator does not occur, and that of every smaller number tried does.
record Found (delim s : Bytes) (n m : ℕ) : Type 0 where
  at_least : n ≤ m
  absent : contains s (delim ++ hash_run m) ≡ false
  smaller : (k : ℕ) → n ≤ k → k < m → contains s (delim ++ hash_run k) ≡ true

find_hashes-Found :
    (fuel : ℕ) (delim s : Bytes) (n : ℕ)
    → length s < length delim + (fuel + n)
    → (m : ℕ) × (find_hashes fuel delim s n ≡ some m) × Found delim s n m
unfolding find_hashes
find_hashes-Found zero delim s n h = elim (Bool-cases (contains s (delim ++ hash_run n))) [
  | inl there ↦ absurd (
      omega (
        arith,
        contains-le s (delim ++ hash_run n) there,
        length-append delim (hash_run n),
        length-replicate {A = ℕ} n b'#',
      ))
  | inr absent ↦ (
    n,
    rw absent,
    record { at_least = omega arith; absent = absent; smaller = λ k l m. absurd (omega arith) },
  )
]
find_hashes-Found (suc fuel) delim s n h = elim (Bool-cases (contains s (delim ++ hash_run n))) [
  | inl there ↦
      let (m, e, f) = find_hashes-Found fuel delim s (suc n) (omega arith) in
      (
        m,
        rw there e,
        record {
          at_least = omega (arith, f.at_least);
          absent = f.absent;
          smaller = λ k l u. earlier delim s n m there f.smaller k l u;
        },
      )
  | inr absent ↦ (
    n,
    rw absent,
    record { at_least = omega arith; absent = absent; smaller = λ k l m. absurd (omega arith) },
  )
]
  where
    earlier :
        (delim s : Bytes) (n m : ℕ)
        → contains s (delim ++ hash_run n) ≡ true
        → ((k : ℕ) → suc n ≤ k → k < m → contains s (delim ++ hash_run k) ≡ true)
        → (k : ℕ) → n ≤ k
        → k < m
        → contains s (delim ++ hash_run k) ≡ true
    earlier delim s n m there later k l u = elim (compare_le n k l) [
      | inl e ↦ rw (← e) there
      | inr lt ↦ later k lt u
    ]

-- The automatic number of hashes always exists, and is one more than the number written; the written
-- terminator occurs in the text exactly if a quote does.
pub hashes_for-quote :
    (s : Bytes)
    → (h : ℕ) × (hashes_for (b'"' ∷ []) s ≡ some (suc h))
      × (contains s (b'"' ∷ hash_run h) ≡ contains s (b'"' ∷ []))
unfolding hashes_for
hashes_for-quote s =
    let (m, e, f) = find_hashes-Found (length s) (b'"' ∷ []) s 1 (omega arith) in written m e f
  where
    written :
        (m : ℕ)
        → find_hashes (length s) (b'"' ∷ []) s 1 ≡ some m
        → Found (b'"' ∷ []) s 1 m
        → (h : ℕ) × (find_hashes (length s) (b'"' ∷ []) s 1 ≡ some (suc h))
          × (contains s (b'"' ∷ hash_run h) ≡ contains s (b'"' ∷ []))
    written zero e f = absurd (omega (arith, f.at_least))
    written (suc zero) e f = (zero, e, refl)
    written (suc (suc h)) e f =
        let occurs = f.smaller (suc h) (omega arith) (omega arith) in
        (suc h, e, occurs ∙ sym (contains-append s (b'"' ∷ []) (hash_run (suc h)) occurs))

-- A text of several lines gets a number of hashes whose terminator does not occur in it.
pub hashes_for-triple :
    (s : Bytes)
    → (h : ℕ) × (hashes_for triple s ≡ some h) × (contains s (triple ++ hash_run h) ≡ false)
unfolding hashes_for
hashes_for-triple s =
    let (m, e, f) = find_hashes-Found (length s) triple s 1 (omega arith) in (m, e, f.absent)
