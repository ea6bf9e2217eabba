-- ===== src/Tokenizer/Takes/Strings.antt =====
-- internal/tokenizer/readtype.go: what the readers of strings consume.
use gokdl.Base.{
  ℕ, zero, suc, ◌+◌, ◌<◌, refl, Bool, true, false, not, ◌&&◌, ◌||◌, ◌==◌, arith, if◌then◌else◌,
}
use gokdl.Tokenizer.CType.{is_newline}
use gokdl.Tokenizer.Input.{
  Input, finish, broken, rune, count, copy_from_mark, Read, get, skip, peek, peek_two, is_seen,
  or_unexpected_end, all_unexpected_end, ◌>>=◌,
}
use gokdl.Tokenizer.Input.Consumed.{
  Behind, Moves, Behind-refl, Behind-trans, Behind-weaken, Behind-rune, Moves-weaken, Behind-Moves,
  >>=-Moves, if-Moves, get-Moves, skip-Behind, count-Behind, or_unexpected_end-Moves,
  all_unexpected_end-Moves,
}
use gokdl.Tokenizer.Readers.Quoted.{read_quoted_string_q, quoted_rune, at_quote}
use gokdl.Tokenizer.Readers.Raw.{
  match_hashes, raw_content, read_raw_string_content, opening_hashes, read_raw_string,
}
use gokdl.Tokenizer.Readers.Triple.{
  opening_line, triple_content, get_three, read_triple, read_multi_line_string_raw_no_mark,
  read_multi_line_string, read_multi_line_expression_string,
}
use gokdl.Tokenizer.Takes.{Takes, itself, if-Takes, copy_from_mark-Takes, after-Takes}
use gokdl.Tokenizer.Takes.Loops.{read_while_state-Takes, bytes_only-Takes}
use gokdl.Tokenizer.Token.{Version, is_v2}

match_hashes-Behind : (n : ℕ) (t : Input) → Behind 0 t (match_hashes n t).1
unfolding match_hashes
match_hashes-Behind zero t = Behind-refl t
match_hashes-Behind (suc n) finish = Behind-refl finish
match_hashes-Behind (suc n) (broken b) = Behind-refl (broken b)
match_hashes-Behind (suc n) (rune c b t) =
    if-Behind (not (c == b'#')) (false, rune c b t) _ (Behind-refl _)
      (Behind-trans 0 0 _ _ _ (Behind-weaken 0 1 _ t (omega arith) (Behind-rune c b t))
        (match_hashes-Behind n t))
  where
    if-Behind :
        (test : Bool) (p q : Bool × Input)
        → Behind 0 (rune c b t) p.1
        → Behind 0 (rune c b t) q.1
        → Behind 0 (rune c b t) (if test then p else q).1
    if-Behind true p q h k = h
    if-Behind false p q h k = k

-- A rune, and what follows.
get-or_Moves :
    {B : Type 0} (m : ℕ) (t : Input) (f : ℕ → Input → Read B)
    → ((c : ℕ) (u : Input) → Behind 1 t u → Moves m u (f c u))
    → Moves (1 + m) t (or_unexpected_end (get t) >>= f)
get-or_Moves m t f h =
    >>=-Moves 1 m t (or_unexpected_end (get t)) f
      (or_unexpected_end-Moves 1 t (get t) (get-Moves t)) h

get-all_Moves :
    {B : Type 0} (m : ℕ) (t : Input) (f : ℕ → Input → Read B)
    → ((c : ℕ) (u : Input) → Behind 1 t u → Moves m u (f c u))
    → Moves (1 + m) t (all_unexpected_end (get t) >>= f)
get-all_Moves m t f h =
    >>=-Moves 1 m t (all_unexpected_end (get t)) f
      (all_unexpected_end-Moves 1 t (get t) (get-Moves t)) h

raw_content-Moves :
    (fuel hash_count : ℕ) (v : Version) (t : Input)
    → count t < fuel
    → Moves 1 t (raw_content fuel hash_count v t)
unfolding raw_content
raw_content-Moves zero hash_count v t l = absurd (omega arith)
raw_content-Moves (suc fuel) hash_count v t l = get-or_Moves 0 t _ (λ c u b.
    let behind = match_hashes-Behind hash_count u in
    if-Moves 0 u (c == b'"') _ _
      (if-Moves 0 u (match_hashes hash_count u).0 _ _ behind (
        Behind-Moves 0 0 u _ _ behind (
          Moves-weaken 0 1 _ _ (omega arith) (
            raw_content-Moves fuel hash_count v _
              (omega (arith, count-Behind 1 t u b, count-Behind 0 u _ behind))))))
      (if-Moves 0 u (is_v2 v && is_newline c) _ _ tt (
        Moves-weaken 0 1 u _ (omega arith)
          (raw_content-Moves fuel hash_count v u (omega (arith, count-Behind 1 t u b))))))

pub read_raw_string_content-Moves :
    (hash_count : ℕ) (v : Version) (t : Input) → Moves 1 t (read_raw_string_content hash_count v t)
unfolding read_raw_string_content
read_raw_string_content-Moves hash_count v t =
    raw_content-Moves (suc (count t)) hash_count v t (omega arith)

opening_hashes-Moves : (hashes : ℕ) (t : Input) → Moves 1 t (opening_hashes hashes t)
unfolding opening_hashes
opening_hashes-Moves hashes finish = tt
opening_hashes-Moves hashes (broken b) = tt
opening_hashes-Moves hashes (rune c b t) =
    if-Moves 1 (rune c b t) (c == b'"') _ _ (Behind-rune c b t) (
      if-Moves 1 (rune c b t) (c == b'#') _ _
        (Moves-weaken 1 2 _ _ (omega arith)
          (Behind-Moves 1 1 _ t _ (Behind-rune c b t) (opening_hashes-Moves (suc hashes) t)))
        tt)

pub read_raw_string-Takes : (v : Version) (t : Input) → Takes itself t (read_raw_string v t)
unfolding read_raw_string
read_raw_string-Takes v t =
    after-Takes itself t 0 1 t _ _ (Behind-refl t)
      (or_unexpected_end-Moves 1 t (get t) (get-Moves t))
      (λ c u b. if-Takes itself t (not (c == b'r')) _ _ tt (
        after-Takes itself t 1 1 u _ _ b (opening_hashes-Moves 0 u) (λ hashes w b'.
          copy_from_mark-Takes itself t _ (λ _ x. copy_from_mark t x)
            (Moves-weaken 1 3 t _ (omega arith)
              (Behind-Moves 2 1 t w _ b' (read_raw_string_content-Moves hashes v w)))
            (λ _ x. refl))))

pub read_quoted_string_q-Takes :
    (q : ℕ) (v : Version) (t : Input) → Takes itself t (read_quoted_string_q q v t)
unfolding read_quoted_string_q
read_quoted_string_q-Takes q v finish = tt
read_quoted_string_q-Takes q v (broken b) = tt
read_quoted_string_q-Takes q v (rune c b t) = if-Takes itself (rune c b t) (not (c == q)) _ _ tt (
    bytes_only-Takes (rune c b t) _
      (read_while_state-Takes (quoted_rune q v) at_quote 2 (rune c b t) (omega arith)))

opening_line-Moves : (t : Input) → Moves 0 t (opening_line t)
unfolding opening_line
opening_line-Moves finish = tt
opening_line-Moves (broken b) = tt
opening_line-Moves (rune c b t) =
    if-Moves 0 (rune c b t) (c == b' ' || c == b'\t') _ _
      (Moves-weaken 0 1 _ _ (omega arith)
        (Behind-Moves 1 0 _ t _ (Behind-rune c b t) (opening_line-Moves t)))
      (if-Moves 0 (rune c b t) (c == b'\n' || c == b'\r') _ _ (Behind-refl _) tt)

triple_content-Moves :
    (fuel quote hash_count : ℕ) (t : Input)
    → count t < fuel
    → Moves 1 t (triple_content fuel quote hash_count t)
unfolding triple_content
triple_content-Moves zero quote hash_count t l = absurd (omega arith)
triple_content-Moves (suc fuel) quote hash_count t l = get-or_Moves 0 t _ (λ c u b.
    let skipped = Behind-trans 0 0 u (skip u) _ (skip-Behind u) (skip-Behind (skip u)) in
    let behind = Behind-trans 0 0 u _ _ skipped (match_hashes-Behind hash_count (skip (skip u))) in
    let later = λ (w : Input) (b' : Behind 0 u w). Moves-weaken 0 1 w _ (omega arith) (
      triple_content-Moves fuel quote hash_count w
        (omega (arith, count-Behind 1 t u b, count-Behind 0 u w b'))) in
    if-Moves 0 u (c == b'\\' && hash_count == 0) _ _
      (Moves-weaken 0 1 u _ (omega arith)
        (get-all_Moves 0 u _ (λ _ x b'. later x (Behind-weaken 0 1 u x (omega arith) b'))))
      (if-Moves 0 u (c == quote && (is_seen (peek u) quote && is_seen (peek_two u) quote)) _ _
        (if-Moves 0 u (match_hashes hash_count (skip (skip u))).0 _ _ behind
          (Behind-Moves 0 0 u _ _ behind (later _ behind)))
        (later u (Behind-refl u))))

read_triple-Moves : (quote hash_count : ℕ) (t : Input) → Moves 1 t (read_triple quote hash_count t)
read_triple-Moves quote hash_count t = Moves-weaken 1 4 t _ (omega arith) (
    >>=-Moves 3 1 t (get_three t) _ three (λ _ u _.
      >>=-Moves 0 1 u (opening_line u) _ (opening_line-Moves u)
        (λ _ w _. triple_content-Moves (suc (count w)) quote hash_count w (omega arith))))
  where
    three : Moves 3 t (get_three t)
    three =
        get-all_Moves 2 t _
          (λ _ u _. get-all_Moves 1 u _ (λ _ w _. get-all_Moves 0 w _ (λ _ x _. Behind-refl x)))

-- The mark is in front of the hashes.
pub read_multi_line_string_raw_no_mark-Takes :
    (start : Input) (m hash_count : ℕ) (t : Input)
    → Behind m start t
    → Takes itself start (read_multi_line_string_raw_no_mark start hash_count t)
unfolding read_multi_line_string_raw_no_mark
read_multi_line_string_raw_no_mark-Takes start m hash_count t b =
    after-Takes itself start m 1 t _ _ b (read_triple-Moves b'"' hash_count t)
      (λ _ u b'. (Behind-weaken 1 (m + 1) start u (omega arith) b', refl))

pub read_multi_line_string-Takes : (t : Input) → Takes itself t (read_multi_line_string t)
unfolding read_multi_line_string
read_multi_line_string-Takes t = read_multi_line_string_raw_no_mark-Takes t 0 0 t (Behind-refl t)

pub read_multi_line_expression_string-Takes :
    (t : Input) → Takes itself t (read_multi_line_expression_string t)
unfolding read_multi_line_expression_string
read_multi_line_expression_string-Takes t =
    copy_from_mark-Takes itself t _ _ (read_triple-Moves b'`' 0 t) (λ _ u. refl)
