-- ===== src/Parser/Recent.antt =====
-- internal/parser/recent.go: the ring of the last five tokens.
pub mod Window
use gokdl.Base.{
  ℕ, zero, suc, ◌+◌, ◌%◌, Bool, true, false, not, ◌&&◌, ◌||◌, List, [], ◌∷◌, ◌++◌, Bytes, length,
  get_or, set, drop, replicate, ltb, if◌then◌else◌,
}
use gokdl.Tokenizer.Token.{TokenId, Token, cleared, valid}

abbrev pub recent_tokens_count : ℕ
recent_tokens_count = 5

pub record RecentTokens : Type 0 where
  pub tokens : List Token
  pub head : ℕ

-- The zero value.
abbrev pub no_tokens : RecentTokens
no_tokens = record { tokens = replicate recent_tokens_count cleared; head = 0 }

-- `Add`.
unfoldable pub add : RecentTokens → Token → RecentTokens
add r t = record {
  tokens = set r.tokens ((r.head + 1) % recent_tokens_count) t;
  head = (r.head + 1) % recent_tokens_count;
}

-- The loop of `Get`, over the rounds left.
get_from : ℕ → List Token → ℕ → List Token
get_from zero ts n = []
get_from (suc k) ts n =
    let rest = get_from k ts ((n + 1) % recent_tokens_count) in
    let t = get_or ts ((n + 1) % recent_tokens_count) cleared in if valid t then t ∷ rest else rest

unfoldable pub get : RecentTokens → List Token
unfolding get_from
get r = get_from recent_tokens_count r.tokens r.head

-- The loop's `white` and `lastWasSignificant`.
pub record Trailing : Type 0 where
  pub white : Bytes
  pub significant : Bool

abbrev is_newline_token : TokenId → Bool
is_newline_token TokenId.newline = true
is_newline_token _ = false

abbrev is_whitespace_token : TokenId → Bool
is_whitespace_token TokenId.whitespace = true
is_whitespace_token _ = false

abbrev pub is_comment_token : TokenId → Bool
is_comment_token TokenId.single_line_comment = true
is_comment_token TokenId.multi_line_comment = true
is_comment_token _ = false

-- A line break behind a significant token loses its first byte.
abbrev kept : Bool → Bytes → Bytes
kept significant s = if significant && ltb 0 (length s) then drop 1 s else s

trailing_step : Trailing → Token → Trailing
trailing_step w t = record {
  white =
      if is_newline_token t.id
      then w.white ++ kept w.significant t.content
      else if not (is_whitespace_token t.id) && ltb 0 (length w.white)
      then []
      else w.white;
  significant = not (is_newline_token t.id || is_whitespace_token t.id || is_comment_token t.id);
}

trailing_from : ℕ → List Token → ℕ → Trailing → Trailing
trailing_from zero ts n w = w
trailing_from (suc k) ts n w =
    trailing_from k ts ((n + 1) % recent_tokens_count)
      (trailing_step w (get_or ts ((n + 1) % recent_tokens_count) cleared))

-- `TrailingNewlines`, which leaves out the newest token.
unfoldable pub trailing_newlines : RecentTokens → Bytes
unfolding trailing_from trailing_step
trailing_newlines r =
    (trailing_from 4 r.tokens r.head (record { white = []; significant = false })).white
