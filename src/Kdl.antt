-- ===== src/Kdl.antt =====
-- kdl.go: from bytes to a document. The bytes are what the reader gives in all, read before the first
-- token; a document is the parser's context, which holds it, with the version that was read.
pub mod Total
pub mod Interleaved
use gokdl.Base.{ℕ, zero, suc, Bool, true, false, ◌&&◌, ◌||◌, [], ◌∷◌, Bytes, ltb, if◌then◌else◌}
use gokdl.Document.Value.{out_of_range}
use gokdl.Go.Strconv.{FloatLib}
use gokdl.Parser.Context.{ParseContext, Options, new_context}
use gokdl.Parser.Machine.Run.{Run, finished, rejected, reentry, crashed, exhausted, parse_tokens}
use gokdl.Parser.State.{ParseError, value_failed}
use gokdl.Tokenizer.Input.{finish, count, ScanError, out_of_fuel}
use gokdl.Tokenizer.Scanner.Loop.{Ending, ended, stopped, ending_of, place_at_end}
use gokdl.Tokenizer.Scanner.Next.{Next, token, halted, read_next}
use gokdl.Tokenizer.Scanner.State.{Scanner, new_slice, advance}
use gokdl.Tokenizer.Token.{Token, Version, version_auto, version_v1, version_v2, is_v2}

-- A document, an error of the scanner, or a run of the parser that ended otherwise.
pub data Parsed : Type 0 where
  parsed : Version → ParseContext → Parsed
  scan_failed : ScanError → Parsed
  parse_failed : Run → Parsed

-- The options that `parseOne` takes from the scanner; `ParseComments` is its first flag.
unfoldable pub options_of : Scanner → Bool → Options
options_of s comments = record {
  relaxed = s.relaxed;
  flags = if comments then 1 else 0;
  version = s.version;
}

-- `Close`, as far as `Offset` sees it.
unfoldable pub close : Scanner → Scanner
close s = record s { offset = 0; input = finish }

-- What the loop knows behind a token: the context, or how the run ended there.
abbrev pub behind_token : (ParseContext → Parsed × Scanner) → Scanner → Run → Parsed × Scanner
behind_token next s (finished c) = next c
behind_token next s (rejected x t) = (parse_failed (rejected x t), s)
behind_token next s (reentry t) = (parse_failed (reentry t), s)
behind_token next s crashed = (parse_failed crashed, s)
behind_token next s exhausted = (parse_failed exhausted, s)

module _ (floats : FloatLib) where
  -- The inner loop of `parseOne`, over one token, which is given a second time at most.
  unfoldable pub give : ParseContext → Token → Run
  unfolding parse_tokens
  give c t = parse_tokens floats 2 c (t ∷ [])

  -- `Scan` has returned false, or has made the end token its last.
  unfoldable pub behind_loop : Scanner → ParseContext → Ending → Parsed × Scanner
  unfolding give place_at_end advance
  behind_loop s c (ended t) =
      let s' = advance s (place_at_end s.input) in
      behind_token (λ c'. (parsed s'.version c', s')) s' (give c t)
  behind_loop s c (stopped e) = (scan_failed e, s)

  -- The outer loop, with the scanner as it is left. A token takes a rune.
  unfoldable pub parse_loop : ℕ → Scanner → ParseContext → Parsed × Scanner
  unfolding read_next ending_of give behind_loop
  parse_loop zero s c = (scan_failed out_of_fuel, s)
  parse_loop (suc fuel) s c = elim (read_next s) [
    | token t s' ↦ behind_token (parse_loop fuel s') s' (give c t)
    | halted e s' ↦ behind_loop s' c (ending_of e s')
  ]

  -- `parseOne`, with a scanner whose version is set; its `defer` closes the scanner.
  unfoldable pub parse_scanner : Bool → Scanner → Parsed × Scanner
  unfolding parse_loop options_of close
  parse_scanner comments s =
      let (p, left) = parse_loop (suc (count s.input)) s (new_context (options_of s comments)) in
      (p, close left)

-- A panic of the source, which `parse` does not catch.
unfoldable pub panics : Run → Bool
panics crashed = true
panics (rejected (value_failed out_of_range) t) = true
panics _ = false

-- `parse` behind the first attempt, with what it gave and the scanner that it has closed.
unfoldable pub fall_back : FloatLib → Bool → ℕ → Bytes → Parsed → Scanner → Parsed
unfolding parse_scanner new_slice panics
fall_back floats comments relaxed s (parsed v c) s2 = parsed v c
fall_back floats comments relaxed s (scan_failed e) s2 =
    let first = (parse_scanner floats comments (new_slice relaxed version_v1 s)).0 in
    if is_v2 s2.version && ltb 0 s2.offset then scan_failed e else first
fall_back floats comments relaxed s (parse_failed r) s2 =
    let first = (parse_scanner floats comments (new_slice relaxed version_v1 s)).0 in
    if panics r || is_v2 s2.version && ltb 0 s2.offset then parse_failed r else first

-- `parse`, for `ParseVersionAuto` and for a version that is set.
unfoldable pub parse : FloatLib → Bool → ℕ → Version → Bytes → Parsed
unfolding parse_scanner new_slice fall_back
parse floats comments relaxed version_v1 s =
    (parse_scanner floats comments (new_slice relaxed version_v1 s)).0
parse floats comments relaxed version_v2 s =
    (parse_scanner floats comments (new_slice relaxed version_v2 s)).0
parse floats comments relaxed version_auto s =
    let (p, s2) = parse_scanner floats comments (new_slice relaxed version_v2 s) in
    fall_back floats comments relaxed s p s2
