-- ===== src/Document/Quote.antt =====
-- document/strings.go: `AppendQuotedString`. A loop over `i` with a pending slice `s[start:i]` is a
-- recursion over the rest `s[i:]`, with the pending bytes and the bytes still to skip as arguments.
use gokdl.Base.{
  ℕ, zero, suc, ◌-◌, Bool, not, ◌&&◌, ◌||◌, [], ◌∷◌, ◌++◌, Bytes, ◌==◌, leb, codes, if◌then◌else◌,
}
use gokdl.Go.Utf8.{decode_rune, rune_error}
use gokdl.Go.Strconv.{format_uint}

-- `noEscapeTable`.
unfoldable pub no_escape : ℕ → Bool
no_escape c = leb c 0x7e && leb 0x20 c && not (c == b'\\') && not (c == b'"')

-- What the `switch` appends for a byte below `RuneSelf` that needs an escape.
unfoldable pub escape_byte : ℕ → ℕ → Bytes
escape_byte quote c =
    if c == quote || c == b'\\' || c == b'/'
    then b'\\' ∷ c ∷ []
    else if c == b'\n'
    then codes "\\n"
    else if c == b'\r'
    then codes "\\r"
    else if c == b'\t'
    then codes "\\t"
    else if c == 8
    then codes "\\b"
    else if c == 12
    then codes "\\f"
    else codes "\\u" ++ format_uint c 16

-- The buffer, the pending `s[start:i]`, and how many bytes of the current rune are left.
pub record Quoting : Type 0 where
  pub out : Bytes
  pub pending : Bytes
  pub skip : ℕ

-- One round at `s[i] = c`; `s` is `s[i:]`.
unfoldable pub quote_step : ℕ → Quoting → ℕ → Bytes → Quoting
quote_step quote q c s =
    if no_escape c
    then record q { pending = q.pending ++ c ∷ [] }
    else if leb 0x80 c
    then (let (r, size) = decode_rune s in
        if r == rune_error && size == 1
        then record { out = q.out ++ (q.pending ++ codes "\\ufffd"); pending = []; skip = 0 }
        else record q { pending = q.pending ++ c ∷ []; skip = size - 1 })
    else record { out = q.out ++ (q.pending ++ escape_byte quote c); pending = []; skip = 0 }

unfoldable pub skip_byte : Quoting → ℕ → ℕ → Quoting
skip_byte q c k = record q { pending = q.pending ++ c ∷ []; skip = k }

-- A round, or a byte of a rune that was already decoded.
unfoldable pub quote_byte : ℕ → Quoting → ℕ → Bytes → ℕ → Quoting
quote_byte quote q c s zero = quote_step quote q c s
quote_byte quote q c s (suc k) = skip_byte q c k

-- The inner loop, and `s[start:]` behind it.
unfoldable pub quote_loop : ℕ → Quoting → Bytes → Bytes
quote_loop quote q [] = q.out ++ q.pending
quote_loop quote q (c ∷ s) = quote_loop quote (quote_byte quote q c (c ∷ s) q.skip) s

-- The outer loop looks for the first byte that needs an escape; `seen` is `s[0:i]`.
unfoldable pub quote_scan : Bytes → ℕ → Bytes → Bytes → Bytes
quote_scan b quote seen [] = b ++ (seen ++ quote ∷ [])
quote_scan b quote seen (c ∷ s) =
    let plain = quote_scan b quote (seen ++ c ∷ []) s in
    let escaped =
      quote_loop quote (record { out = b; pending = seen; skip = 0 }) (c ∷ s) ++ quote ∷ [] in
    if no_escape c then plain else escaped

unfoldable pub append_quoted_string : Bytes → Bytes → ℕ → Bytes
unfolding quote_scan quote_loop quote_byte quote_step skip_byte no_escape escape_byte
append_quoted_string b s quote = quote_scan (b ++ quote ∷ []) quote [] s

unfoldable pub quote_string : Bytes → Bytes
unfolding append_quoted_string
quote_string s = append_quoted_string [] s b'"'
