-- ===== src/Document/RawString.antt =====
-- document/strings.go: `AppendRawString`, `AppendRawStringV2`, `AppendMultiLineStringV2`, and
-- document/value.go's `unquoteRawTokenString`.
pub mod Terminator
use gokdl.Base.{
  ℕ, zero, suc, ◌+◌, ◌-◌, Bool, true, false, ◌&&◌, List, [], ◌∷◌, ◌++◌, Option, none, some, Bytes,
  ◌==◌, replicate, length, take, drop, get_or, codes, if◌then◌else◌, ltb,
}
use gokdl.Go.Strings.{contains}

abbrev pub hash_run : ℕ → Bytes
hash_run n = replicate n b'#'

-- The loop that lengthens `hashes` until `delim` and the hashes do not occur in `s`. Its bound,
-- `i < cap(hashes)`, always holds, as `i + 1` is the length of `hashes`; the fuel is the length of `s`.
unfoldable pub find_hashes : ℕ → Bytes → Bytes → ℕ → Option ℕ
find_hashes zero delim s n = if contains s (delim ++ hash_run n) then none else some n
find_hashes (suc fuel) delim s n =
    let longer = find_hashes fuel delim s (suc n) in
    if contains s (delim ++ hash_run n) then longer else some n

-- `len(hashes)` after the loop, which starts with one hash.
unfoldable pub hashes_for : Bytes → Bytes → Option ℕ
unfolding find_hashes contains
hashes_for delim s = find_hashes (length s) delim s 1

abbrev pub enclose : Bytes → ℕ → Bytes → Bytes
enclose s n delim = hash_run n ++ (delim ++ (s ++ (delim ++ hash_run n)))

-- The hash count is `none` where the source passes -1.
unfoldable pub append_raw_string : Bytes → Bytes → Option ℕ → Bytes
unfolding hashes_for
append_raw_string b s (some n) = b ++ b'r' ∷ enclose s n (b'"' ∷ [])
append_raw_string b s none = elim (hashes_for (b'"' ∷ []) s) [
  | none ↦ b ++ codes "r\"invalid\""
  | some h ↦ b ++ b'r' ∷ enclose s (h - 1) (b'"' ∷ [])
]

unfoldable pub append_raw_string_v2 : Bytes → Bytes → Option ℕ → Bytes
unfolding hashes_for
append_raw_string_v2 b s (some n) = b ++ enclose s n (b'"' ∷ [])
append_raw_string_v2 b s none = elim (hashes_for (b'"' ∷ []) s) [
  | none ↦ b ++ codes "\"invalid\""
  | some h ↦ b ++ enclose s (h - 1) (b'"' ∷ [])
]

abbrev pub triple : Bytes
triple = b'"' ∷ b'"' ∷ b'"' ∷ []

-- The content on lines of its own.
abbrev pub framed : Bytes → Bytes
framed s =
    b'\n'
    ∷ (s
        ++ (if length s == 0
            then []
            else if get_or s (length s - 1) 0 == b'\n'
            then []
            else b'\n' ∷ []))

abbrev write_multi_line : Bytes → Bytes → ℕ → Bytes
write_multi_line b s zero = b ++ enclose (framed s) 1 triple
write_multi_line b s (suc n) = b ++ enclose (framed s) (suc n) triple

unfoldable pub append_multi_line_string_v2 : Bytes → Bytes → Option ℕ → Bytes
unfolding hashes_for
append_multi_line_string_v2 b s (some n) = write_multi_line b s n
append_multi_line_string_v2 b s none = elim (hashes_for triple s) [
  | none ↦ b ++ codes "\"\"\"invalid\"\"\""
  | some h ↦ write_multi_line b s h
]

-- `bytes.IndexByte(b, '"')`.
unfoldable pub index_quote : Bytes → Option ℕ
index_quote [] = none
index_quote (c ∷ s) = elim (c == b'"') [
  | true ↦ some 0
  | false ↦ elim (index_quote s) [ none ↦ none | some p ↦ some (suc p) ]
]

-- The hashes before the quote at `p`: the `r` of KDL v1 is not one.
abbrev pub hash_count : Bytes → ℕ → ℕ
hash_count b zero = zero
hash_count b (suc p) = if get_or b 0 0 == b'r' then p else suc p

-- The content and the hash count, the error of a missing quote, or the panic of a slice that is out of
-- range.
pub data RawResult : Type 0 where
  raw_text : Bytes → ℕ → RawResult
  no_quote slice_panic : RawResult

-- Behind the opening quote the last `hashCount + 1` bytes are cut off, if there are so many.
unfoldable pub without_closing : Bytes → ℕ → RawResult
without_closing content hashes =
    if ltb (length content) (1 + hashes)
    then slice_panic
    else raw_text (take (length content - 1 - hashes) content) hashes

unfoldable pub unquote_raw_token_string : Bytes → RawResult
unfolding without_closing
unquote_raw_token_string b = elim (index_quote b) [
  | none ↦ no_quote
  | some p ↦ without_closing (drop (suc p) b) (hash_count b p)
]
