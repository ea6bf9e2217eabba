-- ===== src/Go/Strings.antt =====
-- The functions of package strings that the program calls, over bytes.
use gokdl.Base.{
  ℕ, zero, suc, ◌-◌, Bool, true, false, ◌&&◌, ◌||◌, List, [], ◌∷◌, Bytes, ◌==◌, bytes_eq, length,
  drop, if◌then◌else◌,
}
use gokdl.Go.Utf8.{decode_rune, is_space}

unfoldable pub has_prefix : Bytes → Bytes → Bool
has_prefix s [] = true
has_prefix [] (p ∷ ps) = false
has_prefix (c ∷ s) (p ∷ ps) = c == p && has_prefix s ps

unfoldable pub has_suffix : Bytes → Bytes → Bool
unfolding bytes_eq
has_suffix s p = bytes_eq (drop (length s - length p) s) p

unfoldable pub contains : Bytes → Bytes → Bool
unfolding has_prefix
contains [] p = has_prefix [] p
contains (c ∷ s) p = has_prefix (c ∷ s) p || contains s p

-- The runes of a string, as `range` gives them. Each round takes a byte at least.
runes_in : ℕ → Bytes → List ℕ
runes_in fuel [] = []
runes_in zero (c ∷ s) = []
runes_in (suc fuel) (c ∷ s) =
    let (r, size) = decode_rune (c ∷ s) in r ∷ runes_in fuel (drop size (c ∷ s))

unfoldable pub runes : Bytes → List ℕ
unfolding runes_in decode_rune
runes s = runes_in (length s) s

unfoldable pub all_space : List ℕ → Bool
all_space [] = true
all_space (r ∷ rs) = is_space r && all_space rs

-- `bytes.TrimSuffix(b, "\n")`.
unfoldable pub trim_newline : Bytes → Bytes
trim_newline [] = []
trim_newline (c ∷ []) = if c == b'\n' then [] else c ∷ []
trim_newline (c ∷ d ∷ s) = c ∷ trim_newline (d ∷ s)

-- `strings.Cut` at a separator of one byte.
unfoldable pub cut : ℕ → Bytes → Bytes × Bytes × Bool
cut sep [] = ([], [], false)
cut sep (c ∷ s) =
    let (before, after, found) = cut sep s in
    if c == sep then ([], s, true) else (c ∷ before, after, found)

-- `strings.Split` at a separator of one byte.
unfoldable pub split_at : ℕ → Bytes → List Bytes
split_at sep [] = [] ∷ []
split_at sep (c ∷ s) = elim (split_at sep s) [
  | [] ↦ (c ∷ []) ∷ []
  | part ∷ parts ↦ if c == sep then [] ∷ part ∷ parts else (c ∷ part) ∷ parts
]
