-- ===== src/Tokenizer/CType/Separators.antt =====
-- internal/tokenizer/ctype.go: what a bare identifier may not hold.
use gokdl.Base.{ℕ, ◌≡◌, Bool, true, false, ◌||◌, List, [], ◌∷◌, one_of, All, arith, codes}
use gokdl.Tokenizer.CType.{
  is_white_space, is_newline, is_bare_v1, is_bare_v2, is_bare_identifier_char_version, all_bare,
  is_bare_identifier_version,
}
use gokdl.Tokenizer.Token.{Version, version_auto, version_v1, version_v2}

-- White space, line breaks, and the characters that end a token in both versions.
abbrev pub ends_token : ℕ → Bool
ends_token r = is_white_space r || is_newline r || one_of (codes "{}[];=") r

char-ends_token :
    (r flags : ℕ) (first : Bool) (v : Version)
    → is_bare_identifier_char_version r flags first v ≡ true
    → ends_token r ≡ false
unfolding is_bare_identifier_char_version is_bare_v1 is_bare_v2
char-ends_token r flags first version_v2 h = ground arith
char-ends_token r flags first version_v1 h = ground arith
char-ends_token r flags first version_auto h = ground arith

all_bare-ends_token :
    (rs : List ℕ) (flags : ℕ) (first : Bool) (v : Version)
    → all_bare rs flags first v ≡ true
    → All (λ r. ends_token r ≡ false) rs
unfolding all_bare
all_bare-ends_token [] flags first v h = tt
all_bare-ends_token (r ∷ rs) flags first v h = (
  char-ends_token r flags first v (ground arith),
  all_bare-ends_token rs flags false v (ground arith),
)

-- A bare identifier holds no white space, no line break, no brace, no bracket, no `;` and no `=`, in
-- either version and with any relaxed flags.
pub is_bare_identifier-ends_token :
    (rs : List ℕ) (flags : ℕ) (v : Version)
    → is_bare_identifier_version rs flags v ≡ true
    → All (λ r. ends_token r ≡ false) rs
unfolding is_bare_identifier_version
is_bare_identifier-ends_token [] flags v h = tt
is_bare_identifier-ends_token (r ∷ rs) flags v h = all_bare-ends_token (r ∷ rs) flags true v h
