-- ===== src/Document/Writer/Shape.antt =====
-- document/node.go: the options of the writer, a node with its children as a tree, and what the writer
-- uses of the package bytes.
use gokdl.Base.{
  ℕ, zero, suc, Bool, true, false, ◌&&◌, ◌||◌, List, [], ◌∷◌, ◌++◌, Option, Bytes, ◌==◌, ltb,
  if◌then◌else◌,
}
use gokdl.Document.Node.{Node}
use gokdl.Document.Value.{Value}
use gokdl.Tokenizer.Token.{Version, version_v1}

-- `NodeWriteOptions`.
pub record WriteOptions : Type 0 where
  pub leading_trailing_space : Bool
  pub name_and_type : Bool
  pub depth : ℕ
  pub indent : Bytes
  pub ignore_flags : Bool
  pub add_semicolons : Bool
  pub add_equals : Bool
  pub add_colons : Bool
  pub version : Version

abbrev pub default_write_options : WriteOptions
default_write_options = record {
  leading_trailing_space = false;
  name_and_type = true;
  depth = 0;
  indent = b'\t' ∷ [];
  ignore_flags = false;
  add_semicolons = false;
  add_equals = false;
  add_colons = false;
  version = version_v1;
}

-- A node with a name, the comments before and after it that are not nil, and its children, which stand
-- for the numbers of `children`.
mutual
  pub data Tree : Type 0 where
    tree : Value → Node → Option Bytes → Option Bytes → Forest → Tree

  pub data Forest : Type 0 where
    nil : Forest
    cons : Tree → Forest → Forest

abbrev pub is_nil : Forest → Bool
is_nil nil = true
is_nil (cons t ts) = false

-- `bytes.Repeat`.
abbrev pub repeat : Bytes → ℕ → Bytes
repeat b zero = []
repeat b (suc n) = b ++ repeat b n

-- `bytes.Trim` with blanks and tabs.
abbrev is_blank : ℕ → Bool
is_blank c = c == b' ' || c == b'\t'

unfoldable pub trim_left : Bytes → Bytes
trim_left [] = []
trim_left (c ∷ s) = let rest = trim_left s in if is_blank c then rest else c ∷ s

abbrev trimmed : ℕ → Bytes → Bytes
trimmed c [] = if is_blank c then [] else c ∷ []
trimmed c (d ∷ s) = c ∷ d ∷ s

unfoldable pub trim_right : Bytes → Bytes
trim_right [] = []
trim_right (c ∷ s) = trimmed c (trim_right s)

unfoldable pub trim : Bytes → Bytes
unfolding trim_left trim_right
trim s = trim_right (trim_left s)

-- `bytes.Split` at newlines: one piece at least.
abbrev grow : ℕ → List Bytes → List Bytes
grow c [] = (c ∷ []) ∷ []
grow c (l ∷ ls) = (c ∷ l) ∷ ls

unfoldable pub lines : Bytes → List Bytes
lines [] = [] ∷ []
lines (c ∷ s) = let rest = lines s in if c == b'\n' then [] ∷ rest else grow c rest

abbrev pub line_indent : WriteOptions → Bytes
line_indent opts =
    if ltb 0 opts.depth && opts.leading_trailing_space then repeat opts.indent opts.depth else []
