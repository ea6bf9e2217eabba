-- ===== src/Document/Flag.antt =====
-- document/value.go: `ValueFlag` and `valueOpts`, sets of bits.
use Prim.Native.Nat.{bit_and}
use gokdl.Base.{ℕ, Bool, not, ◌==◌}

-- `FlagNone` is 0 and stands first, so `1 << iota` begins at 2.
abbrev pub raw : ℕ
raw = 2

abbrev pub quoted : ℕ
quoted = 4

abbrev pub binary : ℕ
binary = 8

abbrev pub octal : ℕ
octal = 16

abbrev pub hexadecimal : ℕ
hexadecimal = 32

abbrev pub bare_suffixed : ℕ
bare_suffixed = 64

abbrev pub multi_line : ℕ
multi_line = 128

abbrev pub bare : ℕ
bare = 256

abbrev pub expression_flag : ℕ
expression_flag = 512

-- `voTranslateStringFlags` is 0.
abbrev pub use_numeric_flags : ℕ
use_numeric_flags = 2

abbrev pub strict_string_flags : ℕ
strict_string_flags = 4

abbrev pub simple_string : ℕ
simple_string = 8

abbrev pub no_quotes : ℕ
no_quotes = 16

abbrev pub no_bare : ℕ
no_bare = 32

abbrev pub version_v2 : ℕ
version_v2 = 64

-- `Has`, and `haveOpt`.
unfoldable pub has : ℕ → ℕ → Bool
has f flag = not (bit_and f flag == 0)
