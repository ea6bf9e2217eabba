-- ===== src/Document/Render.antt =====
-- document/value.go: `value` and `string`, the text of a value, and their callers.
pub mod Bases
pub mod NoQuotes
use Prim.Native.Nat.{bit_or}
use gokdl.Base.{
  ℕ, zero, suc, ◌+◌, ◌^◌, Bool, true, false, not, ◌&&◌, ◌||◌, List, [], ◌∷◌, ◌++◌, Option, none,
  some, Bytes, ◌==◌, ltb, length, codes, one_of, if◌then◌else◌,
}
use gokdl.Document.Flag
use gokdl.Document.Flag.{
  has, use_numeric_flags, strict_string_flags, simple_string, no_quotes, no_bare, version_v2,
}
use gokdl.Document.MultiLineQuote.{append_multi_line_string, append_multi_line_expression_string}
use gokdl.Document.Number.{
  Scalar, nil, bool_value, string_value, expression, int64, float64, big_int, big_float,
  suffixed_decimal,
}
use gokdl.Document.Quote.{append_quoted_string}
use gokdl.Document.RawString.{append_raw_string, append_raw_string_v2, append_multi_line_string_v2}
use gokdl.Document.Value.{Value}
use gokdl.Go.Strconv.{FloatLib, format_int}
use gokdl.Go.Strings.{runes}
use gokdl.Tokenizer.CType.{is_bare_identifier_version}
use gokdl.Tokenizer.Token.{Version, version_v1, is_v2}

-- The base, its prefix, and the buffer, which the hexadecimal case starts afresh.
pub record Base : Type 0 where
  pub base : ℕ
  pub prefix : Bytes
  pub buffer : Bytes

unfoldable pub numeric_base : Value → Bytes → ℕ → Base
unfolding has
numeric_base v b opts =
    if has opts use_numeric_flags
    then (if has v.flag Flag.binary
        then record { base = 2; prefix = codes "0b"; buffer = b }
        else if has v.flag Flag.octal
        then record { base = 8; prefix = codes "0o"; buffer = b }
        else if has v.flag Flag.hexadecimal
        then record { base = 16; prefix = codes "0x"; buffer = [] }
        else record { base = 10; prefix = []; buffer = b })
    else record { base = 10; prefix = []; buffer = b }

-- A string needs no quotes.
abbrev goes_bare : Value → Bool → ℕ → Bool
goes_bare v bare opts =
    has v.flag Flag.bare_suffixed
    || has v.flag Flag.bare && has opts version_v2
    || not (has opts no_bare) && (has opts no_quotes || bare && has opts simple_string)

abbrev hashes_of : ℕ → Option ℕ
hashes_of zero = none
hashes_of (suc n) = some (suc n)

-- The string in one of its notations.
append_noted_string : Value → Bytes → Bytes → Bool → ℕ → Bytes
append_noted_string v b x bare opts =
    if has v.flag Flag.multi_line && has opts strict_string_flags
    then (if has v.flag Flag.raw && has opts version_v2
        then append_multi_line_string_v2 b x (hashes_of v.raw_hashes)
        else append_multi_line_string b x)
    else if has v.flag Flag.raw && has opts strict_string_flags
    then (if has opts version_v2
        then append_raw_string_v2 b x (hashes_of v.raw_hashes)
        else append_raw_string b x (hashes_of v.raw_hashes))
    else if has v.flag Flag.quoted
        || has v.flag Flag.raw && not (has opts strict_string_flags)
        || has v.flag Flag.multi_line && not (has opts strict_string_flags)
    then append_quoted_string b x b'"'
    else if bare && not (has opts no_bare)
    then b ++ x
    else append_quoted_string b x b'"'

abbrev version_of : ℕ → Version
version_of opts = if has opts version_v2 then Version.version_v2 else version_v1

append_string : Value → Bytes → Bytes → ℕ → Bytes
append_string v b x opts =
    let bare = is_bare_identifier_version (runes x) 0 (version_of opts) in
    if goes_bare v bare opts then b ++ x else append_noted_string v b x bare opts

append_expression : Value → Bytes → Bytes → ℕ → Bytes
append_expression v b x opts =
    if has opts no_quotes
    then b ++ x
    else if has v.flag Flag.multi_line || one_of x b'\n'
    then append_multi_line_expression_string b x
    else append_quoted_string b x b'`'

append_bool : Bytes → Bool → ℕ → Bytes
append_bool b x opts =
    if has opts version_v2
    then b ++ (if x then codes "#true" else codes "#false")
    else b ++ (if x then codes "true" else codes "false")

abbrev is_nan : ℕ → Bool
is_nan bits = ltb 0x7FF0_0000_0000_0000 bits && ltb bits (2 ^ 63) || ltb 0xFFF0_0000_0000_0000 bits

module _ (floats : FloatLib) where
  append_float : Bytes → ℕ → ℕ → Bytes
  append_float b x opts =
      if has opts version_v2 && x == 0x7FF0_0000_0000_0000
      then b ++ codes "#inf"
      else if has opts version_v2 && x == 0xFFF0_0000_0000_0000
      then b ++ codes "#-inf"
      else if has opts version_v2 && is_nan x
      then b ++ codes "#nan"
      else if floats.big_log x
      then b ++ floats.format_float x b'E'
      else b ++ (floats.format_float x b'f' ++ (if floats.modf_zero x then codes ".0" else []))

  append_scalar : Value → Base → Scalar → ℕ → Bytes
  append_scalar v n nil opts = n.buffer ++ codes "null"
  append_scalar v n (bool_value x) opts = append_bool n.buffer x opts
  append_scalar v n (string_value x) opts = append_string v n.buffer x opts
  append_scalar v n (expression x) opts = append_expression v n.buffer x opts
  append_scalar v n (int64 x) opts = n.buffer ++ (n.prefix ++ format_int x n.base)
  append_scalar v n (float64 x) opts = append_float n.buffer x opts
  append_scalar v n (big_int x) opts = n.buffer ++ format_int x n.base
  append_scalar v n (big_float x) opts = n.buffer ++ floats.format_big_float x
  append_scalar v n (suffixed_decimal d) opts = n.buffer ++ (d.number ++ d.suffix)

  -- A nil value is written before the flags are looked at.
  append_not_nil : Value → Bytes → Scalar → ℕ → Bytes
  append_not_nil v b nil opts = b ++ (if has opts version_v2 then codes "#null" else codes "null")
  append_not_nil v b x opts = append_scalar v (numeric_base v b opts) x opts

  -- `value`.
  unfoldable pub append_value : Value → Bytes → ℕ → Bytes
  unfolding append_not_nil append_scalar append_float append_bool append_expression append_string
      append_noted_string numeric_base
  append_value v b opts = append_not_nil v b v.value opts

  abbrev pub type_prefix : Bytes → Bytes
  type_prefix [] = []
  type_prefix (c ∷ t) = b'(' ∷ ((c ∷ t) ++ b')' ∷ [])

  -- `string`.
  unfoldable pub value_text : Value → ℕ → Version → Bytes
  unfolding append_value
  value_text v opts version =
      append_value v (type_prefix v.type_annot)
        (if is_v2 version then bit_or opts version_v2 else opts)

  -- `String`, `FormattedString`, `UnformattedString`, `NodeNameString` for KDL v1 and v2.
  abbrev pub string : Value → Bytes
  string v = value_text v (bit_or strict_string_flags use_numeric_flags) version_v1

  abbrev pub formatted_string : Value → Bytes
  formatted_string v = value_text v (bit_or no_bare use_numeric_flags) version_v1

  abbrev pub unformatted_string : Value → Bytes
  unformatted_string v = value_text v no_bare version_v1

  abbrev pub node_name_string : Value → Bytes
  node_name_string v = value_text v simple_string version_v1

  abbrev pub formatted_string_v2 : Value → Bytes
  formatted_string_v2 v =
      value_text v (bit_or (bit_or no_bare use_numeric_flags) strict_string_flags)
        Version.version_v2

  abbrev pub node_name_string_v2 : Value → Bytes
  node_name_string_v2 v = value_text v simple_string Version.version_v2

  -- `ValueString`.
  unfoldable pub value_string : Value → Bytes
  unfolding append_value
  value_string v = append_value v [] (bit_or no_quotes use_numeric_flags)
