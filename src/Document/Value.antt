-- ===== src/Document/Value.antt =====
-- document/value.go: values and their reading from a token.
pub mod Totality
pub mod RoundTrip
use Prim.Native.Nat.{bit_or}
use gokdl.Base.{
  ℕ, Bool, true, false, not, ◌||◌, [], ◌∷◌, Option, none, some, Bytes, ◌==◌, bytes_eq, codes,
  if◌then◌else◌,
}
use gokdl.Document.Flag
use gokdl.Document.MultiLine.{unquote_multi_line_string, unquote_multi_line_expression_string}
use gokdl.Document.MultiLine.Result.{TextResult, text, failed, no_fuel, TextError}
use gokdl.Document.Number.{
  Scalar, nil, bool_value, string_value, expression, float64, suffixed_decimal, NumberResult,
  number, no_number, number_panic, parse_number,
}
use gokdl.Document.RawString.{RawResult, no_quote, slice_panic, raw_text, unquote_raw_token_string}
use gokdl.Document.SuffixedDecimal.{SuffixResult, suffixed, parse_suffixed_decimal}
use gokdl.Document.Unquote.{Unquoted, done, invalid, out_of_fuel, unquote_string}
use gokdl.Go.Strconv.{FloatLib}
use gokdl.Go.Strings.{has_prefix}
use gokdl.Tokenizer.Token.{TokenId, Token}

pub record Value : Type 0 where
  pub type_annot : Bytes
  pub value : Scalar
  pub flag : ℕ
  pub raw_hashes : ℕ

-- The errors of a value: of its text, its number, its suffix, its raw string or its keyword; and, where
-- the source panics, the slice that is out of range.
pub data ValueError : Type 0 where
  bad_text : TextError → ValueError
  bad_quoted bad_number bad_suffix bad_raw_string unknown_keyword lacks_fuel out_of_range :
      ValueError

pub data ValueResult : Type 0 where
  value_ok : Value → ValueResult
  value_error : ValueError → ValueResult

abbrev plain : Scalar → ℕ → ValueResult
plain s f = value_ok (record { type_annot = []; value = s; flag = f; raw_hashes = 0 })

-- `isMultilineStringToken`.
skip_hashes : Bytes → Bytes
skip_hashes [] = []
skip_hashes (c ∷ s) = let rest = skip_hashes s in if c == b'#' then rest else c ∷ s

unfoldable pub is_multiline_string_token : Bytes → Bool
unfolding skip_hashes has_prefix
is_multiline_string_token s =
    if has_prefix s (codes "\"\"\"")
    then true
    else if not (has_prefix s (codes "#"))
    then false
    else has_prefix (skip_hashes s) (codes "\"\"\"")

abbrev pub is_multiline_expression_token : Bytes → Bool
is_multiline_expression_token s = has_prefix s (codes "```")

-- `keywordValue`, by the bits of the floats.
unfoldable pub keyword_value : Bytes → Option Scalar
unfolding bytes_eq
keyword_value s =
    if bytes_eq s (codes "#inf")
    then some (float64 0x7FF0_0000_0000_0000)
    else if bytes_eq s (codes "#-inf")
    then some (float64 0xFFF0_0000_0000_0000)
    else if bytes_eq s (codes "#nan")
    then some (float64 0x7FF8_0000_0000_0001)
    else none

unfoldable pub quoted_value : (Bytes → Scalar) → ℕ → Unquoted → ValueResult
quoted_value kind f (done b) = plain (kind b) f
quoted_value kind f invalid = value_error bad_quoted
quoted_value kind f out_of_fuel = value_error lacks_fuel

unfoldable pub multi_line_flag : Bytes → ℕ
multi_line_flag s =
    if has_prefix s (codes "#") then bit_or Flag.multi_line Flag.raw else Flag.multi_line

unfoldable pub multi_line_value : ℕ → TextResult (Bytes × ℕ) → ValueResult
multi_line_value f (text (b, hashes)) =
    value_ok (record { type_annot = []; value = string_value b; flag = f; raw_hashes = hashes })
multi_line_value f (failed e) = value_error (bad_text e)
multi_line_value f no_fuel = value_error lacks_fuel

unfoldable pub multi_line_expression : TextResult Bytes → ValueResult
multi_line_expression (text b) = plain (expression b) (bit_or Flag.expression_flag Flag.multi_line)
multi_line_expression (failed e) = value_error (bad_text e)
multi_line_expression no_fuel = value_error lacks_fuel

unfoldable pub raw_value : RawResult → ValueResult
raw_value no_quote = value_error bad_raw_string
raw_value slice_panic = value_error out_of_range
raw_value (raw_text b hashes) =
    value_ok
      (record { type_annot = []; value = string_value b; flag = Flag.raw; raw_hashes = hashes })

unfoldable pub number_value : ℕ → NumberResult → ValueResult
number_value f no_number = value_error bad_number
number_value f number_panic = value_error out_of_range
number_value f (number s) = plain s f

unfoldable pub suffixed_value : SuffixResult → ValueResult
suffixed_value (suffixed d) = plain (suffixed_decimal d) 0
suffixed_value _ = value_error bad_suffix

unfoldable pub keyword_or_error : Option Scalar → ValueResult
keyword_or_error none = value_error unknown_keyword
keyword_or_error (some s) = plain s 0

module _ (floats : FloatLib) where
  -- The `switch` on the kind of the token; a kind that it lacks leaves the zero value.
  unfoldable pub value_of : TokenId → Bytes → ValueResult
  value_of TokenId.quoted_string s =
      if is_multiline_string_token s
      then multi_line_value (multi_line_flag s) (unquote_multi_line_string s)
      else quoted_value string_value Flag.quoted (unquote_string s)
  value_of TokenId.expression_string s =
      if is_multiline_expression_token s
      then multi_line_expression (unquote_multi_line_expression_string s)
      else quoted_value expression Flag.expression_flag (unquote_string s)
  value_of TokenId.bare_identifier s = plain (string_value s) Flag.bare
  value_of TokenId.binary s = number_value Flag.binary (parse_number floats s 2)
  value_of TokenId.raw_string s = raw_value (unquote_raw_token_string s)
  value_of TokenId.decimal s = number_value 0 (parse_number floats s 10)
  value_of TokenId.suffixed_decimal s = suffixed_value (parse_suffixed_decimal s)
  value_of TokenId.octal s = number_value Flag.octal (parse_number floats s 8)
  value_of TokenId.hexadecimal s = number_value Flag.hexadecimal (parse_number floats s 16)
  value_of TokenId.boolean s =
      plain (bool_value (bytes_eq s (codes "true") || bytes_eq s (codes "#true"))) 0
  value_of TokenId.null s = plain nil 0
  value_of TokenId.keyword s = keyword_or_error (keyword_value s)
  value_of _ s = plain nil 0

  unfoldable pub value_from_token : Token → ValueResult
  unfolding value_of bytes_eq has_prefix is_multiline_string_token multi_line_value multi_line_flag
      quoted_value multi_line_expression raw_value number_value suffixed_value keyword_or_error
      keyword_value
  value_from_token t = value_of t.id t.content
