-- ===== src/Document/Value/Totality.antt =====
-- document/value.go: a value is made of every token, or an error of the source.
use gokdl.Base.{
  ℕ, suc, ◌+◌, ◌≡◌, refl, Bool, true, false, Bytes, Option, none, some, length, drop, ltb, arith,
  if◌then◌else◌,
}
use gokdl.Document.MultiLine.Result.{TextResult, text, failed, no_fuel}
use gokdl.Document.MultiLine.Totality.{Returns, unquote_multi_line_string-Returns}
use gokdl.Document.Number.{
  Scalar, string_value, expression, NumberResult, number, no_number, number_panic, number_or_error,
  parse_number,
}
use gokdl.Document.RawString.{
  RawResult, raw_text, no_quote, slice_panic, without_closing, index_quote, hash_count,
  unquote_raw_token_string,
}
use gokdl.Document.SuffixedDecimal.{parse_suffixed_decimal, SuffixResult, suffixed}
use gokdl.Document.Unquote.{Unquoted, done, invalid, out_of_fuel}
use gokdl.Document.Unquote.Fuel.{Ends, unquote_string-Ends}
use gokdl.Document.Value.{
  ValueResult, value_ok, value_error, lacks_fuel, out_of_range, value_from_token, value_of,
  quoted_value, multi_line_value, multi_line_expression, multi_line_flag, raw_value, number_value,
  suffixed_value, keyword_or_error, keyword_value, is_multiline_string_token,
  is_multiline_expression_token,
}
use gokdl.Go.Strconv.{FloatLib}
use gokdl.Tokenizer.Token.{TokenId, Token}

-- A value, or an error other than the lack of fuel.
abbrev pub Decides : ValueResult → Type 0
Decides (value_ok v) = Unit
Decides (value_error lacks_fuel) = ⊥
Decides (value_error e) = Unit

if-Decides : (b : Bool) (m n : ValueResult) → Decides m → Decides n → Decides (if b then m else n)
if-Decides true m n h k = h
if-Decides false m n h k = k

quoted_value-Decides :
    (kind : Bytes → Scalar) (f : ℕ) (u : Unquoted) → Ends u → Decides (quoted_value kind f u)
unfolding quoted_value
quoted_value-Decides kind f (done b) h = tt
quoted_value-Decides kind f invalid h = tt
quoted_value-Decides kind f out_of_fuel h = h

multi_line_value-Decides :
    (f : ℕ) (r : TextResult (Bytes × ℕ)) → Returns r → Decides (multi_line_value f r)
unfolding multi_line_value
multi_line_value-Decides f (text v) h = tt
multi_line_value-Decides f (failed e) h = tt
multi_line_value-Decides f no_fuel h = h

multi_line_expression-Decides :
    (r : TextResult Bytes) → Returns r → Decides (multi_line_expression r)
unfolding multi_line_expression
multi_line_expression-Decides (text v) h = tt
multi_line_expression-Decides (failed e) h = tt
multi_line_expression-Decides no_fuel h = h

raw_value-Decides : (o : RawResult) → Decides (raw_value o)
unfolding raw_value
raw_value-Decides no_quote = tt
raw_value-Decides slice_panic = tt
raw_value-Decides (raw_text b n) = tt

number_value-Decides : (f : ℕ) (o : NumberResult) → Decides (number_value f o)
unfolding number_value
number_value-Decides f no_number = tt
number_value-Decides f number_panic = tt
number_value-Decides f (number s) = tt

suffixed_value-Decides : (r : SuffixResult) → Decides (suffixed_value r)
unfolding suffixed_value
suffixed_value-Decides (suffixed d) = tt
suffixed_value-Decides _ = tt

keyword_or_error-Decides : (o : Option Scalar) → Decides (keyword_or_error o)
unfolding keyword_or_error
keyword_or_error-Decides none = tt
keyword_or_error-Decides (some s) = tt

abbrev pub is_panic : ValueResult → Bool
is_panic (value_error out_of_range) = true
is_panic _ = false

-- The token is shorter than the scanner makes one of its kind.
abbrev pub is_cut_short : TokenId → Bytes → Bool
is_cut_short TokenId.raw_string s = elim (index_quote s) [
  | none ↦ false
  | some p ↦ ltb (length (drop (suc p) s)) (1 + hash_count s p)
]
is_cut_short TokenId.binary s = ltb (length s) 2
is_cut_short TokenId.octal s = ltb (length s) 2
is_cut_short TokenId.hexadecimal s = ltb (length s) 2
is_cut_short _ s = false

if-panic :
    (b : Bool) (m n : ValueResult)
    → is_panic m ≡ false
    → is_panic n ≡ false
    → is_panic (if b then m else n) ≡ false
if-panic true m n h k = h
if-panic false m n h k = k

quoted_value-panic :
    (kind : Bytes → Scalar) (f : ℕ) (u : Unquoted) → is_panic (quoted_value kind f u) ≡ false
unfolding quoted_value
quoted_value-panic kind f u = ground arith

multi_line_value-panic :
    (f : ℕ) (r : TextResult (Bytes × ℕ)) → is_panic (multi_line_value f r) ≡ false
unfolding multi_line_value
multi_line_value-panic f r = ground arith

multi_line_expression-panic : (r : TextResult Bytes) → is_panic (multi_line_expression r) ≡ false
unfolding multi_line_expression
multi_line_expression-panic r = ground arith

suffixed_value-panic : (r : SuffixResult) → is_panic (suffixed_value r) ≡ false
unfolding suffixed_value
suffixed_value-panic r = ground arith

keyword_or_error-panic : (o : Option Scalar) → is_panic (keyword_or_error o) ≡ false
unfolding keyword_or_error
keyword_or_error-panic o = ground arith

raw_value-panic :
    (s : Bytes)
    → is_panic (raw_value (unquote_raw_token_string s)) ≡ is_cut_short TokenId.raw_string s
unfolding raw_value unquote_raw_token_string without_closing
raw_value-panic s = ground arith

number_or_error-panic :
    (f : ℕ) (o : Option Scalar) → is_panic (number_value f (number_or_error o)) ≡ false
unfolding number_value
number_or_error-panic f o = ground arith

if-number_value :
    (f : ℕ) (b : Bool) (o : Option Scalar)
    → is_panic (number_value f (if b then number_panic else number_or_error o)) ≡ b
unfolding number_value
if-number_value f true o = refl
if-number_value f false o = number_or_error-panic f o

module _ (floats : FloatLib) where
  value_of-panic : (id : TokenId) (s : Bytes) → is_panic (value_of floats id s) ≡ is_cut_short id s
  unfolding value_of parse_number
  value_of-panic TokenId.quoted_string s =
      if-panic (is_multiline_string_token s) _ _ (multi_line_value-panic (multi_line_flag s) _)
        (quoted_value-panic string_value _ _)
  value_of-panic TokenId.expression_string s =
      if-panic (is_multiline_expression_token s) _ _ (multi_line_expression-panic _)
        (quoted_value-panic expression _ _)
  value_of-panic TokenId.binary s = if-number_value _ (ltb (length s) 2) _
  value_of-panic TokenId.octal s = if-number_value _ (ltb (length s) 2) _
  value_of-panic TokenId.hexadecimal s = if-number_value _ (ltb (length s) 2) _
  value_of-panic TokenId.raw_string s = raw_value-panic s
  value_of-panic TokenId.decimal s = number_or_error-panic 0 _
  value_of-panic TokenId.suffixed_decimal s = suffixed_value-panic (parse_suffixed_decimal s)
  value_of-panic TokenId.keyword s = keyword_or_error-panic (keyword_value s)
  value_of-panic _ s = refl

  value_of-Decides : (id : TokenId) (s : Bytes) → Decides (value_of floats id s)
  unfolding value_of
  value_of-Decides TokenId.quoted_string s =
      if-Decides (is_multiline_string_token s) _ _
        (multi_line_value-Decides (multi_line_flag s) _ (unquote_multi_line_string-Returns s).0)
        (quoted_value-Decides string_value _ _ (unquote_string-Ends s))
  value_of-Decides TokenId.expression_string s =
      if-Decides (is_multiline_expression_token s) _ _
        (multi_line_expression-Decides _ (unquote_multi_line_string-Returns s).1)
        (quoted_value-Decides expression _ _ (unquote_string-Ends s))
  value_of-Decides TokenId.binary s = number_value-Decides _ (parse_number floats s 2)
  value_of-Decides TokenId.raw_string s = raw_value-Decides (unquote_raw_token_string s)
  value_of-Decides TokenId.decimal s = number_value-Decides 0 (parse_number floats s 10)
  value_of-Decides TokenId.suffixed_decimal s = suffixed_value-Decides (parse_suffixed_decimal s)
  value_of-Decides TokenId.octal s = number_value-Decides _ (parse_number floats s 8)
  value_of-Decides TokenId.hexadecimal s = number_value-Decides _ (parse_number floats s 16)
  value_of-Decides TokenId.keyword s = keyword_or_error-Decides (keyword_value s)
  value_of-Decides _ s = tt

  -- `ValueFromToken` ends on every token, with a value or one of the source's errors, for the fuel that
  -- the loops over strings and multi-line strings are given is enough; or with a panic, and that just
  -- where the slice of a raw string leaves out more than there is, or where a number in another base than
  -- 10 has fewer bytes than its prefix.
  pub value_from_token-Decides :
      (t : Token)
      → Decides (value_from_token floats t)
        × (is_panic (value_from_token floats t) ≡ is_cut_short t.id t.content)
  unfolding value_from_token
  value_from_token-Decides t = (value_of-Decides t.id t.content, value_of-panic t.id t.content)
