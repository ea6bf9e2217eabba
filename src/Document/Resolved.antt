-- ===== src/Document/Resolved.antt =====
-- document/value.go: `ResolvedValue` and `ResolvedValueV2`.
use gokdl.Base.{ℕ, ◌++◌, Bytes, ◌≡◌, ap}
use gokdl.Coerce.{
  Any, nothing, boolean, string, signed, w64, suffixed_decimal, expression, float64, big_int,
  big_float,
}
use gokdl.Document.Flag.{no_quotes}
use gokdl.Document.Number
use gokdl.Document.Number.{Scalar}
use gokdl.Document.Render.{value_text, value_string, type_prefix}
use gokdl.Document.Render.NoQuotes.{text_value, value_text-no_quotes, value_string-no_quotes}
use gokdl.Document.Value.{Value}
use gokdl.Go.Strconv.{FloatLib}
use gokdl.Tokenizer.Token.{Version, version_v1}

-- The `interface{}` in a value.
abbrev pub any_of : Scalar → Any
any_of Number.nil = nothing
any_of (Number.bool_value b) = boolean b
any_of (Number.string_value s) = string s
any_of (Number.expression s) = expression s
any_of (Number.int64 z) = signed w64 z
any_of (Number.float64 f) = float64 f
any_of (Number.big_int z) = big_int z
any_of (Number.big_float f) = big_float f
any_of (Number.suffixed_decimal d) = suffixed_decimal d

module _ (floats : FloatLib) where
  unfoldable pub resolve : Version → Value → Scalar → Any
  unfolding value_text
  resolve version v (Number.string_value s) = string (value_text floats v no_quotes version)
  resolve version v x = any_of x

  unfoldable pub resolved_value : Value → Any
  unfolding resolve
  resolved_value v = resolve version_v1 v v.value

  unfoldable pub resolved_value_v2 : Value → Any
  unfolding resolve
  resolved_value_v2 v = resolve Version.version_v2 v v.value

  -- With a type annotation `ResolvedValue` puts it in parentheses before the text of a string;
  -- `ValueString` of the same value is the text alone.
  pub resolved_value-annotation :
      (t s : Bytes) (f h : ℕ)
      → (resolved_value (text_value floats t s f h) ≡ string (type_prefix floats t ++ s))
        × (value_string floats (text_value floats t s f h) ≡ s)
  unfolding resolved_value resolve
  resolved_value-annotation t s f h =
      (ap string (value_text-no_quotes floats t s f h), value_string-no_quotes floats t s f h)
