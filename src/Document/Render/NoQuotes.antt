-- ===== src/Document/Render/NoQuotes.antt =====
-- document/value.go: strings under the option for no quotes.
use Prim.Native.Nat.{bit_or}
use gokdl.Base.{ℕ, Bool, true, false, [], ◌++◌, Bytes, ◌≡◌, refl, ap, ◌∙◌, arith}
use gokdl.Document.Flag.{has, no_quotes, no_bare, use_numeric_flags}
use gokdl.Document.Number.{string_value}
use gokdl.Document.Render.{
  append_value, append_not_nil, append_scalar, append_string, numeric_base, value_text,
  value_string, goes_bare, type_prefix,
}
use gokdl.Document.Value.{Value}
use gokdl.Go.Strconv.{FloatLib}
use gokdl.Tokenizer.Token.{version_v1}

goes_bare-no_quotes :
    (v : Value) (bare : Bool) (opts : ℕ)
    → has opts no_quotes ≡ true
    → has opts no_bare ≡ false
    → goes_bare v bare opts ≡ true
goes_bare-no_quotes v bare opts q b = ground (arith, q, b)

append_string-no_quotes :
    (v : Value) (b s : Bytes) (opts : ℕ)
    → has opts no_quotes ≡ true
    → has opts no_bare ≡ false
    → append_string v b s opts ≡ b ++ s
unfolding append_string
append_string-no_quotes v b s opts q n = rw (goes_bare-no_quotes v _ opts q n) refl

numeric_base-empty : (v : Value) (opts : ℕ) → (numeric_base v [] opts).buffer ≡ []
unfolding numeric_base
numeric_base-empty v opts = ground arith

-- The options of `ValueString`.
abbrev text_options : ℕ
text_options = bit_or no_quotes use_numeric_flags

module _ (floats : FloatLib) (t s : Bytes) (f h : ℕ) where
  abbrev pub text_value : Value
  text_value = record { type_annot = t; value = string_value s; flag = f; raw_hashes = h }

  pub value_text-no_quotes :
      value_text floats text_value no_quotes version_v1 ≡ type_prefix floats t ++ s
  unfolding value_text append_value append_not_nil append_scalar numeric_base has
  value_text-no_quotes =
      append_string-no_quotes text_value (type_prefix floats t) s no_quotes refl refl

  pub value_string-no_quotes : value_string floats text_value ≡ s
  unfolding value_string append_value append_not_nil append_scalar has
  value_string-no_quotes =
      append_string-no_quotes text_value (numeric_base text_value [] text_options).buffer s
        text_options refl refl
      ∙ ap (λ b. b ++ s) (numeric_base-empty text_value text_options)
