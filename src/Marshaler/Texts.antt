-- ===== src/Marshaler/Texts.antt =====
-- internal/marshaler/marshal.go: the value made of what `MarshalText` gives. Only the first token counts.
use gokdl.Base.{[], ◌∷◌, Bytes}
use gokdl.Document.Number.{string_value}
use gokdl.Document.Value.{Value, ValueError, ValueResult, value_ok, value_error, value_from_token}
use gokdl.Go.Strconv.{FloatLib}
use gokdl.Tokenizer.Scanner.Loop.{scan_one}
use gokdl.Tokenizer.Scanner.Next.{Next, token, halted}
use gokdl.Tokenizer.Scanner.State.{Scanner}
use gokdl.Tokenizer.Token.{TokenId, Token}

-- A value, the error of its reading, or a token of another kind.
pub data TextValue : Type 0 where
  has_value : Value → TextValue
  not_read : ValueError → TextValue
  not_a_value : TokenId → TextValue

abbrev of_text : Bytes → TextValue
of_text b = has_value (record { type_annot = []; value = string_value b; flag = 0; raw_hashes = 0 })

abbrev of_result : ValueResult → TextValue
of_result (value_ok v) = has_value v
of_result (value_error e) = not_read e

module _ (floats : FloatLib) where
  abbrev of_token : Token → TokenId → TextValue
  unfolding value_from_token
  of_token t TokenId.bare_identifier = of_text t.content
  of_token t TokenId.raw_string = of_text t.content
  of_token t TokenId.quoted_string = of_text t.content
  of_token t TokenId.decimal = of_result (value_from_token floats t)
  of_token t TokenId.hexadecimal = of_result (value_from_token floats t)
  of_token t TokenId.octal = of_result (value_from_token floats t)
  of_token t TokenId.binary = of_result (value_from_token floats t)
  of_token t TokenId.boolean = of_result (value_from_token floats t)
  of_token t TokenId.null = of_result (value_from_token floats t)
  of_token t id = not_a_value id

  abbrev of_scan : Bytes → Next → TextValue
  unfolding of_token
  of_scan b (token t s) = of_token t t.id
  of_scan b (halted e s) = of_text b

  -- `marshalTextValue` behind the call of the method; the scanner is the one that `ScanOne` uses.
  unfoldable pub marshal_text_value : Scanner → Bytes → TextValue
  unfolding of_scan scan_one
  marshal_text_value s [] = of_text []
  marshal_text_value s (c ∷ b) = of_scan (c ∷ b) (scan_one s (c ∷ b))
