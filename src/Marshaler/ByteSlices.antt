-- ===== src/Marshaler/ByteSlices.antt =====
-- internal/marshaler: nodes for a `[]byte`, in the formats array, string and those of the encodings.
-- The encodings of packages base64, base32 and hex are a parameter.
pub mod RoundTrip
use gokdl.Base.{
  ℕ, ◌+◌, Bool, true, false, not, ◌||◌, ◌&&◌, List, [], ◌∷◌, Option, none, some, Bytes, bytes_eq,
  codes, ◌==◌, length, ltb, if◌then◌else◌,
}
use gokdl.Coerce.{Any, string, unsigned, w8, ValueLib}
use gokdl.Coerce.Integers.{to_byte}
use gokdl.Coerce.Strings.{is_numeric}
use gokdl.Document.Node.{Node}
use gokdl.Document.Properties.{len}
use gokdl.Document.Render.{value_string}
use gokdl.Document.Resolved.{any_of, resolved_value}
use gokdl.Document.Value.{Value}
use gokdl.Go.Strconv.{FloatLib}

-- `base64.StdEncoding`, `base64.URLEncoding`, `base32.StdEncoding`, `base32.HexEncoding` and hex.
pub data Encoding : Type 0 where
  base64 base64url base32 base32hex hex : Encoding

-- `EncodeToString` and `DecodeString`; `none` is an error.
pub record Encodings : Type 0 where
  pub encode : Encoding → Bytes → Bytes
  pub decode : Encoding → Bytes → Option Bytes

-- What a format stands for.
pub data ByteFormat : Type 0 where
  encoded : Encoding → ByteFormat
  as_string as_array unknown : ByteFormat

unfoldable pub byte_format : Bytes → ByteFormat
byte_format format =
    if bytes_eq format (codes "base64")
    then encoded base64
    else if bytes_eq format (codes "base64url")
    then encoded base64url
    else if bytes_eq format (codes "base32")
    then encoded base32
    else if bytes_eq format (codes "base32hex")
    then encoded base32hex
    else if bytes_eq format (codes "base16") || bytes_eq format (codes "hex")
    then encoded hex
    else if bytes_eq format (codes "string")
    then as_string
    else if bytes_eq format (codes "array")
    then as_array
    else unknown

pub data BytesError : Type 0 where
  no_arguments with_properties with_children bad_encoding : BytesError
  argument_count : ℕ → BytesError
  bad_format : Bytes → BytesError

pub data BytesResult (A : Type 0) : Type 0 where
  bytes_ok : A → BytesResult A
  bytes_error : BytesError → BytesResult A

abbrev or_base64 : Bytes → Bytes
or_base64 [] = codes "base64"
or_base64 (c ∷ format) = c ∷ format

-- `AddArgument(c, "")` for every byte.
abbrev byte_arguments : Bytes → List Any
byte_arguments [] = []
byte_arguments (c ∷ bs) = unsigned w8 c ∷ byte_arguments bs

module _ (encodings : Encodings) where
  abbrev marshal_as : Bytes → Bytes → ByteFormat → BytesResult Any
  marshal_as bs format (encoded e) = bytes_ok (string (encodings.encode e bs))
  marshal_as bs format as_string = bytes_ok (string bs)
  marshal_as bs format as_array = bytes_ok (Any.byte_slice bs)
  marshal_as bs format unknown = bytes_error (bad_format format)

  unfoldable pub marshal_byte_slice_value : Bytes → Bytes → BytesResult Any
  marshal_byte_slice_value bs format = marshal_as bs format (byte_format (or_base64 format))

  abbrev single : BytesResult Any → BytesResult (List Any)
  single (bytes_ok v) = bytes_ok (v ∷ [])
  single (bytes_error e) = bytes_error e

  -- The arguments of the node of `marshalByteSliceToNode`.
  unfoldable pub marshal_byte_slice_to_node : Bytes → Bytes → BytesResult (List Any)
  unfolding marshal_byte_slice_value
  marshal_byte_slice_to_node bs format =
      if bytes_eq format (codes "array")
      then bytes_ok (byte_arguments bs)
      else single (marshal_byte_slice_value bs format)

module _ (floats : FloatLib) (lib : ValueLib) (encodings : Encodings) where
  -- The format that is used where none is given.
  unfoldable pub chosen_format : Bytes → Value → List Value → Bytes
  unfolding is_numeric
  chosen_format [] arg rest =
      if ltb 0 (length rest) || is_numeric lib (any_of arg.value)
      then codes "array"
      else codes "base64"
  chosen_format (c ∷ format) arg rest = c ∷ format

  unfoldable pub array_bytes : List Value → Bytes
  unfolding to_byte resolved_value
  array_bytes [] = []
  array_bytes (arg ∷ args) = to_byte lib (resolved_value floats arg) ∷ array_bytes args

  abbrev or_bad_encoding : Option Bytes → BytesResult Bytes
  or_bad_encoding none = bytes_error bad_encoding
  or_bad_encoding (some bs) = bytes_ok bs

  abbrev unmarshal_as : Bytes → Bytes → ByteFormat → BytesResult Bytes
  unmarshal_as text format (encoded e) = or_bad_encoding (encodings.decode e text)
  unmarshal_as text format as_string = bytes_ok text
  unmarshal_as text format _ = bytes_error (bad_format format)

  unfoldable pub unmarshal_arguments : Bytes → List Value → BytesResult Bytes
  unfolding array_bytes value_string
  unmarshal_arguments format args =
      if bytes_eq format (codes "array") then bytes_ok (array_bytes args) else elim args [
        | [] ↦ bytes_error (argument_count 0)
        | arg ∷ rest ↦ elim rest [
          | [] ↦ unmarshal_as (value_string floats arg) format (byte_format format)
          | _ ∷ more ↦ bytes_error (argument_count (2 + length more))
        ]
      ]

  -- `unmarshalNodeToByteSlice`: the bytes that are set.
  unfoldable pub unmarshal_node_to_byte_slice : Node → Bytes → BytesResult Bytes
  unfolding unmarshal_arguments chosen_format len
  unmarshal_node_to_byte_slice n format = elim n.arguments [
    | [] ↦ bytes_error no_arguments
    | arg ∷ rest ↦
        if not (len n.properties == 0)
        then bytes_error with_properties
        else if not (length n.children == 0)
        then bytes_error with_children
        else unmarshal_arguments (chosen_format format arg rest) (arg ∷ rest)
  ]
