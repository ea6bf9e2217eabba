-- ===== src/Marshaler/ByteSlices/RoundTrip.antt =====
-- internal/marshaler: bytes that are marshaled to the argument of a node, and unmarshaled from it.
use gokdl.Base.{ℕ, ◌≡◌, Bool, true, false, [], ◌∷◌, some, Bytes}
use gokdl.Coerce.{ValueLib, byte_of_int}
use gokdl.Coerce.Integers.{parse_int, parse_int_value}
use gokdl.Document.Node.{Node, new_node}
use gokdl.Document.Number
use gokdl.Go.Strconv.{FloatLib}
use gokdl.Marshaler.ByteSlices.{
  Encodings, ByteFormat, encoded, as_string, as_array, unknown, BytesResult, bytes_ok, base64,
  or_bad_encoding,
}

-- A node with the text as its one argument: flag and hashes are 0 where `AddArgument` made it, and those
-- of a quoted or a raw string where it was read.
abbrev pub text_node : Bytes → ℕ → ℕ → Node
text_node s flag hashes = record new_node {
  arguments =
      (record { type_annot = []; value = Number.string_value s; flag = flag; raw_hashes = hashes })
      ∷ [];
}

abbrev pub kind_is_array : ByteFormat → Bool
kind_is_array as_array = true
kind_is_array _ = false

module _ (floats : FloatLib) (lib : ValueLib) (encodings : Encodings) where
  -- The text that stands for the bytes in a format that makes one text of them.
  abbrev pub text_in : ByteFormat → Bytes → Bytes
  text_in (encoded e) bs = encodings.encode e bs
  text_in _ bs = bs

  -- The text can be read in the format.
  abbrev pub Readable : ByteFormat → Bytes → Type 0
  Readable (encoded e) bs = encodings.decode e (encodings.encode e bs) ≡ some bs
  Readable as_string bs = Unit
  Readable as_array bs = ⊥
  Readable unknown bs = ⊥

  -- With no format the text is base64, and it is taken for an array where it looks like a number.
  abbrev pub unmarshal_default : Bytes → Bool → BytesResult Bytes
  unfolding parse_int
  unmarshal_default text true = bytes_ok (byte_of_int (parse_int_value text) ∷ [])
  unmarshal_default text false = or_bad_encoding floats lib encodings (encodings.decode base64 text)
