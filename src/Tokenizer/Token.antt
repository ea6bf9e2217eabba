-- ===== src/Tokenizer/Token.antt =====
-- internal/tokenizer/token.go: versions, token kinds with their classes, and tokens.
use gokdl.Base.{ℕ, Bool, true, false, List, [], ◌∷◌, Bytes}

-- `VersionAuto` is 0, `VersionV1` is 1, `VersionV2` is 2.
pub data Version : Type 0 where
  version_auto version_v1 version_v2 : Version

abbrev pub is_v2 : Version → Bool
is_v2 version_v2 = true
is_v2 _ = false

-- The kinds of tokens, and behind `keyword` the classes, which share Go's type `TokenID`.
pub data TokenId : Type 0 where
  unknown newline whitespace multi_line_comment single_line_comment token_comment : TokenId
  type_spec decimal hexadecimal octal binary boolean null bare_identifier : TokenId
  suffixed_decimal raw_string quoted_string expression_string : TokenId
  brace_open brace_close parens_open parens_close equals semicolon : TokenId
  continuation eof keyword : TokenId
  class_whitespace class_value class_identifier class_non_string_value : TokenId
  class_number class_string class_terminator class_end_of_line class_comment : TokenId

abbrev number_classes : List TokenId
number_classes = class_number ∷ class_value ∷ class_non_string_value ∷ []

-- `Classes`; a kind that the table lacks has no class.
unfoldable pub classes : TokenId → List TokenId
classes newline = class_terminator ∷ class_whitespace ∷ class_end_of_line ∷ []
classes whitespace = class_whitespace ∷ []
classes multi_line_comment = class_comment ∷ []
classes single_line_comment = class_comment ∷ []
classes decimal = number_classes
classes hexadecimal = number_classes
classes octal = number_classes
classes binary = number_classes
classes suffixed_decimal = number_classes
classes boolean = class_value ∷ class_non_string_value ∷ []
classes null = class_value ∷ class_non_string_value ∷ []
classes bare_identifier = class_value ∷ class_identifier ∷ []
classes raw_string = class_value ∷ class_string ∷ class_identifier ∷ []
classes quoted_string = class_value ∷ class_string ∷ class_identifier ∷ []
classes expression_string = class_value ∷ class_string ∷ []
classes semicolon = class_terminator ∷ []
classes eof = class_terminator ∷ class_end_of_line ∷ []
classes keyword = class_value ∷ class_non_string_value ∷ []
classes _ = []

pub record Token : Type 0 where
  pub id : TokenId
  pub content : Bytes
  pub line : ℕ
  pub column : ℕ
  pub version : Version

-- `Valid`.
abbrev pub is_known : TokenId → Bool
is_known unknown = false
is_known _ = true

abbrev pub valid : Token → Bool
valid t = is_known t.id

-- The zero token, which `Clear` leaves.
abbrev pub cleared : Token
cleared = record { id = unknown; content = []; line = 0; column = 0; version = version_auto }
