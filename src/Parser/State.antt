-- ===== src/Parser/State.antt =====
-- internal/parser/state.go and errors.go: the states, and the errors with the words of their messages.
use Prim.Native.String.{String}
use gokdl.Base.{Bool, if◌then◌else◌}
use gokdl.Document.Value.{ValueError}
use gokdl.Tokenizer.Token.{TokenId}

pub data ParserState : Type 0 where
  document node node_params node_end arg_prop : ParserState
  property property_value children type_annot type_done : ParserState

-- `tokenLabel`; its default is the name of the kind.
unfoldable pub token_label : TokenId → String
token_label TokenId.bare_identifier = "identifier"
token_label TokenId.quoted_string = "string"
token_label TokenId.raw_string = "raw string"
token_label TokenId.expression_string = "expression string"
token_label TokenId.decimal = "number"
token_label TokenId.hexadecimal = "number"
token_label TokenId.octal = "number"
token_label TokenId.binary = "number"
token_label TokenId.suffixed_decimal = "number"
token_label TokenId.boolean = "boolean"
token_label TokenId.null = "null"
token_label TokenId.keyword = "keyword"
token_label TokenId.whitespace = "whitespace"
token_label TokenId.newline = "newline"
token_label TokenId.single_line_comment = "comment"
token_label TokenId.multi_line_comment = "comment"
token_label TokenId.token_comment = "token comment '/-'"
token_label TokenId.continuation = "line continuation '\\'"
token_label TokenId.brace_open = "'{'"
token_label TokenId.brace_close = "'}'"
token_label TokenId.parens_open = "'('"
token_label TokenId.parens_close = "')'"
token_label TokenId.equals = "'='"
token_label TokenId.semicolon = "';'"
token_label TokenId.eof = "end of input"
token_label TokenId.type_spec = "TypeSpec"
token_label _ = "(invalid)"

-- `expectedInState`; the flag is whether a type annotation is pending.
unfoldable pub expected_in_state : ParserState → Bool → String
expected_in_state ParserState.document typed =
    "a node name, type annotation, comment, newline, ';', or end of input"
expected_in_state ParserState.children typed =
    "a child node, comment, type annotation, newline, or '}'"
expected_in_state ParserState.type_annot typed = "a type name or string type annotation"
expected_in_state ParserState.type_done typed = "')' to close the type annotation"
expected_in_state ParserState.node typed =
    "whitespace, comment, '{', newline, ';', line continuation, or end of input"
expected_in_state ParserState.node_params typed =
    if typed
    then "a value after the type annotation"
    else "an argument, property, child block, comment, newline, ';', or end of input"
expected_in_state ParserState.node_end typed = "newline or end of input"
expected_in_state ParserState.property typed = "'=' after the property name"
expected_in_state ParserState.arg_prop typed =
    "'=' for a property, whitespace or newline to finish the argument, '{' for children, or end of input"
expected_in_state ParserState.property_value typed =
    if typed then "a property value after the type annotation" else "a property value"

-- An error with the words that its message is built from.
pub data ParseError : Type 0 where
  unexpected : String → String → ParseError
  unexpected_end : String → ParseError
  expected_value : String → ParseError
  end_before_value : ParseError
  missing_separator : String → ParseError
  after_ignored_block : String → ParseError
  end_after_ignored_block : ParseError
  value_failed : ValueError → ParseError
  node_stack_empty state_stack_empty : ParseError

-- `unexpectedToken`, over the state and whether a type annotation is pending.
unfoldable pub unexpected_error : ParserState → Bool → TokenId → ParseError
unexpected_error s typed TokenId.eof = unexpected_end (expected_in_state s typed)
unexpected_error s typed id = unexpected (token_label id) (expected_in_state s typed)

-- `expectedValueAfterType`.
unfoldable pub expected_value_error : TokenId → ParseError
expected_value_error TokenId.eof = end_before_value
expected_value_error id = expected_value (token_label id)

-- `unexpectedAfterIgnoredChildBlock`.
unfoldable pub ignored_block_error : TokenId → ParseError
ignored_block_error TokenId.eof = end_after_ignored_block
ignored_block_error id = after_ignored_block (token_label id)
