-- ===== src/Tests/Scanning.antt =====
-- internal/tokenizer/scanner.go and kdl.go: tests of the scanner, and the theorems about it on examples.
use gokdl.Base.{ℕ, ◌≡◌, refl, false, List, [], ◌∷◌, ◌++◌, Option, none, some, Bytes, codes, length}
use gokdl.Document.Quote.{no_escape, quote_string}
use gokdl.Document.Unquote.{unquote_string, done}
use gokdl.Kdl.Interleaved.{without_version, answer, tokens_given, parse_scanner-parse_one}
use gokdl.Kdl.Total.{Answered, parse-Answered}
use gokdl.Parser.Machine.Run.{parse_one}
use gokdl.Kdl.{parse_scanner, options_of}
use gokdl.Tokenizer.Readers.Number.{is_binary, read_numeric_base}
use gokdl.Tokenizer.Scanner.Bases.{Numeral, read_numeric_base-Numeral}
use gokdl.Tokenizer.Scanner.Excerpt.{extract_line_at_offset}
use gokdl.Tokenizer.Scanner.Excerpt.Bounds.{Given, extract_line_at_offset-Given}
use gokdl.Tokenizer.Scanner.Lines.{Lined, scan-Lined}
use gokdl.Tokenizer.Scanner.Lossless.{Tiles, scan-Tiles}
use gokdl.Tokenizer.Scanner.Next.{token_switch}
use gokdl.Tokenizer.Scanner.Ascii.{Ascii, nil, next}
use gokdl.Tokenizer.Scanner.Quotes.{token_switch-quote}
use gokdl.Kdl.{Parsed, parsed, scan_failed, parse_failed, parse}
use gokdl.Tests.Floats.{floats}
use gokdl.Tokenizer.Input.{decode, got}
use gokdl.Tokenizer.Scanner.Loop.{scan}
use gokdl.Tokenizer.Scanner.State.{new_slice}
use gokdl.Tokenizer.Token.{TokenId, Token, Version, version_auto, version_v1, version_v2}

abbrev shown : List Token → List (TokenId × Bytes)
shown [] = []
shown (t ∷ ts) = (t.id, t.content) ∷ shown ts

abbrev scanned : Version → Bytes → List (TokenId × Bytes)
scanned v s = shown (scan (new_slice 7 v s)).0

abbrev nodes_of : Parsed → Option ℕ
nodes_of (parsed v c) = some (length c.doc)
nodes_of (scan_failed e) = none
nodes_of (parse_failed r) = none

a_line :
    scanned version_v2 (codes "n 0x1F #true -1.5e3\r\n")
    ≡ (TokenId.bare_identifier, codes "n")
      ∷ (TokenId.whitespace, codes " ")
      ∷ (TokenId.hexadecimal, codes "0x1F")
      ∷ (TokenId.whitespace, codes " ")
      ∷ (TokenId.boolean, codes "#true")
      ∷ (TokenId.whitespace, codes " ")
      ∷ (TokenId.decimal, codes "-1.5e3")
      ∷ (TokenId.newline, codes "\r\n")
      ∷ []
unfolding scan new_slice gokdl.Tokenizer.CType.is_disallowed_v2_rune
a_line = refl

two_documents : nodes_of (parse floats false 0 version_auto (codes "a;b\n")) ≡ some 2
unfolding parse new_slice gokdl.Tokenizer.CType.is_disallowed_v2_rune
    gokdl.Parser.Machine.Step.parse_step gokdl.Parser.Machine.Transitions.find_handler
    gokdl.Parser.Machine.Transitions.state_transitions
    gokdl.Parser.Machine.Transitions.document_transitions gokdl.Tokenizer.Token.classes
    gokdl.Parser.Handlers.Outer.document_identifier gokdl.Document.Value.value_from_token
    gokdl.Parser.Context.parses_comments gokdl.Parser.Machine.Transitions.node_transitions
    gokdl.Parser.Handlers.InNode.node_terminator gokdl.Parser.Handlers.Outer.document_terminator
two_documents = refl

abbrev line : Bytes
line = codes "a 0x1F\r\n"

scan-Tiles_example : Tiles line (scan (new_slice 0 version_v2 line))
scan-Tiles_example = scan-Tiles 0 version_v2 line

scan-Lined_example : Lined version_v2 (decode line) 0 (scan (new_slice 0 version_v2 line)).0
scan-Lined_example = scan-Lined version_v2 refl 0 line

parse-Answered_example : Answered (parse floats false 0 version_auto line)
parse-Answered_example = parse-Answered floats false 0 line version_auto

parse_scanner-parse_one_example :
    without_version (parse_scanner floats false (new_slice 0 version_v2 line)).0
    ≡ answer (scan (new_slice 0 version_v2 line)).1 (
        parse_one floats
          (options_of (new_slice 0 version_v2 line) false)
          (tokens_given (scan (new_slice 0 version_v2 line))))
parse_scanner-parse_one_example = parse_scanner-parse_one floats false (new_slice 0 version_v2 line)

spoken : Ascii (codes "a\"\n")
unfolding no_escape
spoken = next b'a' refl (next b'"' refl (next b'\n' refl nil))

token_switch-quote_example :
    (token_switch (new_slice 0 version_v1 []) (decode (quote_string (codes "a\"\n") ++ codes ";"))
      ≡ got (TokenId.quoted_string, quote_string (codes "a\"\n")) (decode (codes ";")))
    × (unquote_string (quote_string (codes "a\"\n")) ≡ done (codes "a\"\n"))
unfolding new_slice decode
token_switch-quote_example =
    token_switch-quote (new_slice 0 version_v1 []) (codes ";") refl spoken (λ h. h)

read_numeric_base-Numeral_example : Numeral (read_numeric_base is_binary (decode (codes "0b101 ")))
read_numeric_base-Numeral_example = read_numeric_base-Numeral is_binary (decode (codes "0b101 "))

excerpt_shown : extract_line_at_offset (codes "a\nbc\nd") 3 ≡ some (codes "bc\n ^")
unfolding extract_line_at_offset
excerpt_shown = refl

extract_line_at_offset-Given_example : Given (extract_line_at_offset (codes "a\nbc\n") 5)
extract_line_at_offset-Given_example = extract_line_at_offset-Given (codes "a\nbc\n") 5
