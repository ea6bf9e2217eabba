-- ===== src/Lib.antt =====
-- A model of the KDL library for Go: its scanner, its parser and its document values.
--
-- The program reads a KDL document, of version 1 or 2 of the language, in three parts. A scanner
-- (internal/tokenizer) cuts the text into tokens. A parser (internal/parser) is a state machine with
-- a stack of states and a stack of nodes, which is given one token at a time and builds a document.
-- The document (document) is a tree of nodes with a name, arguments, ordered properties and children;
-- its values are read from tokens and written back as text. parse in kdl.go joins the parts, and tries
-- version 2 and then version 1 where no version is set.
--
-- Files, and the code they model:
--   Base            byte strings, Boolean tests, lists over the native numbers, and integers
--   Go              what the code uses of unicode/utf8, unicode, strings and strconv
--   Tokenizer.Token internal/tokenizer/token.go: kinds, classes, versions, tokens
--   Tokenizer.CType internal/tokenizer/ctype.go and relaxed/relaxed.go: classes of runes
--   Tokenizer.Input internal/tokenizer/scanner.go: the input as runes, peek, get and the marks
--   Tokenizer.Readers   internal/tokenizer/readtype.go, with readWhile and readUntil of scanner.go:
--                   a reader for each kind of token
--   Tokenizer.Scanner   internal/tokenizer/scanner.go: detectVersion, readNext, Scan, ScanAll, ScanOne,
--                   and the excerpt in an error message
--   Kdl             kdl.go: parse and parseOne, from bytes to a document
--   Document.Quote, Document.Unquote           document/strings.go: quoted strings
--   Document.RawString                         document/strings.go and value.go: raw strings
--   Document.MultiLine, Document.MultiLineQuote   document/strings.go: multi-line strings
--   Document.SuffixedDecimal                   document/suffixeddec.go
--   Document.Number, Document.Flag, Document.Value   document/value.go: values from tokens
--   Document.Render                            document/value.go: the text of a value
--   Document.Properties, Document.Node         document/properties.go and node.go
--   Document.Writer document/node.go: WriteToOptions; Properties.string of document/properties.go
--   Generator       internal/generator/generator.go: Generate
--   Coerce          internal/coerce: conversions between Go values, a module for a file or two
--   Document.Resolved, Document.AsNumber       document/value.go and suffixeddec.go: what the marshaler
--                   takes of a value
--   Marshaler.Tags, Marshaler.TypeIndex, Marshaler.Structure   internal/marshaler/util.go and
--                   typeindex.go: names of fields, the index of types, kept comments
--   Marshaler.Durations, Marshaler.Formats, Marshaler.ByteSlices, Marshaler.Direct, Marshaler.Verify,
--   Marshaler.Texts
--                   internal/marshaler/marshal.go and unmarshal.go: formats, the setting of one
--                   variable, the check of a node
--   Marshaler.Keys  internal/marshaler/marshal_sort_keys.go
--   Parser.State    internal/parser/state.go and errors.go
--   Parser.Recent   internal/parser/recent.go: a ring of five tokens
--   Parser.Context  internal/parser/context.go: the parser's state and its operations
--   Parser.Handlers internal/parser/transitions.go: one function for each of the table's functions
--   Parser.Machine  the table stateTransitions, Parser.parse and Parse of internal/parser/parser.go,
--                   ParseAllContext, and the loop of parseOne in kdl.go
-- Document.QuoteUnquote, Tokenizer.Takes, Parser.Safety, Parser.Annotations and the child modules
-- Interleaved, Decimal, Units, Agreement, Rereading, NoQuotes, Growth, Closed, Contents, Ends,
-- Determinism, Bounds, Comments, Buffer, Text, Consumed, Lossless, Ascii, Quotes, Lines, Total,
-- Order, Terminator, Spelling, Bases, Window, Separators, Fuel, Totality and RoundTrip hold
-- proofs; Tests holds runs on concrete inputs.
--
-- State: `ParseContext` has the fields of the source's struct. A `*Node` is a number in a store of
-- nodes, so that the document, the node stack, the children and `lastAddedNode` share nodes as the
-- pointers do. A handler gives an `Outcome`: a context, a context with ErrReenterState, an error,
-- or a nil dereference. A slice out of range in ValueFromToken, where the source panics, is the error
-- `out_of_range`, which `parse` does not answer with another version. Strings and byte slices are lists
-- of bytes; a loop over an index is a recursion over the rest of the list. A float64 is its 64 bits;
-- reading and writing floats is strconv's and math/big's work and a parameter, `FloatLib`.
--
-- The scanner's input is whole from the start, as NewSlice has it; `Input` is what utf8.DecodeRune
-- makes of it. A reader is a function from an input to a value and the input behind it; a mark is
-- the input it was set at. The error of a reader has no position; where the input ends inside a
-- token, `place_at_end` says how far the code has come.
--
-- The writer has any io.Writer as a parameter, and bytes.TrimSpace. It writes trees, in which the
-- children stand in place of their numbers.
--
-- A value of type interface{} is an `Any`; a type switch is a function with the cases in the source's
-- order, where a case for an interface asks which values have its method. Floats, package time and
-- math/big's floats are the parameters `ValueLib` and `TimeLib`. A reflect.Type is a number, and what
-- package reflect says of it is a function; the index of types is a list of names with their details.
--
-- Fuel: `scan` has a round for each rune, as a token takes one; so have the loops of raw and of
-- multi-line strings in the scanner. `parse_tokens` has two rounds for each token, since a token
-- that is given again is taken the second time. The loops of unquoting have a round for each byte,
-- as a round takes one at least; the modules named Fuel say so. `index_type` has fuel for every type
-- that is not yet in the index and for the pointers and embedded structs before the next one.
--
-- Not modelled: the buffer of a scanner that reads from an io.Reader, with refill, and the cache of
-- peeked runes; the walks of the marshaler over Go values by reflection, with the calls of custom
-- functions and of methods; the Go types that a program but not the parser puts in a value when it is
-- written; capacities and allocation.
pub mod Base
pub mod Marshaler
pub mod Coerce
pub mod Go
pub mod Tokenizer
pub mod Document
pub mod Parser
pub mod Kdl
pub mod Generator
pub mod Tests
