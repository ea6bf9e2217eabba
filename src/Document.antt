-- ===== src/Document.antt =====
-- document: the text of strings, values, properties and nodes.
pub mod Quote
pub mod Unquote
pub mod QuoteUnquote
pub mod RawString
pub mod MultiLine
pub mod SuffixedDecimal
pub mod Number
pub mod Flag
pub mod Value
pub mod MultiLineQuote
pub mod Render
pub mod Resolved
pub mod AsNumber
pub mod Properties
pub mod Writer
pub mod Node
