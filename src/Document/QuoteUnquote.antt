-- ===== src/Document/QuoteUnquote.antt =====
-- document/strings.go: what `UnquoteString` makes of the output of `QuoteString`.
pub mod Text
pub mod RoundTrip
pub mod Controls
