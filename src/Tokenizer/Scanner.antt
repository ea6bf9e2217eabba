-- ===== src/Tokenizer/Scanner.antt =====
-- internal/tokenizer/scanner.go: the scanner, from its input to its tokens. `NewSlice` makes it: its input
-- is whole from the start, so `refill` has nothing to do.
pub mod State
pub mod Version
pub mod Next
pub mod Loop
pub mod Lossless
pub mod Ascii
pub mod Quotes
pub mod Bases
pub mod Lines
pub mod Excerpt
