-- ===== src/Tokenizer/Readers.antt =====
-- internal/tokenizer/readtype.go and scanner.go: the readers of the parts of a token.
pub mod While
pub mod Comments
pub mod Raw
pub mod Quoted
pub mod Triple
pub mod Hash
pub mod Bare
pub mod Number
pub mod Identifier
