-- ===== src/Tokenizer.antt =====
-- internal/tokenizer: the scanner, its tokens and its character classes.
pub mod Token
pub mod CType
pub mod Input
pub mod Readers
pub mod Scanner
pub mod Takes
