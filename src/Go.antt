-- ===== src/Go.antt =====
-- What the program uses of Go's standard library: unicode/utf8, unicode, strings and strconv.
pub mod Utf8
pub mod Strings
pub mod Strconv
