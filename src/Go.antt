-- ===== src/Go.antt =====
-- What the program uses of Go's standard library, on texts as lists of bytes.
pub mod Strings
pub mod FilePath
pub mod Url
pub mod Decimal
