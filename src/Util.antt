-- ===== src/Util.antt =====
-- util/: tokens, with the two encodings of Go's standard library that they use.
pub mod Assign
pub mod Backoff
pub mod Base64
pub mod Hex
pub mod Token
