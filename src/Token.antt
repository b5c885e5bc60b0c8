-- ===== src/Token.antt =====
-- The LUKS2 token of mrcore/token.go: its JSON document as a map of raw fields. The encoding of each
-- field type, and of a map of raw fields, is a parameter (encoding/json).
pub mod Codec
mod Laws
mod Fields
pub mod RoundTrip
mod Sound
pub mod Toy
mod Tests
