-- ===== src/Codecs.antt =====
-- src/onion/codecs.c, one module for each codec.
pub mod Url
pub mod Html
pub mod Base64
pub mod Json
pub mod CQuote
