-- ===== src/RequestParser/Write.antt =====
-- src/onion/request_parser.c: what `onion_request_write` makes of a request, and when it ends.
pub mod Steps
pub mod Headers
pub mod RoundTrip
pub mod NullByte
pub mod Folding
pub mod Consumes
pub mod Advances
pub mod Parsers
pub mod Termination
