-- ===== src/RequestParser/Machine.antt =====
-- src/onion/request_parser.c: the state machine of `onion_request_write` over the token readers, for
-- the request line, the headers and the bodies that are no multipart forms. `req->parser` is a
-- `Parser`; a parser that ends in a call of the next one gives `calls`. A multipart form is left to
-- RequestParser/Multipart.
pub mod State
pub mod Line
pub mod Prepare
pub mod Values
pub mod Bodies
pub use onion.RequestParser.Machine.State.{
  Parser, Request, new_request, Server, Outcome, with_token, restarted, or_new, header, found_in,
  headers_get, headers_url, headers_version, headers_key_skip_nl, headers_key, headers_value,
  headers_value_multiline_if_space, headers_value_skip_leading_whitespace, content_length, put,
  post_urlencode, calls, needs_more, ready, multipart_form, fails, not_implemented, leaves,
}
pub use onion.RequestParser.Machine.Line.{methods}
unfoldable pub use onion.RequestParser.Machine.Line.{
  method_from, parse_headers_get, after_url, parse_headers_url, after_version,
  parse_headers_version, parse_headers_key_skip_nl,
}
unfoldable pub use onion.RequestParser.Machine.Prepare.{
  prepare_urlencode, prepare_multipart, prepare_post, prepare_content_length, prepare_put,
}
unfoldable pub use onion.RequestParser.Machine.Values.{
  headers_length, headers_end, after_key, parse_headers_key, skip_spaces, add_header,
  multiline_if_space, parse_headers_value, skip_leading_whitespace,
}
unfoldable pub use onion.RequestParser.Machine.Bodies.{
  parse_content_length, parse_put, parse_urlencode,
}
use onion.Prelude.{ℕ, zero, suc, [], ◌∷◌, Option, none, some, Bytes}

-- A call of `req->parser`.
unfoldable pub parse : Server → Request → Bytes → Outcome
parse server req input = elim (req.parser) [
  | headers_get ↦ parse_headers_get req input
  | headers_url ↦ parse_headers_url req input
  | headers_version ↦ parse_headers_version req input
  | headers_key_skip_nl ↦ parse_headers_key_skip_nl req input
  | headers_key ↦ parse_headers_key server req input
  | headers_value ↦ parse_headers_value req input
  | headers_value_multiline_if_space ↦ multiline_if_space req input
  | headers_value_skip_leading_whitespace ↦ skip_leading_whitespace req input
  | content_length ↦ parse_content_length req input
  | put ↦ parse_put req input
  | post_urlencode ↦ parse_urlencode req input
]

-- The loop of `onion_request_write` up to the body of a multipart form, where `run_request` of Multipart
-- goes on: calls the parser while there is data, and at once after `calls`. The fuel counts the calls;
-- `none` is that it ran out.
unfoldable pub run : ℕ → Server → Request → Bytes → Option Outcome
run zero server req input = none
run (suc n) server req input = elim (parse server req input) [
  | calls req' rest ↦ run n server req' rest
  | needs_more req' rest ↦ elim rest [
    | [] ↦ some (needs_more req' [])
    | c ∷ more ↦ run n server req' (c ∷ more)
  ]
  | ready req' rest ↦ some (ready req' rest)
  | multipart_form req' boundary rest ↦ some (multipart_form req' boundary rest)
  | fails ↦ some fails
  | not_implemented ↦ some not_implemented
  | leaves ↦ some leaves
]

-- `onion_request_write`
unfoldable pub request_write : ℕ → Server → Request → Bytes → Option Outcome
unfolding run
request_write n server req [] = some (needs_more req [])
request_write n server req (c ∷ input) = run n server req (c ∷ input)
