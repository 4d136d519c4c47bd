-- ===== src/RequestParser/Multipart.antt =====
-- src/onion/request_parser.c: the parsers of a multipart form, which go on where the machine of the
-- headers found a boundary.
pub mod State
pub mod Attributes
pub mod Fields
pub mod Files
pub mod Kept
pub mod Plain
pub mod Advances
pub mod Content
pub mod Termination
use mathlib.Core.Option
use onion.Prelude.{
  ℕ, zero, suc, [], ◌∷◌, Option, none, some, true, false, ◌==◌, if◌then◌else◌, Bytes, codes, length,
  map, get_or,
}
use onion.Strings.{exact, without_case, c_string, lower_case}
use onion.Prelude.{same_bytes}
use onion.RequestParser.{Token, new_line, multipart_end, read_key, read_line, read_multipart_next}
use onion.RequestParser.Machine.{Request, Server, Outcome, or_new, multipart_form, request_write}
use onion.RequestParser.Multipart.State.{
  Multipart, Progress, new_multipart, with_token, to_stage, put, start, next, headers_key,
  content_type, ignore_header, field_data, file_data, calls, needs_more, ready, fails, leaves,
}
use onion.RequestParser.Multipart.Attributes.{Stale, parse_content_type}
use onion.RequestParser.Multipart.Fields.{parse_data}
use onion.RequestParser.Multipart.Files.{parse_file}

-- `token_read_MULTIPART_BOUNDARY` and `parse_POST_multipart_start`.
unfoldable pub parse_start : Multipart → Bytes → Progress
parse_start m [] = needs_more m []
parse_start m (c ∷ rest) =
    let more = parse_start (record m { pos = suc m.pos }) rest in
    if m.pos == length m.boundary
    then calls (to_stage m next) (c ∷ rest)
    else if c == get_or m.boundary m.pos 0
    then more
    else fails

-- `parse_POST_multipart_next`
unfoldable pub after_next : Multipart → Token → Bytes → Progress
after_next m multipart_end rest = ready m rest
after_next m _ rest = calls (record (to_stage m headers_key) { name = none; filename = none }) rest

unfoldable pub parse_next : Multipart → Bytes → Progress
unfolding after_next
parse_next m input =
    with_token m (read_multipart_next m.text input)
      (λ token text rest. after_next (to_stage m next) token rest)

-- `parse_POST_multipart_headers_key` at the empty line, with the name that `mkstemp` makes.
unfoldable pub start_body : Server → Multipart → Bytes → Progress
start_body server m rest = elim (m.filename) [
  | none ↦ calls (record m { stage = field_data; pos = 0; post = some (or_new m.post) }) rest
  | some filename ↦
      calls
        (record m {
          stage = file_data;
          pos = 0;
          file = [];
          post = some (put (or_new m.post) m.name filename);
          files = some (put (or_new m.files) m.name server.temporary);
        })
        rest
]

unfoldable pub after_key : Server → Multipart → Token → Bytes → Bytes → Progress
unfolding start_body
after_key server m new_line text rest = start_body server m rest
after_key server m _ text rest =
    if same_bytes (map lower_case (c_string text)) (map lower_case (codes "Content-Disposition"))
    then calls (to_stage m content_type) rest
    else calls (to_stage m ignore_header) rest

-- `parse_POST_multipart_headers_key`
unfoldable pub parse_multipart_headers_key : Server → Multipart → Bytes → Progress
unfolding after_key
parse_multipart_headers_key server m input =
    with_token m (read_key m.text input)
      (λ token text rest. after_key server (to_stage m headers_key) token text rest)

-- `parse_POST_multipart_ignore_header`
unfoldable pub parse_ignore_header : Multipart → Bytes → Progress
parse_ignore_header m input =
    with_token m (read_line m.text input)
      (λ token text rest. needs_more (to_stage m headers_key) rest)

-- A call of `req->parser` while a form is read.
unfoldable pub parse : Server → Stale → Multipart → Bytes → Progress
parse server stale m input = elim (m.stage) [
  | start ↦ parse_start m input
  | next ↦ parse_next m input
  | headers_key ↦ parse_multipart_headers_key server m input
  | content_type ↦ parse_content_type stale m input
  | ignore_header ↦ parse_ignore_header m input
  | field_data ↦ parse_data m input
  | file_data ↦ parse_file server.max_file_size m input
]

-- The loop of `onion_request_write` while a form is read; the fuel counts the calls.
unfoldable pub run_form : ℕ → Server → Stale → Multipart → Bytes → Option Progress
run_form zero server stale m input = none
run_form (suc n) server stale m input = elim (parse server stale m input) [
  | calls m' rest ↦ run_form n server stale m' rest
  | needs_more m' rest ↦ elim rest [
    | [] ↦ some (needs_more m' [])
    | c ∷ more ↦ run_form n server stale m' (c ∷ more)
  ]
  | ready m' rest ↦ some (ready m' rest)
  | fails ↦ some fails
  | leaves ↦ some leaves
]

-- How the loop of `onion_request_write` ended: in the headers or the body of a request, or in a form.
pub data WriteEnd : Type 0 where
  of_headers : Outcome → WriteEnd
  of_form : Progress → WriteEnd

-- The loop behind the headers that announced a form.
unfoldable pub form_from : ℕ → Server → Stale → Request → Bytes → Bytes → Option WriteEnd
unfolding run_form
form_from n server stale req boundary rest = elim (new_multipart req (req.extra_size) boundary) [
  | none ↦ some (of_form leaves)
  | some m ↦ elim rest [
    | [] ↦ some (of_form (needs_more m []))
    | c ∷ more ↦ Option.map of_form (run_form n server stale m (c ∷ more))
  ]
]

-- `onion_request_write` of a request whose form was not begun: its loop as a whole.
unfoldable pub run_request : ℕ → Server → Stale → Request → Bytes → Option WriteEnd
unfolding form_from request_write
run_request n server stale req input = elim (request_write n server req input) [
  | none ↦ none
  | some (multipart_form req' boundary rest) ↦ form_from n server stale req' boundary rest
  | some o ↦ some (of_headers o)
]
