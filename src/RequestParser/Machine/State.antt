-- ===== src/RequestParser/Machine/State.antt =====
-- src/onion/request_parser.c, src/onion/request.c: what the parsers of a request read and change, and
-- what they do.
use onion.Prelude.{ℕ, [], Bool, true, false, Option, none, some, Bytes}
use onion.Strings.{exact, without_case, strstr}
use onion.Dict.{Tree, null, get}
use onion.RequestParser.{Token, Reading, found, need_more_data, internal_error, outside}

-- The functions that `req->parser` points to.
pub data Parser : Type 0 where
  headers_get : Parser
  headers_url : Parser
  headers_version : Parser
  headers_key_skip_nl : Parser
  headers_key : Parser
  headers_value : Parser
  headers_value_multiline_if_space : Parser
  headers_value_skip_leading_whitespace : Parser
  content_length : Parser
  put : Parser
  post_urlencode : Parser

-- What the parsers read and change of `onion_request` and its `onion_token`: `text` is `token->str`
-- up to `pos`, `extra` the key of the header that is being read, `extra_size` the size of the body.
-- `block` is `req->data`; `body` is what came of a form, in `token->extra`, or of the file of a PUT.
pub record Request : Type 0 where
  pub parser : Parser
  pub method : ℕ
  pub http11 : Bool
  pub fullpath : Option Bytes
  pub query : Option (Tree Bytes Bytes)
  pub headers : Tree Bytes Bytes
  pub post : Option (Tree Bytes Bytes)
  pub files : Option (Tree Bytes Bytes)
  pub text : Bytes
  pub extra : Option Bytes
  pub extra_size : ℕ
  pub block : Bytes
  pub body : Bytes

-- `onion_request_new`, with the parser and the token that `onion_request_write` makes first.
abbrev pub new_request : Request
new_request = record {
  parser = headers_get;
  method = 0;
  http11 = false;
  fullpath = none;
  query = none;
  headers = null;
  post = none;
  files = none;
  text = [];
  extra = none;
  extra_size = 0;
  block = [];
  body = [];
}

-- `max_post_size` and `max_file_size` of the server, and the name that `mkstemp` makes. Files that
-- cannot be written are not modelled.
pub record Server : Type 0 where
  pub max_post_size : ℕ
  pub max_file_size : ℕ
  pub temporary : Bytes

-- What a parser does: calls the parser that the request has now; returns OCS_NEED_MORE_DATA,
-- OCS_REQUEST_READY, OCS_INTERNAL_ERROR or OCS_NOT_IMPLEMENTED; or leaves the memory of a buffer.
-- `multipart_form` needs more data, with `parse_POST_multipart_start` and a boundary set.
pub data Outcome : Type 0 where
  calls : Request → Bytes → Outcome
  needs_more : Request → Bytes → Outcome
  ready : Request → Bytes → Outcome
  multipart_form : Request → Bytes → Bytes → Outcome
  fails : Outcome
  not_implemented : Outcome
  leaves : Outcome

-- The end of each parser that starts with a token reader: `res <= 1000` is returned.
abbrev pub with_token : Request → Reading → (Token → Bytes → Bytes → Outcome) → Outcome
with_token req (found token text rest) next = next token text rest
with_token req (need_more_data text) next = needs_more (record req { text = text }) []
with_token req internal_error next = fails
with_token req outside next = leaves

abbrev pub restarted : Request → Parser → Request
restarted req p = record req { parser = p; text = [] }

abbrev pub or_new : Option (Tree Bytes Bytes) → Tree Bytes Bytes
or_new none = null
or_new (some dict) = dict

abbrev pub header : Request → Bytes → Option Bytes
header req name = get ⦃o = without_case⦄ req.headers name

abbrev pub found_in : Bytes → Bytes → Bool
found_in s needle = elim (strstr s needle) [ none ↦ false | some t ↦ true ]
