-- ===== src/RequestParser/Machine/Line.antt =====
-- src/onion/request_parser.c: the parsers of the request line, and `onion_request_methods` of
-- src/onion/request.c.
use onion.Prelude.{
  ℕ, ◌+◌, List, [], ◌∷◌, ◌||◌, Option, none, some, if◌then◌else◌, Bytes, codes, same_bytes,
}
use onion.Strings.{exact, c_string}
use onion.RequestParser.{Token, string, string_new_line, read_string, read_new_line}
use onion.RequestParser.Query.{parse_query}
use onion.RequestParser.Machine.State.{
  Request, Outcome, with_token, restarted, or_new, headers_url, headers_version,
  headers_key_skip_nl, headers_key, calls, not_implemented, leaves,
}

-- `onion_request_methods`
abbrev pub methods : List Bytes
methods =
    codes "GET"
    ∷ codes "POST"
    ∷ codes "HEAD"
    ∷ codes "OPTIONS"
    ∷ codes "PROPFIND"
    ∷ codes "PUT"
    ∷ codes "DELETE"
    ∷ codes "MOVE"
    ∷ codes "MKCOL"
    ∷ codes "PROPPATCH"
    ∷ codes "PATCH"
    ∷ []

-- The index of a text in the list, from the index of its head on.
unfoldable pub method_from : ℕ → List Bytes → Bytes → Option ℕ
method_from i [] str = none
method_from i (m ∷ ms) str =
    let later = method_from (i + 1) ms str in if same_bytes m str then some i else later

-- `parse_headers_GET`
unfoldable pub parse_headers_get : Request → Bytes → Outcome
parse_headers_get req input = with_token req (read_string req.text input) (λ token text rest.
    elim (method_from 0 methods (c_string text)) [
      | none ↦ not_implemented
      | some i ↦ calls (record (restarted req headers_url) { method = i }) rest
    ])

-- `parse_headers_URL`
unfoldable pub after_url : Request → Token → Bytes → Outcome
after_url req string rest = calls (record req { parser = headers_version }) rest
after_url req string_new_line rest = calls (record req { parser = headers_key }) rest
after_url req _ rest = calls (record req { parser = headers_version }) rest

unfoldable pub parse_headers_url : Request → Bytes → Outcome
unfolding after_url
parse_headers_url req input = with_token req (read_string req.text input) (λ token text rest.
    elim (parse_query (c_string text)) [
      | none ↦ leaves
      | some (path, query) ↦
          after_url (record (restarted req headers_url) { fullpath = some path; query = query })
            token rest
    ])

-- `parse_headers_VERSION`
unfoldable pub after_version : Request → Token → Bytes → Outcome
after_version req string_new_line rest = calls (record req { parser = headers_key }) rest
after_version req _ rest = calls (record req { parser = headers_key_skip_nl }) rest

unfoldable pub parse_headers_version : Request → Bytes → Outcome
unfolding after_version
parse_headers_version req input = with_token req (read_string req.text input) (λ token text rest.
    after_version
      (record (restarted req headers_version) {
        http11 = req.http11 || same_bytes (c_string text) (codes "HTTP/1.1");
        query = some (or_new req.query);
      })
      token rest)

-- `parse_headers_KEY_skip_NL`
unfoldable pub parse_headers_key_skip_nl : Request → Bytes → Outcome
parse_headers_key_skip_nl req input =
    with_token req (read_new_line req.text input)
      (λ token text rest. calls (restarted req headers_key) rest)
