-- ===== src/RequestParser/Machine/Values.antt =====
-- src/onion/request_parser.c: the parsers of the headers.
use onion.Prelude.{
  ◌+◌, [], ◌∷◌, ◌++◌, true, not, ◌&&◌, ◌||◌, Option, none, some, ◌==◌, ltb, leb, if◌then◌else◌,
  Bytes, codes, length,
}
use onion.Utils.{is_space}
use onion.Strings.{exact, without_case, c_string, atol}
use onion.Dict.{no_flags, node_add}
use onion.RequestParser.{Token, new_line, read_key, read_line}
use onion.RequestParser.Machine.State.{
  Request, Server, Outcome, with_token, restarted, header, found_in, headers_key, headers_value,
  headers_value_multiline_if_space, headers_value_skip_leading_whitespace, calls, needs_more, ready,
  leaves,
}
use onion.RequestParser.Machine.Prepare.{prepare_post, prepare_content_length, prepare_put}

-- `parse_headers_KEY` at the empty line: which body follows.
unfoldable pub headers_length : Server → Request → Bytes → Outcome
headers_length server req rest = elim (header req (codes "Content-Length")) [
  | none ↦ ready req rest
  | some content_size ↦
      let n = atol content_size in
      if not n.0 && ltb 0 n.1
      then prepare_content_length server req content_size rest
      else ready req rest
]

unfoldable pub headers_end : Server → Request → Bytes → Outcome
unfolding headers_length prepare_post prepare_put prepare_content_length
headers_end server req rest =
    let other =
      if req.method == 5 then prepare_put server req rest else headers_length server req rest in
    elim (header req (codes "Content-Type")) [
      | none ↦ other
      | some content_type ↦
          if (req.method == 1)
            && (found_in content_type (codes "application/x-www-form-urlencoded")
                || found_in content_type (codes "boundary"))
          then prepare_post server req content_type rest
          else other
    ]

-- `parse_headers_KEY`
unfoldable pub after_key : Server → Request → Token → Bytes → Bytes → Outcome
after_key server req new_line text rest = headers_end server req rest
after_key server req _ text rest =
    calls (record req { parser = headers_value; extra = some (c_string text) }) rest

unfoldable pub parse_headers_key : Server → Request → Bytes → Outcome
unfolding after_key
parse_headers_key server req input =
    with_token req (read_key req.text input)
      (λ token text rest. after_key server (restarted req headers_key) token text rest)

-- The text without the spaces before it.
unfoldable pub skip_spaces : Bytes → Bytes
skip_spaces [] = []
skip_spaces (c ∷ p) = let skipped = skip_spaces p in if is_space c then skipped else c ∷ p

-- `onion_dict_add` of a header; a key that is NULL is not added.
unfoldable pub add_header : Request → Option Bytes → Request
add_header req none = req
add_header req (some k) = record req {
  headers = node_add ⦃o = without_case⦄ req.headers (record {
    key = k;
    value = skip_spaces (c_string req.text);
    flags = record no_flags { free_key = true; free_value = true; dup_value = true };
  });
}

-- `parse_headers_VALUE_multiline_if_space`: where there is no next byte, or it is 0, it is called
-- again.
unfoldable pub multiline_if_space : Request → Bytes → Outcome
multiline_if_space req [] = needs_more (record req { parser = headers_value_multiline_if_space }) []
multiline_if_space req (peek ∷ rest) =
    if peek == 0
    then needs_more (record req { parser = headers_value_multiline_if_space }) (peek ∷ rest)
    else if (peek == b' ') || (peek == b'\t')
    then calls (record req { parser = headers_value_skip_leading_whitespace }) (peek ∷ rest)
    else needs_more (record (restarted (add_header req req.extra) headers_key) { extra = none })
        (peek ∷ rest)

-- `parse_headers_VALUE`
unfoldable pub parse_headers_value : Request → Bytes → Outcome
unfolding multiline_if_space
parse_headers_value req input =
    with_token req (read_line req.text input)
      (λ token text rest. multiline_if_space (record req { text = text }) rest)

-- `parse_headers_VALUE_skip_leading_whitespace`: two bytes are written to `str` without a test of
-- its size.
unfoldable pub skip_leading_whitespace : Request → Bytes → Outcome
skip_leading_whitespace req [] = needs_more req []
skip_leading_whitespace req (peek ∷ rest) =
    let more = skip_leading_whitespace req rest in
    if (peek == b'\t') || (peek == b' ')
    then more
    else if peek == b'\n'
    then needs_more req rest
    else if leb (length req.text + 2) 8192
    then calls (record req { parser = headers_value; text = req.text ++ b' ' ∷ peek ∷ [] }) rest
    else leaves
