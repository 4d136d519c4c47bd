-- ===== src/RequestParser/Machine/Bodies.antt =====
-- src/onion/request_parser.c: the parsers of the bodies that are no multipart forms.
use onion.Prelude.{
  ◌+◌, ◌-◌, [], ◌++◌, none, some, ◌==◌, leb, min, if◌then◌else◌, Bytes, length, take, drop,
}
use onion.Strings.{exact, c_string}
use onion.Dict.{null}
use onion.RequestParser.Query.{query_to_dict}
use onion.RequestParser.Machine.State.{Request, Outcome, needs_more, ready, leaves}

-- `parse_CONTENT_LENGTH`
unfoldable pub parse_content_length : Request → Bytes → Outcome
parse_content_length req input =
    let current_size = length req.block in
    if leb req.extra_size (length input + current_size)
    then ready (record req { block = req.block ++ take (req.extra_size - current_size) input })
        (drop (req.extra_size - current_size) input)
    else needs_more (record req { block = req.block ++ input }) []

-- `parse_PUT`
unfoldable pub parse_put : Request → Bytes → Outcome
parse_put req input =
    let left = req.extra_size - length req.body in
    if leb left (length input)
    then ready (record req { body = req.body ++ take left input }) (drop left input)
    else needs_more (record req { body = req.body ++ input }) []

-- `token_read_URLENCODE` and `parse_POST_urlencode`. The size of the data is made less, and not the
-- place in it greater.
unfoldable pub parse_urlencode : Request → Bytes → Outcome
parse_urlencode req input =
    let l = min (length input) (req.extra_size - length req.body) in
    let body = req.body ++ take l input in
    let rest = take (length input - l) input in
    if length body == req.extra_size
    then (elim (query_to_dict null (c_string body)) [
      | none ↦ leaves
      | some post ↦ ready (record req { post = some post; body = [] }) rest
    ])
    else needs_more (record req { body = body }) rest
