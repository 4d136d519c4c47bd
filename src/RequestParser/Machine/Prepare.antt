-- ===== src/RequestParser/Machine/Prepare.antt =====
-- src/onion/request_parser.c: what is made ready for the body of a request.
use onion.Prelude.{ℕ, [], none, some, ◌==◌, ltb, min, if◌then◌else◌, Bytes, codes, drop}
use onion.Strings.{exact, strstr, atol, to_size}
use onion.Dict.{Entry, no_flags, node_add}
use onion.RequestParser.Machine.State.{
  Request, Server, Outcome, or_new, header, found_in, content_length, put, post_urlencode,
  needs_more, ready, multipart_form, fails,
}

-- `prepare_POST`
unfoldable pub prepare_urlencode : Server → Request → ℕ → Bytes → Outcome
prepare_urlencode server req cl rest =
    if ltb server.max_post_size cl
    then fails
    else needs_more (record req { parser = post_urlencode; extra_size = cl; body = [] }) rest

unfoldable pub prepare_multipart : Server → Request → Bytes → ℕ → Bytes → Outcome
prepare_multipart server req content_type cl rest = elim (strstr content_type (codes "boundary=")) [
  | none ↦ fails
  | some mp_token ↦
      multipart_form (record req { extra_size = min cl server.max_post_size }) (drop 9 mp_token)
        rest
]

unfoldable pub prepare_post : Server → Request → Bytes → Bytes → Outcome
unfolding prepare_urlencode prepare_multipart
prepare_post server req content_type rest = elim (header req (codes "Content-Length")) [
  | none ↦ fails
  | some content_size ↦
      let cl = to_size (atol content_size) in
      if cl == 0
      then ready req rest
      else if found_in content_type (codes "application/x-www-form-urlencoded")
      then prepare_urlencode server req cl rest
      else prepare_multipart server req content_type cl rest
]

-- `prepare_CONTENT_LENGTH`
unfoldable pub prepare_content_length : Server → Request → Bytes → Bytes → Outcome
prepare_content_length server req content_size rest =
    let cl = to_size (atol content_size) in
    if ltb server.max_post_size cl
    then fails
    else needs_more (record req { parser = content_length; extra_size = cl; block = [] }) rest

-- `prepare_PUT`
unfoldable pub prepare_put : Server → Request → Bytes → Outcome
prepare_put server req rest = elim (header req (codes "Content-Length")) [
  | none ↦ fails
  | some content_size ↦
      let cl = to_size (atol content_size) in
      let entry : Entry Bytes Bytes = record {
        key = codes "filename";
        value = server.temporary;
        flags = no_flags;
      } in
      let req' = record req {
        block = server.temporary;
        files = some (node_add (or_new req.files) entry);
        body = [];
      } in
      if ltb server.max_file_size cl
      then fails
      else if cl == 0
      then ready req' rest
      else needs_more (record req' { parser = put; extra_size = cl }) rest
]
