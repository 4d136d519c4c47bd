-- ===== src/RequestParser/Query.antt =====
-- src/onion/request_parser.c: the query of a request and the fields of a form,
-- `onion_request_parse_query_to_dict` and `onion_request_parse_query`. `none` is a read behind a text,
-- which `onion_unquote_inplace` makes at a cut percent sign.
pub mod RoundTrip
use onion.Prelude.{
  ◌>>=◌, ℕ, ◌+◌, List, [], ◌∷◌, ◌++◌, Bool, true, false, Option, none, some, ◌==◌, if◌then◌else◌,
  Bytes, length,
}
use onion.Strings.{exact, c_string}
use onion.Codecs.Url.{unquote_inplace}
use onion.Dict.{Tree, null, no_flags, node_add}

-- The dictionary with one field more, as `onion_dict_add` of the two unquoted texts, each of which
-- ends at a 0 byte, one that unquoting wrote among them.
unfoldable pub add_field : Tree Bytes Bytes → Bytes → Bytes → Option (Tree Bytes Bytes)
add_field dict key value = do
  k ← unquote_inplace key
  v ← unquote_inplace value
  some (node_add dict (record { key = c_string k; value = c_string v; flags = no_flags }))

-- The loop and its end: `key` and `value` are the texts from their pointers to `p`, the value only in
-- state 1. A key with no value gets the empty text, but no empty key at the end.
unfoldable pub query_from :
    Tree Bytes Bytes → Bytes → Option Bytes → Bytes → Option (Tree Bytes Bytes)
query_from dict key none [] = if length key == 0 then some dict else add_field dict key []
query_from dict key (some value) [] = add_field dict key value
query_from dict key none (c ∷ p) =
    let value_next = query_from dict key (some []) p in
    let key_next = add_field dict key [] >>= λ d. query_from d [] none p in
    let more = query_from dict (key ++ c ∷ []) none p in
    if c == b'=' then value_next else if c == b'&' then key_next else more
query_from dict key (some value) (c ∷ p) =
    let key_next = add_field dict key value >>= λ d. query_from d [] none p in
    let more = query_from dict key (some (value ++ c ∷ [])) p in
    if c == b'&' then key_next else more

-- `onion_request_parse_query_to_dict`
unfoldable pub query_to_dict : Tree Bytes Bytes → Bytes → Option (Tree Bytes Bytes)
query_to_dict dict p = query_from dict [] none p

-- The path before the question mark, and the query behind it if there is one.
unfoldable pub split_query : Bytes → Bytes × Option Bytes
split_query [] = ([], none)
split_query (c ∷ p) =
    let later = split_query p in if c == b'?' then ([], some p) else (c ∷ later.0, later.1)

-- `onion_request_parse_query` of a path whose query was not parsed yet: the unquoted path, up to a
-- 0 byte, and GET.
unfoldable pub parse_parts : Bytes × Option Bytes → Option (Bytes × Option (Tree Bytes Bytes))
parse_parts (p, none) = do path ← unquote_inplace p; some (c_string path, none)
parse_parts (p, some query) = do
  path ← unquote_inplace p
  dict ← query_to_dict null query
  some (c_string path, some dict)

unfoldable pub parse_query : Bytes → Option (Bytes × Option (Tree Bytes Bytes))
unfolding parse_parts
parse_query fullpath = parse_parts (split_query fullpath)
