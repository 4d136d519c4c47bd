-- ===== src/RequestParser/Multipart/Attributes.antt =====
-- src/onion/request_parser.c: the name and the file name of a part, `parse_POST_multipart_content_type`.
use onion.Prelude.{
  ℕ, ◌+◌, ◌-◌, [], ◌∷◌, Bool, false, ◌&&◌, none, some, ◌==◌, ltb, if◌then◌else◌, Bytes, codes,
  length, take, drop, get_or,
}
use onion.Strings.{strstr, c_string}
use onion.RequestParser.{Token, string_new_line, read_until}
use onion.RequestParser.Multipart.State.{
  Multipart, Progress, with_token, to_stage, headers_key, content_type, needs_more, fails, leaves,
}

-- The bytes of `token->str` behind the terminator are those of earlier tokens: `stale` is the memory
-- there, by its distance, and `stale 0` the byte before the copy.
abbrev pub Stale : Type 0
Stale = ℕ → ℕ

-- Of `l` bytes that are copied from `value` on, the byte at `i`.
unfoldable pub copied : Stale → Bytes → ℕ → ℕ
copied stale value i =
    if ltb i (length value) then get_or value i 0 else if i == length value then 0 else stale i

-- `*copy == '"' && copy[l - 2] == '"'`, where `copy[l]` is 0.
unfoldable pub is_quoted : Stale → Bytes → ℕ → Bool
unfolding copied
is_quoted stale [] l = false
is_quoted stale (c ∷ value) l =
    (ltb 0 l && (c == b'"'))
    && ((if ltb l 2 then stale 0 else copied stale (c ∷ value) (l - 2)) == b'"')

-- The text of the copy, without the first byte and cut at `l - 2` where it is quoted.
unfoldable pub attribute : Stale → Bytes → ℕ → Bytes
unfolding is_quoted
attribute stale value l =
    if is_quoted stale value l then drop 1 (take (l - 2) value) else take l value

-- Where `filename=` stands in the text: `l` is the length of the whole text less nine, whatever
-- stands before it.
unfoldable pub set_filename : Stale → Multipart → Bytes → Bytes → Progress
unfolding attribute
set_filename stale m str value =
    let l = length str - 9 in
    if ltb m.post_total_size l
    then fails
    else if ltb m.room (m.used + l + 1)
    then leaves
    else needs_more (record m { filename = some (attribute stale value l); used = m.used + l + 1 })
        []

-- Where `name=` does: `multipart->data` goes behind the cut text.
unfoldable pub set_name : Stale → Multipart → Bytes → Bytes → Progress
unfolding attribute
set_name stale m str value =
    let l = length str - 5 in
    if ltb m.post_total_size l
    then fails
    else if ltb m.room (m.used + l + 1)
    then leaves
    else needs_more
        (record m {
          name = some (attribute stale value l);
          used = if is_quoted stale value l then m.used + l else m.used + l + 1;
        })
        []

unfoldable pub set_attribute : Stale → Multipart → Bytes → Progress
unfolding set_filename set_name
set_attribute stale m str = elim (strstr str (codes "filename=")) [
  | some at ↦ set_filename stale m str (drop 9 at)
  | none ↦ elim (strstr str (codes "name=")) [
    | some at ↦ set_name stale m str (drop 5 at)
    | none ↦ needs_more m []
  ]
]

-- What is left goes on behind the attribute, in the next header at the end of the line.
unfoldable pub after_attribute : Token → Bytes → Progress → Progress
after_attribute string_new_line rest (needs_more m r) =
    needs_more (record m { stage = headers_key }) rest
after_attribute token rest (needs_more m r) = needs_more m rest
after_attribute token rest p = p

-- `parse_POST_multipart_content_type`
unfoldable pub parse_content_type : Stale → Multipart → Bytes → Progress
unfolding set_attribute after_attribute
parse_content_type stale m input = with_token m (read_until b';' m.text input) (λ token text rest.
    after_attribute token rest (set_attribute stale (to_stage m content_type) (c_string text)))
