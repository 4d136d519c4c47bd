-- ===== src/RequestParser/Multipart/Fields.antt =====
-- src/onion/request_parser.c: the fields of a form, `parse_POST_multipart_data`.
use onion.Prelude.{
  ℕ, suc, ◌+◌, ◌-◌, [], ◌∷◌, ◌++◌, ◌&&◌, ◌==◌, ltb, leb, some, if◌then◌else◌, Bytes, length, take,
  get_or,
}
use onion.Strings.{c_string}
use onion.RequestParser.Machine.{or_new}
use onion.RequestParser.Multipart.State.{Multipart, Progress, put, next, needs_more, fails, leaves}

-- The last byte of a text is cut off where it is `c`.
unfoldable pub cut_last : ℕ → Bytes → Bytes
cut_last c [] = []
cut_last c (d ∷ []) = if d == c then [] else d ∷ []
cut_last c (d ∷ (e ∷ s)) = d ∷ cut_last c (e ∷ s)

-- The end of a field: a line feed at its end is cut off, then a carriage return. The latter is left
-- in `token->pos`, by which `multipart->data` goes on.
unfoldable pub end_field : Multipart → Bytes → Progress
unfolding cut_last
end_field m rest =
    let cut = cut_last b'\n' m.field in
    let value = cut_last b'\r' cut in
    if leb m.room (m.used + length value)
    then leaves
    else needs_more
        (record m {
          stage = next;
          text = [];
          pos = 0;
          field = [];
          used = m.used + length cut + 1;
          post = some (put (or_new m.post) m.name (c_string value));
        })
        rest

-- The bytes that were taken for a boundary: as many are copied from the byte that is read now on.
unfoldable pub copy_again : Multipart → Bytes → Progress
copy_again m input =
    if m.pos == 0
    then needs_more m input
    else if leb m.post_total_size m.pos
    then fails
    else if ltb (length input) m.pos
    then leaves
    else if ltb m.room (m.used + length m.field + m.pos)
    then leaves
    else needs_more
        (record m {
          field = m.field ++ take m.pos input;
          post_total_size = m.post_total_size - m.pos;
          pos = 0;
        })
        input

-- One byte that belongs to the field.
unfoldable pub add_byte : ℕ → Progress → Progress
add_byte c (needs_more m (d ∷ rest)) =
    if m.post_total_size == 0
    then fails
    else if ltb m.room (m.used + length m.field + 1)
    then leaves
    else needs_more
        (record m { field = m.field ++ c ∷ []; post_total_size = m.post_total_size - 1 }) rest
add_byte c p = p

-- A line feed at the start counts as the second byte of the boundary.
abbrev pub at_line_feed : ℕ → ℕ → ℕ
at_line_feed pos c = if (pos == 0) && (c == b'\n') then 1 else pos

-- One round of the loop of `parse_POST_multipart_data`: a byte of the boundary, or of the field.
unfoldable pub data_step : Multipart → ℕ → Bytes → Progress
unfolding copy_again add_byte
data_step m c rest =
    let pos = at_line_feed m.pos c in
    if c == get_or m.boundary pos 0
    then needs_more (record m { pos = suc pos }) rest
    else add_byte c (copy_again (record m { pos = pos }) (c ∷ rest))

-- `parse_POST_multipart_data`
unfoldable pub parse_data : Multipart → Bytes → Progress
unfolding data_step end_field
parse_data m [] = needs_more m []
parse_data m (c ∷ rest) = elim (data_step m c rest) [
  | needs_more m' r ↦
      let more = parse_data m' rest in
      if m'.pos == length m'.boundary then end_field m' rest else more
  | other ↦ other
]
