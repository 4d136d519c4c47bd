-- ===== src/RequestParser/Multipart/Files.antt =====
-- src/onion/request_parser.c: the files of a form, `parse_POST_multipart_file`. `tmp` is the array on
-- the stack, up to `tmppos`. Files that cannot be written are not modelled.
use onion.Prelude.{
  ℕ, zero, suc, ◌+◌, [], ◌∷◌, ◌++◌, Option, none, some, ◌==◌, ltb, if◌then◌else◌, Bytes, length,
  take, drop, get_or,
}
use onion.RequestParser.Multipart.State.{Multipart, Progress, next, needs_more, fails}

-- What a round of the loop leaves: the state and `tmp`, or OCS_INTERNAL_ERROR.
abbrev pub Filed : Type 0
Filed = Option (Multipart × Bytes)

-- `sizeof(tmp)`
abbrev pub tmp_size : ℕ
tmp_size = 1024

-- `multipart->pos` and `multipart->startpos` before a byte is compared: a line feed at the start
-- counts as the second byte of the boundary.
unfoldable pub started : Multipart → ℕ → Multipart
started m c =
    if m.pos == 0
    then (if c == b'\n' then record m { pos = 1; startpos = 1 } else record m { startpos = 0 })
    else m

-- The bytes that were taken for a boundary are written, behind what is in `tmp`.
unfoldable pub released : Multipart → Bytes → Multipart
released m tmp = record m {
  file = m.file ++ (tmp ++ drop m.startpos (take m.pos m.boundary));
  file_total_size = m.file_total_size + m.pos;
  pos = 0;
  startpos = 0;
}

-- A byte of the file goes to `tmp`, which is written when it is full.
unfoldable pub kept : Multipart → Bytes → ℕ → Multipart × Bytes
kept m tmp c =
    let more = tmp ++ c ∷ [] in
    let m' = record m { file_total_size = m.file_total_size + 1 } in
    if length more == tmp_size then (record m' { file = m.file ++ more }, []) else (m', more)

-- A byte of the boundary, which is counted unless it is the last one.
unfoldable pub matched_byte : Multipart → Multipart
matched_byte m = record m {
  pos = suc m.pos;
  file_total_size =
      if suc m.pos == length m.boundary then m.file_total_size else m.file_total_size + 1;
}

-- The rounds for one byte: it is read again where it ends what was taken for a boundary. Two are
-- enough where the second byte of the boundary is a line feed.
unfoldable pub file_step : ℕ → ℕ → Multipart → Bytes → ℕ → Filed
unfolding started released kept matched_byte
file_step zero max_file_size m tmp c = none
file_step (suc n) max_file_size m tmp c =
    let m' = started m c in
    let again = file_step n max_file_size (released m' tmp) [] c in
    if c == get_or m'.boundary m'.pos 0
    then some (matched_byte m', tmp)
    else if ltb max_file_size m'.file_total_size
    then none
    else if m'.pos == 0
    then some (kept m' tmp c)
    else again

-- The end of the loop, where the boundary is whole or the data ends.
unfoldable pub end_file : Multipart → Bytes → Bytes → Progress
end_file m tmp rest =
    needs_more (record m { stage = next; text = []; pos = 0; startpos = 0; file = m.file ++ tmp })
      rest

unfoldable pub file_from : ℕ → Multipart → Bytes → Bytes → Progress
unfolding file_step end_file
file_from max_file_size m tmp [] = needs_more (record m { file = m.file ++ tmp }) []
file_from max_file_size m tmp (c ∷ rest) = elim (file_step 2 max_file_size m tmp c) [
  | none ↦ fails
  | some (m', tmp') ↦
      let more = file_from max_file_size m' tmp' rest in
      if m'.pos == length m'.boundary then end_file m' tmp' rest else more
]

-- `parse_POST_multipart_file`
unfoldable pub parse_file : ℕ → Multipart → Bytes → Progress
unfolding file_from
parse_file max_file_size m input = file_from max_file_size m [] input
