-- ===== src/Mime.antt =====
-- src/onion/mime.c: the types of files by their extensions, and the reader of /etc/mime.types.
pub mod Bounds
use onion.Prelude.{
  ℕ, List, [], ◌∷◌, ◌++◌, Bool, true, false, ◌&&◌, not, Option, none, some, ◌==◌, leb,
  if◌then◌else◌, Bytes, codes, length,
}
use onion.Utils.{is_space}
use onion.Dict.{Entry, Tree, null, dup_all, get, node_add, remove}
use onion.Dict.Order.{KeyOrder}

-- What is being skipped: nothing, a comment, or the rest of a line that does not fit.
pub data Skip : Type 0 where
  nothing : Skip
  comment : Skip
  long_line : Skip

-- The state of the loop of `onion_mime_fill`: `mode`, the text up to `i` in the buffer of that mode,
-- the finished text of `mimetype`, and the additions to the dictionary so far, the last one first.
pub record Filling : Type 0 where
  pub skip : Skip
  pub in_extension : Bool
  pub text : Bytes
  pub mimetype : Bytes
  pub added : List (Bytes × Bytes)

abbrev pub add : Filling → Filling
add s = record s { text = []; added = (s.text, s.mimetype) ∷ s.added }

-- The body of the loop for a character that is not skipped.
unfoldable pub take_char : Filling → ℕ → Filling
take_char s c =
    let some_text = not (length (s.text) == 0) in
    if c == b'\n'
    then (if s.in_extension && some_text
        then record (add s) { in_extension = false }
        else record s { in_extension = false; text = [] })
    else if is_space c
    then (if not s.in_extension
        then record s { in_extension = true; mimetype = s.text; text = [] }
        else if some_text
        then add s
        else s)
    else if not s.in_extension
    then (if leb 127 (length (s.text))
        then record s { skip = long_line }
        else record s { text = s.text ++ c ∷ [] })
    else if leb 7 (length (s.text))
    then record (add s) { in_extension = false; skip = long_line }
    else record s { text = s.text ++ c ∷ [] }

-- One character of the file. The line feed that ends a comment is taken, the one that ends a long
-- line is not.
unfoldable pub step : Filling → ℕ → Filling
step s c = elim (s.skip) [
  | nothing ↦ if c == b'#' then record s { skip = comment } else take_char s c
  | comment ↦ if c == b'\n' then take_char (record s { skip = nothing }) c else s
  | long_line ↦ if c == b'\n' then record s { skip = nothing } else s
]

-- The end of the file, which is taken as the character 255 where it ends a comment.
unfoldable pub finish_file : Filling → Filling
finish_file s = elim (s.skip) [
  | nothing ↦ s
  | comment ↦ take_char (record s { skip = nothing }) 255
  | long_line ↦ s
]

unfoldable pub fill_from : Filling → Bytes → Filling
fill_from s [] = finish_file s
fill_from s (c ∷ file) = fill_from (step s c) file

abbrev pub start : Filling
start = record { skip = nothing; in_extension = false; text = []; mimetype = []; added = [] }

-- The text behind the last full stop, or the whole text: the first loop of `onion_mime_get`.
unfoldable pub extension_from : Bytes → Bytes → Bytes
extension_from extension [] = extension
extension_from extension (c ∷ filename) =
    extension_from (if c == b'.' then filename else extension) filename

module _ ⦃o : KeyOrder Bytes⦄ where
  -- The additions of `onion_mime_fill`, in their order.
  unfoldable pub add_all : List (Bytes × Bytes) → Tree Bytes Bytes
  add_all [] = null
  add_all ((extension, mimetype) ∷ added) =
      node_add (add_all added) (record { key = extension; value = mimetype; flags = dup_all })

  -- `onion_mime_fill` of a file that could be read.
  unfoldable pub fill : Bytes → Tree Bytes Bytes
  fill file = add_all ((fill_from start file).added)

  -- `onion_mime_get` in a dictionary that is there.
  unfoldable pub mime_get : Tree Bytes Bytes → Bytes → Bytes
  mime_get mime_dict filename = elim (get mime_dict (extension_from filename filename)) [
    | none ↦ codes "text/plain"
    | some r ↦ r
  ]

  -- `onion_mime_update` of a dictionary that is there: `none` is NULL.
  unfoldable pub mime_update : Tree Bytes Bytes → Bytes → Option Bytes → Tree Bytes Bytes
  mime_update mime_dict extension none = remove mime_dict extension
  mime_update mime_dict extension (some mimetype) =
      node_add mime_dict (record { key = extension; value = mimetype; flags = dup_all })
