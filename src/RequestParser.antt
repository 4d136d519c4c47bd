-- ===== src/RequestParser.antt =====
-- src/onion/request_parser.c: the token readers, which are called again with the next data until a
-- token is whole. A token's `str` up to its `pos` is the list of bytes `text`, and `pos` its length;
-- `data` is the list of the bytes that are not read yet.
pub mod Chunks
pub mod Words
pub mod Overrun
pub mod Query
pub mod Machine
pub mod Multipart
pub mod Write
use onion.Prelude.{
  ℕ, ◌+◌, ◌-◌, List, [], ◌∷◌, ◌++◌, Bool, true, false, ◌&&◌, ◌||◌, ◌==◌, ltb, leb, if◌then◌else◌,
  Bytes, length,
}
use onion.Utils.{is_space}

-- `onion_token_token`
pub data Token : Type 0 where
  string : Token
  key : Token
  line : Token
  new_line : Token
  multipart_end : Token
  multipart_next : Token
  string_new_line : Token

-- What a reader returns: a token with the text in `str` and the data behind it; or OCS_NEED_MORE_DATA
-- and the text so far; or OCS_INTERNAL_ERROR, at which the connection is closed. `outside` is a read
-- or a write that does not lie in `str`.
pub data Reading : Type 0 where
  found : Token → Bytes → Bytes → Reading
  need_more_data : Bytes → Reading
  internal_error : Reading
  outside : Reading

-- `sizeof(token->str)`
abbrev pub str_size : ℕ
str_size = 8192

-- The end of a token: its terminator is written behind the text.
unfoldable pub terminate : Token → Bytes → Bytes → Reading
terminate token text rest = if ltb (length text) str_size then found token text rest else outside

-- What follows a byte in the loops: the length of the text is tested only where there is more data.
unfoldable pub after_byte : Bytes → Bytes → Reading → Reading
after_byte text [] more = need_more_data text
after_byte text (d ∷ rest) more = if leb (str_size - 1) (length text) then internal_error else more

-- `token_read_STRING`
unfoldable pub read_string : Bytes → Bytes → Reading
read_string text [] = need_more_data text
read_string text (c ∷ rest) =
    let more = read_string (text ++ c ∷ []) rest in
    if is_space c
    then terminate (if c == b'\n' then string_new_line else string) text rest
    else if ltb (length text) str_size
    then after_byte (text ++ c ∷ []) rest more
    else outside

-- The end of `token_read_until`.
unfoldable pub until_token : ℕ → ℕ → Bytes → Token
until_token delimiter c text =
    if c == delimiter then string else if length text == 0 then new_line else string_new_line

-- `token_read_until`: a carriage return is read and not kept.
unfoldable pub read_until : ℕ → Bytes → Bytes → Reading
read_until delimiter text [] = need_more_data text
read_until delimiter text (c ∷ rest) =
    let same = read_until delimiter text rest in
    let more = read_until delimiter (text ++ c ∷ []) rest in
    if (c == delimiter) || (c == b'\n')
    then terminate (until_token delimiter c text) text rest
    else if c == b'\r'
    then after_byte text rest same
    else if ltb (length text) str_size
    then after_byte (text ++ c ∷ []) rest more
    else outside

-- `token_read_KEY`
unfoldable pub key_of : Reading → Reading
key_of (found string text rest) = found key text rest
key_of (found string_new_line text rest) = internal_error
key_of (found key text rest) = found key text rest
key_of (found line text rest) = found line text rest
key_of (found new_line text rest) = found new_line text rest
key_of (found multipart_end text rest) = found multipart_end text rest
key_of (found multipart_next text rest) = found multipart_next text rest
key_of (need_more_data text) = need_more_data text
key_of internal_error = internal_error
key_of outside = outside

unfoldable pub read_key : Bytes → Bytes → Reading
read_key text rest = key_of (read_until b':' text rest)

-- `str` at the end of a line: a carriage return there becomes a terminator, and `pos` stays.
unfoldable pub line_str : Bytes → Bytes
line_str [] = []
line_str (c ∷ []) = (if c == b'\r' then 0 else c) ∷ []
line_str (c ∷ (d ∷ text)) = c ∷ line_str (d ∷ text)

-- The end of `token_read_LINE`. On an empty line the byte before `str` is read.
unfoldable pub line_end : Bytes → Bytes → Reading
line_end [] rest = outside
line_end (c ∷ text) rest = terminate line (line_str (c ∷ text)) rest

-- `token_read_LINE`: what does not fit is ignored.
unfoldable pub read_line : Bytes → Bytes → Reading
read_line text [] = need_more_data text
read_line text (c ∷ rest) =
    let same = read_line text rest in
    let more = read_line (text ++ c ∷ []) rest in
    if c == b'\n'
    then line_end text rest
    else if leb (str_size - 1) (length text)
    then same
    else more

-- `token_read_MULTIPART_next`: the two bytes behind a boundary, or a line feed alone.
unfoldable pub multipart_pair : ℕ → ℕ → Bytes → Reading
multipart_pair c d rest =
    if (c == b'-') && (d == b'-')
    then found multipart_end (c ∷ d ∷ []) rest
    else if (c == b'\r') && (d == b'\n')
    then found multipart_next (c ∷ d ∷ []) rest
    else internal_error

unfoldable pub read_multipart_next : Bytes → Bytes → Reading
read_multipart_next [] [] = need_more_data []
read_multipart_next [] (c ∷ rest) =
    let more = read_multipart_next (c ∷ []) rest in
    if c == b'\n' then found multipart_next (c ∷ []) rest else more
read_multipart_next (c ∷ []) [] = need_more_data (c ∷ [])
read_multipart_next (c ∷ []) (d ∷ rest) = multipart_pair c d rest
read_multipart_next (c ∷ (d ∷ [])) rest = multipart_pair c d rest
read_multipart_next (c ∷ (d ∷ (e ∷ text))) rest = need_more_data (c ∷ d ∷ e ∷ text)

-- `token_read_NEW_LINE`, which forgets what it read where it needs more data.
unfoldable pub new_line_pair : ℕ → ℕ → Bytes → Reading
new_line_pair c d rest =
    if (c == b'\r') && (d == b'\n') then found new_line (c ∷ d ∷ []) rest else internal_error

unfoldable pub read_new_line : Bytes → Bytes → Reading
read_new_line [] [] = need_more_data []
read_new_line [] (c ∷ rest) =
    let more = read_new_line (c ∷ []) rest in
    if c == b'\n' then found new_line (c ∷ []) rest else more
read_new_line (c ∷ []) [] = need_more_data []
read_new_line (c ∷ []) (d ∷ rest) = new_line_pair c d rest
read_new_line (c ∷ (d ∷ [])) rest = new_line_pair c d rest
read_new_line (c ∷ (d ∷ (e ∷ text))) rest = need_more_data []
