-- ===== src/Codecs/Html.antt =====
-- src/onion/codecs.c: HTML quoting, `onion_html_add_enc`, `onion_html_encoding_size`,
-- `onion_html_quote` and `onion_html_quote_dup`;
-- src/onion/response.c: `onion_response_write_html_safe`.
pub mod Decode
use onion.Prelude.{
  ℕ, ◌+◌, List, [], ◌∷◌, ◌++◌, Option, none, some, ◌==◌, if◌then◌else◌, Bytes, codes, length,
}

-- `onion_html_add_enc`: the bytes that are inserted for `c`.
unfoldable pub html_add_enc : ℕ → Bytes
html_add_enc c =
    if c == b'<'
    then codes "&lt;"
    else if c == b'>'
    then codes "&gt;"
    else if c == b'"'
    then codes "&quot;"
    else if c == b'&'
    then codes "&amp;"
    else if c == b'\''
    then codes "&#39;"
    else c ∷ []

-- `onion_html_encoding_size`
unfoldable pub html_encoding_size : ℕ → ℕ
html_encoding_size c =
    if c == b'<'
    then 4
    else if c == b'>'
    then 4
    else if c == b'&'
    then 5
    else if c == b'"'
    then 6
    else if c == b'\''
    then 5
    else 1

-- The first loop of `onion_html_quote`, from the size so far.
unfoldable pub html_size : ℕ → Bytes → ℕ
unfolding html_encoding_size
html_size size [] = size
html_size size (c ∷ p) = html_size (size + html_encoding_size c) p

-- The second loop, from what is written before `t`.
unfoldable pub html_write : Bytes → Bytes → Bytes
unfolding html_add_enc
html_write t [] = t
html_write t (c ∷ p) = html_write (t ++ html_add_enc c) p

-- `onion_html_quote`: `none` is NULL.
unfoldable pub html_quote : Bytes → Option Bytes
unfolding html_size html_write
html_quote str = if html_size 0 str == length str then none else some (html_write [] str)

-- `onion_html_quote_dup` of a text that is not NULL: where nothing needs quoting it duplicates
-- `quostr`, which is NULL then, and `onion_low_strdup` returns NULL.
unfoldable pub html_quote_dup : Bytes → Option Bytes
unfolding html_quote
html_quote_dup str = html_quote str

-- src/onion/response.c, `onion_response_write_html_safe`: the text that is handed to
-- `onion_response_write0`.
unfoldable pub html_safe : Bytes → Bytes
unfolding html_quote
html_safe str = elim (html_quote str) [ none ↦ str | some tmp ↦ tmp ]
