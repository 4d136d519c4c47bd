-- ===== src/RequestParser/Chunks.antt =====
-- A token may come in pieces: reading one piece and then the next gives what reading both at once
-- gives.
use onion.Prelude.{
  ℕ, ◌+◌, ◌-◌, ◌≤◌, ◌<◌, [], ◌∷◌, ◌++◌, ◌||◌, ◌≡◌, refl, sym, ◌==◌, if◌then◌else◌, Bytes, length,
  arith, length-append, Bool-cases, inl, inr, lt→ltb, lt→leb,
}
use onion.Utils.{is_space}
use onion.RequestParser.{
  Token, string, line, until_token, line_str, string_new_line, Reading, found, need_more_data,
  internal_error, outside, str_size, terminate, after_byte, read_string, read_until, read_line,
  line_end, read_multipart_next, multipart_pair,
}

-- Goes on with more data: a reader that needs it reads it, and otherwise it stays unread.
abbrev pub resume : (Bytes → Bytes → Reading) → Reading → Bytes → Reading
resume read (found token text rest) more = found token text (rest ++ more)
resume read (need_more_data text) more = read text more
resume read internal_error more = internal_error
resume read outside more = outside

resume-terminate :
    (read : Bytes → Bytes → Reading) (token : Token) (text rest more : Bytes)
    → resume read (terminate token text rest) more ≡ terminate token text (rest ++ more)
unfolding terminate
resume-terminate read token text rest more = ground arith

resume-line_end :
    (read : Bytes → Bytes → Reading) (text rest more : Bytes)
    → resume read (line_end text rest) more ≡ line_end text (rest ++ more)
unfolding line_end
resume-line_end read [] rest more = refl
resume-line_end read (c ∷ text) rest more =
    resume-terminate read line (line_str (c ∷ text)) rest more

-- The test of the length does nothing to a text that fits.
after_byte-small :
    (read : Bytes → Bytes → Reading) (text rest : Bytes)
    → (read text [] ≡ need_more_data text)
    → length text < str_size - 1
    → after_byte text rest (read text rest) ≡ read text rest
unfolding after_byte
after_byte-small read text [] e h = sym e
after_byte-small read text (d ∷ rest) e h = rw (lt→leb (str_size - 1) (length text) h)

-- A line is read in two pieces as it is read at once, however long it is.
read_line-append :
    (text a b : Bytes) → resume read_line (read_line text a) b ≡ read_line text (a ++ b)
unfolding read_line line_end
read_line-append text [] b = refl
read_line-append text (c ∷ a) b = ground (
  arith,
  read_line-append text a b,
  read_line-append (text ++ c ∷ []) a b,
  resume-line_end read_line text a b,
)

-- So is what follows a multipart boundary.
pub read_multipart_next-append :
    (text a b : Bytes)
    → length text ≤ 1
    → resume read_multipart_next (read_multipart_next text a) b ≡ read_multipart_next text (a ++ b)
unfolding read_multipart_next multipart_pair
read_multipart_next-append [] [] b h = refl
read_multipart_next-append [] (c ∷ a) b h =
    ground (arith, read_multipart_next-append (c ∷ []) a b (omega arith))
read_multipart_next-append (c ∷ []) [] b h = refl
read_multipart_next-append (c ∷ []) (d ∷ a) b h = ground arith
read_multipart_next-append (c ∷ (d ∷ text)) a b h = absurd (omega arith)

-- A string is read in two pieces as it is read at once, where all the data fits in the token.
pub read_string-append :
    (text a b : Bytes)
    → length text + length (a ++ b) < str_size - 1
    → resume read_string (read_string text a) b ≡ read_string text (a ++ b)
unfolding read_string
read_string-append text [] b h = refl
read_string-append text (c ∷ a) b h = elim (Bool-cases (is_space c)) [
  | inl e ↦
      rw e (resume-terminate read_string (if c == b'\n' then string_new_line else string) text a b)
  | inr e ↦
      let longer : length (text ++ c ∷ []) ≡ length text + 1 = length-append text (c ∷ []) in
      rw
        (
          e,
          lt→ltb (length text) str_size (omega arith),
          after_byte-small read_string (text ++ c ∷ []) a refl (omega (arith, length-append a b)),
          after_byte-small read_string (text ++ c ∷ []) (a ++ b) refl (omega arith),
        )
        (read_string-append (text ++ c ∷ []) a b (omega arith))
]

-- A text up to a delimiter is read in two pieces as it is read at once, where all the data fits
-- in the token.
pub read_until-append :
    (delimiter : ℕ) (text a b : Bytes)
    → length text + length (a ++ b) < str_size - 1
    → resume (read_until delimiter) (read_until delimiter text a) b
      ≡ read_until delimiter text (a ++ b)
unfolding read_until
read_until-append delimiter text [] b h = refl
read_until-append delimiter text (c ∷ a) b h =
    let read = read_until delimiter in
    elim (Bool-cases ((c == delimiter) || (c == b'\n'))) [
      | inl e ↦ rw e (resume-terminate read (until_token delimiter c text) text a b)
      | inr e ↦ elim (Bool-cases (c == b'\r')) [
        | inl e' ↦
            rw
              (
                e,
                e',
                after_byte-small read text a refl (omega (arith, length-append a b)),
                after_byte-small read text (a ++ b) refl (omega arith),
              )
              (read_until-append delimiter text a b (omega arith))
        | inr e' ↦
            let longer : length (text ++ c ∷ []) ≡ length text + 1 = length-append text (c ∷ []) in
            rw
              (
                e,
                e',
                lt→ltb (length text) str_size (omega arith),
                after_byte-small read (text ++ c ∷ []) a refl (omega (arith, length-append a b)),
                after_byte-small read (text ++ c ∷ []) (a ++ b) refl (omega arith),
              )
              (read_until-append delimiter (text ++ c ∷ []) a b (omega arith))
      ]
    ]
