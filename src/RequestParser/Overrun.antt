-- ===== src/RequestParser/Overrun.antt =====
-- When the readers leave the memory of a token.
use onion.Prelude.{
  ◌+◌, ◌-◌, ◌≤◌, ◌<◌, [], ◌∷◌, ◌++◌, false, ◌≡◌, ◌≢◌, refl, ltb, leb, Bytes, length, arith,
  length-append, Bool-cases, inl, inr, lt→ltb, ltb→lt, le→leb,
}
use onion.Prelude.Predicates.{All}
use onion.Utils.{is_space}
use onion.RequestParser.{
  Reading, found, need_more_data, internal_error, outside, str_size, terminate, after_byte,
  read_string,
}

-- A reader that gets its data one byte at a time.
unfoldable pub bytewise : (Bytes → Bytes → Reading) → Bytes → Bytes → Reading
bytewise read text [] = need_more_data text
bytewise read text (c ∷ s) = elim (read text (c ∷ [])) [
  | found token t rest ↦ found token t s
  | need_more_data t ↦ bytewise read t s
  | internal_error ↦ internal_error
  | outside ↦ outside
]

-- Data in one piece is never written outside of `str`, if the text so far lies in it.
pub read_string-inside : (text s : Bytes) → length text < str_size → read_string text s ≢ outside
unfolding read_string terminate after_byte
read_string-inside text [] h = λ e. ground arith
read_string-inside text (c ∷ []) h = rw (lt→ltb (length text) str_size h) (ground arith)
read_string-inside text (c ∷ (d ∷ s)) h =
    let longer : length (text ++ c ∷ []) ≡ length text + 1 = length-append text (c ∷ []) in
    elim (Bool-cases (is_space c)) [
      | inl e ↦ rw (e, lt→ltb (length text) str_size h) (λ e. ground arith)
      | inr e ↦ elim (Bool-cases (leb (str_size - 1) (length (text ++ c ∷ [])))) [
        | inl e' ↦ rw (e, lt→ltb (length text) str_size h, e') (λ e. ground arith)
        | inr e' ↦
            let room : length (text ++ c ∷ []) < str_size - 1 =
              ground (arith, le→leb (str_size - 1) (length (text ++ c ∷ []))) in
            rw (e, lt→ltb (length text) str_size h, e')
              (read_string-inside (text ++ c ∷ []) (d ∷ s) (omega arith))
      ]
    ]

-- A string without spaces that comes one byte at a time, and with the text so far is longer than
-- `str`, is written outside of it, since no call tests its length.
pub read_string-outside :
    (text s : Bytes)
    → All (λ c. is_space c ≡ false) s
    → length text ≤ str_size
    → str_size < length text + length s
    → bytewise read_string text s ≡ outside
unfolding bytewise read_string after_byte
read_string-outside text [] hs h k = absurd (omega arith)
read_string-outside text (c ∷ s) (hc, hs) h k =
    let longer : length (text ++ c ∷ []) ≡ length text + 1 = length-append text (c ∷ []) in
    elim (Bool-cases (ltb (length text) str_size)) [
      | inl e ↦
          let room : length text < str_size = ltb→lt (length text) str_size e in
          rw (hc, e, bytewise, read_string)
            (read_string-outside (text ++ c ∷ []) s hs (omega arith) (omega arith))
      | inr e ↦ rw (hc, e, bytewise, read_string) refl
    ]
