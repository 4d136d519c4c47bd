-- ===== src/RequestParser/Multipart/Content.antt =====
-- The parsers of the fields and the files of a form take the bytes of their data.
use onion.Prelude.{
  ℕ, suc, ◌+◌, ◌*◌, ◌≤◌, ◌<◌, [], ◌∷◌, none, some, ◌≡◌, refl, ◌==◌, Bytes, length, arith, get_or,
  Bool-cases, inl, inr, ltb, leb, ◌++◌, ◌∙◌, zero,
}
use onion.Strings.{c_string}
use onion.RequestParser.Machine.{or_new}
use onion.RequestParser.Write.Consumes.{NoNull}
use onion.RequestParser.Multipart.State.{
  Multipart, Progress, put, next, field_data, file_data, calls, needs_more, ready, fails, leaves,
}
use onion.RequestParser.Multipart.Fields.{
  at_line_feed, cut_last, copy_again, add_byte, data_step, end_field, parse_data,
}
use onion.RequestParser.Multipart.Files.{
  Filed, released, kept, matched_byte, started, file_step, end_file, file_from, tmp_size,
}
use onion.RequestParser.Multipart.Advances.{
  FormAdvances, AtStage, nil_fits, needs_more-FormAdvances,
}

-- A field.
copy_again-AtStage :
    (m : Multipart) (input : Bytes) → m.stage ≡ field_data → AtStage field_data (copy_again m input)
unfolding copy_again
copy_again-AtStage m input e = elim (Bool-cases (m.pos == 0)) [
  | inl a ↦ rw a e
  | inr a ↦ elim (Bool-cases (leb m.post_total_size m.pos)) [
    | inl b ↦ rw (a, b) tt
    | inr b ↦ elim (Bool-cases (ltb (length input) m.pos)) [
      | inl d ↦ rw (a, b, d) tt
      | inr d ↦ elim (Bool-cases (ltb m.room (m.used + length m.field + m.pos))) [
        | inl f ↦ rw (a, b, d, f) tt
        | inr f ↦ rw (a, b, d, f) e
      ]
    ]
  ]
]

add_byte-AtStage : (c : ℕ) (p : Progress) → AtStage field_data p → AtStage field_data (add_byte c p)
unfolding add_byte
add_byte-AtStage c (needs_more m []) e = e
add_byte-AtStage c (needs_more m (d ∷ rest)) e = elim (Bool-cases (m.post_total_size == 0)) [
  | inl a ↦ rw a tt
  | inr a ↦ elim (Bool-cases (ltb m.room (m.used + length m.field + 1))) [
    | inl b ↦ rw (a, b) tt
    | inr b ↦ rw (a, b) e
  ]
]
add_byte-AtStage c (calls m rest) e = e
add_byte-AtStage c (ready m rest) e = e
add_byte-AtStage c fails e = e
add_byte-AtStage c leaves e = e

data_step-AtStage :
    (m : Multipart) (c : ℕ) (rest : Bytes)
    → m.stage ≡ field_data
    → AtStage field_data (data_step m c rest)
unfolding data_step
data_step-AtStage m c rest e =
    let pos = at_line_feed m.pos c in
    elim (Bool-cases (c == get_or m.boundary pos 0)) [
      | inl a ↦ rw a e
      | inr a ↦ rw a (
          add_byte-AtStage c (copy_again (record m { pos = pos }) (c ∷ rest))
            (copy_again-AtStage (record m { pos = pos }) (c ∷ rest) e))
    ]

end_field-FormAdvances :
    (n : ℕ) (m : Multipart) (rest : Bytes)
    → NoNull rest × (2 * length rest < n)
    → FormAdvances n (end_field m rest)
unfolding end_field
end_field-FormAdvances n m rest h =
    let value = cut_last b'\r' (cut_last b'\n' m.field) in
    elim (Bool-cases (leb m.room (m.used + length value))) [
      | inl a ↦ rw a tt
      | inr a ↦ rw a (
          needs_more-FormAdvances n
            (record m {
              stage = next;
              text = [];
              pos = 0;
              field = [];
              used = m.used + length (cut_last b'\n' m.field) + 1;
              post = some (put (or_new m.post) m.name (c_string value));
            })
            rest nil_fits h)
    ]

parse_data_step :
    (n : ℕ) (m : Multipart) (c : ℕ) (rest : Bytes) (o : Progress)
    → data_step m c rest ≡ o
    → AtStage field_data o
    → ((m' : Multipart) → m'.stage ≡ field_data → FormAdvances n (parse_data m' rest))
    → NoNull rest × (2 * length rest < n)
    → FormAdvances n (parse_data m (c ∷ rest))
unfolding parse_data
parse_data_step n m c rest (needs_more m' r) e s onward h =
    elim (Bool-cases (m'.pos == length m'.boundary)) [
      | inl a ↦ rw (e, parse_data, a) (end_field-FormAdvances n m' rest h)
      | inr a ↦ rw (e, parse_data, a) (onward m' s)
    ]
parse_data_step n m c rest (calls m' r) e s onward h = absurd s
parse_data_step n m c rest (ready m' r) e s onward h = absurd s
parse_data_step n m c rest fails e s onward h = rw (e, parse_data) tt
parse_data_step n m c rest leaves e s onward h = rw (e, parse_data) tt

pub parse_data-FormAdvances :
    (n : ℕ) (m : Multipart) (s : Bytes)
    → NoNull s
    → 2 * length s ≤ n
    → m.stage ≡ field_data
    → FormAdvances n (parse_data m s)
unfolding parse_data
parse_data-FormAdvances n m [] h l e = rw e tt
parse_data-FormAdvances n m (c ∷ rest) (h, hs) l e =
    parse_data_step n m c rest (data_step m c rest) refl (data_step-AtStage m c rest e)
      (λ m' e'. parse_data-FormAdvances n m' rest hs (omega arith) e') (hs, omega arith)

-- A file.
abbrev FiledAt : Filed → Type 0
FiledAt none = Unit
FiledAt (some (m, tmp)) = m.stage ≡ file_data

stage-started : (m : Multipart) (c : ℕ) → (started m c).stage ≡ m.stage
unfolding started
stage-started m c = elim (Bool-cases (m.pos == 0)) [
  | inl a ↦ elim (Bool-cases (c == b'\n')) [ inl b ↦ rw (a, b) refl | inr b ↦ rw (a, b) refl ]
  | inr a ↦ rw a refl
]

kept-FiledAt :
    (m : Multipart) (tmp : Bytes) (c : ℕ) → m.stage ≡ file_data → FiledAt (some (kept m tmp c))
unfolding kept
kept-FiledAt m tmp c e = elim (Bool-cases (length (tmp ++ c ∷ []) == tmp_size)) [
  | inl a ↦ rw a e
  | inr a ↦ rw a e
]

file_step-FiledAt :
    (n max_file_size : ℕ) (m : Multipart) (tmp : Bytes) (c : ℕ)
    → m.stage ≡ file_data
    → FiledAt (file_step n max_file_size m tmp c)
unfolding file_step released matched_byte
file_step-FiledAt zero max_file_size m tmp c e = tt
file_step-FiledAt (suc n) max_file_size m tmp c e =
    let m' = started m c in
    let e' = stage-started m c ∙ e in
    elim (Bool-cases (c == get_or m'.boundary m'.pos 0)) [
      | inl a ↦ rw a e'
      | inr a ↦ elim (Bool-cases (ltb max_file_size m'.file_total_size)) [
        | inl b ↦ rw (a, b) tt
        | inr b ↦ elim (Bool-cases (m'.pos == 0)) [
          | inl d ↦ rw (a, b, d) (kept-FiledAt m' tmp c e')
          | inr d ↦ rw (a, b, d) (file_step-FiledAt n max_file_size (released m' tmp) [] c e')
        ]
      ]
    ]

file_from_step :
    (n max_file_size : ℕ) (m : Multipart) (tmp : Bytes) (c : ℕ) (rest : Bytes) (o : Filed)
    → file_step 2 max_file_size m tmp c ≡ o
    → FiledAt o
    → ((m' : Multipart) (tmp' : Bytes)
        → m'.stage ≡ file_data
        → FormAdvances n (file_from max_file_size m' tmp' rest))
    → NoNull rest × (2 * length rest < n)
    → FormAdvances n (file_from max_file_size m tmp (c ∷ rest))
unfolding file_from end_file
file_from_step n max_file_size m tmp c rest none e s onward h = rw (e, file_from) tt
file_from_step n max_file_size m tmp c rest (some (m', tmp')) e s onward h =
    elim (Bool-cases (m'.pos == length m'.boundary)) [
      | inl a ↦
          rw (e, file_from, a)
            (needs_more-FormAdvances n
              (record m' { stage = next; text = []; pos = 0; startpos = 0; file = m'.file ++ tmp' })
              rest nil_fits h)
      | inr a ↦ rw (e, file_from, a) (onward m' tmp' s)
    ]

pub file_from-FormAdvances :
    (n max_file_size : ℕ) (m : Multipart) (tmp s : Bytes)
    → NoNull s
    → 2 * length s ≤ n
    → m.stage ≡ file_data
    → FormAdvances n (file_from max_file_size m tmp s)
unfolding file_from
file_from-FormAdvances n max_file_size m tmp [] h l e = rw e tt
file_from-FormAdvances n max_file_size m tmp (c ∷ rest) (h, hs) l e =
    file_from_step n max_file_size m tmp c rest (file_step 2 max_file_size m tmp c) refl
      (file_step-FiledAt 2 max_file_size m tmp c e)
      (λ m' tmp' e'. file_from-FormAdvances n max_file_size m' tmp' rest hs (omega arith) e')
      (hs, omega arith)
