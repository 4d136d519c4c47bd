-- ===== src/RequestParser/Multipart/Plain.antt =====
-- The fields of a form: plain text, line breaks in it, and the room for it.
use onion.Prelude.{
  ℕ, suc, ◌+◌, ◌-◌, ◌≤◌, ◌<◌, [], ◌∷◌, ◌++◌, true, false, some, ◌≡◌, ◌≢◌, refl, sym, ap, ap₂, ◌∙◌,
  ◌==◌, ltb, leb, Bytes, length, get_or, arith, Bool-cases, inl, inr, append_assoc, append-nil,
  length-append,
}
use onion.Prelude.Predicates.{All, All-imp}
use onion.RequestParser.Machine.{or_new}
use onion.RequestParser.Query.RoundTrip.{c_string_lem}
use onion.RequestParser.Multipart.State.{Multipart, put, next, needs_more, leaves}
use onion.RequestParser.Multipart.Fields.{
  cut_last, end_field, copy_again, add_byte, data_step, parse_data,
}

-- A byte that starts no boundary.
abbrev pub IsPlain : ℕ → Type 0
IsPlain c = (c ≢ b'\r') × (c ≢ b'\n')

-- A field that is read, with a boundary as `prepare_POST` makes it.
abbrev pub at_field : Multipart → Bytes → Bytes → ℕ → Multipart
at_field m t field left = record m {
  boundary = b'\r' ∷ b'\n' ∷ b'-' ∷ b'-' ∷ t;
  pos = 0;
  field = field;
  post_total_size = left;
}

data_step-plain :
    (m : Multipart) (t field : Bytes) (left c : ℕ) (rest : Bytes)
    → IsPlain c
    → m.used + length field < m.room
    → data_step (at_field m t field (suc left)) c rest
      ≡ needs_more (at_field m t (field ++ c ∷ []) left) rest
unfolding data_step copy_again add_byte
data_step-plain m t field left c rest (r, n) fits =
    let not_cr : (c == b'\r') ≡ false = ground arith in
    let not_lf : (c == b'\n') ≡ false = ground arith in
    let room : ltb m.room (m.used + length field + 1) ≡ false = ground arith in
    let some_left : (suc left == 0) ≡ false = ground arith in
    let one_less : suc left - 1 ≡ left = omega arith in
    rw (not_lf, not_cr, some_left, room)
      (ap (λ k. needs_more (at_field m t (field ++ c ∷ []) k) rest) one_less)

data_step-full :
    (m : Multipart) (t field : Bytes) (left c : ℕ) (rest : Bytes)
    → IsPlain c
    → m.room ≤ m.used + length field
    → data_step (at_field m t field (suc left)) c rest ≡ leaves
unfolding data_step copy_again add_byte
data_step-full m t field left c rest (r, n) full =
    let not_cr : (c == b'\r') ≡ false = ground arith in
    let not_lf : (c == b'\n') ≡ false = ground arith in
    let room : ltb m.room (m.used + length field + 1) ≡ true = ground arith in
    let some_left : (suc left == 0) ≡ false = ground arith in rw (not_lf, not_cr, some_left, room)

parse_data-next :
    (m m' : Multipart) (c : ℕ) (rest : Bytes)
    → data_step m c rest ≡ needs_more m' rest
    → m'.pos ≢ length m'.boundary
    → parse_data m (c ∷ rest) ≡ parse_data m' rest
unfolding parse_data
parse_data-next m m' c rest e open_still =
    let more : (m'.pos == length m'.boundary) ≡ false = ground arith in rw (e, parse_data, more)

parse_data-plain :
    (m : Multipart) (t field s rest : Bytes) (left : ℕ)
    → All IsPlain s
    → m.used + length field + length s ≤ m.room
    → parse_data (at_field m t field (length s + left)) (s ++ rest)
      ≡ parse_data (at_field m t (field ++ s) left) rest
unfolding parse_data
parse_data-plain m t field [] rest left h fits =
    let same : 0 + left ≡ left = omega arith in
    rw same (ap (λ f. parse_data (at_field m t f left) rest) (sym (append-nil field)))
parse_data-plain m t field (c ∷ s) rest left (h, hs) fits =
    let same : suc (length s) + left ≡ suc (length s + left) = omega arith in
    let len = length-append field (c ∷ []) in
    ap (λ k. parse_data (at_field m t field k) (c ∷ (s ++ rest))) same
    ∙ parse_data-next (at_field m t field (suc (length s + left)))
        (at_field m t (field ++ c ∷ []) (length s + left)) c (s ++ rest)
        (data_step-plain m t field (length s + left) c (s ++ rest) h (omega arith)) (omega arith)
    ∙ parse_data-plain m t (field ++ c ∷ []) s rest left hs (omega arith)
    ∙ ap (λ f. parse_data (at_field m t f left) rest) (append_assoc field (c ∷ []) s)

get_or-append : (p u : Bytes) (d : ℕ) → get_or (p ++ d ∷ u) (length p) 0 ≡ d
get_or-append [] u d = refl
get_or-append (c ∷ p) u d = get_or-append p u d

abbrev at_pos : Multipart → Bytes → ℕ → Multipart
at_pos m b k = record m { boundary = b; pos = k }

data_step-boundary :
    (m : Multipart) (b : Bytes) (k c : ℕ) (rest : Bytes)
    → k ≢ 0
    → c ≡ get_or b k 0
    → data_step (at_pos m b k) c rest ≡ needs_more (at_pos m b (suc k)) rest
unfolding data_step
data_step-boundary m b k c rest nz e =
    let inside : (k == 0) ≡ false = ground arith in
    let same : (c == get_or b k 0) ≡ true = ground arith in rw (inside, same)

end_field-pos :
    (m : Multipart) (b rest : Bytes) (k : ℕ)
    → end_field (at_pos m b k) rest ≡ end_field (at_pos m b 0) rest
unfolding end_field
end_field-pos m b rest k = refl

-- The bytes of a boundary, from the place on where `d` stands.
parse_data-boundary :
    (m : Multipart) (b p : Bytes) (d : ℕ) (u rest : Bytes)
    → b ≡ p ++ d ∷ u
    → length p ≢ 0
    → parse_data (at_pos m b (length p)) (d ∷ (u ++ rest)) ≡ end_field (at_pos m b 0) rest
unfolding parse_data
parse_data-boundary m b p d [] rest e nz =
    let stands : d ≡ get_or b (length p) 0 =
      sym (ap (λ s. get_or s (length p) 0) e ∙ get_or-append p [] d) in
    let whole : (suc (length p) == length b) ≡ true =
      ground (arith, ap length e, length-append p (d ∷ [])) in
    rw (data_step-boundary m b (length p) d rest nz stands, parse_data, whole)
      (end_field-pos m b rest (suc (length p)))
parse_data-boundary m b p d (d' ∷ u) rest e nz =
    let stands : d ≡ get_or b (length p) 0 =
      sym (ap (λ s. get_or s (length p) 0) e ∙ get_or-append p (d' ∷ u) d) in
    let one_more = length-append p (d ∷ []) in
    let len = length-append p (d ∷ d' ∷ u) in
    let size = ap length e in
    let place : length (p ++ d ∷ []) ≡ suc (length p) = omega arith in
    parse_data-next (at_pos m b (length p)) (at_pos m b (suc (length p))) d (d' ∷ (u ++ rest))
      (data_step-boundary m b (length p) d (d' ∷ (u ++ rest)) nz stands) (omega arith)
    ∙ ap (λ k. parse_data (at_pos m b k) (d' ∷ (u ++ rest))) (sym place)
    ∙ parse_data-boundary m b (p ++ d ∷ []) d' u rest (e ∙ sym (append_assoc p (d ∷ []) (d' ∷ u)))
        (omega arith)

-- The first byte of a boundary, and those behind it.
parse_data-whole :
    (m : Multipart) (t field rest : Bytes) (left : ℕ)
    → parse_data (at_field m t field left) (b'\r' ∷ b'\n' ∷ b'-' ∷ b'-' ∷ (t ++ rest))
      ≡ end_field (at_field m t field left) rest
unfolding parse_data data_step
parse_data-whole m t field rest left =
    let b = b'\r' ∷ b'\n' ∷ b'-' ∷ b'-' ∷ t in
    let first : (1 == length b) ≡ false = ground arith in
    rw first (
      parse_data-boundary (at_field m t field left) b (b'\r' ∷ []) b'\n' (b'-' ∷ b'-' ∷ t) rest refl
        (omega arith))

cut_last-plain : (c : ℕ) (s : Bytes) → All (λ d. d ≢ c) s → cut_last c s ≡ s
unfolding cut_last
cut_last-plain c [] h = refl
cut_last-plain c (d ∷ []) (h, hs) = ground arith
cut_last-plain c (d ∷ (e ∷ s)) (h, hs) = ap (λ t. d ∷ t) (cut_last-plain c (e ∷ s) hs)

abbrev pub stored_field : Multipart → Bytes → Bytes → ℕ → Multipart
stored_field m t s left = record (at_field m t [] left) {
  stage = next;
  text = [];
  used = m.used + length s + 1;
  post = some (put (or_new m.post) m.name s);
}

field_byte_cr : (c : ℕ) → IsPlain c × (c ≢ 0) → c ≢ b'\r'
field_byte_cr c h = h.0.0

field_byte_lf : (c : ℕ) → IsPlain c × (c ≢ 0) → c ≢ b'\n'
field_byte_lf c h = h.0.1

IsFieldByte-IsPlain : (c : ℕ) → IsPlain c × (c ≢ 0) → IsPlain c
IsFieldByte-IsPlain c h = h.0

field_byte_null : (c : ℕ) → IsPlain c × (c ≢ 0) → c ≢ 0
field_byte_null c h = h.1

abbrev pub IsFieldByte : ℕ → Type 0
IsFieldByte c = IsPlain c × (c ≢ 0)

-- Text without line breaks and 0 bytes that is not longer than what is left of the form, and shorter
-- than what is left of the memory: it is stored as the value of the field, the boundary behind it is
-- read, and what follows is left for the next part.
pub parse_data-field :
    (m : Multipart) (t s rest : Bytes) (left : ℕ)
    → All IsFieldByte s
    → m.used + length s < m.room
    → parse_data
        (at_field m t [] (length s + left))
        (s ++ (b'\r' ∷ b'\n' ∷ b'-' ∷ b'-' ∷ (t ++ rest)))
      ≡ needs_more (stored_field m t s left) rest
unfolding end_field
parse_data-field m t s rest left h fits =
    let no_lf = cut_last-plain b'\n' s (All-imp IsFieldByte (λ c. c ≢ b'\n') field_byte_lf s h) in
    let no_cr = cut_last-plain b'\r' s (All-imp IsFieldByte (λ c. c ≢ b'\r') field_byte_cr s h) in
    let whole = c_string_lem s (All-imp IsFieldByte (λ c. c ≢ 0) field_byte_null s h) in
    let room : leb m.room (m.used + length s) ≡ false = ground arith in
    parse_data-plain m t [] s (b'\r' ∷ b'\n' ∷ b'-' ∷ b'-' ∷ (t ++ rest)) left
      (All-imp IsFieldByte IsPlain IsFieldByte-IsPlain s h) (omega arith)
    ∙ parse_data-whole m t s rest left
    ∙ rw (no_lf, no_cr, whole, room)

-- Text without line breaks that is not longer than what is left of the form, but longer than what is
-- left of the memory, is written behind the end of it.
parse_data-leaves :
    (m : Multipart) (t field s : Bytes) (left : ℕ)
    → All IsPlain s
    → m.used + length field ≤ m.room
    → m.room < m.used + length field + length s
    → parse_data (at_field m t field (length s + left)) s ≡ leaves
unfolding parse_data
parse_data-leaves m t field [] left h fits over = absurd (omega arith)
parse_data-leaves m t field (c ∷ s) left (h, hs) fits over =
    let same : suc (length s) + left ≡ suc (length s + left) = omega arith in
    let len = length-append field (c ∷ []) in
    ap (λ k. parse_data (at_field m t field k) (c ∷ s)) same
    ∙ elim (Bool-cases (leb m.room (m.used + length field))) [
      | inl full ↦ rw (data_step-full m t field (length s + left) c s h (ground arith), parse_data)
      | inr room ↦
          parse_data-next (at_field m t field (suc (length s + left)))
            (at_field m t (field ++ c ∷ []) (length s + left)) c s
            (data_step-plain m t field (length s + left) c s h (ground arith)) (omega arith)
          ∙ parse_data-leaves m t (field ++ c ∷ []) s left hs (ground arith) (omega arith)
    ]

data_step-start :
    (m : Multipart) (t field : Bytes) (left : ℕ) (rest : Bytes)
    → data_step (at_field m t field left) b'\r' rest
      ≡ needs_more (record (at_field m t field left) { pos = 1 }) rest
unfolding data_step
data_step-start m t field left rest = refl

data_step-again :
    (m : Multipart) (t field rest : Bytes) (left c d : ℕ)
    → c ≢ b'-'
    → m.used + length field + 3 ≤ m.room
    → data_step (record (at_field m t field (left + 3)) { pos = 2 }) c (d ∷ rest)
      ≡ needs_more (at_field m t (field ++ c ∷ d ∷ c ∷ []) left) (d ∷ rest)
unfolding data_step copy_again add_byte
data_step-again m t field rest left c d h fits =
    let other : (c == b'-') ≡ false = ground arith in
    let some_left : leb (left + 3) 2 ≡ false = ground arith in
    let one_left : (left + 3 - 2 == 0) ≡ false = ground arith in
    let enough : ltb (suc (suc (length rest))) 2 ≡ false = ground arith in
    let room : ltb m.room (m.used + length field + 2) ≡ false = ground arith in
    let len = length-append field (c ∷ d ∷ []) in
    let room' : ltb m.room (m.used + length (field ++ c ∷ d ∷ []) + 1) ≡ false = ground arith in
    let less : left + 3 - 2 - 1 ≡ left = omega arith in
    rw (other, some_left, enough, room, one_left, room')
      (ap₂ (λ f k. needs_more (at_field m t f k) (d ∷ rest))
        (append_assoc field (c ∷ d ∷ []) (c ∷ [])) less)

-- A line break in a field that starts no boundary: it is lost, and the two bytes behind it are stored
-- before the first of them is stored again.
parse_data-line_break :
    (m : Multipart) (t field rest : Bytes) (left c d : ℕ)
    → c ≢ b'-'
    → m.used + length field + 3 ≤ m.room
    → parse_data (at_field m t field (left + 3)) (b'\r' ∷ b'\n' ∷ c ∷ d ∷ rest)
      ≡ parse_data (at_field m t (field ++ c ∷ d ∷ c ∷ []) left) (d ∷ rest)
parse_data-line_break m t field rest left c d h fits =
    let here = at_field m t field (left + 3) in
    parse_data-next here (record here { pos = 1 }) b'\r' (b'\n' ∷ c ∷ d ∷ rest)
      (data_step-start m t field (left + 3) (b'\n' ∷ c ∷ d ∷ rest)) (omega arith)
    ∙ parse_data-next (record here { pos = 1 }) (record here { pos = 2 }) b'\n' (c ∷ d ∷ rest)
        (data_step-boundary here here.boundary 1 b'\n' (c ∷ d ∷ rest) (omega arith) refl)
        (omega arith)
    ∙ parse_data-next (record here { pos = 2 }) (at_field m t (field ++ c ∷ d ∷ c ∷ []) left) c
        (d ∷ rest) (data_step-again m t field rest left c d h fits) (omega arith)
