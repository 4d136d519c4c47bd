-- ===== src/RequestParser/Multipart/Advances.antt =====
-- Every call of a parser of a multipart form takes a byte, or goes on to one that does.
use onion.Prelude.{
  ℕ, suc, if◌then◌else◌, ◌+◌, ◌*◌, ◌≤◌, ◌<◌, [], ◌∷◌, ◌&&◌, ◌≡◌, refl, ◌==◌, Bytes, codes, length,
  arith, same_bytes, map, get_or, Bool-cases, Option-cases, inl, inr, ltb, drop, ◌-◌,
}
use onion.Strings.{c_string, lower_case, strstr}
use onion.RequestParser.{
  Token, multipart_pair, read_multipart_next, multipart_next, multipart_end, new_line,
  string_new_line,
}
use onion.RequestParser.Machine.{Server}
use onion.RequestParser.Write.Consumes.{
  NoNull, IsLeft, Consumes, read_key-Consumes, read_line-Consumes, read_until-Consumes,
}
use onion.RequestParser.{Reading, found, need_more_data, internal_error, outside}
use onion.RequestParser.Multipart.State.{
  Stage, Multipart, Progress, start, next, headers_key, content_type, ignore_header, calls,
  needs_more, ready, fails, leaves, with_token, to_stage,
}
use onion.RequestParser.Multipart.Attributes.{
  Stale, set_filename, set_name, set_attribute, after_attribute, parse_content_type,
}
use onion.RequestParser.Multipart.{
  parse_start, after_next, parse_next, start_body, after_key, parse_multipart_headers_key,
  parse_ignore_header,
}

-- What a form keeps from one call of its parser to the next.
abbrev pub FormFits : Multipart → Type 0
FormFits m = elim (m.stage) [ next ↦ length m.text ≤ 1 | _ ↦ Unit {0} ]

-- A bound on the calls: each but the one that compares the first boundary takes a byte.
abbrev pub form_measure : Multipart → Bytes → ℕ
form_measure m input = elim (m.stage) [ start ↦ 2 * length input + 1 | _ ↦ 2 * length input ]

abbrev pub IsFormLess : ℕ → Multipart → Bytes → Type 0
IsFormLess n m rest = FormFits m × NoNull rest × (form_measure m rest < n)

abbrev pub FormAdvances : ℕ → Progress → Type 0
FormAdvances n (calls m rest) = IsFormLess n m rest
FormAdvances n (needs_more m []) = FormFits m
FormAdvances n (needs_more m (c ∷ rest)) = IsFormLess n m (c ∷ rest)
FormAdvances n _ = Unit

pub nil_fits : 0 ≤ 1
nil_fits = omega arith

pub needs_more-FormAdvances :
    (n : ℕ) (m : Multipart) (rest : Bytes)
    → FormFits m
    → NoNull rest × (form_measure m rest < n)
    → FormAdvances n (needs_more m rest)
needs_more-FormAdvances n m [] fits h = fits
needs_more-FormAdvances n m (c ∷ rest) fits h = (fits, h.0, h.1)

-- The form is left at a stage, and a call only asks for more data.
abbrev pub AtStage : Stage → Progress → Type 0
AtStage s (needs_more m rest) = m.stage ≡ s
AtStage s (calls m rest) = ⊥
AtStage s (ready m rest) = ⊥
AtStage s fails = Unit
AtStage s leaves = Unit

with_token-FormAdvances :
    (n : ℕ) (m : Multipart) (r : Reading) (go_on : Token → Bytes → Bytes → Progress)
    → Consumes n r
    → ((text : Bytes) → FormFits (record m { text = text }))
    → ((token : Token) (text rest : Bytes)
        → IsLeft n rest
        → FormAdvances (2 * n) (go_on token text rest))
    → FormAdvances (2 * n) (with_token m r go_on)
unfolding Consumes
with_token-FormAdvances n m (found token text rest) go_on h fits left = left token text rest h
with_token-FormAdvances n m (need_more_data text) go_on h fits left = fits text
with_token-FormAdvances n m internal_error go_on h fits left = tt
with_token-FormAdvances n m outside go_on h fits left = tt

pub parse_start-FormAdvances :
    (n : ℕ) (m : Multipart) (s : Bytes)
    → NoNull s
    → 2 * length s < n
    → FormAdvances n (parse_start (record m { stage = start }) s)
unfolding parse_start
parse_start-FormAdvances n m [] h l = tt
parse_start-FormAdvances n m (c ∷ rest) (h, hs) l = elim (Bool-cases (m.pos == length m.boundary)) [
  | inl e ↦ rw e (omega arith, (h, hs), l)
  | inr e ↦ elim (Bool-cases (c == get_or m.boundary m.pos 0)) [
    | inl f ↦
        rw (e, f) (parse_start-FormAdvances n (record m { pos = suc m.pos }) rest hs (omega arith))
    | inr f ↦ rw (e, f) tt
  ]
]

after_next-FormAdvances :
    (n : ℕ) (m : Multipart) (token : Token) (rest : Bytes)
    → NoNull rest × (2 * length rest < n)
    → FormAdvances n (after_next m token rest)
unfolding after_next
after_next-FormAdvances n m multipart_end rest h = tt
after_next-FormAdvances n m _ rest h = (tt, h.0, h.1)

multipart_pair-FormAdvances :
    (n : ℕ) (m : Multipart) (c d : ℕ) (rest : Bytes)
    → NoNull rest × (2 * length rest < n)
    → FormAdvances n (
        with_token m
          (multipart_pair c d rest)
          (λ token text r. after_next (to_stage m next) token r))
unfolding multipart_pair
multipart_pair-FormAdvances n m c d rest h = elim (Bool-cases ((c == b'-') && (d == b'-'))) [
  | inl e ↦ rw e (after_next-FormAdvances n (to_stage m next) multipart_end rest h)
  | inr e ↦ elim (Bool-cases ((c == b'\r') && (d == b'\n'))) [
    | inl f ↦ rw (e, f) (after_next-FormAdvances n (to_stage m next) multipart_next rest h)
    | inr f ↦ rw (e, f) tt
  ]
]

abbrev at_next : Multipart → Bytes → Multipart
at_next m text = record m { stage = next; text = text }

pub parse_next-FormAdvances :
    (m : Multipart) (text input : Bytes)
    → NoNull input
    → length text ≤ 1
    → FormAdvances (2 * length input) (parse_next (at_next m text) input)
unfolding parse_next read_multipart_next
parse_next-FormAdvances m [] [] h l = omega arith
parse_next-FormAdvances m [] (c ∷ []) (h, hs) l = elim (Bool-cases (c == b'\n')) [
  | inl e ↦ rw e (after_next-FormAdvances 2 (to_stage m next) multipart_next [] (tt, omega arith))
  | inr e ↦ rw e (omega arith)
]
parse_next-FormAdvances m [] (c ∷ (d ∷ rest)) (h, (k, hs)) l = elim (Bool-cases (c == b'\n')) [
  | inl e ↦ rw e (
      after_next-FormAdvances (2 * length (c ∷ d ∷ rest)) (to_stage m next) multipart_next
        (d ∷ rest) ((k, hs), omega arith))
  | inr e ↦ rw e (
      multipart_pair-FormAdvances (2 * length (c ∷ d ∷ rest)) (at_next m []) c d rest
        (hs, omega arith))
]
parse_next-FormAdvances m (c ∷ []) [] h l = omega arith
parse_next-FormAdvances m (c ∷ []) (d ∷ rest) (h, hs) l =
    multipart_pair-FormAdvances (2 * length (d ∷ rest)) (at_next m (c ∷ [])) c d rest
      (hs, omega arith)
parse_next-FormAdvances m (c ∷ (d ∷ text)) input h l = absurd (omega arith)

module _ (n : ℕ) (server : Server) (m : Multipart) (rest : Bytes) (left : IsLeft n rest) where
  start_body-FormAdvances : FormAdvances (2 * n) (start_body server m rest)
  unfolding start_body
  start_body-FormAdvances = elim (Option-cases (m.filename)) [
    | inl e ↦ rw (e, start_body) (tt, left.0, omega arith)
    | inr (filename, e) ↦ rw (e, start_body) (tt, left.0, omega arith)
  ]

  after_key_text :
      (text : Bytes)
      → FormAdvances (2 * n) (
          if same_bytes
            (map lower_case (c_string text))
            (map lower_case (codes "Content-Disposition"))
          then calls (to_stage m content_type) rest
          else calls (to_stage m ignore_header) rest)
  after_key_text text =
      elim (Bool-cases (
        same_bytes (map lower_case (c_string text))
          (map lower_case (codes "Content-Disposition")))) [
            | inl e ↦ rw e (tt, left.0, omega arith)
            | inr e ↦ rw e (tt, left.0, omega arith)
          ]

  after_key-FormAdvances :
      (token : Token) (text : Bytes) → FormAdvances (2 * n) (after_key server m token text rest)
  unfolding after_key
  after_key-FormAdvances new_line text = start_body-FormAdvances
  after_key-FormAdvances _ text = after_key_text text

module _ (server : Server) (stale : Stale) (m : Multipart) (input : Bytes) (h : NoNull input) where
  pub parse_headers_key-FormAdvances :
      FormAdvances
        (2 * length input)
        (parse_multipart_headers_key server (record m { stage = headers_key }) input)
  unfolding parse_multipart_headers_key
  parse_headers_key-FormAdvances =
      with_token-FormAdvances (length input) (record m { stage = headers_key }) _ _
        (read_key-Consumes m.text input h) (λ text. tt)
        (λ token text rest left.
          after_key-FormAdvances (length input) server (to_stage m headers_key) rest left token
            text)

  pub parse_ignore_header-FormAdvances :
      FormAdvances
        (2 * length input)
        (parse_ignore_header (record m { stage = ignore_header }) input)
  unfolding parse_ignore_header
  parse_ignore_header-FormAdvances =
      with_token-FormAdvances (length input) (record m { stage = ignore_header }) _ _
        (read_line-Consumes m.text input h) (λ text. tt)
        (λ token text rest left.
          needs_more-FormAdvances (2 * length input) (to_stage m headers_key) rest tt
            (left.0, omega arith))

set_filename-AtStage :
    (stale : Stale) (m : Multipart) (str value : Bytes)
    → AtStage content_type (set_filename stale (record m { stage = content_type }) str value)
unfolding set_filename
set_filename-AtStage stale m str value =
    elim (Bool-cases (ltb m.post_total_size (length str - 9))) [
      | inl e ↦ rw e tt
      | inr e ↦ elim (Bool-cases (ltb m.room (m.used + (length str - 9) + 1))) [
        | inl f ↦ rw (e, f) tt
        | inr f ↦ rw (e, f) refl
      ]
    ]

set_name-AtStage :
    (stale : Stale) (m : Multipart) (str value : Bytes)
    → AtStage content_type (set_name stale (record m { stage = content_type }) str value)
unfolding set_name
set_name-AtStage stale m str value = elim (Bool-cases (ltb m.post_total_size (length str - 5))) [
  | inl e ↦ rw e tt
  | inr e ↦ elim (Bool-cases (ltb m.room (m.used + (length str - 5) + 1))) [
    | inl f ↦ rw (e, f) tt
    | inr f ↦ rw (e, f) refl
  ]
]

set_attribute-AtStage :
    (stale : Stale) (m : Multipart) (str : Bytes)
    → AtStage content_type (set_attribute stale (record m { stage = content_type }) str)
unfolding set_attribute
set_attribute-AtStage stale m str = elim (Option-cases (strstr str (codes "filename="))) [
  | inr (at, e) ↦ rw (e, set_attribute) (set_filename-AtStage stale m str (drop 9 at))
  | inl e ↦ elim (Option-cases (strstr str (codes "name="))) [
    | inr (at, f) ↦ rw (e, f, set_attribute) (set_name-AtStage stale m str (drop 5 at))
    | inl f ↦ rw (e, f, set_attribute) refl
  ]
]

-- What is left to read at a stage that keeps nothing.
at_stage-FormAdvances :
    (n : ℕ) (m : Multipart) (rest : Bytes)
    → m.stage ≡ content_type
    → NoNull rest × (2 * length rest < n)
    → FormAdvances n (needs_more m rest)
at_stage-FormAdvances n m rest e h = needs_more-FormAdvances n m rest (rw e tt) (h.0, rw e (h.1))

after_attribute-FormAdvances :
    (n : ℕ) (token : Token) (rest : Bytes) (p : Progress)
    → AtStage content_type p
    → NoNull rest × (2 * length rest < n)
    → FormAdvances n (after_attribute token rest p)
unfolding after_attribute
after_attribute-FormAdvances n string_new_line rest (needs_more m r) s h =
    needs_more-FormAdvances n (record m { stage = headers_key }) rest tt h
after_attribute-FormAdvances n _ rest (needs_more m r) s h = at_stage-FormAdvances n m rest s h
after_attribute-FormAdvances n token rest (calls m r) s h = absurd s
after_attribute-FormAdvances n token rest (ready m r) s h = absurd s
after_attribute-FormAdvances n string_new_line rest fails s h = tt
after_attribute-FormAdvances n _ rest fails s h = tt
after_attribute-FormAdvances n string_new_line rest leaves s h = tt
after_attribute-FormAdvances n _ rest leaves s h = tt

pub parse_content_type-FormAdvances :
    (stale : Stale) (m : Multipart) (input : Bytes)
    → NoNull input
    → FormAdvances
        (2 * length input)
        (parse_content_type stale (record m { stage = content_type }) input)
unfolding parse_content_type
parse_content_type-FormAdvances stale m input h =
    with_token-FormAdvances (length input) (record m { stage = content_type }) _ _
      (read_until-Consumes b';' m.text input h) (λ text. tt)
      (λ token text rest left.
        after_attribute-FormAdvances (2 * length input) token rest
          (set_attribute stale (to_stage m content_type) (c_string text))
          (set_attribute-AtStage stale (record m { text = [] }) (c_string text))
          (left.0, omega arith))
