-- ===== src/RequestParser/Write/Advances.antt =====
-- What a call of a parser does to the data and to the request: the ends of the headers, and the lines
-- behind a header.
use onion.Prelude.{
  ℕ, ◌+◌, ◌*◌, ◌≤◌, ◌<◌, [], ◌∷◌, false, not, ◌&&◌, ◌||◌, some, ◌≡◌, refl, ◌==◌, if◌then◌else◌,
  Bytes, codes, length, arith, Bool-cases, inl, inr, ltb, leb, Option-cases,
}
use onion.Strings.{exact, strstr, atol, to_size}
use onion.Dict.{no_flags, node_add}
use onion.RequestParser.{
  Token, string, string_new_line, new_line, Reading, found, need_more_data, internal_error, outside,
}
use onion.RequestParser.Machine.{
  or_new, Request, Server, Outcome, Parser, headers_key_skip_nl, headers_value_multiline_if_space,
  headers_value_skip_leading_whitespace, content_length, put, post_urlencode, calls, needs_more,
  multipart_form, with_token, header, found_in, after_url, after_version, after_key, headers_end,
  headers_length, prepare_post, prepare_put, prepare_content_length, prepare_urlencode,
  prepare_multipart, multiline_if_space, skip_leading_whitespace,
}
use onion.RequestParser.Write.Consumes.{NoNull, IsLeft, Consumes}

-- What a request keeps from one call of its parser to the next.
abbrev pub Fits : Request → Type 0
Fits req = elim (req.parser) [
  | headers_key_skip_nl ↦ req.text ≡ []
  | post_urlencode ↦ length req.body ≤ req.extra_size
  | _ ↦ Unit {0}
]

-- A bound on the calls: each but the one that looks for a space takes a byte.
abbrev pub measure : Request → Bytes → ℕ
measure req input = elim (req.parser) [
  | headers_value_multiline_if_space ↦ 2 * length input + 1
  | _ ↦ 2 * length input
]

pub measure_le :
    (p : Parser) (req : Request) (input : Bytes) (n : ℕ)
    → 2 * length input + 1 < n
    → measure (record req { parser = p }) input < n
measure_le headers_value_multiline_if_space req input n l = l
measure_le _ req input n l = omega arith

abbrev pub IsLess : ℕ → Request → Bytes → Type 0
IsLess n req rest = Fits req × NoNull rest × (measure req rest < n)

abbrev pub Advances : ℕ → Outcome → Type 0
Advances n (calls req rest) = IsLess n req rest
Advances n (needs_more req []) = Fits req
Advances n (needs_more req (c ∷ rest)) = IsLess n req (c ∷ rest)
Advances n (multipart_form req boundary rest) = NoNull rest × (2 * length rest < n)
Advances n _ = Unit

pub with_token-Advances :
    (n : ℕ) (req : Request) (r : Reading) (next : Token → Bytes → Bytes → Outcome)
    → Consumes n r
    → ((text : Bytes) → Fits (record req { text = text }))
    → ((token : Token) (text rest : Bytes)
        → IsLeft n rest
        → Advances (2 * n) (next token text rest))
    → Advances (2 * n) (with_token req r next)
unfolding Consumes
with_token-Advances n req (found token text rest) next h fits left = left token text rest h
with_token-Advances n req (need_more_data text) next h fits left = fits text
with_token-Advances n req internal_error next h fits left = tt
with_token-Advances n req outside next h fits left = tt

-- A parser that took a byte and hands over to one that does not look for a space.
pub took-IsLess : (n : ℕ) (rest : Bytes) → IsLeft n rest → NoNull rest × (2 * length rest < 2 * n)
took-IsLess n rest h = (h.0, omega arith)

pub needs_more-Advances :
    (n : ℕ) (req : Request) (rest : Bytes)
    → Fits req
    → NoNull rest × (measure req rest < n)
    → Advances n (needs_more req rest)
needs_more-Advances n req [] fits h = fits
needs_more-Advances n req (c ∷ rest) fits h = (fits, h.0, h.1)

pub needs_more-Advances_left :
    (n : ℕ) (req : Request) (rest : Bytes)
    → Fits req
    → NoNull rest
    → (0 < length rest → measure req rest < n)
    → Advances n (needs_more req rest)
needs_more-Advances_left n req [] fits h l = fits
needs_more-Advances_left n req (c ∷ rest) fits h l = (fits, h, l (omega arith))

module _ (n : ℕ) (server : Server) (req : Request) (rest : Bytes) (left : IsLeft n rest) where
  pub prepare_content_length-Advances :
      (size : Bytes) → Advances (2 * n) (prepare_content_length server req size rest)
  unfolding prepare_content_length
  prepare_content_length-Advances size =
      elim (Bool-cases (ltb server.max_post_size (to_size (atol size)))) [
        | inl e ↦ rw e tt
        | inr e ↦ rw e (
            needs_more-Advances (2 * n)
              (record req { parser = content_length; extra_size = to_size (atol size); block = [] })
              rest tt (took-IsLess n rest left))
      ]

  pub prepare_urlencode-Advances :
      (cl : ℕ) → Advances (2 * n) (prepare_urlencode server req cl rest)
  unfolding prepare_urlencode
  prepare_urlencode-Advances cl = elim (Bool-cases (ltb server.max_post_size cl)) [
    | inl e ↦ rw e tt
    | inr e ↦ rw e (
        needs_more-Advances (2 * n)
          (record req { parser = post_urlencode; extra_size = cl; body = [] }) rest (omega arith)
          (took-IsLess n rest left))
  ]

  pub prepare_multipart-Advances :
      (type : Bytes) (cl : ℕ) → Advances (2 * n) (prepare_multipart server req type cl rest)
  unfolding prepare_multipart
  prepare_multipart-Advances type cl = elim (Option-cases (strstr type (codes "boundary="))) [
    | inl e ↦ rw (e, prepare_multipart) tt
    | inr (t, e) ↦ rw (e, prepare_multipart) (took-IsLess n rest left)
  ]

  pub prepare_post-Advances : (type : Bytes) → Advances (2 * n) (prepare_post server req type rest)
  unfolding prepare_post
  prepare_post-Advances type = elim (Option-cases (header req (codes "Content-Length"))) [
    | inl e ↦ rw (e, prepare_post) tt
    | inr (size, e) ↦ elim (Bool-cases (to_size (atol size) == 0)) [
      | inl f ↦ rw (e, prepare_post, f) tt
      | inr f ↦ elim (Bool-cases (found_in type (codes "application/x-www-form-urlencoded"))) [
        | inl g ↦ rw (e, prepare_post, f, g) (prepare_urlencode-Advances (to_size (atol size)))
        | inr g ↦ rw (e, prepare_post, f, g) (prepare_multipart-Advances type (to_size (atol size)))
      ]
    ]
  ]

  pub prepare_put-Advances : Advances (2 * n) (prepare_put server req rest)
  unfolding prepare_put
  prepare_put-Advances = elim (Option-cases (header req (codes "Content-Length"))) [
    | inl e ↦ rw (e, prepare_put) tt
    | inr (size, e) ↦ elim (Bool-cases (ltb server.max_file_size (to_size (atol size)))) [
      | inl f ↦ rw (e, prepare_put, f) tt
      | inr f ↦ elim (Bool-cases (to_size (atol size) == 0)) [
        | inl g ↦ rw (e, prepare_put, f, g) tt
        | inr g ↦
            rw (e, prepare_put, f, g)
              (needs_more-Advances (2 * n)
                (record req {
                  parser = put;
                  extra_size = to_size (atol size);
                  block = server.temporary;
                  files = some (
                      node_add (or_new req.files) (record {
                        key = codes "filename";
                        value = server.temporary;
                        flags = no_flags;
                      }));
                  body = [];
                })
                rest tt (took-IsLess n rest left))
      ]
    ]
  ]

  pub headers_length-Advances : Advances (2 * n) (headers_length server req rest)
  unfolding headers_length
  headers_length-Advances = elim (Option-cases (header req (codes "Content-Length"))) [
    | inl e ↦ rw (e, headers_length) tt
    | inr (size, e) ↦ elim (Bool-cases (not (atol size).0 && ltb 0 (atol size).1)) [
      | inl f ↦ rw (e, headers_length, f) (prepare_content_length-Advances size)
      | inr f ↦ rw (e, headers_length, f) tt
    ]
  ]

  pub no_form-Advances :
      Advances
        (2 * n)
        (if req.method == 5 then prepare_put server req rest else headers_length server req rest)
  no_form-Advances = elim (Bool-cases (req.method == 5)) [
    | inl e ↦ rw e prepare_put-Advances
    | inr e ↦ rw e headers_length-Advances
  ]

  pub headers_end-Advances : Advances (2 * n) (headers_end server req rest)
  unfolding headers_end
  headers_end-Advances = elim (Option-cases (header req (codes "Content-Type"))) [
    | inl e ↦ rw (e, headers_end) no_form-Advances
    | inr (type, e) ↦
        elim (Bool-cases (
          (req.method == 1)
          && (found_in type (codes "application/x-www-form-urlencoded")
              || found_in type (codes "boundary")))) [
                | inl f ↦ rw (e, headers_end, f) (prepare_post-Advances type)
                | inr f ↦ rw (e, headers_end, f) no_form-Advances
              ]
  ]

  pub after_key-Advances :
      (token : Token) (text : Bytes) → Advances (2 * n) (after_key server req token text rest)
  unfolding after_key
  after_key-Advances new_line text = headers_end-Advances
  after_key-Advances _ text = (tt, left.0, omega arith)

pub after_url-Advances :
    (n : ℕ) (req : Request) (rest : Bytes) (token : Token)
    → IsLeft n rest
    → Advances (2 * n) (after_url req token rest)
unfolding after_url
after_url-Advances n req rest string left = (tt, left.0, omega arith)
after_url-Advances n req rest string_new_line left = (tt, left.0, omega arith)
after_url-Advances n req rest _ left = (tt, left.0, omega arith)

pub after_version-Advances :
    (n : ℕ) (req : Request) (rest : Bytes) (token : Token)
    → IsLeft n rest
    → Advances (2 * n) (after_version (record req { text = [] }) token rest)
unfolding after_version
after_version-Advances n req rest string_new_line left = (tt, left.0, omega arith)
after_version-Advances n req rest _ left = (refl, left.0, omega arith)

pub multiline_if_space-Advances :
    (n : ℕ) (req : Request) (input : Bytes)
    → NoNull input
    → 2 * length input < n
    → Advances n (multiline_if_space req input)
unfolding multiline_if_space
multiline_if_space-Advances n req [] h l = tt
multiline_if_space-Advances n req (c ∷ input) (h, hs) l =
    let filled : (c == 0) ≡ false = ground arith in
    elim (Bool-cases ((c == b' ') || (c == b'\t'))) [
      | inl e ↦ rw (filled, e) (tt, (h, hs), l)
      | inr e ↦ rw (filled, e) (tt, (h, hs), l)
    ]

abbrev pub skipping : Request → Request
skipping req = record req { parser = headers_value_skip_leading_whitespace }

pub skip_leading_whitespace-Advances :
    (n : ℕ) (req : Request) (input : Bytes)
    → NoNull input
    → 2 * length input ≤ n
    → Advances n (skip_leading_whitespace (skipping req) input)
unfolding skip_leading_whitespace
skip_leading_whitespace-Advances n req [] h l = tt
skip_leading_whitespace-Advances n req (c ∷ input) (h, hs) l =
    elim (Bool-cases ((c == b'\t') || (c == b' '))) [
      | inl e ↦ rw e (skip_leading_whitespace-Advances n req input hs (omega arith))
      | inr e ↦ elim (Bool-cases (c == b'\n')) [
        | inl f ↦ rw (e, f) (needs_more-Advances n (skipping req) input tt (hs, omega arith))
        | inr f ↦ elim (Bool-cases (leb (length req.text + 2) 8192)) [
          | inl g ↦ rw (e, f, g) (tt, hs, omega arith)
          | inr g ↦ rw (e, f, g) tt
        ]
      ]
    ]
