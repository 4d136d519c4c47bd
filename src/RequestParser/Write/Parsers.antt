-- ===== src/RequestParser/Write/Parsers.antt =====
-- Every call of a parser takes a byte, or goes on to one that does.
use onion.Prelude.{
  ℕ, ◌+◌, ◌-◌, ◌*◌, ◌≤◌, ◌<◌, [], ◌∷◌, ◌++◌, ◌&&◌, ◌||◌, some, ◌≢◌, refl, ◌==◌, Bytes, codes,
  length, arith, same_bytes, length-append, length-take, Bool-cases, inl, inr, leb, Option-cases,
  min, take,
}
use onion.Prelude.Predicates.{All-take}
use onion.Strings.{exact, c_string}
use onion.Dict.{null}
use onion.RequestParser.Query.{parse_query, query_to_dict}
use onion.RequestParser.{new_line_pair, read_new_line}
use onion.RequestParser.Machine.{
  methods, method_from, or_new, Request, Server, Parser, headers_get, headers_url, headers_version,
  headers_key_skip_nl, headers_key, headers_value, headers_value_multiline_if_space,
  headers_value_skip_leading_whitespace, content_length, put, post_urlencode, calls, parse,
  with_token, parse_headers_get, parse_headers_url, parse_headers_version,
  parse_headers_key_skip_nl, parse_headers_key, parse_headers_value, parse_content_length,
  parse_put, parse_urlencode,
}
use onion.RequestParser.Write.Consumes.{
  NoNull, read_string-Consumes, read_key-Consumes, read_line-Consumes,
}
use onion.RequestParser.Write.Advances.{
  Fits, measure, Advances, with_token-Advances, needs_more-Advances_left, after_key-Advances,
  after_url-Advances, after_version-Advances, multiline_if_space-Advances,
  skip_leading_whitespace-Advances,
}

module _ (server : Server) (req : Request) (input : Bytes) (h : NoNull input) where
  pub parse_headers_get-Advances :
      Advances (2 * length input) (parse_headers_get (record req { parser = headers_get }) input)
  unfolding parse_headers_get
  parse_headers_get-Advances =
      with_token-Advances (length input) (record req { parser = headers_get }) _ _
        (read_string-Consumes req.text input h) (λ text. tt)
        (λ token text rest left. elim (Option-cases (method_from 0 methods (c_string text))) [
          | inl e ↦ rw e tt
          | inr (i, e) ↦ rw e (tt, left.0, omega arith)
        ])

  pub parse_headers_url-Advances :
      Advances (2 * length input) (parse_headers_url (record req { parser = headers_url }) input)
  unfolding parse_headers_url
  parse_headers_url-Advances =
      with_token-Advances (length input) (record req { parser = headers_url }) _ _
        (read_string-Consumes req.text input h) (λ text. tt)
        (λ token text rest left. elim (Option-cases (parse_query (c_string text))) [
          | inl e ↦ rw e tt
          | inr ((path, query), e) ↦ rw e (
              after_url-Advances (length input)
                (record req {
                  parser = headers_url;
                  text = [];
                  fullpath = some path;
                  query = query;
                })
                rest token left)
        ])

  pub parse_headers_version-Advances :
      Advances
        (2 * length input)
        (parse_headers_version (record req { parser = headers_version }) input)
  unfolding parse_headers_version
  parse_headers_version-Advances =
      with_token-Advances (length input) (record req { parser = headers_version }) _ _
        (read_string-Consumes req.text input h) (λ text. tt)
        (λ token text rest left.
          after_version-Advances (length input)
            (record req {
              parser = headers_version;
              http11 = req.http11 || same_bytes (c_string text) (codes "HTTP/1.1");
              query = some (or_new req.query);
            })
            rest token left)

  pub parse_headers_key-Advances :
      Advances
        (2 * length input)
        (parse_headers_key server (record req { parser = headers_key }) input)
  unfolding parse_headers_key
  parse_headers_key-Advances =
      with_token-Advances (length input) (record req { parser = headers_key }) _ _
        (read_key-Consumes req.text input h) (λ text. tt)
        (λ token text rest left.
          after_key-Advances (length input) server (record req { parser = headers_key; text = [] })
            rest left token text)

  pub parse_headers_value-Advances :
      Advances
        (2 * length input)
        (parse_headers_value (record req { parser = headers_value }) input)
  unfolding parse_headers_value
  parse_headers_value-Advances =
      with_token-Advances (length input) (record req { parser = headers_value }) _ _
        (read_line-Consumes req.text input h) (λ text. tt)
        (λ token text rest left.
          multiline_if_space-Advances (2 * length input)
            (record req { parser = headers_value; text = text }) rest left.0 (omega arith))

  pub parse_content_length-Advances :
      (n : ℕ) → Advances n (parse_content_length (record req { parser = content_length }) input)
  unfolding parse_content_length
  parse_content_length-Advances n =
      elim (Bool-cases (leb req.extra_size (length input + length req.block))) [
        | inl e ↦ rw e tt
        | inr e ↦ rw e tt
      ]

  pub parse_put-Advances : (n : ℕ) → Advances n (parse_put (record req { parser = put }) input)
  unfolding parse_put
  parse_put-Advances n = elim (Bool-cases (leb (req.extra_size - length req.body) (length input))) [
    | inl e ↦ rw e tt
    | inr e ↦ rw e tt
  ]

pub new_line_pair-Advances :
    (n : ℕ) (req : Request) (c d : ℕ) (rest : Bytes)
    → NoNull rest
    → 2 * length rest < n
    → Advances n (
        with_token req
          (new_line_pair c d rest)
          (λ token text r. calls (record req { parser = headers_key; text = [] }) r))
unfolding new_line_pair
new_line_pair-Advances n req c d rest h l = elim (Bool-cases ((c == b'\r') && (d == b'\n'))) [
  | inl e ↦ rw e (tt, h, l)
  | inr e ↦ rw e tt
]

abbrev pub at_new_line : Request → Request
at_new_line req = record req { parser = headers_key_skip_nl; text = [] }

pub parse_headers_key_skip_nl-Advances :
    (req : Request) (input : Bytes)
    → NoNull input
    → Advances (2 * length input) (parse_headers_key_skip_nl (at_new_line req) input)
unfolding parse_headers_key_skip_nl read_new_line
parse_headers_key_skip_nl-Advances req [] h = refl
parse_headers_key_skip_nl-Advances req (c ∷ []) h = elim (Bool-cases (c == b'\n')) [
  | inl e ↦ rw e (tt, tt, omega arith)
  | inr e ↦ rw e refl
]
parse_headers_key_skip_nl-Advances req (c ∷ (d ∷ rest)) (h, (k, hs)) =
    elim (Bool-cases (c == b'\n')) [
      | inl e ↦ rw e (tt, (k, hs), omega arith)
      | inr e ↦ rw e (new_line_pair-Advances _ (at_new_line req) c d rest hs (omega arith))
    ]

abbrev pub at_form : Request → Request
at_form req = record req { parser = post_urlencode }

pub parse_urlencode-Advances :
    (req : Request) (s : Bytes)
    → NoNull s
    → length req.body ≤ req.extra_size
    → Advances (2 * length s) (parse_urlencode (at_form req) s)
unfolding parse_urlencode
parse_urlencode-Advances req s h fits =
    let l = min (length s) (req.extra_size - length req.body) in
    let body = req.body ++ take l s in
    let rest = take (length s - l) s in
    let len = length-append req.body (take l s) in
    let taken = length-take l s in
    let left = length-take (length s - l) s in
    elim (Bool-cases (length body == req.extra_size)) [
      | inl e ↦ elim (Option-cases (query_to_dict null (c_string body))) [
        | inl f ↦ rw (e, f) tt
        | inr (post, f) ↦ rw (e, f) tt
      ]
      | inr e ↦ rw e (
          needs_more-Advances_left (2 * length s) (record (at_form req) { body = body }) rest
            (omega arith) (All-take (λ d. d ≢ 0) (length s - l) s h) (λ some_left. ground arith))
    ]

-- Every call of a parser.
pub parse-Advances :
    (server : Server) (p : Parser) (req : Request) (input : Bytes)
    → NoNull input
    → Fits (record req { parser = p })
    → Advances
        (measure (record req { parser = p }) input)
        (parse server (record req { parser = p }) input)
unfolding parse
parse-Advances server headers_get req input h fits = parse_headers_get-Advances server req input h
parse-Advances server headers_url req input h fits = parse_headers_url-Advances server req input h
parse-Advances server headers_version req input h fits =
    parse_headers_version-Advances server req input h
parse-Advances server headers_key_skip_nl req input h fits =
    rw fits (parse_headers_key_skip_nl-Advances req input h)
parse-Advances server headers_key req input h fits = parse_headers_key-Advances server req input h
parse-Advances server headers_value req input h fits =
    parse_headers_value-Advances server req input h
parse-Advances server headers_value_multiline_if_space req input h fits =
    multiline_if_space-Advances (2 * length input + 1)
      (record req { parser = headers_value_multiline_if_space }) input h (omega arith)
parse-Advances server headers_value_skip_leading_whitespace req input h fits =
    skip_leading_whitespace-Advances (2 * length input) req input h (omega arith)
parse-Advances server content_length req input h fits =
    parse_content_length-Advances server req input h (2 * length input)
parse-Advances server put req input h fits =
    parse_put-Advances server req input h (2 * length input)
parse-Advances server post_urlencode req input h fits = parse_urlencode-Advances req input h fits
