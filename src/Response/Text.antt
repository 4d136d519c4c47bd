-- ===== src/Response/Text.antt =====
-- The bytes of an answer with a content that is written at once, and that they are what
-- `onion_response_write_headers` writes.
use onion.Prelude.{
  ℕ, List, [], ◌∷◌, ◌++◌, true, none, some, ◌≡◌, refl, sym, ap, ◌∙◌, if◌then◌else◌, Bytes, codes,
  Bool-cases, Option-cases, inl, inr, append_assoc, append-nil,
}
use onion.Strings.{exact, decimal}
use onion.Dict.{Entry, dup_all, node_add, entries}
use onion.Response.State.{Response, with_length, set_header}
use onion.Response.Headers.{
  code_description, header_writes, status_writes, session_writes, headers_writes,
}
use onion.Response.Whole.{joined}

-- `HTTP/1.1 200 OK`
abbrev pub status_line : Response → Bytes
status_line res =
    (if res.request.http11 then codes "HTTP/1.1 " else codes "HTTP/1.0 ")
    ++ (decimal res.code ++ (codes " " ++ (code_description res.code ++ codes "\r\n")))

-- What is said of the connection of an answer whose length is known.
abbrev pub connection_lines : Response → Bytes
connection_lines res =
    (if res.request.http11 then [] else codes "Connection: Keep-Alive\r\n")
    ++ (if res.connection_upgrade then codes "Connection: Upgrade\r\n" else [])

-- `key: value` on a line of each.
unfoldable pub header_lines : List (Entry Bytes Bytes) → Bytes
header_lines [] = []
header_lines (x ∷ xs) = x.key ++ (codes ": " ++ (x.value ++ (codes "\r\n" ++ header_lines xs)))

abbrev pub session_line : Response → Bytes
session_line res = elim (res.session_id) [
  | none ↦ []
  | some id ↦ codes "Set-Cookie: sessionid=" ++ (id ++ codes "; httponly; Path=/\n")
]

-- The header of a length, which replaces another one.
abbrev pub length_header : ℕ → Entry Bytes Bytes
length_header len = record {
  key = codes "Content-Length";
  value = decimal len;
  flags = record dup_all { replace = true };
}

-- The head of the answer and its empty line.
abbrev pub print_head : ℕ → Response → Bytes
print_head len res =
    status_line res
    ++ (connection_lines res
        ++ (header_lines (entries (node_add res.headers (length_header len)))
            ++ (session_line res ++ codes "\r\n")))

joined-append : (xs ys : List Bytes) → joined (xs ++ ys) ≡ joined xs ++ joined ys
unfolding joined
joined-append [] ys = refl
joined-append (x ∷ xs) ys =
    ap (λ t. x ++ t) (joined-append xs ys) ∙ sym (append_assoc x (joined xs) (joined ys))

joined-header_writes : (xs : List (Entry Bytes Bytes)) → joined (header_writes xs) ≡ header_lines xs
unfolding joined header_writes header_lines
joined-header_writes [] = refl
joined-header_writes (x ∷ xs) =
    ap (λ t. x.key ++ (codes ": " ++ (x.value ++ (codes "\r\n" ++ t)))) (joined-header_writes xs)

joined-session_writes : (res : Response) → joined (session_writes res) ≡ session_line res
unfolding joined session_writes
joined-session_writes res = elim (Option-cases (res.session_id)) [
  | inl e ↦ rw (e, session_writes) refl
  | inr (id, e) ↦
      rw (e, session_writes)
        (append-nil (codes "Set-Cookie: sessionid=" ++ (id ++ codes "; httponly; Path=/\n")))
]

joined-status_writes :
    (len : ℕ) (res : Response)
    → joined (status_writes (with_length len res)) ≡ status_line res ++ connection_lines res
unfolding joined status_writes with_length set_header
joined-status_writes len res = elim (Bool-cases res.request.http11) [
  | inl h ↦ elim (Bool-cases res.connection_upgrade) [
    | inl u ↦ rw (h, u) (refl)
    | inr u ↦ rw (h, u) (refl)
  ]
  | inr h ↦ elim (Bool-cases res.connection_upgrade) [
    | inl u ↦ rw (h, u) (refl)
    | inr u ↦ rw (h, u) (refl)
  ]
]

-- The writes of the headers of an answer whose length was set.
pub joined-headers_writes :
    (len : ℕ) (res : Response) → joined (headers_writes (with_length len res)) ≡ print_head len res
unfolding headers_writes
joined-headers_writes len res =
    let r = with_length len res in
    let fields = header_writes (entries r.headers) in
    let end = codes "\r\n" ∷ [] in
    joined-append (status_writes r) (fields ++ (session_writes r ++ end))
    ∙ ap (λ t. t ++ joined (fields ++ (session_writes r ++ end))) (joined-status_writes len res)
    ∙ append_assoc (status_line res) (connection_lines res)
        (joined (fields ++ (session_writes r ++ end)))
    ∙ ap (λ t. status_line res ++ (connection_lines res ++ t))
        (joined-append fields (session_writes r ++ end)
          ∙ ap (λ t. t ++ joined (session_writes r ++ end))
              (joined-header_writes (entries r.headers))
          ∙ ap (λ t. header_lines (entries r.headers) ++ t)
              (joined-append (session_writes r) end
                ∙ ap (λ t. t ++ joined end) (joined-session_writes r)))
    ∙ unfold with_length set_header joined in refl
