-- ===== src/RequestParser/Write/RoundTrip.antt =====
-- A request that was printed is read back by `onion_request_write`.
use mathlib.Core.List.{flat_map}
use onion.Prelude.{
  ℕ, suc, ◌-◌, ◌<◌, List, [], ◌∷◌, ◌++◌, Bool, true, false, not, ◌&&◌, ◌||◌, Option, none, some,
  ◌≡◌, ◌≢◌, refl, sym, ◌∙◌, ◌==◌, Bytes, codes, length, same_bytes, arith, Bool-cases, Option-cases,
  inl, inr, ◌⊎◌,
}
use onion.Prelude.Predicates.{All, All-append, All-imp, IsBuffer}
use onion.Prelude.Table.{all_below, all_below_sound}
use onion.Utils.{is_space, is_alnum}
use onion.Strings.{c_string}
use onion.Codecs.Url.{quote_new, hex_high, hex_low}
use onion.Codecs.Url.RoundTrip.{quoted, quote_new-flat_map}
use onion.Dict.{null, Tree}
use onion.RequestParser.{
  after_byte, terminate, read_key, until_token, key_of, read_until, string, found, str_size,
  read_string, read_new_line,
}
use onion.RequestParser.Words.{read_string-found}
use onion.RequestParser.Query.{parse_query}
use onion.RequestParser.Query.RoundTrip.{
  field, print_query, add_fields, IsField, IsText, c_string_lem, parse_query-print_query,
}
use onion.RequestParser.Machine.{
  restarted, Request, Server, ready, headers_get, headers_key, headers_url, headers_version, parse,
  run, request_write, new_request, parse_headers_get, parse_headers_url, after_url,
  parse_headers_version, parse_headers_key_skip_nl, methods, method_from, header, or_new,
  parse_headers_key, after_version, after_key, headers_end, headers_length,
}
use onion.RequestParser.Write.Headers.{
  IsHeader, at_key, stored, stored_all, steps, print_headers, run-print_headers,
}

-- A byte of a request line.
abbrev pub IsWordByte : ℕ → Type 0
IsWordByte c = (is_space c ≡ false) × (c ≢ 0)

word_space : (c : ℕ) → IsWordByte c → is_space c ≡ false
word_space c h = h.0

word_null : (c : ℕ) → IsWordByte c → c ≢ 0
word_null c h = h.1

-- A word of the request line and the space behind it.
read_word :
    (s : Bytes) (c : ℕ) (rest : Bytes)
    → All IsWordByte s
    → (c ≡ b' ') ⊎ (c ≡ b'\r')
    → length s < str_size - 1
    → (read_string [] (s ++ c ∷ rest) ≡ found string s rest) × (c_string s ≡ s)
unfolding is_space
read_word s c rest h e fits =
    let spaces = All-imp IsWordByte (λ d. is_space d ≡ false) word_space s h in
    let nulls = All-imp IsWordByte (λ d. d ≢ 0) word_null s h in
    let found_word = read_string-found [] s c rest spaces (ground arith) (omega arith) in
    (ground arith, c_string_lem s nulls)

-- No body follows where there is no `Content-Length` and the method is neither POST nor PUT.
headers_end-ready :
    (server : Server) (req : Request) (rest : Bytes)
    → req.method ≢ 1
    → req.method ≢ 5
    → header req (codes "Content-Length") ≡ none
    → headers_end server req rest ≡ ready req rest
unfolding headers_end headers_length
headers_end-ready server req rest p q e =
    let not_post : (req.method == 1) ≡ false = ground arith in
    let not_put : (req.method == 5) ≡ false = ground arith in
    elim (Option-cases (header req (codes "Content-Type"))) [
      | inl none_set ↦ rw (headers_end, headers_length, none_set, not_put, e) refl
      | inr (t, set) ↦ rw (headers_end, headers_length, set, not_post, not_put, e) refl
    ]

module _ (n : ℕ) (server : Server) (req : Request) where
  -- `GET` or another method.
  run-method :
      (m : Bytes) (i : ℕ) (rest : Bytes)
      → All IsWordByte m
      → length m < str_size - 1
      → method_from 0 methods m ≡ some i
      → run (suc n) server (record req { parser = headers_get; text = [] }) (m ++ b' ' ∷ rest)
        ≡ run n server (record req { parser = headers_url; text = []; method = i }) rest
  unfolding run parse parse_headers_get
  run-method m i rest h fits e =
      let (word, plain) = read_word m b' ' rest h (inl refl) fits in rw (run, word, plain, e)

  -- The path with its query.
  run-url :
      (url path : Bytes) (query : Option (Tree Bytes Bytes)) (rest : Bytes)
      → All IsWordByte url
      → length url < str_size - 1
      → parse_query url ≡ some (path, query)
      → run (suc n) server (record req { parser = headers_url; text = [] }) (url ++ b' ' ∷ rest)
        ≡ run n server
            (record req {
              parser = headers_version;
              text = [];
              fullpath = some path;
              query = query;
            })
            rest
  unfolding run parse parse_headers_url after_url
  run-url url path query rest h fits e =
      let (word, plain) = read_word url b' ' rest h (inl refl) fits in rw (run, word, plain, e)

  -- The version and the end of the line.
  run-version :
      (version rest : Bytes)
      → All IsWordByte version
      → length version < str_size - 1
      → run
          (suc (suc n))
          server
          (record req { parser = headers_version; text = [] })
          (version ++ (b'\r' ∷ b'\n' ∷ rest))
        ≡ run n server
            (record req {
              parser = headers_key;
              text = [];
              http11 = req.http11 || same_bytes version (codes "HTTP/1.1");
              query = some (or_new req.query);
            })
            rest
  unfolding run parse parse_headers_version after_version parse_headers_key_skip_nl read_new_line
  run-version version rest h fits =
      let (word, plain) = read_word version b'\r' (b'\n' ∷ rest) h (inr refl) fits in
      rw (run, word, plain)

  -- The empty line, where no body follows.
  run-end :
      (rest : Bytes)
      → req.method ≢ 1
      → req.method ≢ 5
      → header req (codes "Content-Length") ≡ none
      → run (suc n) server (at_key req) (b'\r' ∷ b'\n' ∷ rest) ≡ some (ready (at_key req) rest)
  unfolding run parse parse_headers_key read_key until_token key_of after_key read_until after_byte
      terminate
  run-end rest p q e = rw (run, headers_end-ready server (at_key req) rest p q e)

abbrev is_word_byte : ℕ → Bool
is_word_byte c = not (is_space c || (c == 0))

is_word_byte_sound : (c : ℕ) → is_word_byte c ≡ true → IsWordByte c
is_word_byte_sound c h = (ground arith, λ e. ground arith)

hex_table : all_below 256 (λ c. is_word_byte (hex_high c) && is_word_byte (hex_low c)) ≡ true
unfolding all_below is_space
hex_table = refl

and_parts : (a b : Bool) → (a && b) ≡ true → (a ≡ true) × (b ≡ true)
and_parts a b h = ground arith

alnum-IsWordByte : (c : ℕ) → is_alnum c ≡ true → IsWordByte c
unfolding is_alnum is_space
alnum-IsWordByte c h = (ground arith, λ e. ground arith)

percent-IsWordByte : IsWordByte b'%'
unfolding is_space
percent-IsWordByte = (refl, λ e. ground arith)

quoted-IsWordByte : (c : ℕ) → c < 256 → All IsWordByte (quoted c)
unfolding quoted
quoted-IsWordByte c h = elim (Bool-cases (is_alnum c)) [
  | inl e ↦ rw e (alnum-IsWordByte c e, tt)
  | inr e ↦
      let both =
        all_below_sound 256 (λ c. is_word_byte (hex_high c) && is_word_byte (hex_low c)) c hex_table
          h in
      let (high, low) = and_parts (is_word_byte (hex_high c)) (is_word_byte (hex_low c)) both in
      rw e (
        percent-IsWordByte,
        (is_word_byte_sound (hex_high c) high, (is_word_byte_sound (hex_low c) low, tt)),
      )
]

flat_map-IsWordByte : (s : Bytes) → IsBuffer s → All IsWordByte (flat_map quoted s)
unfolding flat_map
flat_map-IsWordByte [] h = tt
flat_map-IsWordByte (c ∷ s) (h, hs) =
    All-append IsWordByte (quoted c) (flat_map quoted s) (quoted-IsWordByte c h)
      (flat_map-IsWordByte s hs)

quote_new-IsWordByte : (s : Bytes) → IsBuffer s → All IsWordByte (quote_new s)
quote_new-IsWordByte s h = rw (quote_new-flat_map s).0 (flat_map-IsWordByte s h)

mark-IsWordByte : IsWordByte b'?' × IsWordByte b'&' × IsWordByte b'='
unfolding is_space
mark-IsWordByte = ((refl, λ e. ground arith), (refl, λ e. ground arith), (refl, λ e. ground arith))

field-IsWordByte : (f : Bytes × Bytes) → IsField f → All IsWordByte (field f)
field-IsWordByte (k, v) (hk, hv) =
    All-append IsWordByte (quote_new k) (b'=' ∷ quote_new v) (quote_new-IsWordByte k hk.0)
      (mark-IsWordByte.2, quote_new-IsWordByte v hv.0)

print_query-IsWordByte :
    (fs : List (Bytes × Bytes)) → All IsField fs → All IsWordByte (print_query fs)
unfolding print_query
print_query-IsWordByte [] h = tt
print_query-IsWordByte (f ∷ []) (h, hs) = field-IsWordByte f h
print_query-IsWordByte (f ∷ (g ∷ fs)) (h, hs) =
    All-append IsWordByte (field f) (b'&' ∷ print_query (g ∷ fs)) (field-IsWordByte f h)
      (mark-IsWordByte.1, print_query-IsWordByte (g ∷ fs) hs)

-- The path and the query of a request line.
abbrev pub print_url : Bytes → List (Bytes × Bytes) → Bytes
print_url path fs = quote_new path ++ b'?' ∷ print_query fs

print_url-IsWordByte :
    (path : Bytes) (fs : List (Bytes × Bytes))
    → IsText path
    → All IsField fs
    → All IsWordByte (print_url path fs)
print_url-IsWordByte path fs h hs =
    All-append IsWordByte (quote_new path) (b'?' ∷ print_query fs) (quote_new-IsWordByte path h.0)
      (mark-IsWordByte.0, print_query-IsWordByte fs hs)

stored_all_lem :
    (req : Request) (hs : List (Bytes × Bytes)) → (stored_all req hs).method ≡ req.method
unfolding stored_all
stored_all_lem req [] = refl
stored_all_lem req (h ∷ hs) = stored_all_lem (stored req h) hs

-- A request line, its headers and the empty line.
abbrev pub print_request :
    Bytes → Bytes → List (Bytes × Bytes) → List (Bytes × Bytes) → Bytes → Bytes
print_request m path fs hs rest =
    m
    ++ b' '
      ∷ (print_url path fs ++ b' ' ∷ (codes "HTTP/1.1" ++ (b'\r' ∷ b'\n' ∷ print_headers hs rest)))

-- The request that a request line makes.
abbrev pub request_line : ℕ → Bytes → List (Bytes × Bytes) → Request
request_line i path fs = record new_request {
  parser = headers_key;
  method = i;
  http11 = true;
  fullpath = some path;
  query = some (add_fields null fs);
}

version_lem :
    All IsWordByte (codes "HTTP/1.1") × (same_bytes (codes "HTTP/1.1") (codes "HTTP/1.1") ≡ true)
unfolding is_space
version_lem = ground arith

request_write_lem :
    (n : ℕ) (server : Server) (req : Request) (s : Bytes) (c : ℕ) (rest : Bytes)
    → request_write n server req (s ++ c ∷ rest) ≡ run n server req (s ++ c ∷ rest)
unfolding request_write
request_write_lem n server req [] c rest = refl
request_write_lem n server req (d ∷ s) c rest = refl

-- A printed request is read back: a request line of a method of the list other than POST and PUT, a
-- quoted path, a query of quoted fields, all of texts without 0 bytes, and HTTP/1.1, then headers without `Content-Length` and the
-- empty line. Where the method, the path with its query, and each header fit in a token, the parser
-- makes a request with that method, path, fields and headers, and leaves what follows unread. Four
-- calls of the parser are enough for the request line and the empty line, and two for each header.
pub request_write-print_request :
    (server : Server) (m : Bytes) (i : ℕ) (path : Bytes) (fs hs : List (Bytes × Bytes))
    (rest : Bytes)
    → All IsWordByte m
    → length m < str_size - 1
    → method_from 0 methods m ≡ some i
    → i ≢ 1
    → i ≢ 5
    → IsText path
    → All IsField fs
    → length (print_url path fs) < str_size - 1
    → All IsHeader hs
    → header (stored_all (request_line i path fs) hs) (codes "Content-Length") ≡ none
    → request_write
        (suc (suc (suc (suc (steps 1 hs)))))
        server
        new_request
        (print_request m path fs hs rest)
      ≡ some (ready (at_key (stored_all (request_line i path fs) hs)) rest)
request_write-print_request server m i path fs hs rest h fits e not_post not_put hp hf fits' hh
      no_body =
    let lines = codes "HTTP/1.1" ++ (b'\r' ∷ b'\n' ∷ print_headers hs rest) in
    let req = record (restarted new_request headers_url) { method = i } in
    let req' = record (restarted req headers_version) {
      fullpath = some path;
      query = some (add_fields null fs);
    } in
    let made = stored_all (request_line i path fs) hs in
    let same : made.method ≡ i = stored_all_lem (request_line i path fs) hs in
    request_write_lem (suc (suc (suc (suc (steps 1 hs))))) server new_request m b' '
      (print_url path fs ++ b' ' ∷ lines)
    ∙ run-method (suc (suc (suc (steps 1 hs)))) server new_request m i
        (print_url path fs ++ b' ' ∷ lines) h fits e
    ∙ run-url (suc (suc (steps 1 hs))) server req (print_url path fs) path
        (some (add_fields null fs)) lines (print_url-IsWordByte path fs hp hf) fits'
        (parse_query-print_query path fs hp hf)
    ∙ run-version (steps 1 hs) server req' (codes "HTTP/1.1") (print_headers hs rest) version_lem.0
        (omega arith)
    ∙ run-print_headers 1 server (request_line i path fs) hs rest hh
    ∙ run-end 0 server made rest (λ f. not_post (sym same ∙ f)) (λ f. not_put (sym same ∙ f))
        no_body
