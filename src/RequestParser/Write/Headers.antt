-- ===== src/RequestParser/Write/Headers.antt =====
-- A header that was printed is read into the dictionary of headers.
use onion.Prelude.{
  ℕ, suc, ◌+◌, ◌-◌, ◌<◌, List, [], ◌∷◌, ◌++◌, true, false, ◌||◌, none, some, ◌≡◌, ◌≢◌, refl, sym,
  ap, ◌∙◌, ◌==◌, Bytes, length, arith, append_assoc, length-append, take_all, lt→ltb, ltb,
}
use onion.Prelude.Predicates.{All, All-append, All-imp}
use onion.Utils.{is_space}
use onion.Strings.{without_case, c_string}
use onion.Dict.{no_flags, node_add}
use onion.RequestParser.Query.RoundTrip.{c_string_lem}
use onion.RequestParser.{
  line, found, str_size, terminate, read_key, key_of, until_token, read_line, line_end, line_str,
}
use onion.RequestParser.Words.{read_until-found, without_returns, read_line-line_end}
use onion.RequestParser.Machine.{
  Request, Server, calls, needs_more, headers_key, headers_value, parse, run, parse_headers_key,
  parse_headers_value, multiline_if_space, after_key, skip_spaces, add_header,
}
use onion.RequestParser.Write.Steps.{run-calls, run-needs_more}

-- A byte of a header's name.
abbrev pub IsNameByte : ℕ → Type 0
IsNameByte c = (is_space c ≡ false) × (c ≢ b':') × (c ≢ 0)

-- A byte of a header's value.
abbrev pub IsValueByte : ℕ → Type 0
IsValueByte c = (c ≢ b'\n') × (c ≢ b'\r') × (c ≢ 0)

-- A name, and a value that starts with no space; both fit in a token.
abbrev pub IsHeader : Bytes × Bytes → Type 0
IsHeader h =
    All IsNameByte h.0
    × All IsValueByte h.1
    × (skip_spaces h.1 ≡ h.1)
    × (length h.0 < str_size - 1)
    × (length h.1 + 2 < str_size - 1)

-- `name: value` and the end of the line, with what follows.
abbrev pub print_header : Bytes × Bytes → Bytes → Bytes
print_header (k, v) rest = k ++ (b':' ∷ b' ' ∷ (v ++ (b'\r' ∷ b'\n' ∷ rest)))

-- The request between two headers.
abbrev pub at_key : Request → Request
at_key req = record req { parser = headers_key; text = []; extra = none }

-- The request with a header more.
abbrev pub stored : Request → Bytes × Bytes → Request
stored req (k, v) = record req {
  headers = node_add ⦃o = without_case⦄ req.headers (record {
    key = k;
    value = v;
    flags = record no_flags { free_key = true; free_value = true; dup_value = true };
  });
}

pub c_string-append : (s t : Bytes) → All (λ c. c ≢ 0) s → c_string (s ++ 0 ∷ t) ≡ s
unfolding c_string
c_string-append [] t h = refl
c_string-append (c ∷ s) t (h, hs) = ground (arith, c_string-append s t hs)

without_returns_lem : (s : Bytes) → All IsNameByte s → without_returns s ≡ s
unfolding without_returns is_space
without_returns_lem [] h = refl
without_returns_lem (c ∷ s) (h, hs) = ground (arith, without_returns_lem s hs)

pub line_str-append : (s : Bytes) → line_str (s ++ b'\r' ∷ []) ≡ s ++ 0 ∷ []
unfolding line_str
line_str-append [] = refl
line_str-append (c ∷ []) = refl
line_str-append (c ∷ (d ∷ s)) = ap (λ t. c ∷ t) (line_str-append (d ∷ s))

name_inner : (c : ℕ) → IsNameByte c → ((c == b':') || (c == b'\n')) ≡ false
unfolding is_space
name_inner c h = ground arith

name_not_null : (c : ℕ) → IsNameByte c → c ≢ 0
name_not_null c h = h.2

-- The name.
pub parse-name :
    (server : Server) (req : Request) (k rest : Bytes)
    → All IsNameByte k
    → length k < str_size - 1
    → parse server (at_key req) (k ++ b':' ∷ rest)
      ≡ calls (record req { parser = headers_value; text = []; extra = some k }) rest
unfolding parse parse_headers_key read_key until_token key_of after_key
parse-name server req k rest h fits =
    let inner = All-imp IsNameByte (λ d. ((d == b':') || (d == b'\n')) ≡ false) name_inner k h in
    let nulls = All-imp IsNameByte (λ c. c ≢ 0) name_not_null k h in
    rw (
      read_until-found b':' [] k b':' rest inner refl (omega arith),
      without_returns_lem k h,
      c_string_lem k nulls,
    )

pub value_inner : (c : ℕ) → IsValueByte c → (c == b'\n') ≡ false
value_inner c h = ground arith

pub value_not_null : (c : ℕ) → IsValueByte c → c ≢ 0
value_not_null c h = h.2

-- The line of a value, with the space before it.
pub read_line-value :
    (v rest : Bytes)
    → All IsValueByte v
    → length v + 2 < str_size - 1
    → read_line [] (b' ' ∷ (v ++ (b'\r' ∷ b'\n' ∷ rest))) ≡ found line (b' ' ∷ (v ++ 0 ∷ [])) rest
unfolding line_end terminate line_str
read_line-value v rest h fits =
    let s = b' ' ∷ (v ++ b'\r' ∷ []) in
    let inner = All-imp IsValueByte (λ d. (d == b'\n') ≡ false) value_inner v h in
    let len = length-append v (b'\r' ∷ []) in
    let len' = length-append v (0 ∷ []) in
    let shape : line_str s ≡ b' ' ∷ (v ++ 0 ∷ []) = line_str-append (b' ' ∷ v) in
    let room : ltb (length (b' ' ∷ (v ++ 0 ∷ []))) str_size ≡ true =
      lt→ltb (length (b' ' ∷ (v ++ 0 ∷ []))) str_size (omega arith) in
    ap (λ t. read_line [] (b' ' ∷ t)) (sym (append_assoc v (b'\r' ∷ []) (b'\n' ∷ rest)))
    ∙ read_line-line_end [] s rest (str_size - 1)
        (refl, All-append (λ d. (d == b'\n') ≡ false) v (b'\r' ∷ []) inner (refl, tt)) refl
    ∙ ap (λ t. line_end t rest) (take_all (str_size - 1) s (omega arith))
    ∙ rw (shape, room) refl

stored_value :
    (v : Bytes)
    → All (λ c. c ≢ 0) v
    → skip_spaces v ≡ v
    → skip_spaces (c_string (b' ' ∷ (v ++ 0 ∷ []))) ≡ v
unfolding skip_spaces is_space
stored_value v nulls plain =
    ap skip_spaces (c_string-append (b' ' ∷ v) [] ((λ e. ground arith), nulls)) ∙ plain

-- The value, and what follows it: nothing that goes on with it.
pub parse-value :
    (server : Server) (req : Request) (k v : Bytes) (c : ℕ) (rest : Bytes)
    → All IsValueByte v
    → skip_spaces v ≡ v
    → length v + 2 < str_size - 1
    → c ≢ 0
    → c ≢ b' '
    → c ≢ b'\t'
    → parse server
        (record req { parser = headers_value; text = []; extra = some k })
        (b' ' ∷ (v ++ (b'\r' ∷ b'\n' ∷ c ∷ rest)))
      ≡ needs_more (at_key (stored req (k, v))) (c ∷ rest)
unfolding parse parse_headers_value multiline_if_space add_header
parse-value server req k v c rest h plain fits n s t =
    let nulls = All-imp IsValueByte (λ c. c ≢ 0) value_not_null v h in
    let not_null : (c == 0) ≡ false = ground arith in
    let not_blank : ((c == b' ') || (c == b'\t')) ≡ false = ground arith in
    rw (read_line-value v (c ∷ rest) h fits, not_null, not_blank, stored_value v nulls plain)

-- What may stand behind a header: nothing that goes on with its value.
abbrev pub StartsLine : Bytes → Type 0
StartsLine [] = ⊥
StartsLine (c ∷ rest) = (c ≢ 0) × (c ≢ b' ') × (c ≢ b'\t')

-- A printed header is stored.
pub run-print_header :
    (n : ℕ) (server : Server) (req : Request) (h : Bytes × Bytes) (rest : Bytes)
    → IsHeader h
    → StartsLine rest
    → run (suc (suc n)) server (at_key req) (print_header h rest)
      ≡ run n server (at_key (stored req h)) rest
run-print_header n server req (k, v) [] p s = absurd s
run-print_header n server req (k, v) (c ∷ rest) (hk, hv, plain, fits, fits') (n0, n1, n2) =
    run-calls (suc n) server (at_key req)
      (record req { parser = headers_value; text = []; extra = some k })
      (print_header (k, v) (c ∷ rest)) (b' ' ∷ (v ++ (b'\r' ∷ b'\n' ∷ c ∷ rest)))
      (parse-name server req k (b' ' ∷ (v ++ (b'\r' ∷ b'\n' ∷ c ∷ rest))) hk fits)
    ∙ run-needs_more n server (record req { parser = headers_value; text = []; extra = some k })
        (at_key (stored req (k, v))) (b' ' ∷ (v ++ (b'\r' ∷ b'\n' ∷ c ∷ rest))) c rest
        (parse-value server req k v c rest hv plain fits' n0 n1 n2)

-- The headers of a request, the empty line behind them, and what follows.
unfoldable pub print_headers : List (Bytes × Bytes) → Bytes → Bytes
print_headers [] rest = b'\r' ∷ b'\n' ∷ rest
print_headers (h ∷ hs) rest = print_header h (print_headers hs rest)

unfoldable pub stored_all : Request → List (Bytes × Bytes) → Request
stored_all req [] = req
stored_all req (h ∷ hs) = stored_all (stored req h) hs

-- The calls of the parser that headers take.
unfoldable pub steps : ℕ → List (Bytes × Bytes) → ℕ
steps n [] = n
steps n (h ∷ hs) = suc (suc (steps n hs))

print_header-StartsLine :
    (h : Bytes × Bytes) (rest : Bytes) → IsHeader h → StartsLine (print_header h rest)
unfolding is_space
print_header-StartsLine ([], v) rest h = ground arith
print_header-StartsLine (c ∷ k, v) rest h = ground arith

print_headers-StartsLine :
    (hs : List (Bytes × Bytes)) (rest : Bytes)
    → All IsHeader hs
    → StartsLine (print_headers hs rest)
unfolding print_headers
print_headers-StartsLine [] rest h = ground arith
print_headers-StartsLine (x ∷ hs) rest (h, hh) = print_header-StartsLine x (print_headers hs rest) h

-- Printed headers are stored one after the other.
pub run-print_headers :
    (n : ℕ) (server : Server) (req : Request) (hs : List (Bytes × Bytes)) (rest : Bytes)
    → All IsHeader hs
    → run (steps n hs) server (at_key req) (print_headers hs rest)
      ≡ run n server (at_key (stored_all req hs)) (b'\r' ∷ b'\n' ∷ rest)
unfolding print_headers stored_all steps
run-print_headers n server req [] rest h = refl
run-print_headers n server req (x ∷ hs) rest (h, hh) =
    run-print_header (steps n hs) server req x (print_headers hs rest) h
      (print_headers-StartsLine hs rest hh)
    ∙ run-print_headers n server (stored req x) hs rest hh
