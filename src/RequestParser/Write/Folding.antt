-- ===== src/RequestParser/Write/Folding.antt =====
-- A header whose value goes on in the next line.
use onion.Prelude.{
  ℕ, suc, ◌+◌, ◌<◌, ◌≤◌, ◌-◌, [], ◌∷◌, ◌++◌, some, true, false, ◌||◌, ◌≡◌, ◌≢◌, refl, sym, ap, ◌∙◌,
  ◌==◌, Bytes, length, arith, leb, ltb, le→leb, lt→ltb, length-append, append_assoc, take_all,
}
use onion.Prelude.Predicates.{All, All-append, All-imp}
use onion.Utils.{is_space}
use onion.Strings.{c_string}
use onion.RequestParser.{line, found, str_size, read_line, line_end, terminate}
use onion.RequestParser.Words.{read_line-line_end}
use onion.RequestParser.Machine.{
  Request, Server, headers_value, headers_value_skip_leading_whitespace, calls, needs_more, parse,
  run, parse_headers_value, multiline_if_space, skip_leading_whitespace, add_header, skip_spaces,
}
use onion.RequestParser.Write.Headers.{
  IsHeader, IsValueByte, at_key, stored, parse-name, print_header, read_line-value, c_string-append,
  line_str-append, value_inner, value_not_null,
}
use onion.RequestParser.Write.Steps.{run-calls, run-needs_more}

-- A line of a value that goes on from what was read before.
read_line-more :
    (text w rest : Bytes)
    → All IsValueByte w
    → length text + length w + 1 < str_size - 1
    → read_line text (w ++ (b'\r' ∷ b'\n' ∷ rest)) ≡ line_end (text ++ w ++ b'\r' ∷ []) rest
read_line-more text w rest h fits =
    let s = w ++ b'\r' ∷ [] in
    let len = length-append w (b'\r' ∷ []) in
    ap (read_line text) (sym (append_assoc w (b'\r' ∷ []) (b'\n' ∷ rest)))
    ∙ read_line-line_end text s rest (str_size - 1 - length text)
        (All-append (λ d. (d == b'\n') ≡ false) w (b'\r' ∷ [])
          (All-imp IsValueByte (λ d. (d == b'\n') ≡ false) value_inner w h) (refl, tt))
        (omega arith)
    ∙ ap (λ t. line_end (text ++ t) rest) (take_all (str_size - 1 - length text) s (omega arith))
    ∙ ap (λ t. line_end t rest) (sym (append_assoc text w (b'\r' ∷ [])))

c_string-fold : (s t u : Bytes) → All (λ c. c ≢ 0) s → c_string ((s ++ 0 ∷ t) ++ u) ≡ s
c_string-fold s t u h = simp append_assoc (c_string-append s (t ++ u) h)

-- `str` at the end of a line that goes on.
line_end-more :
    (c : ℕ) (text w rest : Bytes)
    → length (c ∷ text) + length w + 1 < str_size
    → line_end ((c ∷ text) ++ w ++ b'\r' ∷ []) rest ≡ found line ((c ∷ text) ++ w ++ 0 ∷ []) rest
unfolding line_end terminate
line_end-more c text w rest fits =
    let s = (c ∷ text) ++ w in
    let len = length-append s (0 ∷ []) in
    let len' = length-append (c ∷ text) w in
    let room : ltb (length (s ++ 0 ∷ [])) str_size ≡ true =
      lt→ltb (length (s ++ 0 ∷ [])) str_size (omega arith) in
    rw (line_str-append s, room)

-- The first line of the value, with a space at the start of the next line.
parse-first :
    (server : Server) (req : Request) (v rest : Bytes)
    → All IsValueByte v
    → length v + 2 < str_size - 1
    → parse server
        (record req { parser = headers_value; text = [] })
        (b' ' ∷ (v ++ (b'\r' ∷ b'\n' ∷ b' ' ∷ rest)))
      ≡ calls
          (record req {
            parser = headers_value_skip_leading_whitespace;
            text = b' ' ∷ (v ++ 0 ∷ []);
          })
          (b' ' ∷ rest)
unfolding parse parse_headers_value multiline_if_space
parse-first server req v rest h fits = rw (read_line-value v (b' ' ∷ rest) h fits)

-- The space, and the first byte behind it.
parse-space :
    (server : Server) (req : Request) (d : ℕ) (rest : Bytes)
    → IsValueByte d
    → is_space d ≡ false
    → length req.text + 2 ≤ str_size
    → parse server (record req { parser = headers_value_skip_leading_whitespace }) (b' ' ∷ d ∷ rest)
      ≡ calls (record req { parser = headers_value; text = req.text ++ b' ' ∷ d ∷ [] }) rest
unfolding parse skip_leading_whitespace is_space
parse-space server req d rest h plain fits =
    let not_blank : ((d == b'\t') || (d == b' ')) ≡ false = ground arith in
    let inner : (d == b'\n') ≡ false = ground arith in
    let room : leb (length req.text + 2) 8192 ≡ true = le→leb (length req.text + 2) 8192 fits in
    rw (not_blank, inner, room)

-- The rest of the next line.
parse-next :
    (server : Server) (req : Request) (k v : Bytes) (t w : Bytes) (c : ℕ) (rest : Bytes)
    → All (λ c. c ≢ 0) v
    → skip_spaces v ≡ v
    → All IsValueByte w
    → length v + length t + length w + 4 < str_size
    → (c ≢ 0) × (c ≢ b' ') × (c ≢ b'\t')
    → parse server
        (record req { parser = headers_value; text = (b' ' ∷ (v ++ 0 ∷ [])) ++ t; extra = some k })
        (w ++ (b'\r' ∷ b'\n' ∷ c ∷ rest))
      ≡ needs_more (at_key (stored req (k, v))) (c ∷ rest)
unfolding parse parse_headers_value multiline_if_space add_header skip_spaces is_space
parse-next server req k v t w c rest nulls plain h fits (n0, n1, n2) =
    let text = (b' ' ∷ (v ++ 0 ∷ [])) ++ t in
    let len = length-append (b' ' ∷ (v ++ 0 ∷ [])) t in
    let len' = length-append v (0 ∷ []) in
    let not_null : (c == 0) ≡ false = ground arith in
    let not_blank : ((c == b' ') || (c == b'\t')) ≡ false = ground arith in
    let value : skip_spaces (c_string ((text ++ w) ++ 0 ∷ [])) ≡ v =
      ap (λ u. skip_spaces (c_string u))
        (append_assoc text w (0 ∷ []) ∙ append_assoc (b' ' ∷ (v ++ 0 ∷ [])) t (w ++ 0 ∷ []))
      ∙ ap skip_spaces
          (c_string-fold (b' ' ∷ v) [] (t ++ (w ++ 0 ∷ [])) ((λ e. ground arith), nulls))
      ∙ plain in
    rw (
      read_line-more text w (c ∷ rest) h (omega arith),
      line_end-more b' ' ((v ++ 0 ∷ []) ++ t) w (c ∷ rest) (omega arith),
      not_null,
      not_blank,
      value,
    )

-- A header whose value goes on in a second line, which starts with a space: the header is stored
-- with what stands in its first line, and the second line is lost. `d` is the first byte behind the
-- space, no space itself, and `w` the rest of the second line; the two lines fit in a token, and
-- the header ends with them.
run-print_header_folded :
    (n : ℕ) (server : Server) (req : Request) (h : Bytes × Bytes) (d : ℕ) (w : Bytes) (c : ℕ)
    (rest : Bytes)
    → IsHeader h
    → All IsValueByte (d ∷ w)
    → is_space d ≡ false
    → length h.1 + length w + 6 < str_size
    → (c ≢ 0) × (c ≢ b' ') × (c ≢ b'\t')
    → run
        (suc (suc (suc (suc n))))
        server
        (at_key req)
        (print_header h (b' ' ∷ d ∷ (w ++ (b'\r' ∷ b'\n' ∷ c ∷ rest))))
      ≡ run n server (at_key (stored req h)) (c ∷ rest)
run-print_header_folded n server req (k, v) d w c rest (hk, hv, plain, fits, fits') (hd, hw) space
      fits'' starts =
    let len = length-append v (0 ∷ []) in
    let next = w ++ (b'\r' ∷ b'\n' ∷ c ∷ rest) in
    let lines = b' ' ∷ (v ++ (b'\r' ∷ b'\n' ∷ b' ' ∷ d ∷ next)) in
    let read = b' ' ∷ (v ++ 0 ∷ []) in
    let at_value = record req { parser = headers_value; text = []; extra = some k } in
    let at_space = record at_value {
      parser = headers_value_skip_leading_whitespace;
      text = read;
    } in
    let at_next = record at_value { text = read ++ b' ' ∷ d ∷ [] } in
    run-calls (suc (suc (suc n))) server (at_key req) at_value
      (print_header (k, v) (b' ' ∷ d ∷ next)) lines (parse-name server req k lines hk fits)
    ∙ run-calls (suc (suc n)) server at_value at_space lines (b' ' ∷ d ∷ next)
        (parse-first server (record req { extra = some k }) v (d ∷ next) hv fits')
    ∙ run-calls (suc n) server at_space at_next (b' ' ∷ d ∷ next) next (
        parse-space server (record req { extra = some k; text = read }) d next hd space
          (omega arith))
    ∙ run-needs_more n server at_next (at_key (stored req (k, v))) next c rest (
        parse-next server req k v (b' ' ∷ d ∷ []) w c rest
          (All-imp IsValueByte (λ c. c ≢ 0) value_not_null v hv) plain hw (omega arith) starts)
