-- ===== src/RequestParser/Write/NullByte.antt =====
-- A 0 byte where a header line may start.
use onion.Prelude.{
  ℕ, zero, suc, ◌+◌, ◌<◌, ◌-◌, [], ◌∷◌, ◌++◌, some, none, ◌≡◌, refl, ◌∙◌, Bytes, length,
}
use onion.Prelude.Predicates.{All}
use onion.RequestParser.{str_size}
use onion.RequestParser.Machine.{
  Request, Server, headers_value, headers_value_multiline_if_space, needs_more, parse, run,
  parse_headers_value, multiline_if_space,
}
use onion.RequestParser.Write.Headers.{
  IsHeader, IsValueByte, at_key, parse-name, print_header, read_line-value,
}
use onion.RequestParser.Write.Steps.{run-calls, run-needs_more}

abbrev waiting : Request → Request
waiting req = record req { parser = headers_value_multiline_if_space }

run-null :
    (n : ℕ) (server : Server) (req : Request) (rest : Bytes)
    → run n server (waiting req) (0 ∷ rest) ≡ none
unfolding run parse multiline_if_space
run-null zero server req rest = refl
run-null (suc n) server req rest = run-null n server req rest

-- The value of a header with a 0 byte behind its line.
parse-value_null :
    (server : Server) (req : Request) (v rest : Bytes)
    → All IsValueByte v
    → length v + 2 < str_size - 1
    → parse server
        (record req { parser = headers_value; text = [] })
        (b' ' ∷ (v ++ (b'\r' ∷ b'\n' ∷ 0 ∷ rest)))
      ≡ needs_more (waiting (record req { text = b' ' ∷ (v ++ 0 ∷ []) })) (0 ∷ rest)
unfolding parse parse_headers_value multiline_if_space
parse-value_null server req v rest h fits = rw (read_line-value v (0 ∷ rest) h fits)

-- A header line with a 0 byte behind it: the loop of `onion_request_write` does not end, however
-- many calls of the parser it makes.
pub run-print_header_null :
    (n : ℕ) (server : Server) (req : Request) (h : Bytes × Bytes) (rest : Bytes)
    → IsHeader h
    → run n server (at_key req) (print_header h (0 ∷ rest)) ≡ none
unfolding run
run-print_header_null zero server req h rest p = refl
run-print_header_null (suc zero) server req (k, v) rest (hk, hv, plain, fits, fits') =
    run-calls 0 server (at_key req)
      (record req { parser = headers_value; text = []; extra = some k })
      (print_header (k, v) (0 ∷ rest)) (b' ' ∷ (v ++ (b'\r' ∷ b'\n' ∷ 0 ∷ rest)))
      (parse-name server req k (b' ' ∷ (v ++ (b'\r' ∷ b'\n' ∷ 0 ∷ rest))) hk fits)
run-print_header_null (suc (suc n)) server req (k, v) rest (hk, hv, plain, fits, fits') =
    let at_value = record req { parser = headers_value; text = []; extra = some k } in
    let line = b' ' ∷ (v ++ (b'\r' ∷ b'\n' ∷ 0 ∷ rest)) in
    let read = record req { extra = some k; text = b' ' ∷ (v ++ 0 ∷ []) } in
    run-calls (suc n) server (at_key req) at_value (print_header (k, v) (0 ∷ rest)) line
      (parse-name server req k line hk fits)
    ∙ run-needs_more n server at_value (waiting read) line 0 rest
        (parse-value_null server (record req { extra = some k }) v rest hv fits')
    ∙ run-null n server read rest
