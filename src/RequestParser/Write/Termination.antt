-- ===== src/RequestParser/Write/Termination.antt =====
-- `onion_request_write` ends where the data has no 0 byte.
use onion.Prelude.{
  ℕ, zero, suc, ◌+◌, ◌*◌, ◌≤◌, ◌<◌, [], ◌∷◌, Option, none, some, ◌≡◌, refl, Bytes, length, arith,
}
use onion.Strings.{exact}
use onion.RequestParser.Machine.{
  Parser, headers_value_multiline_if_space, Request, Server, Outcome, calls, needs_more, ready,
  multipart_form, fails, not_implemented, leaves, parse, run, request_write,
}
use onion.RequestParser.Write.Consumes.{NoNull}
use onion.RequestParser.Write.Advances.{Fits, measure, measure_le, Advances}
use onion.RequestParser.Write.Parsers.{parse-Advances}

-- The loop of `onion_request_write` ended, and what the connection brings next may come.
abbrev pub IsDone : Outcome → Type 0
IsDone (calls req rest) = ⊥
IsDone (multipart_form req boundary rest) = ⊥
IsDone (needs_more req rest) = Fits req × (rest ≡ [])
IsDone _ = Unit

-- The loop ended, or came to the body of a form with less than `k` allows left to read.
abbrev pub Heads : ℕ → Option Outcome → Type 0
Heads k none = ⊥
Heads k (some (multipart_form req boundary rest)) = NoNull rest × (2 * length rest < k)
Heads k (some o) = IsDone o

abbrev EndsBelow : ℕ → Server → Type 0
EndsBelow n server =
    (k : ℕ) (req : Request) (rest : Bytes)
    → Fits req
    → NoNull rest
    → measure req rest < n
    → measure req rest ≤ k
    → Heads k (run n server req rest)

-- One call, where the loop ends from what it leaves.
run-Heads_step :
    (n m k : ℕ) (server : Server) (req : Request) (input : Bytes) (o : Outcome)
    → EndsBelow n server
    → m ≤ n
    → m ≤ k
    → parse server req input ≡ o
    → Advances m o
    → Heads k (run (suc n) server req input)
unfolding run
run-Heads_step n m k server req input (calls req' rest) ends le le' e (fits, h, l) =
    rw (e, run) (ends k req' rest fits h (omega arith) (omega arith))
run-Heads_step n m k server req input (needs_more req' []) ends le le' e fits =
    rw (e, run) (fits, refl)
run-Heads_step n m k server req input (needs_more req' (c ∷ rest)) ends le le' e (fits, h, l) =
    rw (e, run) (ends k req' (c ∷ rest) fits h (omega arith) (omega arith))
run-Heads_step n m k server req input (ready req' rest) ends le le' e h = rw (e, run) tt
run-Heads_step n m k server req input (multipart_form req' boundary rest) ends le le' e (h, l) =
    rw (e, run) (h, omega arith)
run-Heads_step n m k server req input fails ends le le' e h = rw (e, run) tt
run-Heads_step n m k server req input not_implemented ends le le' e h = rw (e, run) tt
run-Heads_step n m k server req input leaves ends le le' e h = rw (e, run) tt

run-Heads : (n : ℕ) (server : Server) → EndsBelow n server
run-Heads zero server k req input fits h l le = absurd (omega arith)
run-Heads (suc n) server k req input fits h l le =
    run-Heads_step n (measure req input) k server req input (parse server req input)
      (run-Heads n server) (omega arith) le refl
      (parse-Advances server (req.parser) req input h fits)

measure_most :
    (p : Parser) (req : Request) (input : Bytes)
    → measure (record req { parser = p }) input ≤ 2 * length input + 1
measure_most headers_value_multiline_if_space req input = omega arith
measure_most _ req input = omega arith

-- The loop up to the body of a form ends.
pub request_write-Heads :
    (n : ℕ) (server : Server) (req : Request) (input : Bytes)
    → Fits req
    → NoNull input
    → 2 * length input + 1 < n
    → Heads (2 * length input + 1) (request_write n server req input)
unfolding request_write
request_write-Heads n server req [] fits h l = (fits, refl)
request_write-Heads n server req (c ∷ input) fits h l =
    run-Heads n server (2 * length (c ∷ input) + 1) req (c ∷ input) fits h
      (measure_le (req.parser) req (c ∷ input) n l) (measure_most (req.parser) req (c ∷ input))
