-- ===== src/RequestParser/Write/Steps.antt =====
-- One call of the loop of `onion_request_write`, by what the parser does.
use onion.Prelude.{ℕ, suc, ◌∷◌, some, ◌≡◌, refl, Bytes}
use onion.RequestParser.Machine.{Request, Server, calls, needs_more, ready, parse, run}

module _ (n : ℕ) (server : Server) (req req' : Request) (input : Bytes) where
  pub run-calls :
      (rest : Bytes)
      → parse server req input ≡ calls req' rest
      → run (suc n) server req input ≡ run n server req' rest
  unfolding run
  run-calls rest e = rw (e, run) refl

  pub run-needs_more :
      (c : ℕ) (rest : Bytes)
      → parse server req input ≡ needs_more req' (c ∷ rest)
      → run (suc n) server req input ≡ run n server req' (c ∷ rest)
  unfolding run
  run-needs_more c rest e = rw (e, run) refl

  pub run-ready :
      (rest : Bytes)
      → parse server req input ≡ ready req' rest
      → run (suc n) server req input ≡ some (ready req' rest)
  unfolding run
  run-ready rest e = rw (e, run) refl
