-- ===== src/Handler.antt =====
-- src/onion/handler.c: chains of handlers.
pub mod Chain
use onion.Prelude.{
  ℕ, List, [], ◌∷◌, ◌++◌, Bool, true, false, Option, none, some, if◌then◌else◌, ◌>>=◌,
}
use onion.Response.State.{Response}
use onion.Response.{flush_processed}

-- `onion_connection_status`
pub data Status : Type 0 where
  ocs_not_processed : Status
  ocs_need_more_data : Status
  ocs_processed : Status
  ocs_close_connection : Status
  ocs_keep_alive : Status
  ocs_websocket : Status
  ocs_request_ready : Status
  ocs_internal_error : Status
  ocs_not_implemented : Status
  ocs_forbidden : Status
  ocs_yield : Status

-- A request with its response, and where `req->path` starts in `req->fullpath`.
pub record Exchange : Type 0 where
  pub response : Response
  pub path : ℕ

-- The result of a handler; none where a write has no fuel, or memory is left.
abbrev pub Result : Type 0
Result = Option (Status × Exchange)

-- The callback of an `onion_handler` with its private data, and a chain of them; a callback may be
-- NULL.
abbrev pub Handler : Type 0
Handler = Exchange → Result

abbrev pub Chain : Type 0
Chain = List (Option Handler)

abbrev pub is_zero : Status → Bool
is_zero ocs_not_processed = true
is_zero _ = false

-- The fuel of a write, and `onion_websocket_call` on the websocket of a request that has one.
module _ (n : ℕ) (websocket : Exchange → Option Handler) where
  -- What is returned once the response was flushed.
  unfoldable pub returned : Status → Exchange → Result
  returned ocs_websocket x = elim (websocket x) [
    | none ↦ some (ocs_internal_error, x)
    | some call ↦ call x
  ]
  returned status x = some (status, x)

  -- The end of `onion_handler_handle` where a handler did not return 0.
  unfoldable pub answered : Status → Exchange → Result
  unfolding returned flush_processed
  answered status x = do
    (failed, response) ← flush_processed n x.response
    returned status (record x { response = response })

  -- `onion_handler_handle`
  unfoldable pub handle : Chain → Exchange → Result
  unfolding answered
  handle [] x = some (ocs_not_processed, x)
  handle (none ∷ next) x = handle next x
  handle (some handler ∷ next) x =
      handler x >>= λ (res, after). if is_zero res then handle next after else answered res after

-- `onion_handler_add`
unfoldable pub handler_add : Chain → Chain → Chain
handler_add base new_handler = base ++ new_handler
