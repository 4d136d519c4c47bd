-- ===== src/Handler/Chain.antt =====
-- A handler that is added to a chain gets what the chain does not process.
use onion.Prelude.{
  ℕ, [], ◌∷◌, ◌++◌, sym, inl, inr, Bool-cases, Bool, false, Option, none, some, ◌≡◌, refl,
  if◌then◌else◌, ◌>>=◌, arith,
}
use onion.Handler.{
  Status, Exchange, Result, Handler, Chain, is_zero, returned, answered, handle, handler_add,
  ocs_not_processed, ocs_need_more_data, ocs_processed, ocs_close_connection, ocs_keep_alive,
  ocs_websocket, ocs_request_ready, ocs_internal_error, ocs_not_implemented, ocs_forbidden,
  ocs_yield,
}
use onion.Response.State.{Response}
use onion.Response.{flush_processed}

-- A result other than 0.
abbrev pub IsAnswer : Result → Type 0
IsAnswer none = Unit
IsAnswer (some (status, x)) = is_zero status ≡ false

module _ (n : ℕ) (websocket : Exchange → Option Handler) where
  abbrev pub Answers : Type 0
  Answers = (x : Exchange) (call : Handler) → websocket x ≡ some call → IsAnswer (call x)

  -- The chain `next`, where the result is 0.
  abbrev pub then_next : Chain → Result → Result
  then_next next r =
      r >>= λ (res, after). if is_zero res then handle n websocket next after else some (res, after)

  then_next-answer : (next : Chain) (r : Result) → IsAnswer r → then_next next r ≡ r
  then_next-answer next none h = refl
  then_next-answer next (some (res, after)) h = rw h refl

  returned-IsAnswer :
      (res : Status) (x : Exchange)
      → Answers
      → is_zero res ≡ false
      → IsAnswer (returned n websocket res x)
  unfolding returned
  returned-IsAnswer ocs_websocket x h e = websocket-IsAnswer (websocket x) refl
    where
      websocket-IsAnswer :
          (o : Option Handler)
          → websocket x ≡ o
          → IsAnswer (elim o [ none ↦ some (ocs_internal_error, x) | some call ↦ call x ])
      websocket-IsAnswer none eq = refl
      websocket-IsAnswer (some call) eq = h x call eq
  returned-IsAnswer ocs_not_processed x h e = absurd (ground arith)
  returned-IsAnswer ocs_need_more_data x h e = refl
  returned-IsAnswer ocs_processed x h e = refl
  returned-IsAnswer ocs_close_connection x h e = refl
  returned-IsAnswer ocs_keep_alive x h e = refl
  returned-IsAnswer ocs_request_ready x h e = refl
  returned-IsAnswer ocs_internal_error x h e = refl
  returned-IsAnswer ocs_not_implemented x h e = refl
  returned-IsAnswer ocs_forbidden x h e = refl
  returned-IsAnswer ocs_yield x h e = refl

  answered-IsAnswer :
      (res : Status) (x : Exchange)
      → Answers
      → is_zero res ≡ false
      → IsAnswer (answered n websocket res x)
  unfolding answered
  answered-IsAnswer res x h e = flushed-IsAnswer (flush_processed n x.response)
    where
      flushed-IsAnswer :
          (o : Option (Bool × Response))
          → IsAnswer (
              o >>= λ (failed, response).
              returned n websocket res (record x { response = response }))
      flushed-IsAnswer none = tt
      flushed-IsAnswer (some (failed, response)) =
          returned-IsAnswer res (record x { response = response }) h e

  handle-split :
      (hs ks : Chain) (r : Result)
      → Answers
      → ((after : Exchange)
          → handle n websocket (hs ++ ks) after ≡ then_next ks (handle n websocket hs after))
      → (r >>= λ (res, after).
          if is_zero res
          then handle n websocket (hs ++ ks) after
          else answered n websocket res after)
        ≡ then_next ks (
            r >>= λ (res, after).
            if is_zero res then handle n websocket hs after else answered n websocket res after)
  handle-split hs ks none h next = refl
  handle-split hs ks (some (res, after)) h next = elim (Bool-cases (is_zero res)) [
    | inl e ↦ rw e (next after)
    | inr e ↦ rw e (
        sym
          (then_next-answer ks (answered n websocket res after) (answered-IsAnswer res after h e)))
  ]

  -- A chain to which another was added: the added one is asked where the chain returns 0, with the
  -- request and the response as the chain left them, and is not asked where the chain returns anything
  -- else, or does not return. A websocket is not called with the result 0.
  pub handle-handler_add :
      (base new_handler : Chain) (x : Exchange)
      → Answers
      → handle n websocket (handler_add base new_handler) x
        ≡ then_next new_handler (handle n websocket base x)
  unfolding handle handler_add
  handle-handler_add [] new_handler x h = refl
  handle-handler_add (none ∷ base) new_handler x h = handle-handler_add base new_handler x h
  handle-handler_add (some handler ∷ base) new_handler x h =
      handle-split base new_handler (handler x) h
        (λ after. handle-handler_add base new_handler after h)
