-- ===== src/Websocket/Call.antt =====
-- src/onion/websocket.c: the loop that calls the callback of a websocket.
use onion.Prelude.{
  ◌%◌, ◌>>=◌, ℕ, zero, suc, Bool, true, false, not, ◌&&◌, Option, none, some, ◌==◌, if◌then◌else◌,
  Bytes,
}
use onion.Handler.{Status, ocs_need_more_data, ocs_close_connection, ocs_internal_error}
use onion.Websocket.Socket.{Reply, Socket}
use onion.Websocket.Read.{packet_header, read}

-- `onion_websocket_set_callback`, `onion_websocket_set_opcode` and `onion_websocket_get_opcode`
unfoldable pub set_callback : {I : Type 0} → Option ℕ → Socket I → Socket I
set_callback cb ws = record ws { callback = cb }

unfoldable pub set_opcode : {I : Type 0} → ℕ → Socket I → Socket I
set_opcode opcode ws = record ws { opcode = opcode % 16 }

unfoldable pub get_opcode : {I : Type 0} → Socket I → ℕ
get_opcode ws = ws.opcode

-- The end of `onion_websocket_call`: a status, or a call through a callback that is NULL.
pub data Ended (I : Type 0) : Type 0 where
  returns : Status → Socket I → Ended I
  calls_null : Socket I → Ended I

abbrev pub needs_more : Status → Bool
needs_more ocs_need_more_data = true
needs_more _ = false

-- The status that `onion_websocket_call` returns for the one that its loop ended with.
abbrev pub last_status : Status → Status
last_status ocs_close_connection = ocs_close_connection
last_status _ = ocs_internal_error

module _ {I : Type 0} (callback : ℕ → ℕ → Socket I → Status × Socket I) where
  -- The inner loop, while the callback reads and there is more of the frame.
  unfoldable pub drain : ℕ → ℕ → Socket I → Option (Status × Socket I)
  drain zero f s = none
  drain (suc n) f s =
      let (ret, s1) = callback f s.data_left s in
      elim (s1.callback) [
        | none ↦ some (ret, s1)
        | some g ↦
            let rest = drain n g s1 in
            if not (s1.data_left == 0) && not (s.data_left == s1.data_left)
            then rest
            else some (ret, s1)
      ]

  module _ (lpreader : ℕ → I → Reply × I) (errno : I → ℕ) (unset : Bytes) where
    -- What follows a call of the callback: another round of the loop, or its end.
    abbrev pub went : (Socket I → Option (Ended I)) → Status × Socket I → Option (Ended I)
    went again (ret, s) = elim (s.callback) [
      | none ↦ some (returns ocs_close_connection s)
      | some f ↦ if needs_more ret then again s else some (returns (last_status ret) s)
    ]

    -- The content of a frame, given to the callback that there is now.
    unfoldable pub served : ℕ → (Socket I → Option (Ended I)) → Bool × Socket I → Option (Ended I)
    unfolding drain
    served n again (ok, s) =
        let called : Option (Ended I) = elim (s.callback) [
          | none ↦ some (calls_null s)
          | some f ↦ drain n f s >>= went again
        ] in
        if ok then called else some (returns ocs_close_connection s)

    -- `onion_websocket_call` on a connection with data, where none is that the fuel is used up.
    unfoldable pub call : ℕ → Socket I → Option (Ended I)
    unfolding packet_header read served
    call zero s = none
    call (suc n) s = elim (s.callback) [
      | none ↦ some (returns ocs_close_connection s)
      | some f ↦
          let headed : Option (Ended I) = (do
            r ← packet_header lpreader errno unset (read lpreader errno unset n) s
            served n (call n) r) in
          let served_now = served n (call n) (true, s) in
          if s.data_left == 0 then headed else served_now
    ]
