-- ===== src/Websocket/Ends.antt =====
-- The end of a connection inside of a frame, or behind one.
use onion.Prelude.{
  ℕ, suc, ◌<◌, [], ◌++◌, true, false, none, some, ◌≡◌, ◌≢◌, refl, sym, ap, ◌∙◌, ◌==◌, ltb, Bytes,
  length, take, drop, take_all, append-nil, arith,
}
use onion.Prelude.Integers.{pos}
use onion.Websocket.Socket.{Socket, arrived}
use onion.Websocket.Read.{
  unmask, as_int, packet_header, pong, send, read, read_some, read_content, less,
}
use onion.Websocket.Header.{on}
use onion.Websocket.Content.{drop_all}
use onion.Websocket.Call.{calls_null, served, call}
use onion.Websocket.Frames.{mask_of, print_header, headed, read_header-print_header}
use onion.Handler.{Status}

module _ (errno : Bytes → ℕ) (unset : Bytes) where
  packet_header-ping_cut :
      (n a b c d len : ℕ) (s : Socket Bytes)
      → length s.mask ≡ 4
      → 0 < len
      → len < 65536
      → errno [] ≢ 0
      → (after : Socket Bytes) × (packet_header arrived errno unset
            (read arrived errno unset (suc n))
            (on (print_header 10 (mask_of a b c d) len ++ []) s)
          ≡ some (true, after))
        × (after.callback ≡ none)
  unfolding packet_header pong read read_content read_some as_int unmask send
  packet_header-ping_cut n a b c d len s four h l err =
      let some_left : (len == 0) ≡ false = ground arith in
      let failed : (errno [] == 0) ≡ false = ground arith in
      let nothing : take {A = ℕ} len [] ≡ [] = take_all len [] (omega arith) in
      let no_more : drop {A = ℕ} len [] ≡ [] = drop_all len [] (omega arith) in
      let same : ltb len len ≡ false = ground arith in
      (
        send unset (pos 0) []
            (record (headed 11 (mask_of a b c d) (less len (pos 0)) [] s) { callback = none }),
        rw
            (
              read_header-print_header 10 a b c d len [] s (omega arith) l four,
              some_left,
              same,
              nothing,
              no_more,
            )
            (rw (same, failed) refl),
        refl,
      )

  -- A websocket between frames, with a callback, and a ping with a payload of fewer than 65536 bytes
  -- of which the connection ends before the first: where `errno` is not 0, `onion_websocket_call`
  -- calls through a callback that is NULL, for any callback.
  pub call-calls_null :
      (callback : ℕ → ℕ → Socket Bytes → Status × Socket Bytes) (n a b c d f len : ℕ)
      (s : Socket Bytes)
      → length s.mask ≡ 4
      → s.data_left ≡ 0
      → 0 < len
      → len < 65536
      → errno [] ≢ 0
      → (after : Socket Bytes) × (call callback arrived errno unset
            (suc (suc n))
            (on (print_header 10 (mask_of a b c d) len) (record s { callback = some f }))
          ≡ some (calls_null after))
  unfolding call served
  call-calls_null callback n a b c d f len s four none_left h l err =
      let frame = print_header 10 (mask_of a b c d) len in
      let outside : (s.data_left == 0) ≡ true = ground arith in
      let (after, e, gone) =
        packet_header-ping_cut n a b c d len (record s { callback = some f }) four h l err in
      let e' =
        ap
          (λ t.
            packet_header arrived errno unset (read arrived errno unset (suc n))
              (on t (record s { callback = some f })))
          (sym (append-nil frame))
        ∙ e in
      (after, rw (outside, e') (rw gone refl))
