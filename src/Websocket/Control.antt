-- ===== src/Websocket/Control.antt =====
-- Pings and closes of a client, and what a websocket answers.
use onion.Prelude.{
  ℕ, zero, suc, ◌%◌, ◌<◌, ◌≤◌, List, [], ◌∷◌, ◌++◌, true, false, some, ◌≡◌, refl, ap, ◌∙◌, ◌==◌,
  Bytes, length, take, drop, get_or, take_all, ltb, length-take, arith,
}
use onion.Prelude.Integers.{ℤ, pos, negsuc}
use onion.Websocket.{write, write_header, write_payload}
use onion.Websocket.Socket.{Socket, arrived}
use onion.Websocket.Read.{unmask, Returned, packet_header, pong, closing, send, close, read}
use onion.Websocket.Header.{on}
use onion.Websocket.Mask.{bit_xor_twice}
use onion.Websocket.Content.{Reads, drop_all, read-Reads}
use onion.Websocket.Frames.{mask_of, print_frame, headed, entered, read_header-print_frame}

module _ (errno : Bytes → ℕ) (unset : Bytes) where
  -- What `onion_websocket_write` writes for a buffer, with the bytes of the stack that its header may
  -- have.
  abbrev pub frame_of : ℕ → Bytes → List Bytes
  frame_of opcode buffer = write (get_or unset 0 0) (get_or unset 1 0) opcode buffer

  send_read :
      (k : ℕ) (payload rest : Bytes) (s : Socket Bytes) (r : Returned Bytes)
      → Reads k payload rest s r
      → length payload ≡ k
      → (send unset r.value r.stored r.socket).sent ≡ s.sent ++ frame_of s.opcode payload
  unfolding send
  send_read k payload rest s r (value, stored, holds, sent, opcode) whole =
      let first : take k payload ≡ payload = take_all k payload (omega arith) in
      rw (value, stored, sent, opcode, send) (rw (first, first) refl)

  -- What a write leaves as it was.
  send-keeps :
      (v : ℤ) (buffer : Bytes) (s : Socket Bytes)
      → ((send unset v buffer s).opcode ≡ s.opcode)
        × ((send unset v buffer s).data_left ≡ s.data_left)
        × ((send unset v buffer s).input ≡ s.input)
  unfolding send
  send-keeps (pos n) buffer s = (refl, refl, refl)
  send-keeps (negsuc k) buffer s = (refl, refl, refl)

  emptied :
      (mask : Bytes) (p : ℕ) (payload rest : Bytes)
      → (length (drop (length payload) payload) ≡ 0)
        × (unmask mask p (drop (length payload) payload) ++ rest ≡ rest)
  unfolding unmask
  emptied mask p payload rest =
      let none_left = drop_all (length payload) payload (omega arith) in
      (ap length none_left, ap (λ t. unmask mask p t ++ rest) none_left)

  last_piece :
      (payload : Bytes)
      → length payload < 126
      → take (length payload % 1024) payload ∷ [] ≡ payload ∷ []
  last_piece payload h = ap (λ t. t ∷ []) (take_all (length payload % 1024) payload (omega arith))

  write_payload-short :
      (n : ℕ) (payload : Bytes)
      → length payload < 126
      → write_payload n (length payload) payload ≡ payload ∷ []
  unfolding write_payload
  write_payload-short zero payload h = last_piece payload h
  write_payload-short (suc n) payload h =
      let one : ltb 1024 (length payload) ≡ false = ground arith in rw one (last_piece payload h)

  frame_of-short :
      (payload : Bytes)
      → length payload < 126
      → frame_of 11 payload ≡ (139 ∷ length payload ∷ []) ∷ payload ∷ []
  unfolding write write_header
  frame_of-short payload h =
      let short : ltb (length payload) 126 ≡ true = ground arith in
      rw (short, write_payload-short (length payload) payload h) refl

  -- A ping of a client, opcode 10 of the code, with a payload of 1 to 125 bytes: what is written for
  -- it is a header of the byte 139, which is the end of a message with opcode 11, and of the length,
  -- and then the same payload. What is behind the ping is left to be read, with a header first.
  pub packet_header-ping :
      (n a b c d : ℕ) (payload rest : Bytes) (s : Socket Bytes)
      → length s.mask ≡ 4
      → 0 < length payload
      → length payload < 126
      → (after : Socket Bytes) × (packet_header arrived errno unset
            (read arrived errno unset (suc n))
            (on (print_frame 10 (mask_of a b c d) payload ++ rest) s)
          ≡ some (true, after))
        × (after.sent ≡ s.sent ++ (139 ∷ length payload ∷ []) ∷ payload ∷ [])
        × (after.data_left ≡ 0)
        × (after.input ≡ rest)
  unfolding packet_header pong
  packet_header-ping n a b c d payload rest s four some_left l =
      let waiting = record (entered 10 (mask_of a b c d) payload rest s) { opcode = 11 } in
      let (r, e, reads) =
        read-Reads errno unset n (length payload) payload rest waiting some_left (omega arith)
          (omega arith) (omega arith) (refl, refl, refl) in
      let (value, stored, (masked, left, input), kept, opcode) = reads in
      let (keeps_opcode, keeps_left, keeps_input) = send-keeps r.value r.stored r.socket in
      let (no_bytes, behind) = emptied r.socket.mask r.socket.mask_pos payload rest in
      let not_close : ((send unset r.value r.stored r.socket).opcode == 8) ≡ false =
        ap (λ o. o == 8) (keeps_opcode ∙ opcode) in
      let sent = send_read (length payload) payload rest waiting r reads refl in
      (
        send unset r.value r.stored r.socket,
        rw (read_header-print_frame 10 a b c d payload rest s (omega arith) (omega arith) four, e)
            (rw not_close refl),
        sent ∙ ap (λ t. s.sent ++ t) (frame_of-short payload l),
        keeps_left ∙ left ∙ no_bytes,
        keeps_input ∙ input ∙ behind,
      )

  -- A close of a client with a status, in a payload of fewer than 65536 bytes: it is answered by a
  -- close with the status, and the connection is closed.
  pub packet_header-close :
      (n a b c d hi lo : ℕ) (reason rest : Bytes) (s : Socket Bytes)
      → length s.mask ≡ 4
      → length (hi ∷ lo ∷ reason) < 65536
      → (after : Socket Bytes) × (packet_header arrived errno unset
            (read arrived errno unset n)
            (on (print_frame 8 (mask_of a b c d) (hi ∷ lo ∷ reason) ++ rest) s)
          ≡ some (false, after))
        × (after.sent ≡ s.sent ++ frame_of 8 (hi ∷ lo ∷ []))
  unfolding packet_header closing close send unmask
  packet_header-close n a b c d hi lo reason rest s four l = (
    (closing arrived errno unset (entered 8 (mask_of a b c d) (hi ∷ lo ∷ reason) rest s)).1,
    rw (read_header-print_frame 8 a b c d (hi ∷ lo ∷ reason) rest s (omega arith) l four) refl,
    rw (bit_xor_twice hi a, bit_xor_twice lo b) refl,
  )

  -- A socket that has answered a close behind which nothing has arrived.
  abbrev answered_close : Bytes → ℕ → ℕ → Socket Bytes → Socket Bytes
  answered_close mask hi lo s = record (headed 8 mask 2 [] s) {
    sent = s.sent ++ frame_of 8 (hi ∷ lo ∷ []);
  }

  -- A ping without a payload, and a close with a status behind it, and nothing else: reading the
  -- content of the ping reads the header of the close, which is answered. The result of the read, -2,
  -- is then the length of a write: the second byte of its header is 254, the mask bit and the marker
  -- of a length of two bytes that does not follow, and the first 1022 bytes of the stack, which were
  -- never set, are sent behind it. The stack has at least 1022 bytes.
  pub packet_header-ping_empty :
      (n a b c d hi lo : ℕ) (s : Socket Bytes)
      → length s.mask ≡ 4
      → 1022 ≤ length unset
      → (after : Socket Bytes) × (packet_header arrived errno unset
            (read arrived errno unset (suc n))
            (on
              (print_frame 10 (mask_of a b c d) []
                ++ print_frame 8 (mask_of a b c d) (hi ∷ lo ∷ []))
              s)
          ≡ some (false, after))
        × (after.sent
            ≡ (s.sent ++ frame_of 8 (hi ∷ lo ∷ [])) ++ (136 ∷ 254 ∷ []) ∷ take 1022 unset ∷ [])
        × (length (take 1022 unset) ≡ 1022)
  unfolding packet_header closing close send pong read unmask
  packet_header-ping_empty n a b c d hi lo s four long =
      let none_left : drop 4 s.mask ≡ [] = drop_all 4 s.mask (omega arith) in
      let waiting = headed 11 (mask_of a b c d) 0 [] s in
      (
        send unset (negsuc 1) [] (answered_close (mask_of a b c d) hi lo waiting),
        rw (none_left, bit_xor_twice hi a, bit_xor_twice lo b) refl,
        refl,
        omega (arith, length-take 1022 unset),
      )
