-- ===== src/Websocket/Read.antt =====
-- src/onion/websocket.c: reading the content of frames, pings and the end of a connection, and the
-- loop that calls back. `unset` is what the stack holds where a buffer on it was not written, and
-- `errno` the number that the system left.
use onion.Prelude.{
  ◌>>=◌, ℕ, zero, suc, ◌+◌, ◌-◌, ◌%◌, ◌^◌, [], ◌∷◌, ◌++◌, Bool, true, false, not, ◌&&◌, Option,
  none, some, ◌==◌, ltb, if◌then◌else◌, Bytes, length, take, drop, get_or,
}
use onion.Prelude.Integers.{ℤ, pos, negsuc, ◌+ℤ◌}
use onion.Websocket.{write}
use onion.Websocket.Socket.{Reply, gave, failed, given_by, Socket, ask, read_header}
use Prim.Native.Nat.{bit_xor}

-- The bytes with the mask from a position of it on.
unfoldable pub unmask : Bytes → ℕ → Bytes → Bytes
unmask mask mask_pos [] = []
unmask mask mask_pos (b ∷ rest) =
    bit_xor b (get_or mask (mask_pos % 4) 0) ∷ unmask mask (mask_pos + 1) rest

-- A number as an `int` of 32 bits takes it.
unfoldable pub as_int : ℤ → ℤ
as_int (pos n) =
    let low = n % 2 ^ 32 in if ltb low (2 ^ 31) then pos low else negsuc (2 ^ 32 - 1 - low)
as_int (negsuc k) =
    let low = k % 2 ^ 32 in if ltb low (2 ^ 31) then negsuc low else pos (2 ^ 32 - 1 - low)

-- What the reader returns, as the `int` that `onion_websocket_read` keeps.
abbrev pub returned_by : Reply → ℤ
returned_by (gave tmp) = as_int (pos (length tmp))
returned_by (failed k) = as_int (negsuc k)

-- How many bytes a loop up to a result takes.
abbrev pub count_of : ℤ → ℕ
count_of (pos n) = n
count_of (negsuc k) = 0

-- What `onion_websocket_read` returns, and the bytes that it stored in the buffer.
pub record Returned (I : Type 0) : Type 0 where
  pub value : ℤ
  pub stored : Bytes
  pub socket : Socket I

abbrev pub less : ℕ → ℤ → ℕ
less data_left (pos n) = (data_left + 2 ^ 64 - n) % 2 ^ 64
less data_left (negsuc k) = (data_left + suc k) % 2 ^ 64

-- Whether a result of a read ends the websocket.
abbrev pub ends : ℤ → ℕ → Bool
ends (pos n) errno = n == 0 && not (errno == 0)
ends (negsuc k) errno = true

-- The end of `onion_websocket_close`, and of a write of which the length is a result of a read.
module _ {I : Type 0} (unset : Bytes) where
  -- `onion_websocket_write` on a socket. A negative length is in the header by its lowest byte, and
  -- the lowest ten bits of it are how much of `tout` is written, which was not set.
  unfoldable pub send : ℤ → Bytes → Socket I → Socket I
  unfolding write
  send (pos n) buffer s = record s {
    sent = s.sent ++ write (get_or unset 0 0) (get_or unset 1 0) s.opcode (take n buffer);
  }
  send (negsuc k) buffer s = record s {
    sent =
        s.sent
        ++ ((128 + s.opcode % 16) ∷ (255 - k % 256) ∷ []) ∷ take (1023 - k % 1024) unset ∷ [];
  }

  -- `onion_websocket_close`
  unfoldable pub close : Bytes → Socket I → Socket I
  unfolding send
  close status s = send (pos 2) status (record s { opcode = 8 })

module _ {I : Type 0} (lpreader : ℕ → I → Reply × I) (errno : I → ℕ) (unset : Bytes) where
  -- The answer to a ping, with what `onion_websocket_read` reads of it.
  unfoldable pub pong : (ℕ → Socket I → Option (Returned I)) → Socket I → Option (Socket I)
  unfolding send
  pong read s = do
    r ← read s.data_left (record s { opcode = 11 })
    some (send unset r.value r.stored r.socket)

  -- The status of a close, and the answer. False is OCS_CLOSE_CONNECTION, which it always is.
  unfoldable pub closing : Socket I → Bool × Socket I
  unfolding close
  closing s =
      let (tmp, s1) = ask lpreader 2 s in
      let status =
        bit_xor (get_or tmp 0 0) (get_or s.mask 0 0)
        ∷ bit_xor (get_or tmp 1 0) (get_or s.mask 1 0)
        ∷ [] in
      if length tmp == 2 then (false, close unset status s1) else (false, s1)

  -- `onion_websocket_read_packet_header`, by the function that reads the content of a ping.
  unfoldable pub packet_header :
      (ℕ → Socket I → Option (Returned I)) → Socket I → Option (Bool × Socket I)
  unfolding read_header pong closing
  packet_header read s =
      let (ok, s1) = read_header lpreader s in
      let answered : Option (Socket I) = (if s1.opcode == 10 then pong read s1 else some s1) in
      let handled : Option (Bool × Socket I) = (do
        s2 ← answered
        some (if s2.opcode == 8 then closing s2 else (true, s2))) in
      if ok then handled else some (false, s1)

  -- A call of the reader for the content, at most what is left of the frame.
  unfoldable pub read_some : ℕ → Socket I → Returned I
  unfolding unmask as_int
  read_some len s =
      let (reply, input) = lpreader len s.input in
      let content = given_by reply in
      let r = returned_by reply in
      let s1 = record s { data_left = less s.data_left r; input = input } in
      if s.masked
      then record {
        value = r;
        stored = unmask s.mask s.mask_pos (take (count_of r) content) ++ drop (count_of r) content;
        socket = record s1 { mask_pos = (s.mask_pos + count_of r) % 256 };
      }
      else record { value = r; stored = content; socket = s1 }

  -- A failed read takes the callback away.
  abbrev pub finished : Returned I → Returned I
  finished r =
      if ends r.value (errno r.socket.input)
      then record r { socket = record r.socket { callback = none } }
      else r

  -- The `int` is extended to the type of the length.
  abbrev pub is_full : ℕ → ℤ → Bool
  is_full len (pos r) = r == len
  is_full len (negsuc k) = len + suc k == 2 ^ 64

  abbrev pub appended : Returned I → Returned I → Returned I
  appended r later = record {
    value = as_int (r.value +ℤ later.value);
    stored = r.stored ++ later.stored;
    socket = later.socket;
  }

  -- `onion_websocket_read` once there is a header, with what it calls for the rest of the length.
  unfoldable pub read_content :
      (ℕ → Socket I → Option (Returned I)) → ℕ → Socket I → Option (Returned I)
  unfolding read_some as_int
  read_content read len s =
      let now = if ltb s.data_left len then s.data_left else len in
      let r = read_some now s in
      let more : Option (Returned I) = (do
        later ← read (len - now) r.socket
        some (finished (appended r later))) in
      if ltb now len && is_full now r.value then more else some (finished r)

  -- `onion_websocket_read`, where none is that the fuel, of a level of calls each, is used up.
  unfoldable pub read : ℕ → ℕ → Socket I → Option (Returned I)
  unfolding packet_header read_content
  read zero len s = none
  read (suc n) len s =
      let headed : Option (Returned I) = (do
        (ok, s1) ← packet_header (read n) s
        (if ok
            then read_content (read n) len s1
            else some (record { value = negsuc 1; stored = []; socket = s1 }))) in
      let content = read_content (read n) len s in if s.data_left == 0 then headed else content
