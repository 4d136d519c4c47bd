-- ===== src/Websocket/Socket.antt =====
-- src/onion/websocket.c: a websocket on its connection, and what `onion_websocket_read_packet_header`
-- reads of it before it answers.
use onion.Prelude.{
  ℕ, ◌+◌, ◌*◌, ◌%◌, List, [], ◌∷◌, ◌++◌, Bool, true, false, Option, ◌==◌, leb, if◌then◌else◌, Bytes,
  length, take, drop, get_or,
}

-- What the listen point's reader returns: bytes, or a negative number, which is -1 less `k`.
pub data Reply : Type 0 where
  gave : Bytes → Reply
  failed : (k : ℕ) → Reply

abbrev pub given_by : Reply → Bytes
given_by (gave tmp) = tmp
given_by (failed k) = []

-- `onion_websocket` with its connection: the callback by a number, `mask_pos` and `data_left` by the
-- bits of their types, and the bytes that were written, call by call.
pub record Socket (I : Type 0) : Type 0 where
  pub callback : Option ℕ
  pub data_left : ℕ
  pub fin : Bool
  pub masked : Bool
  pub opcode : ℕ
  pub mask : Bytes
  pub mask_pos : ℕ
  pub input : I
  pub sent : List Bytes

-- The number that bytes stand for, the first one with the most weight.
unfoldable pub number : ℕ → Bytes → ℕ
number n [] = n
number n (b ∷ tmp) = number (n * 256 + b) tmp

module _ {I : Type 0} (lpreader : ℕ → I → Reply × I) where
  -- A call of the reader, and the bytes that it stored.
  abbrev pub ask : ℕ → Socket I → Bytes × Socket I
  ask n s = (given_by (lpreader n s.input).0, record s { input = (lpreader n s.input).1 })

  -- The first two bytes. False is OCS_CLOSE_CONNECTION, here and below.
  unfoldable pub read_start : Socket I → Bool × Socket I
  read_start s =
      let (tmp, s1) = ask 2 s in
      if length tmp == 2
      then (
        true,
        record s1 {
          fin = leb 128 (get_or tmp 0 0);
          masked = leb 128 (get_or tmp 1 0);
          opcode = get_or tmp 0 0 % 16;
          data_left = get_or tmp 1 0 % 128;
        },
      )
      else (false, s1)

  -- A length of more bytes.
  unfoldable pub read_number : ℕ → Socket I → Bool × Socket I
  read_number n s =
      let (tmp, s1) = ask n s in
      if length tmp == n then (true, record s1 { data_left = number 0 tmp }) else (false, s1)

  unfoldable pub read_length : Socket I → Bool × Socket I
  unfolding read_number
  read_length s =
      if s.data_left == 126
      then read_number 2 s
      else if s.data_left == 127
      then read_number 8 s
      else (true, s)

  unfoldable pub read_mask : Socket I → Bool × Socket I
  read_mask s =
      let (tmp, s1) = ask 4 s in
      let s2 = record s1 { mask = tmp ++ drop (length tmp) s1.mask } in
      if s.masked
      then if length tmp == 4 then (true, record s2 { mask_pos = 0 }) else (false, s2)
      else (true, s)

  -- The next step, unless the connection is to be closed.
  abbrev pub and_then : Bool × Socket I → (Socket I → Bool × Socket I) → Bool × Socket I
  and_then (true, s) f = f s
  and_then (false, s) f = (false, s)

  -- `onion_websocket_read_packet_header` up to the mask.
  unfoldable pub read_header : Socket I → Bool × Socket I
  unfolding read_start read_length read_mask
  read_header s = and_then (and_then (read_start s) read_length) read_mask

-- The reader of a connection on which everything that the client sends has arrived.
abbrev pub arrived : ℕ → Bytes → Reply × Bytes
arrived n input = (gave (take n input), drop n input)
