-- ===== src/Websocket.antt =====
-- src/onion/websocket.c: the frames that `onion_websocket_write` sends. The listen point's writer is
-- given the bytes of each call in turn. The children have the reading side.
pub mod Payload
pub mod Socket
pub mod Header
pub mod Whole
pub mod Read
pub mod Call
pub mod Open
pub mod Mask
pub mod Content
pub mod Frames
pub mod Control
pub mod Ends
use onion.Prelude.{
  ◌>>=◌, ℕ, zero, suc, ◌+◌, ◌-◌, ◌*◌, ◌/◌, ◌%◌, ◌^◌, List, [], ◌∷◌, ◌++◌, Bool, true, false, Option,
  none, some, ◌==◌, ltb, leb, if◌then◌else◌, Bytes, length, take, drop, get_or,
}

-- The byte of weight `256 ^ k` of a number.
abbrev pub byte_at : ℕ → ℕ → ℕ
byte_at k n = n / 256 ^ k % 256

-- The header of `onion_websocket_write` for a length that is an `int`. The loop for a long frame
-- fills `header[4]` to `header[11]`: `header[2]` and `header[3]`, here `u` and `v`, stay as they
-- are, and the last two bytes are not sent.
unfoldable pub write_header : ℕ → ℕ → ℕ → ℕ → Bytes
write_header u v opcode len =
    let first = 128 + opcode % 16 in
    if ltb len 126
    then first ∷ len ∷ []
    else if ltb len 65535
    then first ∷ 126 ∷ byte_at 1 len ∷ byte_at 0 len ∷ []
    else first
      ∷ 127
      ∷ u
      ∷ v
      ∷ byte_at 7 len
      ∷ byte_at 6 len
      ∷ byte_at 5 len
      ∷ byte_at 4 len
      ∷ byte_at 3 len
      ∷ byte_at 2 len
      ∷ []

-- The writes after the header: pieces of 1024 bytes while more than that is left, and then
-- `len & 1023` bytes of the rest. The fuel counts the pieces.
unfoldable pub write_payload : ℕ → ℕ → Bytes → List Bytes
write_payload zero len rest = take (len % 1024) rest ∷ []
write_payload (suc n) len rest =
    let more = take 1024 rest ∷ write_payload n len (drop 1024 rest) in
    if ltb 1024 (length rest) then more else take (len % 1024) rest ∷ []

-- `onion_websocket_write`: what the writer is given, call by call. The length is fuel enough.
unfoldable pub write : ℕ → ℕ → ℕ → Bytes → List Bytes
write u v opcode buffer =
    write_header u v opcode (length buffer) ∷ write_payload (length buffer) (length buffer) buffer
