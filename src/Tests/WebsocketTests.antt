-- ===== src/Tests/WebsocketTests.antt =====
-- Frames of a websocket, on a connection on which everything has arrived.
use onion.Strings.{exact}
use onion.Dict.{null, get, entries}
use onion.RequestParser.Machine.{new_request}
use onion.Response.State.{Response, response_new}
use onion.Websocket.Open.{set_answer, get-set_answer}
use onion.Prelude.{
  ℕ, [], ◌∷◌, ◌++◌, true, false, some, none, ◌≡◌, refl, arith, codes, replicate, length, take,
  Bytes,
}
use onion.Handler.{Status, ocs_close_connection}
use onion.Websocket.{write_header, write_payload}
use onion.Websocket.Socket.{Socket, arrived, read_header}
use onion.Websocket.Read.{packet_header, read}
use onion.Websocket.Call.{calls_null, call}
use onion.Websocket.Header.{on, announced, read_header-write_header}
use onion.Websocket.Whole.{read_header-whole}
use onion.Websocket.Payload.{joined, write_payload-kept}
use onion.Websocket.Frames.{mask_of, print_header, print_frame, entered}
use onion.Websocket.Control.{
  frame_of, packet_header-ping, packet_header-close, packet_header-ping_empty,
}
use onion.Websocket.Ends.{call-calls_null}

-- A websocket as `onion_websocket_new` makes it, with a callback.
abbrev opened : Socket Bytes
opened = record {
  callback = some 7;
  data_left = 0;
  fin = false;
  masked = false;
  opcode = 1;
  mask = 0 ∷ 0 ∷ 0 ∷ 0 ∷ [];
  mask_pos = 0;
  input = [];
  sent = [];
}

-- What the system leaves: EAGAIN.
abbrev again : Bytes → ℕ
again input = 11

-- A stack with text of someone else on it.
abbrev stack : Bytes
stack = codes "secret"

-- The same where a write finds all that it sends.
abbrev long_stack : Bytes
long_stack = replicate 1022 b's'

abbrev hello : Bytes
hello = codes "hello"

read_header-write_header_example :
    read_header arrived (on (write_header 0 0 1 300 ++ codes "text") opened)
    ≡ (true, announced true 1 300 (codes "text") opened)
read_header-write_header_example =
    read_header-write_header 0 0 1 300 (codes "text") opened (omega arith) (omega arith)

write_payload-kept_example : joined (write_payload (length hello) (length hello) hello) ≡ hello
write_payload-kept_example = write_payload-kept hello

read_header-whole_example : (read_header arrived (on (129 ∷ 254 ∷ 1 ∷ []) opened)).0 ≡ false
read_header-whole_example = read_header-whole (129 ∷ 254 ∷ 1 ∷ []) opened

abbrev frame : Bytes
frame = print_frame 1 (mask_of 1 2 3 4) hello ++ codes "more"

abbrev inside : Socket Bytes
inside = entered 1 (mask_of 1 2 3 4) hello [] opened

packet_header-ping_example :
    (after : Socket Bytes) × (packet_header arrived again stack
        (read arrived again stack 1)
        (on (print_frame 10 (mask_of 1 2 3 4) hello ++ codes "more") opened)
      ≡ some (true, after))
    × (after.sent ≡ [] ++ (139 ∷ 5 ∷ []) ∷ hello ∷ [])
    × (after.data_left ≡ 0)
    × (after.input ≡ codes "more")
packet_header-ping_example =
    packet_header-ping again stack 0 1 2 3 4 hello (codes "more") opened refl (omega arith)
      (omega arith)

packet_header-close_example :
    (after : Socket Bytes) × (packet_header arrived again stack
        (read arrived again stack 1)
        (on (print_frame 8 (mask_of 1 2 3 4) (3 ∷ 232 ∷ hello) ++ []) opened)
      ≡ some (false, after))
    × (after.sent ≡ [] ++ frame_of again stack 8 (3 ∷ 232 ∷ []))
packet_header-close_example =
    packet_header-close again stack 1 1 2 3 4 3 232 hello [] opened refl (omega arith)

packet_header-ping_empty_example :
    (after : Socket Bytes) × (packet_header arrived again long_stack
        (read arrived again long_stack 1)
        (on
          (print_frame 10 (mask_of 1 2 3 4) [] ++ print_frame 8 (mask_of 1 2 3 4) (3 ∷ 232 ∷ []))
          opened)
      ≡ some (false, after))
    × (after.sent
        ≡ ([] ++ frame_of again long_stack 8 (3 ∷ 232 ∷ []))
          ++ (136 ∷ 254 ∷ []) ∷ take 1022 long_stack ∷ [])
    × (length (take 1022 long_stack) ≡ 1022)
packet_header-ping_empty_example =
    packet_header-ping_empty again long_stack 0 1 2 3 4 3 232 opened refl (omega arith)

abbrev closes : ℕ → ℕ → Socket Bytes → Status × Socket Bytes
closes f len s = (ocs_close_connection, s)

call-calls_null_example :
    (after : Socket Bytes) × (call closes arrived again stack 2
        (on (print_header 10 (mask_of 1 2 3 4) 5) (record opened { callback = some 7 }))
      ≡ some (calls_null after))
call-calls_null_example =
    call-calls_null again stack closes 0 1 2 3 4 7 5 opened refl refl (omega arith) (omega arith)
      (λ e. ground arith)

-- A response without any header.
abbrev bare : Response
bare = record (response_new (codes "now") (codes "onion") new_request false none) { headers = null }

get-set_answer_example :
    (get
        (set_answer (some (codes "chat")) (codes "key") bare).headers
        (codes "Sec-Websocket-Accept")
      ≡ some (codes "key"))
    × (get (set_answer (some (codes "chat")) (codes "key") bare).headers (codes "Upgrade")
        ≡ some (codes "websocket"))
    × (get
          (set_answer (some (codes "chat")) (codes "key") bare).headers
          (codes "Sec-Websocket-Protocol")
        ≡ get bare.headers (codes "Sec-Websocket-Protocol"))
    × ((set_answer (some (codes "chat")) (codes "key") bare).code ≡ 101)
    × ((set_answer (some (codes "chat")) (codes "key") bare).connection_upgrade ≡ true)
    × ((set_answer (some (codes "chat")) (codes "key") bare).length_set ≡ true)
unfolding entries
get-set_answer_example = get-set_answer (some (codes "chat")) (codes "key") bare tt
