-- ===== src/Response/State.antt =====
-- src/onion/types_internal.h, src/onion/response.c: a response, its buffer, and the writer of the
-- connection, which takes a part of what it is given.
use onion.Prelude.{
  ℕ, ◌%◌, ◌^◌, List, [], ◌∷◌, ◌++◌, Bool, true, false, Option, leb, ◌==◌, if◌then◌else◌, Bytes,
  codes, length, take, drop, min,
}
use onion.Strings.{exact, decimal}
use onion.Dict.{Tree, null, no_flags, dup_all, node_add}
use onion.RequestParser.Machine.{Request}

-- `onion_response`, with what it reads of its request: whether OR_NO_KEEP_ALIVE is set, and the id of
-- a session that has entries. `buffer` is the first `buffer_pos` bytes of the buffer. `sent` is what
-- the writer of the listen point took, and `answers` is what it will return: at most so many bytes,
-- or an error for 0; once there are no more, all of what it is given.
pub record Response : Type 0 where
  pub request : Request
  pub no_keep_alive : Bool
  pub session_id : Option Bytes
  pub headers : Tree Bytes Bytes
  pub code : ℕ
  pub header_sent : Bool
  pub length_set : Bool
  pub chunked : Bool
  pub skip_content : Bool
  pub connection_upgrade : Bool
  pub content_length : ℕ
  pub sent_bytes : ℕ
  pub sent_bytes_total : ℕ
  pub buffer : Bytes
  pub sent : Bytes
  pub answers : List ℕ

-- ONION_RESPONSE_BUFFER_SIZE
abbrev pub buffer_size : ℕ
buffer_size = 1500

-- An `unsigned int`
abbrev pub to_unsigned : ℕ → ℕ
to_unsigned n = n % 2 ^ 32

abbrev pub add_constant : Tree Bytes Bytes → Bytes → Bytes → Tree Bytes Bytes
add_constant headers key value =
    node_add headers (record { key = key; value = value; flags = no_flags })

-- `onion_response_new`, with the date header of this second, and the text of the server header.
abbrev pub new_headers : Bytes → Bytes → Tree Bytes Bytes
new_headers date server =
    let dated = node_add null (record {
      key = codes "Date";
      value = date;
      flags = record no_flags { free_value = true; dup_value = true };
    }) in
    add_constant (add_constant dated (codes "Server") server) (codes "Content-Type")
      (codes "text/html")

unfoldable pub response_new : Bytes → Bytes → Request → Bool → Option Bytes → Response
response_new date server req no_keep_alive session_id = record {
  request = req;
  no_keep_alive = no_keep_alive;
  session_id = session_id;
  headers = new_headers date server;
  code = 200;
  header_sent = false;
  length_set = false;
  chunked = false;
  skip_content = false;
  connection_upgrade = false;
  content_length = 0;
  sent_bytes = 0;
  sent_bytes_total = 0;
  buffer = [];
  sent = [];
  answers = [];
}

-- `onion_response_set_header`
unfoldable pub set_header : Bytes → Bytes → Response → Response
set_header key value res = record res {
  headers =
      node_add res.headers
        (record { key = key; value = value; flags = record dup_all { replace = true } });
}

-- `onion_response_set_length`
unfoldable pub with_length : ℕ → Response → Response
unfolding set_header decimal
with_length len res = record (set_header (codes "Content-Length") (decimal len) res) {
  content_length = to_unsigned len;
  length_set = true;
}

unfoldable pub set_length : ℕ → Response → Response
unfolding with_length
set_length len res =
    if len == res.sent_bytes
    then with_length len res
    else if res.header_sent
    then res
    else with_length len res

-- `onion_response_set_code`
unfoldable pub set_code : ℕ → Response → Response
set_code code res = record res { code = code }

-- One call of the writer: what it returns, and the response after it.
unfoldable pub send : Bytes → Response → ℕ × Response
send bytes res = elim (res.answers) [
  | [] ↦ (length bytes, record res { sent = res.sent ++ bytes })
  | ◌∷◌ a answers ↦
      (min a (length bytes), record res { sent = res.sent ++ take a bytes; answers = answers })
]

-- The loop of `onion_response_flush` over the answers of the writer: whether all was sent, what was
-- sent, and the answers that are left.
unfoldable pub send_all : Bytes → List ℕ → Bool × Bytes × List ℕ
send_all bytes [] = (true, bytes, [])
send_all bytes (a ∷ answers) =
    let (all, taken, left) = send_all (drop a bytes) answers in
    if leb (length bytes) a
    then (true, bytes, answers)
    else if a == 0
    then (false, [], answers)
    else (all, take a bytes ++ taken, left)
