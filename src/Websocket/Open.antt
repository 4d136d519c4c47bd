-- ===== src/Websocket/Open.antt =====
-- src/onion/websocket.c: `onion_websocket_new`, which answers a request for a websocket. The digest
-- `onion_sha1`, a call of a library, is a parameter.
use Prim.Native.Nat.{Ordering}
use Prim.Native.Nat.Ordering.{lt, eq, gt}
use onion.Prelude.{
  false, ◌>>=◌, ℕ, [], ◌∷◌, ◌++◌, Bool, true, not, ◌&&◌, Option, none, some, ◌≡◌, ◌≢◌, refl, ◌∙◌,
  ◌==◌, if◌then◌else◌, Bytes, codes, arith,
}
use onion.Strings.{exact, atol, compare_texts}
use onion.Codecs.Base64.{base64_encode}
use onion.Dict.{Entry, entries, get, dup_all}
use onion.Dict.Sorted.{IsStrict}
use onion.Dict.Find.{find_node-node_add, node_add-IsStrict}
use onion.Request.{same_text}
use onion.RequestParser.Machine.{Request, header}
use onion.Response.State.{Response, set_header, set_code}
use onion.Websocket.Socket.{Socket}
use onion.Response.{write_headers, response_write}

abbrev pub websocket_magic_13 : Bytes
websocket_magic_13 = codes "258EAFA5-E914-47DA-95CA-C5AB0DC85B11"

-- The text before the first line feed; none is a read behind the text.
abbrev pub line_of : Bytes → Option Bytes
line_of [] = none
line_of (c ∷ p) =
    let more : Option Bytes = (do rest ← line_of p; some (c ∷ rest)) in
    if c == b'\n' then some [] else more

abbrev pub is_13 : Bytes → Bool
is_13 ws_version = not (atol ws_version).0 && ((atol ws_version).1 == 13)

-- The key of a request for a websocket of version 13.
unfoldable pub asked_key : Request → Option Bytes
asked_key req = do
  upgrade ← header req (codes "Upgrade")
  ws_version ←
      (if same_text upgrade (codes "websocket")
        then header req (codes "Sec-Websocket-Version")
        else none)
  ws_key ← header req (codes "Sec-Websocket-Key")
  (if is_13 ws_version then some ws_key else none)

-- The headers that are set, `Sec-Websocket-Procotol` among them.
unfoldable pub set_protocol : Option Bytes → Response → Response
unfolding set_header
set_protocol none res = res
set_protocol (some ws_protocol) res = set_header (codes "Sec-Websocket-Procotol") ws_protocol res

unfoldable pub set_answer : Option Bytes → Bytes → Response → Response
unfolding set_header set_protocol set_code
set_answer ws_protocol key_answer res = set_header (codes "Sec-Websocket-Accept") key_answer (
    set_protocol ws_protocol (
      set_header (codes "Upgrade") (codes "websocket")
        (record (set_code 101 res) { connection_upgrade = true; length_set = true })))

-- The websocket that is allocated, with what its memory held for the mask and its position.
abbrev pub new_socket : {I : Type 0} → Bytes → ℕ → I → Socket I
new_socket mask mask_pos input = record {
  callback = none;
  data_left = 0;
  fin = false;
  masked = false;
  opcode = 1;
  mask = mask;
  mask_pos = mask_pos;
  input = input;
  sent = [];
}

-- The end of `onion_websocket_new`: NULL with the response as it was; the response that was sent, and
-- the websocket; or a read behind the answer, or an encoding that does not end well.
pub data Opened (I : Type 0) : Type 0 where
  refused : Opened I
  opened : Response → Socket I → Opened I
  behind : Opened I

-- `onion_websocket_new` of a request without a websocket, with the `new_socket` of its connection,
-- where none is that a write has no fuel.
unfoldable pub websocket_new :
    {I : Type 0} → ℕ → (Bytes → Bytes) → Socket I → Request → Response → Option (Opened I)
unfolding asked_key set_answer base64_encode write_headers response_write
websocket_new n sha1 socket req res = elim (asked_key req) [
  | none ↦ some refused
  | some ws_key ↦ elim (base64_encode (sha1 (ws_key ++ websocket_magic_13)) >>= line_of) [
    | none ↦ some behind
    | some key_answer ↦ do
      headed ←
          write_headers n (set_answer (header req (codes "Sec-Websocket-Protocol")) key_answer res)
      written ← response_write n [] headed
      some (opened written.1 socket)
  ]
]

-- What a key finds once a header is set.
get-set_header :
    (name value key : Bytes) (res : Response)
    → IsStrict (entries res.headers)
    → (get (set_header name value res).headers key
        ≡ elim (compare_texts key name) [ eq ↦ some value | _ ↦ get res.headers key ])
      × IsStrict (entries (set_header name value res).headers)
unfolding set_header get
get-set_header name value key res h =
    let e : Entry Bytes Bytes = record {
      key = name;
      value = value;
      flags = record dup_all { replace = true };
    } in
    (
      ground (arith, find_node-node_add res.headers e key refl h),
      node_add-IsStrict res.headers e refl h,
    )

elsewhere : (o : Ordering) (x y : Option Bytes) → o ≢ eq → elim o [ eq ↦ x | _ ↦ y ] ≡ y
elsewhere lt x y h = refl
elsewhere eq x y h = absurd (h refl)
elsewhere gt x y h = refl

set_protocol-keeps :
    (ws_protocol : Option Bytes) (key : Bytes) (res : Response)
    → compare_texts key (codes "Sec-Websocket-Procotol") ≢ eq
    → IsStrict (entries res.headers)
    → (get (set_protocol ws_protocol res).headers key ≡ get res.headers key)
      × IsStrict (entries (set_protocol ws_protocol res).headers)
unfolding set_protocol
set_protocol-keeps none key res h k = (refl, k)
set_protocol-keeps (some ws_protocol) key res h k =
    let (found, strict) = get-set_header (codes "Sec-Websocket-Procotol") ws_protocol key res k in
    (
      found ∙ elsewhere (compare_texts key (codes "Sec-Websocket-Procotol")) (some ws_protocol) _ h,
      strict,
    )

set_answer-flags :
    (ws_protocol : Option Bytes) (key_answer : Bytes) (res : Response)
    → ((set_answer ws_protocol key_answer res).code ≡ 101)
      × ((set_answer ws_protocol key_answer res).connection_upgrade ≡ true)
      × ((set_answer ws_protocol key_answer res).length_set ≡ true)
unfolding set_answer set_protocol set_header set_code
set_answer-flags none key_answer res = (refl, refl, refl)
set_answer-flags (some ws_protocol) key_answer res = (refl, refl, refl)

-- The answer to a request for a websocket, on a response whose headers have distinct
-- names in order: the code is 101, the response is one that upgrades the connection and whose length
-- is taken as set, `Sec-Websocket-Accept` has the answer to the key and `Upgrade` is `websocket`.
-- Whatever protocols the request asks for, `Sec-Websocket-Protocol` is the header that it was before.
pub get-set_answer :
    (ws_protocol : Option Bytes) (key_answer : Bytes) (res : Response)
    → IsStrict (entries res.headers)
    → (get (set_answer ws_protocol key_answer res).headers (codes "Sec-Websocket-Accept")
        ≡ some key_answer)
      × (get (set_answer ws_protocol key_answer res).headers (codes "Upgrade")
          ≡ some (codes "websocket"))
      × (get (set_answer ws_protocol key_answer res).headers (codes "Sec-Websocket-Protocol")
          ≡ get res.headers (codes "Sec-Websocket-Protocol"))
      × ((set_answer ws_protocol key_answer res).code ≡ 101)
      × ((set_answer ws_protocol key_answer res).connection_upgrade ≡ true)
      × ((set_answer ws_protocol key_answer res).length_set ≡ true)
unfolding set_answer set_code compare_texts
get-set_answer ws_protocol key_answer res h =
    let upgraded = record (set_code 101 res) { connection_upgrade = true; length_set = true } in
    let res1 = set_header (codes "Upgrade") (codes "websocket") upgraded in
    let res2 = set_protocol ws_protocol res1 in
    let strict1 = (get-set_header (codes "Upgrade") (codes "websocket") [] upgraded h).1 in
    let strict2 = (set_protocol-keeps ws_protocol [] res1 (λ e. ground arith) strict1).1 in
    let (code, upgrades, length_known) = set_answer-flags ws_protocol key_answer res in
    let last = λ (key : Bytes).
      (get-set_header (codes "Sec-Websocket-Accept") key_answer key res2 strict2).0 in
    let first =
      λ (key : Bytes). (get-set_header (codes "Upgrade") (codes "websocket") key upgraded h).0 in
    (
      last (codes "Sec-Websocket-Accept"),
      last (codes "Upgrade")
          ∙ (set_protocol-keeps ws_protocol (codes "Upgrade") res1 (λ e. ground arith) strict1).0
          ∙ first (codes "Upgrade"),
      last (codes "Sec-Websocket-Protocol")
          ∙ (set_protocol-keeps ws_protocol (codes "Sec-Websocket-Protocol") res1
              (λ e. ground arith) strict1).0
          ∙ first (codes "Sec-Websocket-Protocol"),
      code,
      upgrades,
      length_known,
    )
