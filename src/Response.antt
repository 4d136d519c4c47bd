-- ===== src/Response.antt =====
-- src/onion/response.c: what a handler writes, the headers in front of it, and the end of a response.
-- The fuel is for the loop of `onion_response_write`; no result stands for a loop that goes on.
pub mod State
pub mod Headers
pub mod Order
pub mod Whole
pub mod Text
pub mod Freed
pub mod Served
pub mod Head
pub mod Cookie
use onion.Prelude.{
  ℕ, zero, suc, ◌+◌, ◌-◌, ◌^◌, List, [], ◌∷◌, ◌++◌, Bool, true, false, not, ◌&&◌, ◌||◌, Option,
  none, some, ltb, ◌==◌, if◌then◌else◌, ◌>>=◌, Bytes, codes, length, take, drop,
}
use onion.Strings.{decimal, hexadecimal}
use onion.Dict.{Entry, entries}
use onion.Request.{keep_alive}
use onion.Response.Headers.{headers_writes, is_chunked}
use onion.Response.State.{Response, buffer_size, to_unsigned, set_length, send, send_all}

-- `onion_response_flush` from the test of OR_SKIP_CONTENT on, with the headers sent and some bytes in
-- the buffer: whether it returns an error.
abbrev pub counted : Response → Response
counted res = record res {
  sent_bytes = to_unsigned (res.sent_bytes + length res.buffer);
  sent_bytes_total = to_unsigned (res.sent_bytes_total + length res.buffer);
}

unfoldable pub send_buffer : Response → Bool × Response
unfolding send_all send
send_buffer res =
    let (all, taken, answers) = send_all res.buffer res.answers in
    let after = record res { buffer = []; sent = res.sent ++ taken; answers = answers } in
    if all
    then (false, if res.chunked then (send (codes "\r\n") after).1 else after)
    else (true, after)

unfoldable pub send_chunk : Response → Bool × Response
unfolding send_buffer send hexadecimal
send_chunk res =
    let (w, measured) = send (hexadecimal (length res.buffer) ++ codes "\r\n") res in
    if w == 0 then (true, measured) else send_buffer measured

-- `onion_response_flush` where the headers are sent.
unfoldable pub flush_sent : Response → Bool × Response
unfolding send_chunk send_buffer
flush_sent res = elim (res.buffer) [
  | [] ↦ (false, counted res)
  | ◌∷◌ c s ↦
      if res.skip_content
      then (false, counted res)
      else if res.chunked
      then send_chunk (counted res)
      else send_buffer (counted res)
]

-- The loop of `onion_response_write`, with its `w`, for data of less than 2^31 bytes.
unfoldable pub write_from :
    (Response → Option (Bool × Response)) → ℕ → Bytes → ℕ → Response → Option (ℕ × Response)
write_from flush zero bytes w res = none
write_from flush (suc n) bytes w res =
    let wb = buffer_size - length res.buffer in
    let full = record res { buffer = res.buffer ++ take wb bytes } in
    let flushed : Option (ℕ × Response) = (do
      (failed, after) ← flush full
      if failed then some (w, after) else write_from flush n (drop wb bytes) (w + wb) after) in
    if ltb buffer_size (length res.buffer + length bytes)
    then flushed
    else some (w + length bytes, record res { buffer = res.buffer ++ bytes })

-- What `onion_response_write` returns: a number of bytes, or OCS_CLOSE_CONNECTION.
pub data Written : Type 0 where
  wrote : ℕ → Written
  close_connection : Written

-- `onion_response_write` where the headers are sent.
unfoldable pub write_sent : ℕ → Bytes → Response → Option (Written × Response)
unfolding write_from flush_sent
write_sent n bytes res =
    let flushed = flush_sent res in
    let written : Option (Written × Response) = (do
      (w, after) ← write_from (λ r. some (flush_sent r)) n bytes 0 res
      some (wrote w, after)) in
    if res.skip_content
    then some (close_connection, res)
    else elim bytes [ [] ↦ some (wrote 0, flushed.1) | ◌∷◌ c s ↦ written ]

unfoldable pub write_all_sent : ℕ → List Bytes → Response → Option Response
unfolding write_sent
write_all_sent n [] res = some res
write_all_sent n (bytes ∷ more) res = do
  (w, after) ← write_sent n bytes res
  write_all_sent n more after

-- `onion_response_write_headers`
abbrev pub is_head : Response → Bool
is_head res = res.request.method == 2

unfoldable pub write_headers : ℕ → Response → Option Response
unfolding headers_writes write_all_sent flush_sent keep_alive
write_headers n res = do
  written ← write_all_sent n (headers_writes res) (record res { header_sent = true })
  let after = record written { sent_bytes = to_unsigned (2 ^ 32 - length written.buffer) } in
      let flushed = (flush_sent after).1 in
      some (
        if is_head res
        then record flushed { skip_content = true }
        else if is_chunked res
        then record flushed { chunked = true }
        else after)

-- `onion_response_flush`
unfoldable pub flush : ℕ → Response → Option (Bool × Response)
unfolding flush_sent write_headers write_sent
flush n res =
    let delayed : Option (Bool × Response) = (do
      headed ← write_headers n (record (counted res) { buffer = [] })
      (w, after) ← write_sent n res.buffer headed
      some (false, after)) in
    if res.header_sent
    then some (flush_sent res)
    else elim (res.buffer) [ [] ↦ some (false, counted res) | ◌∷◌ c s ↦ delayed ]

-- `onion_response_write`
unfoldable pub response_write : ℕ → Bytes → Response → Option (Written × Response)
unfolding flush write_headers write_from
response_write n bytes res =
    let headed : Option (Written × Response) = (do
      after ← write_headers n res
      some (close_connection, after)) in
    let flushed : Option (Written × Response) = (do
      (failed, after) ← flush n res
      some (wrote 0, after)) in
    let written : Option (Written × Response) = (do
      (w, after) ← write_from (flush n) n bytes 0 res
      some (wrote w, after)) in
    if res.skip_content
    then (if res.header_sent then some (close_connection, res) else headed)
    else elim bytes [ [] ↦ flushed | ◌∷◌ c s ↦ written ]

-- The end of `onion_response_free`: the last chunk, and whether the connection is kept.
unfoldable pub free_flushed : Response → Bool × Response
unfolding send keep_alive
free_flushed flushed =
    let ended = if flushed.chunked then (send (codes "0\r\n\r\n") flushed).1 else flushed in
    (
      keep_alive ended.no_keep_alive ended.request
          && (ended.skip_content || (ended.content_length == ended.sent_bytes) || ended.chunked),
      ended,
    )

-- The start of `onion_handler_handle` once a handler has processed the request, and of
-- `onion_response_free`.
unfoldable pub measured : Response → Response
unfolding set_length
measured res =
    if not res.header_sent && ltb (length res.buffer) buffer_size
    then set_length (length res.buffer) res
    else res

-- What `onion_handler_handle` does with a response once a handler has processed the request.
unfoldable pub flush_processed : ℕ → Response → Option (Bool × Response)
unfolding flush measured
flush_processed n res = flush n (measured res)

-- `onion_response_free`: whether the connection is kept, and what was sent.
unfoldable pub response_free : ℕ → Response → Option (Bool × Response)
unfolding measured write_headers flush free_flushed
response_free n res = do
  headed ← if res.header_sent then some res else write_headers n (measured res)
  (failed, flushed) ← flush n headed
  some (free_flushed flushed)

-- A handler that writes its content at once: the response from there to its end.
unfoldable pub serve : ℕ → Bytes → Response → Option (Bool × Response)
unfolding response_write flush_processed response_free
serve n body res = do
  (w, written) ← response_write n body res
  (failed, finished) ← flush_processed n written
  response_free n finished
