-- ===== src/Response/Head.antt =====
-- A long content that is written at once to a HEAD request.
use onion.Prelude.{
  ℕ, zero, suc, ◌+◌, ◌-◌, ◌*◌, ◌^◌, ◌≤◌, ◌<◌, min, [], ◌∷◌, ◌++◌, true, false, Option, none, some,
  ◌≡◌, ◌≢◌, refl, sym, ap, subst, ◌∙◌, arith, Bytes, length, take, drop, ◌>>=◌, if◌then◌else◌, ltb,
  lt→ltb, length-append, length-take, length-drop,
}
use onion.Prelude.Predicates.{All}
use onion.Strings.{exact}
use onion.Response.State.{Response, buffer_size, to_unsigned}
use onion.Response.{
  wrote, counted, flush_sent, write_from, write_sent, write_headers, is_head, flush, response_write,
}
use onion.Response.Headers.{headers_writes, status_writes, session_writes, is_chunked}
use onion.Response.Order.{flush_sent-Flushed}
use onion.Response.Whole.{HasFuel, Reaches, write_all_sent-Reaches}

abbrev skips : Bytes → Response → Response
skips b res = record res { header_sent = true; skip_content = true; buffer = b }

flush-skips :
    (n : ℕ) (b : Bytes) (res : Response)
    → flush n (skips b res) ≡ some (false, counted (skips b res))
unfolding flush flush_sent
flush-skips n [] res = refl
flush-skips n (c ∷ b) res = refl

-- A full buffer is never emptied.
write_from-loops :
    (n m w : ℕ) (bytes b : Bytes) (res : Response)
    → length b ≤ buffer_size
    → buffer_size < length b + length bytes
    → write_from (flush m) n bytes w (skips b res) ≡ none
unfolding write_from
write_from-loops zero m w bytes b res l k = refl
write_from-loops (suc n) m w bytes b res l k =
    let wb = buffer_size - length b in
    let full = b ++ take wb bytes in
    let more : ltb buffer_size (length b + length bytes) ≡ true = lt→ltb _ _ k in
    let count : length full ≡ length b + length (take wb bytes) = length-append b (take wb bytes) in
    let taken : length (take wb bytes) ≡ min wb (length bytes) = length-take wb bytes in
    let left : length (drop wb bytes) ≡ length bytes - wb = length-drop wb bytes in
    rw (more, write_from)
      (rw (flush-skips m full res) (
        write_from-loops n m (w + wb) (drop wb bytes) full (counted (skips full res)) (omega arith)
          (omega arith)))

-- What the headers of a response to HEAD leave.
abbrev Emptied : Option Response → Type 0
Emptied none = ⊥
Emptied (some res) = skips [] res ≡ res

Emptied-of :
    (res : Response) (bytes : Bytes) (o : Option Response)
    → is_head res ≡ true
    → Reaches bytes (record res { header_sent = true }) o
    → Emptied (
        o >>= λ written.
        let after = record written { sent_bytes = to_unsigned (2 ^ 32 - length written.buffer) } in
        let flushed = (flush_sent after).1 in
        some (
          if is_head res
          then record flushed { skip_content = true }
          else if is_chunked res
          then record flushed { chunked = true }
          else after))
Emptied-of res bytes none e h = absurd h
Emptied-of res bytes (some written) e (order, count, opens, same) =
    let after : Response = record written {
      sent_bytes = to_unsigned (2 ^ 32 - length written.buffer);
    } in
    let (f, empty, bounded, (order', count', (o, s, c, h, l), same')) =
      flush_sent-Flushed after.buffer after refl opens in
    let flushed : Response = (flush_sent after).1 in
    let left : skips [] flushed ≡ record flushed { skip_content = true } = rw (o, empty) refl in
    rw (e) left

write_headers-Emptied :
    (n : ℕ) (res : Response)
    → res.skip_content ≡ false
    → res.chunked ≡ false
    → is_head res ≡ true
    → All (λ a. a ≢ 0) res.answers
    → length res.buffer ≤ buffer_size
    → HasFuel n (headers_writes res)
    → Emptied (write_headers n res)
unfolding write_headers
write_headers-Emptied n res s c e h k fuel = Emptied-of res _ _ e (
    write_all_sent-Reaches n (headers_writes res) (record res { header_sent = true })
      (refl, s, c, h, k) fuel)

write_from-after_headers :
    (n m v w : ℕ) (bytes body : Bytes) (o : Option Response)
    → Emptied o
    → buffer_size < length bytes
    → ((o >>= λ headed. write_sent m body headed >>= λ (x, after). some (false, after))
        >>= λ (failed, after).
            if failed then some (v, after) else write_from (flush m) n bytes w after)
      ≡ none
unfolding write_sent
write_from-after_headers n m v w bytes body none e l = refl
write_from-after_headers n m v w bytes body (some res) e l =
    subst
      (λ r.
        (write_sent m body r >>= λ (x, after). some (false, after)) >>= (λ (failed, after).
          if failed then some (v, after) else write_from (flush m) n bytes w after)
        ≡ none)
      e (write_from-loops n m w bytes [] res (omega arith) (omega arith))

abbrev unsent : Bytes → Response → Response
unsent b res = record res { header_sent = false; skip_content = false; buffer = b }

-- What the first full buffer writes the headers of.
abbrev unheaded : Bytes → Response → Response
unheaded b res = record (counted (unsent b res)) { buffer = [] }

unheaded-headers_writes :
    (b : Bytes) (res : Response) → headers_writes (unheaded b res) ≡ headers_writes res
unfolding headers_writes status_writes session_writes
unheaded-headers_writes b res = refl

response_write-unsent :
    (n c : ℕ) (bytes : Bytes) (res : Response)
    → buffer_size < length (c ∷ bytes)
    → response_write (suc n) (c ∷ bytes) (unsent [] res) ≡ (
        ((write_headers (suc n) (unheaded (take buffer_size (c ∷ bytes)) res) >>= λ headed.
        write_sent (suc n) (take buffer_size (c ∷ bytes)) headed >>= λ (x, after).
        some (false, after))
          >>= λ (failed, after).
              if failed
              then some (0, after)
              else write_from
                  (flush (suc n))
                  n
                  (drop buffer_size (c ∷ bytes))
                  (0 + buffer_size)
                  after)
        >>= λ (w, after). some (wrote w, after))
unfolding response_write write_from flush
response_write-unsent n c bytes res l =
    let more : ltb buffer_size (0 + length (c ∷ bytes)) ≡ true = lt→ltb _ _ (omega arith) in
    rw (more) refl

response_write-no_fuel :
    (c : ℕ) (bytes : Bytes) (res : Response) → response_write 0 (c ∷ bytes) (unsent [] res) ≡ none
unfolding response_write write_from
response_write-no_fuel c bytes res = refl

-- A handler that answers HEAD with more than two buffers of content at once, before the headers are
-- sent, on a connection whose writer takes at least one byte each time: the loop of
-- `onion_response_write` does not end, whatever the fuel that is enough for the headers.
pub response_write-loops :
    (n : ℕ) (bytes : Bytes) (res : Response)
    → res.header_sent ≡ false
    → res.skip_content ≡ false
    → res.chunked ≡ false
    → is_head res ≡ true
    → res.buffer ≡ []
    → All (λ a. a ≢ 0) res.answers
    → 2 * buffer_size < length bytes
    → HasFuel n (headers_writes res)
    → response_write n bytes res ≡ none
response_write-loops n [] res o s c e b h l fuel = absurd (omega arith)
response_write-loops zero (d ∷ bytes) res o s c e b h l fuel =
    let same : unsent [] res ≡ res = rw (o, s, b) refl in
    ap (response_write 0 (d ∷ bytes)) (sym same) ∙ response_write-no_fuel d bytes res
response_write-loops (suc n) (d ∷ bytes) res o s c e b h l fuel =
    let same : unsent [] res ≡ res = rw (o, s, b) refl in
    let left : length (drop buffer_size (d ∷ bytes)) ≡ length (d ∷ bytes) - buffer_size =
      length-drop buffer_size (d ∷ bytes) in
    let first = take buffer_size (d ∷ bytes) in
    let headed =
      write_headers-Emptied (suc n) (unheaded first res) refl c e h (omega arith)
        (subst (HasFuel (suc n)) (sym (unheaded-headers_writes first res)) fuel) in
    ap (response_write (suc n) (d ∷ bytes)) (sym same)
    ∙ response_write-unsent n d bytes res (omega arith)
    ∙ ap (λ (t : Option (ℕ × Response)). t >>= λ (w, after). some (wrote w, after))
        (write_from-after_headers n (suc n) 0 (0 + buffer_size) (drop buffer_size (d ∷ bytes)) first
          _ headed (omega arith))
