-- ===== src/Response/Whole.antt =====
-- A response from its headers to its end.
use onion.Prelude.{
  ℕ, ◌+◌, ◌-◌, ◌*◌, ◌^◌, ◌≤◌, ◌<◌, List, [], ◌∷◌, ◌++◌, Bool, true, false, not, ◌&&◌, Option, none,
  some, ◌≡◌, ◌≢◌, refl, sym, subst, ◌∙◌, arith, Bytes, length, append-nil, ◌>>=◌, if◌then◌else◌,
}
use onion.Prelude.Predicates.{All}
use onion.Strings.{exact}
use onion.Response.State.{Response, buffer_size, to_unsigned}
use onion.Response.{
  Written, wrote, close_connection, flush_sent, write_sent, write_all_sent, write_headers, is_head,
}
use onion.Response.Headers.{headers_writes, is_chunked}
use onion.Response.Order.{
  IsOpen, Same, Follows, Follows-trans, flush_sent-Flushed, Wrote, write_from-Wrote, if_false,
}

-- All of `bytes` is written behind what `res` has.
abbrev pub Sent : Bytes → Response → Option (Written × Response) → Type 0
Sent bytes res none = ⊥
Sent bytes res (some (close_connection, after)) = ⊥
Sent bytes res (some (wrote w, after)) = (w ≡ length bytes) × Follows bytes res after

Wrote-Sent :
    (bytes : Bytes) (res : Response) (o : Option (ℕ × Response))
    → Wrote (0 + length bytes) bytes res o
    → Sent bytes res (o >>= λ (w, after). some (wrote w, after))
Wrote-Sent bytes res none h = h
Wrote-Sent bytes res (some (w, after)) (e, f) = (omega arith, f)

-- `onion_response_write`, where the headers are sent and no write of the connection fails: it returns
-- the length of the data, and what was sent and what is in the buffer, one after the other, grow by the
-- data. The content is neither skipped nor chunked, and the fuel is for blocks of a full buffer.
pub write_sent-Sent :
    (n : ℕ) (bytes : Bytes) (res : Response)
    → IsOpen res
    → length res.buffer + length bytes < buffer_size * n
    → Sent bytes res (write_sent n bytes res)
unfolding write_sent
write_sent-Sent n [] res (o, s, c, h, k) l =
    subst (Sent [] res) (sym (if_false (res.skip_content) _ _ s))
      (refl, (flush_sent-Flushed (res.buffer) res refl (o, s, c, h, k)).3)
write_sent-Sent n (b ∷ bytes) res (o, s, c, h, k) l =
    subst (Sent (b ∷ bytes) res) (sym (if_false (res.skip_content) _ _ s))
      (Wrote-Sent (b ∷ bytes) res _ (write_from-Wrote n (b ∷ bytes) 0 res (o, s, c, h, k) l))

-- The bytes of several writes.
unfoldable pub joined : List Bytes → Bytes
joined [] = []
joined (bytes ∷ more) = bytes ++ joined more

abbrev pub Reaches : Bytes → Response → Option Response → Type 0
Reaches bytes res none = ⊥
Reaches bytes res (some after) = Follows bytes res after

-- The fuel is enough for each of the writes.
abbrev pub HasFuel : ℕ → List Bytes → Type 0
HasFuel n writes = All (λ bytes. buffer_size + length bytes < buffer_size * n) writes

Reaches-after :
    (n : ℕ) (bytes more : Bytes) (writes : List Bytes) (res : Response)
    (o : Option (Written × Response))
    → Sent bytes res o
    → ((after : Response) → IsOpen after → Reaches more after (write_all_sent n writes after))
    → Reaches (bytes ++ more) res (o >>= λ (w, after). write_all_sent n writes after)
Reaches-after n bytes more writes res none h next = absurd h
Reaches-after n bytes more writes res (some (close_connection, after)) h next = absurd h
Reaches-after n bytes more writes res (some (wrote w, after)) (e, f) next =
    follow (write_all_sent n writes after) (next after (f.2))
  where
    follow : (o : Option Response) → Reaches more after o → Reaches (bytes ++ more) res o
    follow none h = h
    follow (some last) h = Follows-trans bytes more res after last f h

pub write_all_sent-Reaches :
    (n : ℕ) (writes : List Bytes) (res : Response)
    → IsOpen res
    → HasFuel n writes
    → Reaches (joined writes) res (write_all_sent n writes res)
unfolding write_all_sent joined
write_all_sent-Reaches n [] res h l =
    (sym (append-nil (res.sent ++ res.buffer)), omega arith, h, (refl, refl, refl))
write_all_sent-Reaches n (bytes ∷ writes) res (o, s, c, h, k) (l, ls) =
    Reaches-after n bytes (joined writes) writes res (write_sent n bytes res)
      (write_sent-Sent n bytes res (o, s, c, h, k) (omega arith))
      (λ after opens. write_all_sent-Reaches n writes after opens ls)

-- The response is answered with its headers and with its content in full, and knows its length.
abbrev pub IsPlain : Response → Type 0
IsPlain res =
    (res.header_sent ≡ false)
    × (res.skip_content ≡ false)
    × (res.chunked ≡ false)
    × (res.length_set ≡ true)
    × (is_head res ≡ false)
    × All (λ a. a ≢ 0) res.answers

-- The headers were written behind what `res` has, and the count of the content starts there.
abbrev pub Headed : Response → Option Response → Type 0
Headed res none = ⊥
Headed res (some after) =
    (after.sent ++ after.buffer ≡ (res.sent ++ res.buffer) ++ joined (headers_writes res))
    × (to_unsigned (after.sent_bytes + length after.buffer) ≡ 0)
    × IsOpen after
    × Same res after

Headed-of :
    (res : Response) (o : Option Response)
    → is_head res ≡ false
    → is_chunked res ≡ false
    → Reaches (joined (headers_writes res)) (record res { header_sent = true }) o
    → Headed res (
        o >>= λ written.
        let after = record written { sent_bytes = to_unsigned (2 ^ 32 - length written.buffer) } in
        let flushed = (flush_sent after).1 in
        some (
          if is_head res
          then record flushed { skip_content = true }
          else if is_chunked res
          then record flushed { chunked = true }
          else after))
Headed-of res none e c h = absurd h
Headed-of res (some written) e c (order, count, (o, s, k, h, l), same) =
    subst (λ t. Headed res (some t))
      (sym (if_false (is_head res) _ _ e ∙ if_false (is_chunked res) _ _ c))
      (order, omega arith, (o, s, k, h, l), same)

not_chunked : (a b c : Bool) → b ≡ true → (a && not b && c) ≡ false
not_chunked false b c e = refl
not_chunked true true c e = refl
not_chunked true false c e = absurd (ground arith)

pub write_headers-Headed :
    (n : ℕ) (res : Response)
    → IsPlain res
    → length res.buffer ≤ buffer_size
    → HasFuel n (headers_writes res)
    → Headed res (write_headers n res)
unfolding write_headers
write_headers-Headed n res (o, s, c, l, e, h) k fuel =
    let whole : is_chunked res ≡ false = not_chunked (res.request.http11) (res.length_set) _ l in
    Headed-of res _ e whole (
      write_all_sent-Reaches n (headers_writes res) (record res { header_sent = true })
        (refl, s, c, h, k) fuel)
