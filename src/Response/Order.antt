-- ===== src/Response/Order.antt =====
-- What is written behind the headers reaches the connection in its order.
use onion.Prelude.{
  ℕ, zero, suc, ◌+◌, ◌-◌, ◌*◌, ◌≤◌, ◌<◌, List, [], ◌∷◌, ◌++◌, Bool, true, false, Option, none, some,
  ◌≡◌, ◌≢◌, refl, sym, ap, subst, ◌∙◌, arith, Bytes, length, take, drop, append_assoc, append-nil,
  length-append, length-take, length-drop, take-append-drop, ltb, min, Bool-cases, inl, inr, ltb→lt,
  if◌then◌else◌,
}
use onion.Prelude.Predicates.{All}
use onion.Strings.{exact}
use onion.Response.State.{Response, buffer_size, to_unsigned, send_all}
use onion.Response.{counted, send_buffer, flush_sent, write_from}

-- The headers are sent, the content is neither skipped nor chunked, and no write will fail.
abbrev pub IsOpen : Response → Type 0
IsOpen res =
    (res.header_sent ≡ true)
    × (res.skip_content ≡ false)
    × (res.chunked ≡ false)
    × All (λ a. a ≢ 0) res.answers
    × (length res.buffer ≤ buffer_size)

-- What a write leaves alone.
abbrev pub Same : Response → Response → Type 0
Same res after =
    (after.request ≡ res.request)
    × (after.no_keep_alive ≡ res.no_keep_alive)
    × (after.content_length ≡ res.content_length)

-- `after` has `bytes` more, sent or in the buffer, and counts them.
abbrev pub Follows : Bytes → Response → Response → Type 0
Follows bytes res after =
    (after.sent ++ after.buffer ≡ (res.sent ++ res.buffer) ++ bytes)
    × (to_unsigned (after.sent_bytes + length after.buffer)
        ≡ to_unsigned (res.sent_bytes + (length res.buffer + length bytes)))
    × IsOpen after
    × Same res after

pub Follows-trans :
    (a b : Bytes) (r s t : Response) → Follows a r s → Follows b s t → Follows (a ++ b) r t
Follows-trans a b r s t (es, cs, os, (rs, ks, ls)) (et, ct, ot, (rt, kt, lt)) =
    let len : length (a ++ b) ≡ length a + length b = length-append a b in
    (
      et ∙ ap (λ x. x ++ b) es ∙ append_assoc (r.sent ++ r.buffer) a b,
      omega arith,
      ot,
      (rt ∙ rs, kt ∙ ks, lt ∙ ls),
    )

send_all-All :
    (bytes : Bytes) (answers : List ℕ)
    → All (λ a. a ≢ 0) answers
    → ((send_all bytes answers).0 ≡ true)
      × ((send_all bytes answers).1 ≡ bytes)
      × All (λ a. a ≢ 0) ((send_all bytes answers).2)
unfolding send_all
send_all-All bytes [] h = (refl, refl, tt)
send_all-All bytes (a ∷ answers) (h, hs) =
    let rest = send_all-All (drop a bytes) answers hs in
    let parts = take-append-drop a bytes in ground arith

-- The rest of `onion_response_flush`, where no write fails.
send_buffer-sends :
    (res : Response)
    → res.chunked ≡ false
    → All (λ a. a ≢ 0) res.answers
    → send_buffer res ≡ (
      false,
      record res {
        buffer = [];
        sent = res.sent ++ res.buffer;
        answers = (send_all res.buffer res.answers).2;
      },
    )
unfolding send_buffer
send_buffer-sends res c h =
    let (all, taken, left) = send_all-All (res.buffer) (res.answers) h in rw (all, taken, c) refl

pub if_false : {A : Type 0} (b : Bool) (x y : A) → b ≡ false → (if b then x else y) ≡ y
if_false b x y e = rw e refl

flush_sent-sends :
    (c : ℕ) (b : Bytes) (res : Response) (t : Bool × Response)
    → res.buffer ≡ c ∷ b
    → res.skip_content ≡ false
    → res.chunked ≡ false
    → send_buffer (counted res) ≡ t
    → flush_sent res ≡ t
unfolding flush_sent
flush_sent-sends d b res t e s c sends =
    rw (e, flush_sent) (if_false (res.skip_content) _ _ s ∙ if_false (res.chunked) _ _ c ∙ sends)

-- `onion_response_flush`, where no write fails, leaves an empty buffer.
abbrev pub Flushed : Response → Bool × Response → Type 0
Flushed res (failed, after) =
    (failed ≡ false)
    × (after.buffer ≡ [])
    × (to_unsigned after.sent_bytes ≡ after.sent_bytes)
    × Follows [] res after

pub flush_sent-Flushed :
    (b : Bytes) (res : Response) → res.buffer ≡ b → IsOpen res → Flushed res (flush_sent res)
unfolding flush_sent
flush_sent-Flushed [] res e (o, s, c, h, l) =
    let empty : length res.buffer ≡ 0 = ap length e in
    rw (e, flush_sent)
      (
        refl,
        e,
        omega arith,
        (
          ap (λ t. res.sent ++ t) e ∙ sym (append-nil (res.sent ++ [])),
          omega arith,
          (o, s, c, h, l),
          (refl, refl, refl),
        ),
      )
flush_sent-Flushed (d ∷ b) res e (o, s, c, h, l) =
    let count : length res.buffer ≡ suc (length b) = ap length e in
    subst (Flushed res)
      (sym (flush_sent-sends d b res _ e s c (send_buffer-sends (counted res) c h)))
      (
        refl,
        refl,
        omega arith,
        (
          refl,
          omega arith,
          (o, s, c, (send_all-All (res.buffer) (res.answers) h).2, omega arith),
          (refl, refl, refl),
        ),
      )

-- The loop of `onion_response_write`: no byte is lost or moved, where the fuel is enough for blocks of
-- a full buffer each.
abbrev pub Wrote : ℕ → Bytes → Response → Option (ℕ × Response) → Type 0
Wrote n bytes res none = ⊥
Wrote n bytes res (some (w, after)) = (w ≡ n) × Follows bytes res after

Wrote-after :
    (n : ℕ) (a b : Bytes) (r s : Response) (o : Option (ℕ × Response))
    → Follows a r s
    → Wrote n b s o
    → Wrote n (a ++ b) r o
Wrote-after n a b r s none f h = absurd h
Wrote-after n a b r s (some (w, t)) f (e, g) = (e, Follows-trans a b r s t f g)

pub fill-Follows :
    (bytes : Bytes) (res : Response)
    → IsOpen res
    → length res.buffer + length bytes ≤ buffer_size
    → Follows bytes res (record res { buffer = res.buffer ++ bytes })
fill-Follows bytes res (o, s, c, h, k) l =
    let count : length (res.buffer ++ bytes) ≡ length res.buffer + length bytes =
      length-append (res.buffer) bytes in
    (
      sym (append_assoc (res.sent) (res.buffer) bytes),
      ap (λ t. to_unsigned (res.sent_bytes + t)) count,
      (o, s, c, h, omega arith),
      (refl, refl, refl),
    )

pub write_from-Wrote :
    (n : ℕ) (bytes : Bytes) (w : ℕ) (res : Response)
    → IsOpen res
    → length res.buffer + length bytes < buffer_size * n
    → Wrote (w + length bytes) bytes res (write_from (λ r. some (flush_sent r)) n bytes w res)
unfolding write_from
write_from-Wrote zero bytes w res h l = absurd (omega arith)
write_from-Wrote (suc n) bytes w res (o, s, c, h, k) l =
    let wb = buffer_size - length res.buffer in
    let full : Response = record res { buffer = res.buffer ++ take wb bytes } in
    let taken : length (take wb bytes) ≡ min wb (length bytes) = length-take wb bytes in
    let left : length (drop wb bytes) ≡ length bytes - wb = length-drop wb bytes in
    elim (Bool-cases (ltb buffer_size (length res.buffer + length bytes))) [
      | inl e ↦
          let more : buffer_size < length res.buffer + length bytes = ltb→lt _ _ e in
          let filled = fill-Follows (take wb bytes) res (o, s, c, h, k) (omega arith) in
          let (sends, empty, bounded, flushed) =
            flush_sent-Flushed (full.buffer) full refl (filled.2) in
          let after = (flush_sent full).1 in
          let none_left : length (after.buffer) ≡ 0 = ap length empty in
          let rest = write_from-Wrote n (drop wb bytes) (w + wb) after (flushed.2) (omega arith) in
          let o : Option (ℕ × Response) =
            write_from (λ r. some (flush_sent r)) n (drop wb bytes) (w + wb) after in
          let sum : (w + wb) + length (drop wb bytes) ≡ w + length bytes = omega arith in
          let parts : (take wb bytes ++ []) ++ drop wb bytes ≡ bytes =
            ap (λ t. t ++ drop wb bytes) (append-nil (take wb bytes)) ∙ take-append-drop wb bytes in
          let done =
            Wrote-after _ (take wb bytes ++ []) (drop wb bytes) res after o
              (Follows-trans (take wb bytes) [] res full after filled flushed) rest in
          rw (e, write_from)
            (subst (λ b. Wrote (w + length bytes) bytes res (if b then some (w, after) else o))
              (sym sends)
              (subst (λ t. Wrote t bytes res o) sum
                (subst (λ t. Wrote ((w + wb) + length (drop wb bytes)) t res o) parts done)))
      | inr e ↦
          let fits : length res.buffer + length bytes ≤ buffer_size = ground arith in
          rw (e, write_from) (refl, fill-Follows bytes res (o, s, c, h, k) fits)
    ]
