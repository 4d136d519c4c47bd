-- ===== src/Response/Freed.antt =====
-- src/onion/response.c: what `onion_response_free` sends and returns, once the content was written.
use onion.Prelude.{
  ℕ, ◌+◌, ◌++◌, Bool, true, false, ◌&&◌, ◌||◌, Option, none, some, ◌≡◌, refl, sym, ap, ap₂, subst,
  ◌∙◌, arith, Bytes, length, append-nil, ◌==◌,
}
use onion.Strings.{exact}
use onion.Request.{keep_alive}
use onion.Response.State.{Response, to_unsigned}
use onion.Response.{flush_sent, flush, response_free, free_flushed}
use onion.Response.Order.{IsOpen, Same, Flushed, flush_sent-Flushed, if_false}

-- `bytes` are sent or in the buffer, and the content has `len` of them.
abbrev pub Delivered : Bytes → ℕ → Response → Response → Type 0
Delivered bytes len res after =
    (after.sent ++ after.buffer ≡ bytes)
    × (to_unsigned (after.sent_bytes + length after.buffer) ≡ len)
    × IsOpen after
    × Same res after

-- The connection is kept where the request asks for it, and `bytes` were sent.
abbrev pub Ends : Bytes → Response → Option (Bool × Response) → Type 0
Ends bytes res none = ⊥
Ends bytes res (some (kept, ended)) =
    (kept ≡ keep_alive res.no_keep_alive res.request) × (ended.sent ≡ bytes)

kept-if_whole : (a s t c : Bool) → s ≡ false → t ≡ true → (a && (s || t || c)) ≡ a
kept-if_whole false s t c e f = refl
kept-if_whole true true t c e f = refl
kept-if_whole true false true c e f = refl
kept-if_whole true false false c e f = absurd (ground arith)

same-test : (a b : ℕ) → a ≡ b → (a == b) ≡ true
same-test a b e = ground arith

-- The end of `onion_response_free`, once the buffer was flushed.
Ends-free_flushed :
    (bytes : Bytes) (len : ℕ) (res after : Response) (p : Bool × Response)
    → Flushed after p
    → Delivered bytes len res after
    → after.content_length ≡ len
    → Ends bytes res (some (free_flushed p.1))
unfolding free_flushed
Ends-free_flushed bytes len res after (failed, ended)
      (_, empty, bounded, (order, count, (o, s, k, h, l), (r, a, m)))
      (all, counts, opens, (r', a', m')) known =
    let none_left : length ended.buffer ≡ 0 = ap length empty in
    let whole : (ended.content_length == ended.sent_bytes) ≡ true = same-test _ _ (omega arith) in
    let kept =
      kept-if_whole (keep_alive ended.no_keep_alive ended.request) ended.skip_content _
        ended.chunked s whole
      ∙ ap₂ keep_alive (a ∙ a') (r ∙ r') in
    let sends =
      sym (append-nil (ended.sent))
      ∙ ap (λ t. ended.sent ++ t) (sym empty)
      ∙ order
      ∙ append-nil (after.sent ++ after.buffer)
      ∙ all in
    subst
      (λ (t : Response).
        (keep_alive t.no_keep_alive t.request
            && (t.skip_content || (t.content_length == t.sent_bytes) || t.chunked)
          ≡ keep_alive res.no_keep_alive res.request)
        × (t.sent ≡ bytes))
      (sym (if_false ended.chunked _ _ k)) (kept, sends)

abbrev opened : Response → Response
opened res = record res { header_sent = true }

response_free-opened :
    (n : ℕ) (res : Response)
    → response_free n (opened res) ≡ some (free_flushed (flush_sent (opened res)).1)
unfolding response_free flush
response_free-opened n res = refl

opened-same : (res : Response) → res.header_sent ≡ true → opened res ≡ res
opened-same res e = rw e refl

pub response_free-Ends :
    (n : ℕ) (bytes : Bytes) (len : ℕ) (res after : Response)
    → Delivered bytes len res after
    → after.content_length ≡ len
    → Ends bytes res (response_free n after)
response_free-Ends n bytes len res after (all, counts, (o, s, c, h, l), same) known =
    let flushed = flush_sent-Flushed after.buffer (opened after) refl (refl, s, c, h, l) in
    subst (λ r. Ends bytes res (response_free n r)) (opened-same after o)
      (subst (Ends bytes res) (sym (response_free-opened n after)) (
        Ends-free_flushed bytes len res (opened after) (flush_sent (opened after)) flushed
          (all, counts, (refl, s, c, h, l), same) known))
