-- ===== src/Response/Served.antt =====
-- What a client gets of a handler that writes its content at once.
use onion.Prelude.{
  ℕ, zero, suc, ◌+◌, ◌≤◌, ◌<◌, [], ◌∷◌, ◌++◌, Bool, true, false, Option, none, some, ◌≡◌, ◌≢◌, refl,
  sym, ap, subst, ◌∙◌, arith, Bytes, length, ◌>>=◌, if◌then◌else◌, ◌==◌, ltb, lt→ltb,
}
use onion.Prelude.Predicates.{All}
use onion.Strings.{exact}
use onion.Response.State.{Response, buffer_size, to_unsigned, set_length, with_length, set_header}
use onion.Response.{
  Written, wrote, close_connection, counted, write_from, write_sent, write_headers, is_head, flush,
  response_write, flush_processed, response_free, measured, serve,
}
use onion.Response.Headers.{headers_writes, status_writes, session_writes}
use onion.Response.Freed.{Delivered, Ends, response_free-Ends}
use onion.Response.Order.{Same}
use onion.Response.Text.{print_head, joined-headers_writes}
use onion.Response.Whole.{Sent, write_sent-Sent, joined, HasFuel, Headed, write_headers-Headed}

-- `onion_response_flush` where it writes the headers: the content follows them.
abbrev Delivers : Bytes → ℕ → Response → Option (Bool × Response) → Type 0
Delivers bytes len res none = ⊥
Delivers bytes len res (some (failed, after)) = Delivered bytes len res after

Delivers-Sent :
    (bytes body : Bytes) (res headed : Response) (o : Option (Written × Response))
    → headed.sent ++ headed.buffer ≡ bytes
    → to_unsigned (headed.sent_bytes + length headed.buffer) ≡ 0
    → Same res headed
    → length body < buffer_size
    → Sent body headed o
    → Delivers (bytes ++ body) (length body) res (o >>= λ (w, after). some (false, after))
Delivers-Sent bytes body res headed none order count same l h = absurd h
Delivers-Sent bytes body res headed (some (close_connection, after)) order count same l h = absurd h
Delivers-Sent bytes body res headed (some (wrote w, after)) order count (r, a, m) l
      (_, (order', count', opens, (r', a', m'))) =
    (order' ∙ ap (λ t. t ++ body) order, omega arith, opens, (r' ∙ r, a' ∙ a, m' ∙ m))

Delivers-Headed :
    (n : ℕ) (body : Bytes) (res : Response) (o : Option Response)
    → res.sent ++ res.buffer ≡ []
    → length body < buffer_size
    → 3 ≤ n
    → Headed res o
    → Delivers
        (joined (headers_writes res) ++ body)
        (length body)
        res
        (o >>= λ headed. write_sent n body headed >>= λ (w, after). some (false, after))
Delivers-Headed n body res none e l k h = absurd h
Delivers-Headed n body res (some headed) e l k (order, count, (o, s, c, h, fits), same) =
    Delivers-Sent (joined (headers_writes res)) body res headed (write_sent n body headed)
      (order ∙ ap (λ t. t ++ joined (headers_writes res)) e) count same l
      (write_sent-Sent n body headed (o, s, c, h, fits) (omega arith))

-- A response before its first write.
abbrev pub IsFresh : Response → Type 0
IsFresh res =
    (res.header_sent ≡ false)
    × (res.skip_content ≡ false)
    × (res.chunked ≡ false)
    × (is_head res ≡ false)
    × (res.sent ≡ [])
    × (res.buffer ≡ [])
    × All (λ a. a ≢ 0) res.answers

abbrev with_body : Bytes → Response → Response
with_body body res = record res { header_sent = false; skip_content = false; buffer = body }

if_both : {A : Type 0} (b : Bool) (x : A) → (if b then x else x) ≡ x
if_both true x = refl
if_both false x = refl

set_length-unsent :
    (len : ℕ) (body : Bytes) (res : Response)
    → set_length len (with_body body res) ≡ with_length len (with_body body res)
unfolding set_length
set_length-unsent len body res = if_both (len == res.sent_bytes) _

measured-unsent :
    (body : Bytes) (res : Response)
    → length body < buffer_size
    → measured (with_body body res) ≡ with_length (length body) (with_body body res)
unfolding measured
measured-unsent body res l =
    let short : ltb (length body) buffer_size ≡ true = lt→ltb _ _ l in
    rw (short) (set_length-unsent (length body) body res)

-- What `onion_handler_handle` flushes.
abbrev unheaded : Bytes → Response → Response
unheaded body res = record (counted (with_length (length body) (with_body body res))) {
  buffer = [];
}

flush-delayed :
    (n c : ℕ) (body : Bytes) (res : Response)
    → flush n (with_length (length (c ∷ body)) (with_body (c ∷ body) res)) ≡ (
        write_headers n (unheaded (c ∷ body) res) >>= λ headed.
        write_sent n (c ∷ body) headed >>= λ (w, after). some (false, after))
unfolding flush with_length set_header
flush-delayed n c body res = refl

unheaded-headers_writes :
    (body : Bytes) (res : Response)
    → headers_writes (unheaded body res) ≡ headers_writes (with_length (length body) res)
unfolding headers_writes status_writes session_writes with_length set_header
unheaded-headers_writes body res = refl

Delivers-same :
    (len : ℕ) (res : Response) {a b : Bytes} {o p : Option (Bool × Response)}
    → a ≡ b
    → p ≡ o
    → Delivers a len res o
    → Delivers b len res p
Delivers-same len res {b} {o} e f h =
    subst (λ p. Delivers b len res p) (sym f) (subst (λ t. Delivers t len res o) e h)

flush_processed-Delivers :
    (n c : ℕ) (body : Bytes) (res : Response)
    → IsFresh res
    → length (c ∷ body) < buffer_size
    → 3 ≤ n
    → HasFuel n (headers_writes (with_length (length (c ∷ body)) res))
    → Delivers
        (joined (headers_writes (with_length (length (c ∷ body)) res)) ++ (c ∷ body))
        (length (c ∷ body))
        (unheaded (c ∷ body) res)
        (flush_processed n (with_body (c ∷ body) res))
unfolding flush_processed with_length set_header
flush_processed-Delivers n c body res (o, s, k, e, sent, buffer, h) l le fuel =
    let writes = unheaded-headers_writes (c ∷ body) res in
    let headed =
      write_headers-Headed n (unheaded (c ∷ body) res) (refl, refl, k, refl, e, h) (omega arith)
        (subst (HasFuel n) (sym writes) fuel) in
    let delivered =
      Delivers-Headed n (c ∷ body) (unheaded (c ∷ body) res) _ (ap (λ t. t ++ []) sent) l le
        headed in
    Delivers-same (length (c ∷ body)) (unheaded (c ∷ body) res)
      (ap (λ t. joined t ++ (c ∷ body)) writes)
      (ap (λ r. flush n r) (measured-unsent (c ∷ body) res l) ∙ flush-delayed n c body res)
      delivered

Ends-Delivers :
    (n : ℕ) (bytes : Bytes) (len : ℕ) (res : Response) (o : Option (Bool × Response))
    → res.content_length ≡ len
    → Delivers bytes len res o
    → Ends bytes res (o >>= λ (failed, finished). response_free n finished)
Ends-Delivers n bytes len res none e h = absurd h
Ends-Delivers n bytes len res (some (failed, finished)) e (all, count, opens, (r, a, m)) =
    response_free-Ends n bytes len res finished (all, count, opens, (r, a, m)) (m ∙ e)

response_write-fresh :
    (n c : ℕ) (body : Bytes) (res : Response)
    → length (c ∷ body) < buffer_size
    → response_write (suc n) (c ∷ body) (with_body [] res)
      ≡ some (wrote (0 + length (c ∷ body)), with_body (c ∷ body) res)
unfolding response_write write_from
response_write-fresh n c body res l =
    let fits : ltb buffer_size (0 + length (c ∷ body)) ≡ false = ground arith in rw (fits) refl

fresh-same : (res : Response) → IsFresh res → with_body [] res ≡ res
fresh-same res (o, s, k, e, sent, buffer, h) = rw (o, s, buffer) refl

serve-fresh :
    (n c : ℕ) (body : Bytes) (res : Response)
    → IsFresh res
    → length (c ∷ body) < buffer_size
    → serve (suc n) (c ∷ body) res ≡ (
        flush_processed (suc n) (with_body (c ∷ body) res) >>= λ (failed, finished).
        response_free (suc n) finished)
unfolding serve
serve-fresh n c body res fresh l =
    ap (serve (suc n) (c ∷ body)) (sym (fresh-same res fresh))
    ∙ ap
        (λ (t : Option (Written × Response)). t >>= λ (w, written).
          flush_processed (suc n) written >>= λ (failed, finished). response_free (suc n) finished)
        (response_write-fresh n c body res l)

-- A handler that writes its content at once, of one byte or more and less than a buffer, to a request
-- other than HEAD, on a connection whose writer takes at least one byte each time: the client gets the
-- status line, `Connection: Keep-Alive` for HTTP/1.0, `Connection: Upgrade` where that is asked for, a
-- line for each header, with the length of the content as `Content-Length` in place of another one, the
-- cookie of the session if there is one, the empty line, and the content; and the connection is kept
-- exactly where the request asks for it. The fuel is for blocks of a full buffer.
pub serve-Ends :
    (n : ℕ) (body : Bytes) (res : Response)
    → IsFresh res
    → body ≢ []
    → length body < buffer_size
    → 3 ≤ n
    → HasFuel n (headers_writes (with_length (length body) res))
    → Ends (print_head (length body) res ++ body) res (serve n body res)
unfolding with_length set_header
serve-Ends n [] res fresh some_body l le fuel = absurd (some_body refl)
serve-Ends zero (c ∷ body) res fresh some_body l le fuel = absurd (omega arith)
serve-Ends (suc n) (c ∷ body) res fresh some_body l le fuel =
    let bytes = joined (headers_writes (with_length (length (c ∷ body)) res)) ++ (c ∷ body) in
    let head = joined-headers_writes (length (c ∷ body)) res in
    subst (λ t. Ends (t ++ (c ∷ body)) res (serve (suc n) (c ∷ body) res)) head
      (subst (Ends bytes res) (sym (serve-fresh n c body res fresh l)) (
        Ends-Delivers (suc n) bytes (length (c ∷ body)) (unheaded (c ∷ body) res) _ (omega arith)
          (flush_processed-Delivers (suc n) c body res fresh l le fuel)))
