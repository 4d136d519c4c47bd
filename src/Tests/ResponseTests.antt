-- ===== src/Tests/ResponseTests.antt =====
-- Responses of a handler.
use onion.Prelude.{
  ℕ, [], ◌∷◌, ◌++◌, none, some, false, true, Bool, ◌&&◌, ltb, Bytes, codes, replicate, length, List,
  ◌≡◌, refl, arith, ltb→lt, ◌+◌, ◌*◌,
}
use onion.Strings.{decimal, compare_texts}
use onion.Dict.{get, find_node, node_add, entries, split, skew}
use onion.Request.{keep_alive}
use onion.RequestParser.Machine.{Request, new_request}
use onion.Response.State.{Response, response_new, buffer_size, with_length, set_header}
use onion.Response.{response_write, write_sent, serve}
use onion.Response.Headers.{
  headers_writes, status_writes, session_writes, header_writes, code_description,
}
use onion.Response.Order.{IsOpen}
use onion.Response.Whole.{HasFuel, Sent, write_sent-Sent}
use onion.Response.Text.{print_head}
use onion.Response.Freed.{Ends}
use onion.Response.Served.{serve-Ends}
use onion.Response.Head.{response_write-loops}
use onion.Response.Cookie.{Cookie, same_site_lax, expired}

abbrev get_request : Request
get_request = record new_request { http11 = true }

abbrev fresh : Response
fresh = response_new (codes "now") (codes "onion") get_request false none

abbrev head_response : Response
head_response =
    response_new (codes "now") (codes "onion") (record get_request { method = 2 }) false none

fits : ℕ → List Bytes → Bool
fits n [] = true
fits n (b ∷ writes) = ltb (buffer_size + length b) (buffer_size * n) && fits n writes

both : (a b : Bool) → (a && b) ≡ true → (a ≡ true) × (b ≡ true)
both true b h = (refl, h)
both false b h = absurd (ground arith)

HasFuel-fits : (n : ℕ) (writes : List Bytes) → fits n writes ≡ true → HasFuel n writes
unfolding fits
HasFuel-fits n [] h = tt
HasFuel-fits n (b ∷ writes) h =
    let (x, y) = both (ltb (buffer_size + length b) (buffer_size * n)) (fits n writes) h in
    (ltb→lt _ _ x, HasFuel-fits n writes y)

fresh-HasFuel : HasFuel 3 (headers_writes (with_length 5 fresh))
unfolding fits headers_writes status_writes session_writes header_writes with_length set_header
    response_new node_add entries split skew compare_texts decimal code_description keep_alive
fresh-HasFuel = HasFuel-fits 3 (headers_writes (with_length 5 fresh)) refl

head-HasFuel : HasFuel 3 (headers_writes head_response)
unfolding fits headers_writes status_writes session_writes header_writes response_new node_add
    entries split skew compare_texts decimal code_description keep_alive get find_node
head-HasFuel = HasFuel-fits 3 (headers_writes head_response) refl

abbrev sent_headers : Response
sent_headers = record fresh { header_sent = true; answers = 1 ∷ [] }

sent_headers-IsOpen : IsOpen sent_headers
unfolding response_new
sent_headers-IsOpen = (refl, refl, refl, ((λ e. ground arith), tt), omega arith)

write_sent-Sent_example :
    Sent (codes "hello") sent_headers (write_sent 3 (codes "hello") sent_headers)
unfolding response_new
write_sent-Sent_example =
    write_sent-Sent 3 (codes "hello") sent_headers sent_headers-IsOpen (omega arith)

serve-Ends_example :
    Ends (print_head 5 fresh ++ codes "hello") fresh (serve 3 (codes "hello") fresh)
unfolding response_new
serve-Ends_example =
    serve-Ends 3 (codes "hello") fresh (refl, refl, refl, refl, refl, refl, tt) (λ e. ground arith)
      (omega arith) (omega arith) fresh-HasFuel

response_write-loops_example : response_write 3 (replicate 3001 b'a') head_response ≡ none
unfolding response_new
response_write-loops_example =
    response_write-loops 3 (replicate 3001 b'a') head_response refl refl refl refl refl tt
      (omega arith) head-HasFuel

abbrev small_cookie : Cookie
small_cookie = record {
  name = codes "id";
  value = codes "7";
  validity = expired;
  path = some (codes "/");
  domain = none;
  http_only = true;
  secure = false;
  same_site = same_site_lax;
}

abbrev long_cookie : Cookie
long_cookie = record small_cookie { value = replicate 4094 b'7' }
