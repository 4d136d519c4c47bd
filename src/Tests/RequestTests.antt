-- ===== src/Tests/RequestTests.antt =====
-- Whole requests through the state machine.
use onion.Prelude.{List, Bytes, ◌<◌, suc, [], ◌∷◌, none, some, ◌≡◌, refl, arith, codes, length}
use onion.Utils.{is_space, is_alnum}
use onion.Strings.{compare_texts}
use onion.Prelude.Predicates.{All}
use onion.Request.Cookies.{get_cookies_dict}
use onion.Request.Cookies.RoundTrip.{
  IsCookie, print_cookies, cookies_dict, get_cookies_dict-print_cookies,
}
use onion.Dict.{node, null, no_flags, get, node_add, find_node, skew, split}
use onion.RequestParser
use onion.RequestParser.Query.RoundTrip.{print_query}
use onion.Codecs.Url.{quote_new}
use onion.RequestParser.Machine.{
  Request, Server, header, new_request, method_from, ready, run, request_write, skip_spaces,
}
use onion.RequestParser.Write.Headers.{at_key, stored_all, print_header, steps}
use onion.RequestParser.Write.RoundTrip.{print_request, print_url, request_line}
use onion.RequestParser.Multipart.State.{Multipart, field_data}
use onion.RequestParser.Multipart.Attributes.{Stale}

abbrev two_cookies : List (Bytes × Bytes)
two_cookies = (codes "sessionid", codes "a=b") ∷ (codes "k", codes "v") ∷ []

abbrev cookie_request : Request
cookie_request = record new_request {
  headers =
      node (record { key = codes "cookie"; value = codes "sessionid=a=b; k=v"; flags = no_flags }) 1
        null null;
}

cookie_request-header : header cookie_request (codes "Cookie") ≡ some (print_cookies two_cookies)
unfolding get find_node compare_texts print_cookies
cookie_request-header = refl

cookies-IsCookie : All IsCookie two_cookies
cookies-IsCookie = ground arith

get_cookies_dict-print_cookies_example : get_cookies_dict cookie_request ≡ cookies_dict two_cookies
get_cookies_dict-print_cookies_example =
    get_cookies_dict-print_cookies cookie_request two_cookies cookies-IsCookie cookie_request-header

abbrev small_server : Server
small_server = record { max_post_size = 1000; max_file_size = 1000; temporary = codes "/tmp/onion" }

request_url_fits : length (print_url (codes "/a b") ((codes "k", codes "v") ∷ [])) < 8191
unfolding print_query quote_new is_alnum
request_url_fits = omega arith

request_write-print_request_example :
    request_write
      (suc (suc (suc (suc (steps 1 ((codes "Host", codes "a") ∷ []))))))
      small_server
      new_request
      (print_request
        (codes "GET")
        (codes "/a b")
        ((codes "k", codes "v") ∷ [])
        ((codes "Host", codes "a") ∷ [])
        (codes "GET"))
    ≡ some (
        ready
          (at_key (
            stored_all
              (request_line 0 (codes "/a b") ((codes "k", codes "v") ∷ []))
              ((codes "Host", codes "a") ∷ [])))
          (codes "GET"))
unfolding is_space method_from skip_spaces stored_all get find_node node_add skew split
    compare_texts
request_write-print_request_example =
    RequestParser.Write.RoundTrip.request_write-print_request small_server (codes "GET") 0
      (codes "/a b") ((codes "k", codes "v") ∷ []) ((codes "Host", codes "a") ∷ []) (codes "GET")
      (ground arith) (omega arith) refl (omega arith) (omega arith) (ground arith) (ground arith)
      request_url_fits (ground arith) refl

-- The headers of a form, and its first boundary.
abbrev form_request : Bytes
form_request =
    codes
      "POST / HTTP/1.1\r\nContent-Type: multipart/form-data; boundary=x\r\nContent-Length: 9\r\n\r\n--x\r\n"

-- What the array behind `token->str` held before.
abbrev zeros : Stale
zeros i = 0

-- A form in front of the data of its field.
abbrev open_field : Multipart
open_field = record {
  stage = field_data;
  text = [];
  boundary = codes "\r\n--x";
  pos = 0;
  startpos = 0;
  used = 0;
  room = 100;
  name = some (codes "k");
  filename = none;
  field = [];
  file = [];
  file_total_size = 0;
  post_total_size = 50;
  post = none;
  files = none;
}

run-print_header_null_example :
    run 100 small_server (at_key new_request) (print_header (codes "Host", codes "a") (0 ∷ []))
    ≡ none
unfolding is_space skip_spaces
run-print_header_null_example =
    RequestParser.Write.NullByte.run-print_header_null 100 small_server new_request
      (codes "Host", codes "a") [] (ground arith)
