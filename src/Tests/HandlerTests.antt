-- ===== src/Tests/HandlerTests.antt =====
-- Chains of handlers and patterns.
use onion.Prelude.{
  List, [], ◌∷◌, true, false, Option, none, some, ◌≡◌, refl, arith, Bytes, codes, length,
}
use onion.RequestParser.Machine.{new_request}
use onion.Request.{get_path}
use onion.Response.State.{response_new}
use onion.Handler.{Exchange, Handler, Chain, handle, handler_add, ocs_not_processed, ocs_processed}
use onion.Handler.Chain.{then_next, handle-handler_add}
use onion.Url.{
  UrlData, Match, strcmp, regexp, url_handler, add_handler, fullpath_of, path_of, matches,
}
use onion.Url.Order.{is_matched, url_handler-strcmp}

abbrev small_exchange : Exchange
small_exchange = record {
  response =
      response_new (codes "now") (codes "onion")
        (record new_request { fullpath = some (codes "/index") }) false none;
  path = 1;
}

abbrev no_websocket : Exchange → Option Handler
no_websocket x = none

abbrev declines : Chain
declines = some (λ x. some (ocs_not_processed, record x { path = 0 })) ∷ none ∷ []

abbrev accepts : Chain
accepts = some (λ x. some (ocs_processed, x)) ∷ []

handle-handler_add_example :
    handle 3 no_websocket (handler_add declines accepts) small_exchange
    ≡ then_next 3 no_websocket accepts (handle 3 no_websocket declines small_exchange)
handle-handler_add_example =
    handle-handler_add 3 no_websocket declines accepts small_exchange
      (λ x call e. absurd (ground arith))

-- A library of regular expressions with one expression, which matches every path.
abbrev compile_any : Bytes → Option Bytes
compile_any text = some text

abbrev match_any : Bytes → Bytes → Option Match
match_any r path = some (record { eo = 0; groups = [] })

abbrev two_urls : List (UrlData Bytes)
two_urls =
    record { pattern = strcmp (codes "other"); inside = declines }
    ∷ record { pattern = regexp (codes "^"); inside = accepts }
    ∷ []

one_url-is_matched :
    is_matched compile_any match_any 3 no_websocket two_urls (path_of small_exchange) ≡ true
unfolding is_matched matches get_path response_new
one_url-is_matched = refl

abbrev one_url : List (UrlData Bytes)
one_url = record { pattern = strcmp (codes "other"); inside = declines } ∷ []

url_handler-strcmp_example :
    url_handler match_any 3 no_websocket
      (add_handler compile_any (codes "index") accepts one_url).1
      small_exchange
    ≡ handle 3 no_websocket accepts
        (record small_exchange { path = length (fullpath_of small_exchange) })
unfolding is_matched matches get_path response_new
url_handler-strcmp_example =
    url_handler-strcmp compile_any match_any 3 no_websocket (codes "index") accepts one_url
      small_exchange refl refl refl (omega arith)
