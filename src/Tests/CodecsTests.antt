-- ===== src/Tests/CodecsTests.antt =====
-- Texts through the codecs.
use onion.Prelude.{some, ◌≡◌, arith, Bytes, codes}
use onion.Prelude.Predicates.{All, IsBuffer}
use onion.Codecs.Base64.{encode_group, out_of_bounds}
use onion.Codecs.Url.{quote, quote_new, quote_size, unquote_inplace}
use onion.Codecs.Html.{html_add_enc, html_quote, html_quote_dup, html_safe, html_size, html_write}
use onion.Codecs.Html.Decode.{IsPlain, html_decode}
use onion.Codecs.Url.RoundTrip.{quoted}
use onion.Codecs

abbrev hello : Bytes
hello = codes "a b&"

hello-IsBuffer : IsBuffer hello
hello-IsBuffer = (omega arith, (omega arith, (omega arith, (omega arith, tt))))

unquote_inplace-quote_new_example : unquote_inplace (quote_new hello) ≡ some hello
unquote_inplace-quote_new_example =
    Codecs.Url.RoundTrip.unquote_inplace-quote_new hello hello-IsBuffer

html_decode-html_safe_example :
    All IsPlain (html_safe hello) × (html_decode 0 (html_safe hello) ≡ hello)
html_decode-html_safe_example = Codecs.Html.Decode.html_decode-html_safe hello
