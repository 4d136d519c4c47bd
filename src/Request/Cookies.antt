-- ===== src/Request/Cookies.antt =====
-- src/onion/request.c: the cookies of a request, `onion_request_get_cookies_dict`.
pub mod RoundTrip
use onion.Prelude.{
  ℕ, [], ◌∷◌, ◌++◌, Bool, true, false, Option, none, some, ◌==◌, if◌then◌else◌, Bytes, codes,
}
use onion.Strings.{exact, without_case}
use onion.Dict.{Tree, null, no_flags, node_add, get}
use onion.RequestParser.Machine.{Request, header}

-- `key` and `val` in the loop, each with the text from its pointer to `p`.
pub data Place : Type 0 where
  no_key : Place
  in_key : Bytes → Place
  in_value : Bytes → Bytes → Place

-- The key of the first cookie is the pointer to the whole copy, which is freed with it: `lead` is the
-- text before the first key, and none where a cookie was added.
unfoldable pub add_cookie : Tree Bytes Bytes → Option Bytes → Bytes → Bytes → Tree Bytes Bytes
add_cookie cookies none key val =
    node_add cookies (record { key = key; value = val; flags = no_flags })
add_cookie cookies (some lead) key val =
    node_add cookies
      (record { key = lead ++ key; value = val; flags = record no_flags { free_key = true } })

-- The loop, and the cookie that ends with the text: an empty value is no cookie there.
unfoldable pub cookies_from : Tree Bytes Bytes → Option Bytes → Place → Bytes → Tree Bytes Bytes
unfolding add_cookie
cookies_from cookies lead no_key [] = cookies
cookies_from cookies lead (in_key key) [] = cookies
cookies_from cookies lead (in_value key []) [] = cookies
cookies_from cookies lead (in_value key (c ∷ val)) [] = add_cookie cookies lead key (c ∷ val)
cookies_from cookies lead no_key (c ∷ p) =
    let longer : Option Bytes = elim lead [ none ↦ none | some l ↦ some (l ++ c ∷ []) ] in
    let skipped = cookies_from cookies longer no_key p in
    let started = cookies_from cookies lead (in_key (c ∷ [])) p in
    if c == b' ' then skipped else started
cookies_from cookies lead (in_key key) (c ∷ p) =
    let ended = cookies_from cookies lead (in_value key []) p in
    let more = cookies_from cookies lead (in_key (key ++ c ∷ [])) p in
    if c == b'=' then ended else more
cookies_from cookies lead (in_value key val) (c ∷ p) =
    let ended = cookies_from (add_cookie cookies lead key val) none no_key p in
    let more = cookies_from cookies lead (in_value key (val ++ c ∷ [])) p in
    if c == b';' then ended else more

-- `onion_request_get_cookies_dict`, where the dictionary was not made yet.
unfoldable pub get_cookies_dict : Request → Tree Bytes Bytes
unfolding cookies_from
get_cookies_dict req = elim (header req (codes "Cookie")) [
  | none ↦ null
  | some cookies ↦ cookies_from null (some []) no_key cookies
]

-- `onion_request_get_cookie`
unfoldable pub get_cookie : Request → Bytes → Option Bytes
unfolding get_cookies_dict
get_cookie req cookiename = get (get_cookies_dict req) cookiename
