-- ===== src/Url.antt =====
-- src/onion/url.c: the handler that asks the first pattern that a path matches. `regcomp` and
-- `regexec` are of the C library.
pub mod Order
use onion.Prelude.{
  ℕ, ◌+◌, ◌-◌, List, [], ◌∷◌, ◌++◌, Bool, true, false, Option, none, some, if◌then◌else◌, ◌>>=◌,
  ◌==◌, Bytes, length, take, drop, same_bytes,
}
use onion.Strings.{exact, decimal}
use onion.Dict.{Tree, no_flags, node_add}
use onion.RequestParser.Machine.{Request}
use onion.Request.{advance_path, get_path}
use onion.Response.State.{set_code, set_length}
use onion.Response.{response_write}
use onion.Handler.{Exchange, Result, Handler, Chain, ocs_not_processed, ocs_processed, handle}

-- The regular expression or the text of an `onion_url_data`.
pub data Pattern (R : Type 0) : Type 0 where
  regexp : R → Pattern R
  strcmp : Bytes → Pattern R

-- `onion_url_data`, of which the list holds one for each `next`.
pub record UrlData (R : Type 0) : Type 0 where
  pub pattern : Pattern R
  pub inside : Chain

-- `rm_eo` of the whole match, and `rm_so` and `rm_eo` of each of the 15 groups that are asked for, or none
-- where `rm_so` is -1.
pub record Match : Type 0 where
  pub eo : ℕ
  pub groups : List (Option (ℕ × ℕ))

-- The groups up to the first that is not there, in the dictionary of the query.
unfoldable pub add_groups :
    ℕ
    → Bytes
    → List (Option (ℕ × ℕ))
    → Option (Tree Bytes Bytes)
    → Option (Option (Tree Bytes Bytes))
add_groups i path [] get = some get
add_groups i path (none ∷ groups) get = some get
add_groups i path (some (so, eo) ∷ groups) none = none
add_groups i path (some (so, eo) ∷ groups) (some dict) = add_groups (i + 1) path groups (
    some (
      node_add dict (record {
        key = decimal i;
        value = take (eo - so) (drop so path);
        flags = record no_flags { free_key = true; free_value = true; dup_key = true };
      })))

abbrev pub fullpath_of : Exchange → Bytes
fullpath_of x = elim (x.response.request.fullpath) [ none ↦ [] | some fullpath ↦ fullpath ]

abbrev pub path_of : Exchange → Bytes
path_of x = get_path (fullpath_of x) x.path

abbrev pub with_get : Exchange → Option (Tree Bytes Bytes) → Exchange
with_get x get = record x {
  response = record x.response { request = record x.response.request { query = get } };
}

unfoldable pub matches :
    {R : Type 0} → (R → Bytes → Option Match) → Pattern R → Bytes → Option Match
matches regexec (regexp r) path = regexec r path
matches regexec (strcmp str) path =
    if same_bytes path str then some (record { eo = length str; groups = [] }) else none

-- The fuel of a write, and `onion_websocket_call`, as `handle` has them.
module _ (n : ℕ) (websocket : Exchange → Option Handler) where
  -- What is done with the pattern that was found.
  unfoldable pub enter : Chain → Match → Exchange → Result
  unfolding add_groups advance_path handle
  enter inside found x = do
    get ← add_groups 1 (path_of x) found.groups x.response.request.query
    handle n websocket inside
        (record (with_get x get) { path = advance_path (fullpath_of x) x.path found.eo })

-- `onion_url_handler`
module _ {R : Type 0} (regexec : R → Bytes → Option Match) (n : ℕ)
    (websocket : Exchange → Option Handler) where
  unfoldable pub url_handler : List (UrlData R) → Exchange → Result
  unfolding matches enter
  url_handler [] x = some (ocs_not_processed, x)
  url_handler (d ∷ next) x =
      let later = url_handler next x in
      elim (matches regexec d.pattern (path_of x)) [
        | none ↦ later
        | some found ↦ enter n websocket d.inside found x
      ]

-- `regexp[0] == '^'`
abbrev pub is_regexp : Bytes → Bool
is_regexp [] = false
is_regexp (c ∷ s) = c == b'^'

-- `onion_url_add_handler`: whether there is an error in the regular expression.
module _ {R : Type 0} (regcomp : Bytes → Option R) where
  abbrev pub append : List (UrlData R) → Pattern R → Chain → List (UrlData R)
  append urls pattern inside = urls ++ record { pattern = pattern; inside = inside } ∷ []

  unfoldable pub add_handler : Bytes → Chain → List (UrlData R) → Bool × List (UrlData R)
  add_handler text inside urls =
      if is_regexp text
      then elim (regcomp text) [
        | none ↦ (true, urls)
        | some r ↦ (false, append urls (regexp r) inside)
      ]
      else (false, append urls (strcmp text) inside)

-- `onion_url_static`, with the text and the code of its data.
unfoldable pub url_static : ℕ → Bytes → ℕ → Handler
unfolding response_write set_code set_length
url_static n text code x = do
  (w, response) ← response_write n text (set_length (length text) (set_code code x.response))
  some (ocs_processed, record x { response = response })

-- `onion_url_add_static`
unfoldable pub add_static :
    {R : Type 0}
    → (Bytes → Option R)
    → ℕ
    → Bytes
    → Bytes
    → ℕ
    → List (UrlData R)
    → Bool × List (UrlData R)
unfolding add_handler url_static
add_static regcomp n url_text text http_code urls =
    add_handler regcomp url_text (some (url_static n text http_code) ∷ []) urls
