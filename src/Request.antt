-- ===== src/Request.antt =====
-- src/onion/request.c: what a handler asks of a request that was parsed: whether the connection is
-- kept, the language, the path, and the cookies.
pub mod Cookies
pub mod Session
use onion.Prelude.{
  ℕ, ◌+◌, [], ◌∷◌, Bool, true, false, not, ◌&&◌, ◌||◌, Option, none, some, ◌==◌, leb, if◌then◌else◌,
  Bytes, codes, length, map, same_bytes, drop,
}
use onion.Strings.{exact, without_case, lower_case}
use onion.Dict.{Tree, get}
use onion.RequestParser.Machine.{Request, header}

-- `strcasecmp(a, b) == 0`
abbrev pub same_text : Bytes → Bytes → Bool
same_text a b = same_bytes (map lower_case a) (map lower_case b)

-- `onion_request_keep_alive`, where `no_keep_alive` is the flag OR_NO_KEEP_ALIVE.
unfoldable pub keep_alive : Bool → Request → Bool
keep_alive no_keep_alive req =
    if no_keep_alive then false else elim (header req (codes "Connection")) [
      | none ↦ req.http11
      | some connection ↦
          if req.http11
          then not (same_text connection (codes "Close"))
          else same_text connection (codes "Keep-Alive")
    ]

-- The first part of `Accept-Language`.
unfoldable pub language_part : Bytes → Bytes
language_part [] = []
language_part (c ∷ p) =
    let more = c ∷ language_part p in if (c == b'-') || (c == b';') || (c == b',') then [] else more

-- `onion_request_get_language_code`
unfoldable pub get_language_code : Request → Bytes
unfolding language_part
get_language_code req = elim (header req (codes "Accept-Language")) [
  | none ↦ codes "C"
  | some lang ↦ language_part lang
]

-- `onion_request_get_query`, and with a default.
unfoldable pub get_query : Request → Bytes → Option Bytes
get_query req query = elim (req.query) [ none ↦ none | some dict ↦ get dict query ]

unfoldable pub get_queryd : Request → Bytes → Bytes → Bytes
unfolding get_query
get_queryd req key default = elim (get_query req key) [ none ↦ default | some value ↦ value ]

-- `onion_request_get_post`, `onion_request_get_file`
unfoldable pub get_post : Request → Bytes → Option Bytes
get_post req query = elim (req.post) [ none ↦ none | some dict ↦ get dict query ]

unfoldable pub get_file : Request → Bytes → Option Bytes
get_file req query = elim (req.files) [ none ↦ none | some dict ↦ get dict query ]

-- `onion_request_polish`: where `path` starts in `fullpath`.
unfoldable pub polish : Bytes → ℕ
polish [] = 0
polish (c ∷ fullpath) = 1

-- `onion_request_advance_path`: a place behind the terminator is not taken.
unfoldable pub advance_path : Bytes → ℕ → ℕ → ℕ
advance_path fullpath path addtopos =
    if leb (path + addtopos) (length fullpath) then path + addtopos else path

-- `onion_request_get_path`
unfoldable pub get_path : Bytes → ℕ → Bytes
get_path fullpath path = drop path fullpath
