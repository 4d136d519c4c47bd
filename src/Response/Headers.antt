-- ===== src/Response/Headers.antt =====
-- src/onion/response.c: what `onion_response_write_headers` writes.
use onion.Prelude.{
  ℕ, List, [], ◌∷◌, ◌++◌, Bool, not, ◌&&◌, none, some, ◌==◌, if◌then◌else◌, Bytes, codes,
}
use onion.Strings.{exact, decimal}
use onion.Dict.{Entry, entries}
use onion.Request.{keep_alive}
use onion.Response.State.{Response}

-- The cases of `onion_response_code_description`.
abbrev pub descriptions : List (ℕ × Bytes)
descriptions =
    (200, codes "OK")
    ∷ (201, codes "Created")
    ∷ (206, codes "Partial Content")
    ∷ (207, codes "Multi-Status")
    ∷ (101, codes "Switching Protocols")
    ∷ (301, codes "Moved Permanently")
    ∷ (302, codes "Found")
    ∷ (303, codes "See Other")
    ∷ (304, codes "Not Modified")
    ∷ (307, codes "Temporary Redirect")
    ∷ (400, codes "Bad Request")
    ∷ (401, codes "Unauthorized")
    ∷ (403, codes "Forbidden")
    ∷ (404, codes "Not Found")
    ∷ (405, codes "Method Not Allowed")
    ∷ (416, codes "Range Not Satisfiable")
    ∷ (418, codes "I'm a teapot")
    ∷ (500, codes "Internal Server Error")
    ∷ (501, codes "Not Implemented")
    ∷ (502, codes "Bad Gateway")
    ∷ (503, codes "Service Unavailable")
    ∷ []

unfoldable pub description_in : List (ℕ × Bytes) → ℕ → Bytes
description_in [] code = codes "CODE UNKNOWN"
description_in ((n, text) ∷ cases) code =
    let later = description_in cases code in if n == code then text else later

-- `onion_response_code_description`
unfoldable pub code_description : ℕ → Bytes
unfolding description_in
code_description code = description_in descriptions code

-- The writes of `write_header`.
unfoldable pub header_writes : List (Entry Bytes Bytes) → List Bytes
header_writes [] = []
header_writes (x ∷ xs) = x.key ∷ codes ": " ∷ x.value ∷ codes "\r\n" ∷ header_writes xs

abbrev pub is_chunked : Response → Bool
is_chunked res =
    res.request.http11 && not res.length_set && keep_alive res.no_keep_alive res.request

abbrev pub written_if : Bool → Bytes → List Bytes
written_if b text = if b then text ∷ [] else []

-- The writes of `onion_response_write_headers`, in their order: the status line, what is said of the
-- connection, the headers, the cookie of the session, and the empty line.
unfoldable pub status_writes : Response → List Bytes
unfolding code_description decimal keep_alive
status_writes res =
    let version = if res.request.http11 then codes "HTTP/1.1 " else codes "HTTP/1.0 " in
    (version ++ (decimal res.code ++ (codes " " ++ (code_description res.code ++ codes "\r\n"))))
    ∷ (written_if (is_chunked res) (codes "Transfer-Encoding: chunked\r\n")
        ++ (written_if (not res.request.http11 && res.length_set)
              (codes "Connection: Keep-Alive\r\n")
            ++ (written_if
                  (not res.length_set && not (is_chunked res) && not res.connection_upgrade)
                  (codes "Connection: Close\r\n")
                ++ written_if res.connection_upgrade (codes "Connection: Upgrade\r\n"))))

unfoldable pub session_writes : Response → List Bytes
session_writes res = elim (res.session_id) [
  | none ↦ []
  | some id ↦ (codes "Set-Cookie: sessionid=" ++ (id ++ codes "; httponly; Path=/\n")) ∷ []
]

unfoldable pub headers_writes : Response → List Bytes
unfolding status_writes header_writes session_writes entries
headers_writes res =
    status_writes res
    ++ (header_writes (entries res.headers) ++ (session_writes res ++ (codes "\r\n" ∷ [])))
