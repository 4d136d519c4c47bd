-- ===== src/Tests/SessionsMemTests.antt =====
-- A store with one session, and a line of /etc/mime.types.
use onion.Prelude.{some, none, ◌≡◌, ◌++◌, refl, Bytes, codes}
use onion.Sessions.{create, generate_id}
use onion.SessionsMem.Implements.{mem_store}
use onion.Request.Session.{Session, get_session_dict}
use onion.Request.Session.Found.{Gives, get_session_dict-Gives}
use onion.Request.Session.RoundTrip.{get_session_dict-create}
use onion.Dict.{Tree, null, node, entries}
use onion.Dict.Sorted.{IsStrict}
use onion.SessionsMem.{session_entry}
use onion.Strings.{exact}

abbrev sessions : Tree Bytes Bytes
sessions = node (session_entry (codes "ab12") (codes "user")) 1 null null

sessions-IsStrict : IsStrict (entries sessions)
unfolding entries
sessions-IsStrict = (tt, tt)

abbrev fresh : Session Bytes
fresh = record { session_id = none; session = none }

get_session_dict-Gives_example : Gives (Tree Bytes Bytes) Bytes (
    get_session_dict
      (codes "random bytes")
      (codes "new")
      sessions
      (some (codes "a=b; sessionid=ab12"))
      fresh)
get_session_dict-Gives_example =
    get_session_dict-Gives (Tree Bytes Bytes) Bytes (codes "random bytes") (codes "new") sessions
      (some (codes "a=b; sessionid=ab12")) fresh sessions-IsStrict refl

get_session_dict-create_example :
    get_session_dict
      (codes "others")
      (codes "other")
      (create (codes "random") (codes "new") sessions).1
      (some (codes "sessionid=" ++ (generate_id (codes "random") ++ codes "; a=b")))
      fresh
    ≡ some (
      record { session_id = some (generate_id (codes "random")); session = some (codes "new") },
      (create (codes "random") (codes "new") sessions).1,
    )
get_session_dict-create_example =
    get_session_dict-create (Tree Bytes Bytes) Bytes (codes "random") (codes "others")
      (codes "; a=b") (codes "new") (codes "other") sessions sessions-IsStrict refl
