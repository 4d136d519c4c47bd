-- ===== src/Request/Session.antt =====
-- src/onion/request.c: the session of a request, by its cookie or created.
pub mod Found
pub mod RoundTrip
use onion.Prelude.{
  ◌>>=◌, ℕ, zero, suc, List, [], ◌∷◌, Bool, true, false, Option, none, some, ◌==◌, if◌then◌else◌,
  Bytes, codes, length, drop,
}
use onion.Strings.{is_prefix}
use onion.Utils.{is_alnum}
use onion.Sessions.{Store, sessions_get, create}

-- `session_id` and `session` of a request.
pub record Session (D : Type 0) : Type 0 where
  pub session_id : Option Bytes
  pub session : Option D

-- `strstr`, with the byte before the text that it finds.
unfoldable pub find_from : Bytes → Option ℕ → Bytes → Option (Option ℕ × Bytes)
find_from needle before [] = if is_prefix needle [] then some (before, []) else none
find_from needle before (c ∷ v) =
    let later = find_from needle (some c) v in
    if is_prefix needle (c ∷ v) then some (before, c ∷ v) else later

abbrev pub until_semicolon : Bytes → Bytes
until_semicolon [] = []
until_semicolon (c ∷ p) = if c == b';' then [] else c ∷ until_semicolon p

abbrev pub is_alnum_before : Option ℕ → Bool
is_alnum_before none = false
is_alnum_before (some c) = is_alnum c

abbrev pub with_session : {D : Type 0} → Session D → Option (Bytes × D) → Session D
with_session req none = req
with_session req (some (id, session)) = record { session_id = some id; session = some session }

module _ {S D : Type 0} ⦃store : Store S D⦄ where
  -- The loop of `onion_request_guess_session_id` from a text with the byte before it. The fuel
  -- counts its rounds, each of which moves on.
  unfoldable pub guess : ℕ → S → Option ℕ → Bytes → Option (Option (Bytes × D))
  unfolding find_from sessions_get
  guess zero sessions before v = none
  guess (suc n) sessions before v = elim (find_from (codes "sessionid=") before v) [
    | none ↦ some none
    | some found ↦
        let id = until_semicolon (drop 10 found.1) in
        let further = guess n sessions (some b'=') (drop 10 found.1) in
        let skipped : Option (Option (Bytes × D)) = elim (find_from (codes ";") found.0 found.1) [
          | none ↦ some none
          | some behind ↦ guess n sessions behind.0 behind.1
        ] in
        let checked : Option (Option (Bytes × D)) = elim (sessions_get sessions id) [
          | none ↦ further
          | some session ↦ some (some (id, session))
        ] in
        if is_alnum_before found.0 then skipped else checked
  ]

  -- `onion_request_guess_session_id`, for the `Cookie` header of the request.
  unfoldable pub guess_session_id : S → Option Bytes → Session D → Option (Session D)
  unfolding guess
  guess_session_id sessions cookie req = elim (req.session_id) [
    | some id ↦ some req
    | none ↦ elim cookie [
      | none ↦ some req
      | some ov ↦ do found ← guess (suc (length ov)) sessions none ov; some (with_session req found)
    ]
  ]

  -- A session is created where there is none.
  unfoldable pub created : Bytes → D → S → Session D → Session D × S
  unfolding create sessions_get
  created random_bytes data_ sessions req = elim (req.session) [
    | some session ↦ (req, sessions)
    | none ↦
        let (id, after) = create random_bytes data_ sessions in
        (record { session_id = some id; session = sessions_get after id }, after)
  ]

  -- `onion_request_get_session_dict`
  unfoldable pub get_session_dict :
      Bytes → D → S → Option Bytes → Session D → Option (Session D × S)
  unfolding guess_session_id created
  get_session_dict random_bytes data_ sessions cookie req = elim (req.session) [
    | some session ↦ some (req, sessions)
    | none ↦ do
      guessed ← guess_session_id sessions cookie req
      some (created random_bytes data_ sessions guessed)
  ]
