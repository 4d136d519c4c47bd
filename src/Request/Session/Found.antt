-- ===== src/Request/Session/Found.antt =====
-- Which session a request finds.
use onion.Prelude.{
  ◌>>=◌, ℕ, zero, suc, ◌≤◌, ◌<◌, [], ◌∷◌, true, false, ◌&&◌, Option, none, some, ◌≡◌, ◌≢◌, refl,
  sym, ap, subst, ◌∙◌, ◌==◌, Bytes, codes, length, drop, length-drop, Bool-cases, Option-cases, inl,
  inr, arith,
}
use onion.Prelude.Predicates.{All}
use onion.Strings.{is_prefix}
use onion.Sessions.{Store, sessions_get, create, generate_id}
use onion.Request.Session.{
  Session, find_from, until_semicolon, is_alnum_before, guess, with_session, guess_session_id,
  created, get_session_dict,
}

-- What `strstr` finds is an end of the text, and starts with the needle.
abbrev IsEnd : Bytes → Bytes → Option (Option ℕ × Bytes) → Type 0
IsEnd needle v none = Unit
IsEnd needle v (some found) = (length found.1 ≤ length v) × (is_prefix needle found.1 ≡ true)

longer-IsEnd :
    (needle : Bytes) (c : ℕ) (v : Bytes) (found : Option (Option ℕ × Bytes))
    → IsEnd needle v found
    → IsEnd needle (c ∷ v) found
longer-IsEnd needle c v none h = tt
longer-IsEnd needle c v (some found) (h, k) = (omega arith, k)

find_from-IsEnd :
    (needle : Bytes) (before : Option ℕ) (v : Bytes) → IsEnd needle v (find_from needle before v)
unfolding find_from
find_from-IsEnd needle before [] = elim (Bool-cases (is_prefix needle [])) [
  | inl h ↦ rw (h, find_from) (omega arith, h)
  | inr h ↦ rw (h, find_from) tt
]
find_from-IsEnd needle before (c ∷ v) = elim (Bool-cases (is_prefix needle (c ∷ v))) [
  | inl h ↦ rw (h, find_from) (omega arith, h)
  | inr h ↦ rw (h, find_from) (longer-IsEnd needle c v _ (find_from-IsEnd needle (some c) v))
]

find_from_miss :
    (needle : Bytes) (before : Option ℕ) (c : ℕ) (v : Bytes)
    → is_prefix needle (c ∷ v) ≡ false
    → find_from needle before (c ∷ v) ≡ find_from needle (some c) v
unfolding find_from
find_from_miss needle before c v h = rw (h, find_from) refl

-- A semicolon behind a text that starts with the name of the cookie is found further on.
find_from-semicolon :
    (before : Option ℕ) (v : Bytes)
    → is_prefix (codes "sessionid=") v ≡ true
    → (found : Option ℕ × Bytes) → find_from (codes ";") before v ≡ some found
    → length found.1 < length v
unfolding find_from is_prefix
find_from-semicolon before [] h found e = ground arith
find_from-semicolon before (c ∷ v) h found e =
    let other : (b';' == c) ≡ false = ground arith in
    let further : find_from (codes ";") (some c) v ≡ some found =
      sym (find_from_miss (codes ";") before c v (ap (λ b. b && true) other)) ∙ e in
    let (len, starts) =
      subst (IsEnd (codes ";") v) further (find_from-IsEnd (codes ";") (some c) v) in
    omega arith

prefix_length : (needle v : Bytes) → is_prefix needle v ≡ true → length needle ≤ length v
unfolding is_prefix
prefix_length [] v h = omega arith
prefix_length (d ∷ needle) [] h = ground arith
prefix_length (d ∷ needle) (c ∷ v) h = ground (arith, prefix_length needle v)

until_semicolon-All : (p : Bytes) → All (λ c. c ≢ b';') (until_semicolon p)
until_semicolon-All [] = tt
until_semicolon-All (c ∷ p) = elim (Bool-cases (c == b';')) [
  | inl h ↦ rw h tt
  | inr h ↦ rw h ((λ e. ground arith), until_semicolon-All p)
]

module _ (S D : Type 0) ⦃store : Store S D⦄ where
  -- A guess that ended: a session of the store, by an identifier without a semicolon, or none.
  abbrev Ends : S → Option (Option (Bytes × D)) → Type 0
  Ends sessions none = ⊥
  Ends sessions (some none) = Unit
  Ends sessions (some (some (id, session))) =
      (store.find sessions id ≡ some session) × All (λ c. c ≢ b';') id

  checked-Ends :
      (sessions : S) (id : Bytes) (further : Option (Option (Bytes × D)))
      → All (λ c. c ≢ b';') id
      → Ends sessions further
      → Ends sessions (elim (sessions_get sessions id) [
        | none ↦ further
        | some session ↦ some (some (id, session))
      ])
  unfolding sessions_get
  checked-Ends sessions id further h k = elim (Option-cases (store.find sessions id)) [
    | inl e ↦ rw e k
    | inr (session, e) ↦ rw e (e, h)
  ]

  guess-Ends :
      (n : ℕ) (sessions : S) (before : Option ℕ) (v : Bytes)
      → length v < n
      → Ends sessions (guess n sessions before v)
  unfolding guess
  guess-Ends zero sessions before v h = absurd (omega arith)
  guess-Ends (suc n) sessions before v h =
      elim (Option-cases (find_from (codes "sessionid=") before v)) [
        | inl e ↦ rw (e, guess) tt
        | inr (found, e) ↦
            let (len, starts) =
              subst (IsEnd (codes "sessionid=") v) e
                (find_from-IsEnd (codes "sessionid=") before v) in
            let long = prefix_length (codes "sessionid=") found.1 starts in
            let shorter = length-drop 10 found.1 in
            rw (e, guess)
              (elim (Bool-cases (is_alnum_before found.0)) [
                | inl a ↦ rw a (elim (Option-cases (find_from (codes ";") found.0 found.1)) [
                  | inl g ↦ rw g tt
                  | inr (behind, g) ↦
                      let less = find_from-semicolon found.0 found.1 starts behind g in
                      rw g (guess-Ends n sessions behind.0 behind.1 (omega arith))
                ])
                | inr a ↦ rw a (
                    checked-Ends sessions (until_semicolon (drop 10 found.1)) _
                      (until_semicolon-All (drop 10 found.1))
                      (guess-Ends n sessions (some b'=') (drop 10 found.1) (omega arith)))
              ])
      ]

  -- The session of a request, which is the one that the store has for its identifier.
  abbrev pub Stored : Session D → S → Type 0
  Stored req sessions =
      (id : Bytes) × (session : D) × (req.session_id ≡ some id)
      × (req.session ≡ some session)
      × (store.find sessions id ≡ some session)
      × store.IsValid sessions

  create-Stored :
      (random_bytes : Bytes) (data_ : D) (sessions : S) (req : Session D)
      → store.IsValid sessions
      → req.session ≡ none
      → Stored
          (created random_bytes data_ sessions req).0
          (created random_bytes data_ sessions req).1
  unfolding created create sessions_get
  create-Stored random_bytes data_ sessions req h e =
      let id = generate_id random_bytes in
      rw (e, created)
        (
          id,
          data_,
          refl,
          store.find-save sessions id data_ h,
          store.find-save sessions id data_ h,
          store.save-IsValid sessions id (some data_) h,
        )

  guessed-Stored :
      (random_bytes : Bytes) (data_ : D) (sessions : S) (req : Session D)
      (found : Option (Bytes × D))
      → store.IsValid sessions
      → req.session ≡ none
      → Ends sessions (some found)
      → Stored
          (created random_bytes data_ sessions (with_session req found)).0
          (created random_bytes data_ sessions (with_session req found)).1
  unfolding created
  guessed-Stored random_bytes data_ sessions req none h e k =
      create-Stored random_bytes data_ sessions req h e
  guessed-Stored random_bytes data_ sessions req (some (id, session)) h e (k, chars) =
      (id, session, refl, refl, k, h)

  -- What is returned, with the store afterwards.
  abbrev pub Gives : Option (Session D × S) → Type 0
  Gives none = ⊥
  Gives (some (req, sessions)) = Stored req sessions

  found-Gives :
      (random_bytes : Bytes) (data_ : D) (sessions : S) (req : Session D)
      (guessed : Option (Option (Bytes × D)))
      → store.IsValid sessions
      → req.session ≡ none
      → Ends sessions guessed
      → Gives (do
        req1 ← (do found ← guessed; some (with_session req found))
        some (created random_bytes data_ sessions req1))
  found-Gives random_bytes data_ sessions req none h e k = absurd k
  found-Gives random_bytes data_ sessions req (some found) h e k =
      guessed-Stored random_bytes data_ sessions req found h e k

  -- A request without a session, whatever its cookies are, on a store that keeps its promise:
  -- `onion_request_get_session_dict` ends, and gives the request an identifier and the session that
  -- the store then has for it, one that it had or a new one.
  pub get_session_dict-Gives :
      (random_bytes : Bytes) (data_ : D) (sessions : S) (cookie : Option Bytes) (req : Session D)
      → store.IsValid sessions
      → req.session ≡ none
      → Gives (get_session_dict random_bytes data_ sessions cookie req)
  unfolding get_session_dict guess_session_id
  get_session_dict-Gives random_bytes data_ sessions cookie req h e =
      rw (e, get_session_dict)
        (elim (Option-cases (req.session_id)) [
          | inr (id, f) ↦
              rw (f, guess_session_id) (create-Stored random_bytes data_ sessions req h e)
          | inl f ↦ elim (Option-cases cookie) [
            | inl g ↦
                rw (f, g, guess_session_id) (create-Stored random_bytes data_ sessions req h e)
            | inr (ov, g) ↦
                rw (f, g, guess_session_id)
                  (found-Gives random_bytes data_ sessions req
                    (guess (suc (length ov)) sessions none ov) h e
                    (guess-Ends (suc (length ov)) sessions none ov (omega arith)))
          ]
        ])
