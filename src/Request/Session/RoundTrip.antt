-- ===== src/Request/Session/RoundTrip.antt =====
-- A session that was created is found by the cookie that has its identifier.
use onion.Prelude.{
  ℕ, suc, [], ◌∷◌, ◌++◌, true, false, none, some, ◌≡◌, refl, ap, ◌==◌, Bytes, codes, length, arith,
}
use onion.Prelude.Predicates.{All}
use onion.Strings.{is_prefix}
use onion.Utils.{is_alnum}
use onion.Sessions.{Store, sessions_get, create, generate_id}
use onion.Sessions.Ids.{generate_id-alnum}
use onion.Request.Session.{
  find_from, until_semicolon, guess, guess_session_id, created, get_session_dict,
}

-- The end of the header, or the semicolon behind a cookie.
abbrev pub EndsCookie : Bytes → Type 0
EndsCookie [] = Unit
EndsCookie (c ∷ rest) = c ≡ b';'

until_semicolon-append :
    (id rest : Bytes)
    → All (λ c. is_alnum c ≡ true) id
    → EndsCookie rest
    → until_semicolon (id ++ rest) ≡ id
unfolding is_alnum
until_semicolon-append [] [] h k = refl
until_semicolon-append [] (c ∷ rest) h k =
    let same : (c == b';') ≡ true = ground arith in rw same refl
until_semicolon-append (c ∷ id) rest (h, hs) k =
    let other : (c == b';') ≡ false = ground arith in
    rw other (ap (λ t. c ∷ t) (until_semicolon-append id rest hs k))

module _ (S D : Type 0) ⦃store : Store S D⦄ where
  guess-first :
      (n : ℕ) (sessions : S) (id rest : Bytes) (session : D)
      → All (λ c. is_alnum c ≡ true) id
      → EndsCookie rest
      → store.find sessions id ≡ some session
      → guess (suc n) sessions none (codes "sessionid=" ++ (id ++ rest)) ≡ some (some (id, session))
  unfolding guess find_from is_prefix sessions_get
  guess-first n sessions id rest session h k e =
      rw (until_semicolon-append id rest h k, e)
        (ap (λ i. some (some (i, session))) (until_semicolon-append id rest h k))

  -- A session that `onion_sessions_create` made with an identifier of random bytes: a later request
  -- whose `Cookie` header starts with `sessionid=` and that identifier, up to a semicolon or the end,
  -- gets that session, and the store stays as it is.
  pub get_session_dict-create :
      (random_bytes other_bytes rest : Bytes) (data_ other_data : D) (sessions : S)
      → store.IsValid sessions
      → EndsCookie rest
      → get_session_dict other_bytes other_data
          (create random_bytes data_ sessions).1
          (some (codes "sessionid=" ++ (generate_id random_bytes ++ rest)))
          (record { session_id = none; session = none })
        ≡ some (
          record { session_id = some (generate_id random_bytes); session = some data_ },
          (create random_bytes data_ sessions).1,
        )
  unfolding get_session_dict guess_session_id created create
  get_session_dict-create random_bytes other_bytes rest data_ other_data sessions h k =
      let id = generate_id random_bytes in
      let after = store.save sessions id (some data_) in
      let ov = codes "sessionid=" ++ (id ++ rest) in
      let (len, chars) = generate_id-alnum random_bytes in
      rw (guess-first (length ov) after id rest data_ chars k (store.find-save sessions id data_ h))
        refl
