-- ===== src/Url/Order.antt =====
-- Patterns are asked in the order in which they were added.
use onion.Prelude.{
  ℕ, ◌+◌, ◌-◌, ◌≤◌, List, [], ◌∷◌, ◌++◌, Bool, true, false, Option, none, some, ◌≡◌, refl, ap,
  subst, ◌∙◌, Bytes, length, drop, arith, leb, le→leb, length-drop, same_bytes, Bool-cases,
  Option-cases, inl, inr,
}
use onion.Request.{advance_path, get_path}
use onion.Handler.{Exchange, Result, Handler, Chain, handle}
use onion.Url.{
  UrlData, Match, strcmp, fullpath_of, path_of, matches, enter, add_groups, url_handler, is_regexp,
  add_handler,
}

same_bytes_refl : (s : Bytes) → same_bytes s s ≡ true
same_bytes_refl [] = refl
same_bytes_refl (c ∷ s) = ground (arith, same_bytes_refl s)

advance_path-all :
    (fullpath : Bytes) (path : ℕ)
    → path ≤ length fullpath
    → advance_path fullpath path (length (get_path fullpath path)) ≡ length fullpath
unfolding advance_path get_path
advance_path-all fullpath path l =
    let left : length (drop path fullpath) ≡ length fullpath - path = length-drop path fullpath in
    let sum : path + length (drop path fullpath) ≡ length fullpath = omega arith in
    let inside : leb (length fullpath) (length fullpath) ≡ true = le→leb _ _ (omega arith) in
    rw sum (rw inside refl)

module _ {R : Type 0} (regcomp : Bytes → Option R) (regexec : R → Bytes → Option Match) (n : ℕ)
    (websocket : Exchange → Option Handler) where
  abbrev found : UrlData R → Bytes → Option Match
  found d path = matches regexec d.pattern path

  abbrev dispatch : List (UrlData R) → Exchange → Result
  dispatch urls x = url_handler regexec n websocket urls x

  -- A path is matched by a pattern of the list.
  unfoldable pub is_matched : List (UrlData R) → Bytes → Bool
  is_matched [] path = false
  is_matched (d ∷ urls) path =
      let later = is_matched urls path in elim (found d path) [ none ↦ later | some m ↦ true ]

  dispatch-append_matched :
      (urls more : List (UrlData R)) (x : Exchange)
      → is_matched urls (path_of x) ≡ true
      → dispatch (urls ++ more) x ≡ dispatch urls x
  unfolding is_matched url_handler
  dispatch-append_matched [] more x h = absurd (ground arith)
  dispatch-append_matched (d ∷ urls) more x h =
      matched (dispatch-append_matched urls more x) (found d (path_of x)) h
    where
      matched :
          (is_matched urls (path_of x) ≡ true → dispatch (urls ++ more) x ≡ dispatch urls x)
          → (o : Option Match)
          → elim o as (λ p. Bool) [ none ↦ is_matched urls (path_of x) | some m ↦ true ] ≡ true
          → elim o as (λ p. Result) [
            | none ↦ dispatch (urls ++ more) x
            | some m ↦ enter n websocket d.inside m x
          ]
            ≡ elim o as (λ p. Result) [
              | none ↦ dispatch urls x
              | some m ↦ enter n websocket d.inside m x
            ]
      matched rest none e = rest e
      matched rest (some m) e = refl

  dispatch-append_unmatched :
      (urls more : List (UrlData R)) (x : Exchange)
      → is_matched urls (path_of x) ≡ false
      → dispatch (urls ++ more) x ≡ dispatch more x
  unfolding is_matched url_handler
  dispatch-append_unmatched [] more x h = refl
  dispatch-append_unmatched (d ∷ urls) more x h =
      unmatched (dispatch-append_unmatched urls more x) (found d (path_of x)) h
    where
      unmatched :
          (is_matched urls (path_of x) ≡ false → dispatch (urls ++ more) x ≡ dispatch more x)
          → (o : Option Match)
          → elim o as (λ p. Bool) [ none ↦ is_matched urls (path_of x) | some m ↦ true ] ≡ false
          → elim o as (λ p. Result) [
            | none ↦ dispatch (urls ++ more) x
            | some m ↦ enter n websocket d.inside m x
          ]
            ≡ dispatch more x
      unmatched rest none e = rest e
      unmatched rest (some m) e = absurd (ground arith)

  -- Where a pattern of the list matches the path, a pattern that is added changes nothing, whether it
  -- is a regular expression, one with an error, or a text.
  url_handler-add_handler :
      (text : Bytes) (inside : Chain) (urls : List (UrlData R)) (x : Exchange)
      → is_matched urls (path_of x) ≡ true
      → dispatch (add_handler regcomp text inside urls).1 x ≡ dispatch urls x
  unfolding add_handler
  url_handler-add_handler text inside urls x h = elim (Bool-cases (is_regexp text)) [
    | inl e ↦ elim (Option-cases (regcomp text)) [
      | inl f ↦ rw (e, f) refl
      | inr (r, f) ↦ rw (e, f) (dispatch-append_matched urls _ x h)
    ]
    | inr e ↦ rw e (dispatch-append_matched urls _ x h)
  ]

  dispatch-path :
      (inside : Chain) (x : Exchange)
      → x.path ≤ length (fullpath_of x)
      → dispatch (record { pattern = strcmp (path_of x); inside = inside } ∷ []) x
        ≡ handle n websocket inside (record x { path = length (fullpath_of x) })
  unfolding url_handler matches enter add_groups
  dispatch-path inside x l =
      let itself : same_bytes (path_of x) (path_of x) ≡ true = same_bytes_refl (path_of x) in
      rw (itself, url_handler, matches)
        (ap (λ k. handle n websocket inside (record x { path = k }))
          (advance_path-all (fullpath_of x) x.path l))

  -- A text that does not start with a circumflex, and a path that is the text and that no pattern of
  -- the list matches: the handler that was added with the text gets the request, with nothing left of
  -- the path, and the query as it was.
  pub url_handler-strcmp :
      (text : Bytes) (inside : Chain) (urls : List (UrlData R)) (x : Exchange)
      → is_regexp text ≡ false
      → is_matched urls (path_of x) ≡ false
      → path_of x ≡ text
      → x.path ≤ length (fullpath_of x)
      → dispatch (add_handler regcomp text inside urls).1 x
        ≡ handle n websocket inside (record x { path = length (fullpath_of x) })
  unfolding add_handler
  url_handler-strcmp text inside urls x e h same l = rw e (
      dispatch-append_unmatched urls (record { pattern = strcmp text; inside = inside } ∷ []) x h
      ∙ subst
          (λ t.
            dispatch (record { pattern = strcmp t; inside = inside } ∷ []) x
            ≡ handle n websocket inside (record x { path = length (fullpath_of x) }))
          same (dispatch-path inside x l))
