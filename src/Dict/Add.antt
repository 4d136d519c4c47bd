-- ===== src/Dict/Add.antt =====
-- `onion_dict_node_add` puts its entry in the sorted list of entries.
use Prim.Native.Nat.Ordering.{lt, eq}
use onion.Prelude.{
  ℕ, List, [], ◌∷◌, ◌++◌, true, false, ◌≡◌, ◌≢◌, refl, sym, ap, ◌∙◌, arith, ◌⊎◌, inl, inr,
  Bool-cases,
}
use onion.Prelude.Predicates.{All}
use onion.Dict.Order.{KeyOrder, ◌≼◌, ◌≺◌, ≼-trans, ≺-≼-trans, ≼_of_not_lt, Ordering-cases}
use onion.Dict.{Entry, Tree, null, node, skew, split, entries, node_add}
use onion.Dict.Entries.{entries-skew, entries-split}
use onion.Dict.Sorted.{
  IsSorted, IsStrict, Passes, put, put-append-Passes, put-append_lt, IsSorted-append,
  IsStrict-append,
}

module _ {ℓ κ} {K : Type ℓ} {V : Type κ} ⦃o : KeyOrder K⦄ where
  -- An entry that replaces asks for distinct keys: the tree replaces the topmost entry with an
  -- equal key, whichever that is.
  abbrev pub Fits : Entry K V → List (Entry K V) → Type 0
  Fits e xs = ((e.flags.replace ≡ false) × IsSorted xs) ⊎ ((e.flags.replace ≡ true) × IsStrict xs)

  pub Passes-of : (e y : Entry K V) → e.flags.replace ≡ false → y.key ≼ e.key → Passes e y
  Passes-of e y f h = elim (Ordering-cases (o.cmp e.key y.key)) [
    | inl l ↦ absurd (h (ground (arith, o.cmp_flip e.key y.key)))
    | inr (inl q) ↦ inr (q, f)
    | inr (inr g) ↦ inl g
  ]

  Passes-below_sorted :
      (e : Entry K V) (k : K) (l : List (Entry K V))
      → e.flags.replace ≡ false
      → o.cmp e.key k ≢ lt
      → All (λ y. y.key ≼ k) l
      → All (Passes e) l
  Passes-below_sorted e k [] f h hs = tt
  Passes-below_sorted e k (y ∷ l) f h (hy, hs) = (
    Passes-of e y f (≼-trans y.key k e.key hy (≼_of_not_lt e.key k h)),
    Passes-below_sorted e k l f h hs,
  )

  Passes-below_strict :
      (e : Entry K V) (k : K) (l : List (Entry K V))
      → o.cmp e.key k ≢ lt
      → All (λ y. y.key ≺ k) l
      → All (Passes e) l
  Passes-below_strict e k [] h hs = tt
  Passes-below_strict e k (y ∷ l) h (hy, hs) = (
    inl (
        ground (arith, ≺-≼-trans y.key k e.key hy (≼_of_not_lt e.key k h), o.cmp_flip y.key e.key)),
    Passes-below_strict e k l h hs,
  )

  Fits-left : (e x : Entry K V) (l r : List (Entry K V)) → Fits e (l ++ x ∷ r) → Fits e l
  Fits-left e x l r (inl (f, h)) = inl (f, (IsSorted-append l x r h).2)
  Fits-left e x l r (inr (f, h)) = inr (f, (IsStrict-append l x r h).2)

  Fits-right : (e x : Entry K V) (l r : List (Entry K V)) → Fits e (l ++ x ∷ r) → Fits e r
  Fits-right e x l r (inl (f, h)) = inl (f, (IsSorted-append l x r h).3)
  Fits-right e x l r (inr (f, h)) = inr (f, (IsStrict-append l x r h).3)

  -- All to the left of a node that does not stand behind the entry is passed.
  Fits-Passes :
      (e x : Entry K V) (l r : List (Entry K V))
      → Fits e (l ++ x ∷ r)
      → o.cmp e.key x.key ≢ lt
      → All (Passes e) l
  Fits-Passes e x l r (inl (f, h)) n = Passes-below_sorted e x.key l f n (IsSorted-append l x r h).0
  Fits-Passes e x l r (inr (f, h)) n = Passes-below_strict e x.key l n (IsStrict-append l x r h).0

  entries-rotate :
      (x : Entry K V) (n : ℕ) (l r : Tree K V)
      → entries (split (skew (node x n l r))) ≡ entries l ++ x ∷ entries r
  unfolding entries
  entries-rotate x n l r = entries-split (skew (node x n l r)) ∙ entries-skew (node x n l r)

  node_add-lt :
      (x e : Entry K V) (n : ℕ) (l r : Tree K V)
      → o.cmp e.key x.key ≡ lt
      → entries (node_add (node x n l r) e) ≡ entries (node_add l e) ++ x ∷ entries r
  unfolding node_add
  node_add-lt x e n l r c = rw (c, node_add) (entries-rotate x n (node_add l e) r)

  node_add-Passes :
      (x e : Entry K V) (n : ℕ) (l r : Tree K V)
      → Passes e x
      → entries (node_add (node x n l r) e) ≡ entries l ++ x ∷ entries (node_add r e)
  unfolding node_add
  node_add-Passes x e n l r (inl c) = rw (c, node_add) (entries-rotate x n l (node_add r e))
  node_add-Passes x e n l r (inr (c, f)) = ground (arith, entries-rotate x n l (node_add r e))

  node_add_replace :
      (x e : Entry K V) (n : ℕ) (l r : Tree K V)
      → o.cmp e.key x.key ≡ eq
      → e.flags.replace ≡ true
      → entries (node_add (node x n l r) e) ≡ entries l ++ e ∷ entries r
  unfolding node_add entries
  node_add_replace x e n l r c f = ground arith

  put-Passes :
      (x e : Entry K V) (xs : List (Entry K V)) → Passes e x → put e (x ∷ xs) ≡ x ∷ put e xs
  unfolding put
  put-Passes x e xs (inl c) = ground arith
  put-Passes x e xs (inr (c, f)) = ground arith

  put_replace :
      (x e : Entry K V) (xs : List (Entry K V))
      → o.cmp e.key x.key ≡ eq
      → e.flags.replace ≡ true
      → put e (x ∷ xs) ≡ e ∷ xs
  unfolding put
  put_replace x e xs c f = ground arith

  put-node_lt :
      (x e : Entry K V) (l r : List (Entry K V))
      → o.cmp e.key x.key ≡ lt
      → put e l ++ x ∷ r ≡ put e (l ++ x ∷ r)
  put-node_lt x e l r c = sym (put-append_lt e x l r c)

  put-node-Passes :
      (x e : Entry K V) (l r : List (Entry K V))
      → All (Passes e) l
      → Passes e x
      → l ++ x ∷ put e r ≡ put e (l ++ x ∷ r)
  put-node-Passes x e l r h p =
      sym (put-append-Passes e l (x ∷ r) h ∙ ap (λ t. l ++ t) (put-Passes x e r p))

  put-node_replace :
      (x e : Entry K V) (l r : List (Entry K V))
      → All (Passes e) l
      → o.cmp e.key x.key ≡ eq
      → e.flags.replace ≡ true
      → l ++ e ∷ r ≡ put e (l ++ x ∷ r)
  put-node_replace x e l r h c f =
      sym (put-append-Passes e l (x ∷ r) h ∙ ap (λ t. l ++ t) (put_replace x e r c f))

  -- An addition to a tree puts the entry in its place in the list of entries and changes nothing
  -- else: without OD_REPLACE if the keys are in order, with it if they are distinct too.
  pub entries-node_add :
      (t : Tree K V) (e : Entry K V)
      → Fits e (entries t)
      → entries (node_add t e) ≡ put e (entries t)
  unfolding entries
  entries-node_add null e h = unfold node_add put in refl
  entries-node_add (node x n l r) e h =
      let el = entries l in
      let er = entries r in
      let right = λ (p : Passes e x) (n' : o.cmp e.key x.key ≢ lt).
        node_add-Passes x e n l r p
        ∙ ap (λ t. el ++ x ∷ t) (entries-node_add r e (Fits-right e x el er h))
        ∙ put-node-Passes x e el er (Fits-Passes e x el er h n') p in
      elim (Ordering-cases (o.cmp e.key x.key)) [
        | inl c ↦
            node_add-lt x e n l r c
            ∙ ap (λ t. t ++ x ∷ er) (entries-node_add l e (Fits-left e x el er h))
            ∙ put-node_lt x e el er c
        | inr (inr c) ↦ right (inl c) (cc)
        | inr (inl c) ↦ elim (Bool-cases e.flags.replace) [
          | inl f ↦
              node_add_replace x e n l r c f
              ∙ put-node_replace x e el er (Fits-Passes e x el er h (cc)) c f
          | inr f ↦ right (inr (c, f)) (cc)
        ]
      ]
