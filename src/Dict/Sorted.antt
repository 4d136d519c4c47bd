-- ===== src/Dict/Sorted.antt =====
-- A sorted list of entries: what a dictionary promises, with nothing of the tree.
use Prim.Native.Nat.Ordering.{lt, eq, gt}
use onion.Prelude.{
  List, [], ◌∷◌, ◌++◌, true, false, Option, none, some, ◌≡◌, refl, if◌then◌else◌, arith, ◌⊎◌,
}
use onion.Prelude.Predicates.{All, All-append_parts}
use onion.Dict.Order.{KeyOrder, ◌≼◌, ◌≺◌, ≼-trans, ≼-≺-trans, ≼_of_gt}
use onion.Dict.{Entry}

module _ {ℓ κ} {K : Type ℓ} {V : Type κ} ⦃o : KeyOrder K⦄ where
  -- Each entry stands before those behind it, or has an equal key.
  abbrev pub IsSorted : List (Entry K V) → Type 0
  IsSorted [] = Unit
  IsSorted (x ∷ xs) = All (λ y. x.key ≼ y.key) xs × IsSorted xs

  -- The same, with no two equal keys.
  abbrev pub IsStrict : List (Entry K V) → Type 0
  IsStrict [] = Unit
  IsStrict (x ∷ xs) = All (λ y. x.key ≺ y.key) xs × IsStrict xs

  -- An entry goes before the first one with a greater key; one that replaces takes the place of the
  -- first one with an equal key.
  unfoldable pub put : Entry K V → List (Entry K V) → List (Entry K V)
  put e [] = e ∷ []
  put e (x ∷ xs) = elim (o.cmp e.key x.key) [
    | lt ↦ e ∷ x ∷ xs
    | eq ↦ if e.flags.replace then e ∷ xs else x ∷ put e xs
    | gt ↦ x ∷ put e xs
  ]

  -- The first entry with an equal key.
  unfoldable pub find_first : K → List (Entry K V) → Option (Entry K V)
  find_first key [] = none
  find_first key (x ∷ xs) = elim (o.cmp key x.key) [ eq ↦ some x | _ ↦ find_first key xs ]

  -- `e` goes behind `y`.
  abbrev pub Passes : Entry K V → Entry K V → Type 0
  Passes e y = (o.cmp e.key y.key ≡ gt) ⊎ ((o.cmp e.key y.key ≡ eq) × (e.flags.replace ≡ false))

  pub put-append-Passes :
      (e : Entry K V) (l r : List (Entry K V)) → All (Passes e) l → put e (l ++ r) ≡ l ++ put e r
  unfolding put
  put-append-Passes e [] r h = refl
  put-append-Passes e (x ∷ l) r (h, hs) = ground (arith, put-append-Passes e l r hs)

  pub put-append_lt :
      (e x : Entry K V) (l r : List (Entry K V))
      → e.key ≺ x.key
      → put e (l ++ x ∷ r) ≡ put e l ++ x ∷ r
  unfolding put
  put-append_lt e x [] r h = ground arith
  put-append_lt e x (y ∷ l) r h = ground (arith, put-append_lt e x l r h)

  pub find_first-put :
      (e : Entry K V) (xs : List (Entry K V)) (key : K)
      → e.flags.replace ≡ true
      → find_first key (put e xs) ≡ elim (o.cmp key e.key) [ eq ↦ some e | _ ↦ find_first key xs ]
  unfolding find_first put
  find_first-put e [] key h = ground arith
  find_first-put e (x ∷ xs) key h = ground (
    arith,
    find_first-put e xs key h,
    o.eq_trans key x.key e.key,
    o.eq_trans e.key x.key key,
    o.eq_trans key e.key x.key,
    o.cmp_flip e.key x.key,
    o.cmp_flip key x.key,
    o.cmp_flip key e.key,
  )

  -- The parts of a sorted list.
  pub IsSorted-append :
      (l : List (Entry K V)) (x : Entry K V) (r : List (Entry K V))
      → IsSorted (l ++ x ∷ r)
      → All (λ y. y.key ≼ x.key) l × All (λ y. x.key ≼ y.key) r × IsSorted l × IsSorted r
  IsSorted-append [] x r (h, hs) = (tt, h, tt, hs)
  IsSorted-append (y ∷ l) x r (h, hs) =
      let (below, above, sl, sr) = IsSorted-append l x r hs in
      let (hl, hx) = All-append_parts (λ z. y.key ≼ z.key) l (x ∷ r) h in
      ((hx.0, below), above, (hl, sl), sr)

  pub IsStrict-append :
      (l : List (Entry K V)) (x : Entry K V) (r : List (Entry K V))
      → IsStrict (l ++ x ∷ r)
      → All (λ y. y.key ≺ x.key) l × All (λ y. x.key ≺ y.key) r × IsStrict l × IsStrict r
  IsStrict-append [] x r (h, hs) = (tt, h, tt, hs)
  IsStrict-append (y ∷ l) x r (h, hs) =
      let (below, above, sl, sr) = IsStrict-append l x r hs in
      let (hl, hx) = All-append_parts (λ z. y.key ≺ z.key) l (x ∷ r) h in
      ((hx.0, below), above, (hl, sl), sr)

  -- Whatever holds of the list and of the new entry holds of what `put` makes.
  All-put {μ} :
      (P : Entry K V → Type μ) (e : Entry K V) (xs : List (Entry K V))
      → P e
      → All P xs
      → All P (put e xs)
  unfolding put
  All-put P e [] p h = (p, tt)
  All-put P e (x ∷ xs) p (hx, h) = ground (arith, All-put P e xs p h)

  -- What stands behind `b` stands behind `a`.
  pub All-≼ :
      (a b : K) (xs : List (Entry K V)) → a ≼ b → All (λ y. b ≼ y.key) xs → All (λ y. a ≼ y.key) xs
  All-≼ a b [] h hs = tt
  All-≼ a b (x ∷ xs) h (hx, hs) = (≼-trans a b x.key h hx, All-≼ a b xs h hs)

  pub All-≺ :
      (a b : K) (xs : List (Entry K V)) → a ≼ b → All (λ y. b ≺ y.key) xs → All (λ y. a ≺ y.key) xs
  All-≺ a b [] h hs = tt
  All-≺ a b (x ∷ xs) h (hx, hs) = (≼-≺-trans a b x.key h hx, All-≺ a b xs h hs)

  pub put-IsSorted : (e : Entry K V) (xs : List (Entry K V)) → IsSorted xs → IsSorted (put e xs)
  unfolding put
  put-IsSorted e [] h = (tt, tt)
  put-IsSorted e (x ∷ xs) (h, hs) = ground (
    arith,
    put-IsSorted e xs hs,
    All-put (λ y. x.key ≼ y.key) e xs,
    ≼_of_gt e.key x.key,
    o.cmp_flip e.key x.key,
    All-≼ e.key x.key xs,
  )

  pub put-IsStrict :
      (e : Entry K V) (xs : List (Entry K V))
      → e.flags.replace ≡ true
      → IsStrict xs
      → IsStrict (put e xs)
  unfolding put
  put-IsStrict e [] f h = (tt, tt)
  put-IsStrict e (x ∷ xs) f (h, hs) = ground (
    arith,
    put-IsStrict e xs f hs,
    All-put (λ y. x.key ≺ y.key) e xs,
    ≼_of_gt e.key x.key,
    All-≺ e.key x.key xs,
  )
