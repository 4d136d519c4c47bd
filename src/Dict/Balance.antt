-- ===== src/Dict/Balance.antt =====
-- The AA invariant: `onion_dict_node_add` keeps it, and with it the depth of the tree is at most
-- twice the logarithm of its size.
use native.Mathlib.Nat.{pow-suc}
use onion.Prelude.{
  ℕ, zero, suc, ◌+◌, ◌*◌, ◌^◌, ◌≤◌, ◌<◌, max, false, ◌≡◌, refl, arith, ◌⊎◌, inl, inr, Bool-cases,
  ==_iff, leb, leb→le, ◌==◌,
}
use onion.Dict.Order.{KeyOrder}
use onion.Dict.{Entry, Tree, null, node, level, skew, split, node_add, count}

lt_of_test : (a b : ℕ) → a ≤ b → (b == a) ≡ false → a < b
lt_of_test a b h e = ground arith

lt_of_leb : (a b : ℕ) → leb a b ≡ false → b < a
lt_of_leb a b e = ground arith

module _ {ℓ κ} {K : Type ℓ} {V : Type κ} where
  -- The level of the right child's right child.
  abbrev pub level_right : Tree K V → ℕ
  level_right null = 0
  level_right (node x n l r) = level r

  -- Each left child stands one level below its parent, each right child at most one, and no two
  -- right children in a row stand at one level.
  abbrev pub IsBalanced : Tree K V → Type 0
  IsBalanced null = Unit
  IsBalanced (node x n l r) =
      (level l + 1 ≡ n)
      × (level r ≤ n)
      × (n ≤ level r + 1)
      × (level_right r < n)
      × IsBalanced l
      × IsBalanced r

  -- What an addition to a tree of level `n`, whose right child has level `k`, may do to the level:
  -- it stays, or it rises by one; it rises only where the right child had the same level, and then
  -- the root has no right child at its own level.
  abbrev Grows : ℕ → ℕ → Tree K V → Type 0
  Grows n k t =
      IsBalanced t × ((level t ≡ n) ⊎ ((level t ≡ n + 1) × (level_right t < level t) × (k ≡ n)))

  level_right-le : (t : Tree K V) → IsBalanced t → level_right t ≤ level t
  level_right-le null b = omega arith
  level_right-le (node x n l r) b = omega arith

  -- A tree that is in order is not rotated.
  skew_lem :
      (x : Entry K V) (n : ℕ) (l r : Tree K V) → level l < n → skew (node x n l r) ≡ node x n l r
  unfolding skew
  skew_lem x n null r h = refl
  skew_lem x n (node y m a c) r h = ground arith

  split_lem :
      (x : Entry K V) (n : ℕ) (l r : Tree K V)
      → level_right r < n
      → split (node x n l r) ≡ node x n l r
  unfolding split
  split_lem x n l null h = refl
  split_lem x n l (node y m a null) h = refl
  split_lem x n l (node y m a (node z k b c)) h = ground arith

  skew_equal :
      (x y : Entry K V) (n m : ℕ) (a b r : Tree K V)
      → m ≡ n
      → skew (node x n (node y m a b) r) ≡ node y m a (node x n b r)
  unfolding skew
  skew_equal x y n m a b r h = rw ((==_iff m n).1 h)

  split_equal :
      (x y z : Entry K V) (n m k : ℕ) (l a b c : Tree K V)
      → n ≡ k
      → split (node x n l (node y m a (node z k b c)))
        ≡ node y (m + 1) (node x n l a) (node z k b c)
  unfolding split
  split_equal x y z n m k l a b c h = rw ((==_iff n k).1 h)

  -- The left child rose to its parent's level.
  rotate_risen :
      (x y : Entry K V) (n m : ℕ) (l a c r : Tree K V)
      → IsBalanced (node x n l r)
      → IsBalanced (node y m a c)
      → m ≡ n
      → level c < m
      → Grows n (level r) (split (node y m a (node x n c r)))
  rotate_risen x y n m l a c null b b' h k =
      rw (split_lem y m a (node x n c null) (omega arith)) (ground arith)
  rotate_risen x y n m l a c (node z j d e) b b' h k = elim (Bool-cases (m == j)) [
    | inl q ↦
        let q' = (==_iff m j).0 q in
        rw (split_equal y x z m n j a c d e q') (
          (omega arith, omega arith, omega arith, omega arith, b', b.5),
          inr (omega arith, omega arith, omega arith),
        )
    | inr q ↦
        let q' = lt_of_test j m (omega arith) q in
        rw (split_lem y m a (node x n c (node z j d e)) q') (
          (
            omega arith,
            omega arith,
            omega arith,
            q',
            b'.4,
            (omega arith, omega arith, omega arith, omega arith, b'.5, b.5),
          ),
          inl h,
        )
  ]

  rotate_left :
      (x : Entry K V) (n j : ℕ) (l l' r : Tree K V)
      → IsBalanced (node x n l r)
      → Grows (level l) j l'
      → Grows n (level r) (split (skew (node x n l' r)))
  rotate_left x n j l l' r b (b', inl h) =
      rw (skew_lem x n l' r (omega arith), split_lem x n l' r (omega arith)) (ground arith)
  rotate_left x n j l null r b (b', inr h) = absurd (omega arith)
  rotate_left x n j l (node y m a c) r b (b', inr h) =
      let q : m ≡ n = omega arith in
      let k : level c < m = omega arith in
      rw (skew_equal x y n m a c r q) (rotate_risen x y n m l a c r b b' q k)

  -- The right child's right child may have come to the parent's level.
  rotate_right :
      (x : Entry K V) (n : ℕ) (l r r' : Tree K V)
      → IsBalanced (node x n l r)
      → Grows (level r) (level_right r) r'
      → Grows n (level r) (split (skew (node x n l r')))
  rotate_right x n l r null b (b', g) =
      rw (skew_lem x n l null (omega arith), split_lem x n l null (omega arith)) (ground arith)
  rotate_right x n l r (node z k d null) b (b', g) =
      rw
        (
          skew_lem x n l (node z k d null) (omega arith),
          split_lem x n l (node z k d null) (omega arith),
        )
        (ground arith)
  rotate_right x n l r (node z k d (node w j e f)) b (b', g) = elim (Bool-cases (n == j)) [
    | inl q ↦
        let q' = (==_iff n j).0 q in
        rw
          (
            skew_lem x n l (node z k d (node w j e f)) (omega arith),
            split_equal x z w n k j l d e f q',
          )
          (
            (
              omega arith,
              omega arith,
              omega arith,
              omega arith,
              (b.0, omega arith, omega arith, omega (arith, level_right-le d b'.4), b.4, b'.4),
              b'.5,
            ),
            inr (omega arith, omega arith, omega arith),
          )
    | inr q ↦
        let q' = lt_of_test j n (omega arith) q in
        rw
          (
            skew_lem x n l (node z k d (node w j e f)) (omega arith),
            split_lem x n l (node z k d (node w j e f)) q',
          )
          ((b.0, omega arith, omega arith, q', b.4, b'), inl refl)
  ]

module _ {ℓ κ} {K : Type ℓ} {V : Type κ} ⦃o : KeyOrder K⦄ where
  node_add-Grows :
      (t : Tree K V) (e : Entry K V) → IsBalanced t → Grows (level t) (level_right t) (node_add t e)
  unfolding node_add
  node_add-Grows null e b = ground arith
  node_add-Grows (node x n l r) e b = ground (
    arith,
    rotate_left x n (level_right l) l (node_add l e) r b (node_add-Grows l e b.4),
    rotate_right x n l r (node_add r e) b (node_add-Grows r e b.5),
  )

  -- Adding an entry to a balanced tree, with OD_REPLACE or without, gives a balanced tree: the AA
  -- invariant is kept.
  pub node_add-IsBalanced :
      (t : Tree K V) (e : Entry K V) → IsBalanced t → IsBalanced (node_add t e)
  node_add-IsBalanced t e b = (node_add-Grows t e b).0

module _ {ℓ κ} {K : Type ℓ} {V : Type κ} where
  -- The number of nodes on the longest way down, which bounds the steps of a search.
  abbrev pub depth : Tree K V → ℕ
  depth null = 0
  depth (node x n l r) = suc (max (depth l) (depth r))

  -- A level takes at most two nodes of a way down, and only one if the right child stands lower.
  depth-le :
      (t : Tree K V)
      → IsBalanced t
      → (depth t ≤ 2 * level t) × ((level t ≤ level_right t) ⊎ (depth t + 1 ≤ 2 * level t))
  depth-le null b = (omega arith, inl (omega arith))
  depth-le (node x n l r) b =
      let il = depth-le l b.4 in
      let ir = depth-le r b.5 in
      (
        omega arith,
        elim (Bool-cases (leb n (level r))) [
          | inl e ↦ inl (leb→le n (level r) e)
          | inr e ↦ let low : level r < n = lt_of_leb n (level r) e in inr (omega arith)
        ],
      )

  pow-le-count : (t : Tree K V) (k : ℕ) → IsBalanced t → k ≤ level t → 2 ^ k ≤ count t + 1
  unfolding count
  pow-le-count t zero b h = omega arith
  pow-le-count null (suc k) b h = absurd (omega arith)
  pow-le-count (node x n l r) (suc k) b h =
      omega
        (arith, pow-suc 2 k, pow-le-count l k b.4 (omega arith), pow-le-count r k b.5 (omega arith))

  -- A balanced tree with fewer than `2 ^ k - 1` entries is less than `2 * k` nodes deep.
  pub depth-count : (t : Tree K V) (k : ℕ) → IsBalanced t → count t + 1 < 2 ^ k → depth t < 2 * k
  depth-count t k b h = elim (Bool-cases (leb k (level t))) [
    | inl e ↦ absurd (omega (arith, leb→le k (level t) e, pow-le-count t k b))
    | inr e ↦ let low : level t < k = lt_of_leb k (level t) e in omega (arith, depth-le t b)
  ]
