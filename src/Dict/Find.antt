-- ===== src/Dict/Find.antt =====
-- What `onion_dict_find_node` finds, by the list of entries, and after an entry was added.
use Prim.Native.Nat.Ordering.{eq}
use onion.Prelude.{
  List, [], ◌∷◌, ◌++◌, true, false, Option, none, some, ◌≡◌, ◌≢◌, refl, sym, ap, ◌∙◌, arith, inl,
  inr,
}
use onion.Prelude.Predicates.{All}
use onion.Dict.Order.{KeyOrder, ◌≼◌, ◌≺◌, ≺-≼-trans, ≼-≺-trans, ≼_of_not_lt, Ordering-cases}
use onion.Dict.{Entry, Tree, null, node, entries, find_node, node_add}
use onion.Dict.Sorted.{
  IsSorted, IsStrict, find_first, IsStrict-append, put-IsSorted, put-IsStrict, find_first-put,
}
use onion.Dict.Add.{entries-node_add}

module _ {ℓ κ} {K : Type ℓ} {V : Type κ} ⦃o : KeyOrder K⦄ where
  abbrev pub Unequal : K → List (Entry K V) → Type 0
  Unequal key = All (λ y. o.cmp key y.key ≢ eq)

  pub Unequal-below :
      (key b : K) (xs : List (Entry K V)) → b ≼ key → All (λ y. y.key ≺ b) xs → Unequal key xs
  Unequal-below key b [] h hs = tt
  Unequal-below key b (y ∷ xs) h (hy, hs) = (
    ground (arith, ≺-≼-trans y.key b key hy h, o.cmp_flip key y.key),
    Unequal-below key b xs h hs,
  )

  pub Unequal-above :
      (key b : K) (xs : List (Entry K V)) → key ≼ b → All (λ y. b ≺ y.key) xs → Unequal key xs
  Unequal-above key b [] h hs = tt
  Unequal-above key b (y ∷ xs) h (hy, hs) =
      (ground (arith, ≼-≺-trans key b y.key h hy), Unequal-above key b xs h hs)

  pub find_first-Unequal :
      (key : K) (xs : List (Entry K V)) → Unequal key xs → find_first key xs ≡ none
  unfolding find_first
  find_first-Unequal key [] h = refl
  find_first-Unequal key (x ∷ xs) (h, hs) = ground (arith, find_first-Unequal key xs hs)

  pub find_first-append_right :
      (key : K) (l r : List (Entry K V))
      → Unequal key l
      → find_first key (l ++ r) ≡ find_first key r
  unfolding find_first
  find_first-append_right key [] r h = refl
  find_first-append_right key (x ∷ l) r (h, hs) = ground (arith, find_first-append_right key l r hs)

  pub find_first-append_left :
      (key : K) (l r : List (Entry K V))
      → Unequal key r
      → find_first key (l ++ r) ≡ find_first key l
  unfolding find_first
  find_first-append_left key [] r h = unfold find_first in find_first-Unequal key r h
  find_first-append_left key (x ∷ l) r h = ground (arith, find_first-append_left key l r h)

  pub find_first-skip :
      (key : K) (x : Entry K V) (r : List (Entry K V))
      → o.cmp key x.key ≢ eq
      → find_first key (x ∷ r) ≡ find_first key r
  unfolding find_first
  find_first-skip key x r h = ground arith

  pub find_first-hit :
      (key : K) (x : Entry K V) (r : List (Entry K V))
      → o.cmp key x.key ≡ eq
      → find_first key (x ∷ r) ≡ some x
  unfolding find_first
  find_first-hit key x r h = ground arith

  -- In a tree whose entries have distinct keys in order, the search finds what a search through
  -- the list of entries finds.
  pub find_node-find_first :
      (t : Tree K V) (key : K) → IsStrict (entries t) → find_node t key ≡ find_first key (entries t)
  unfolding find_node entries
  find_node-find_first null key h = unfold find_first in refl
  find_node-find_first (node x n l r) key h =
      let el = entries l in
      let er = entries r in
      let (below, above, sl, sr) = IsStrict-append el x er h in
      elim (Ordering-cases (o.cmp key x.key)) [
        | inl c ↦
            rw (c, find_node)
              (find_node-find_first l key sl
                ∙ sym (
                    find_first-append_left key el (x ∷ er)
                      (cc, Unequal-above key x.key er (cc) above)))
        | inr (inl c) ↦
            rw (c, find_node)
              (sym (
                find_first-append_right key el (x ∷ er)
                  (Unequal-below key x.key el (≼_of_not_lt key x.key (cc)) below)
                ∙ find_first-hit key x er c))
        | inr (inr c) ↦
            rw (c, find_node)
              (find_node-find_first r key sr
                ∙ sym (
                    find_first-append_right key el (x ∷ er)
                      (Unequal-below key x.key el (≼_of_not_lt key x.key (cc)) below)
                    ∙ find_first-skip key x er (cc)))
      ]

  -- Adding an entry that replaces keeps the keys distinct and in order.
  pub node_add-IsStrict :
      (t : Tree K V) (e : Entry K V)
      → e.flags.replace ≡ true
      → IsStrict (entries t)
      → IsStrict (entries (node_add t e))
  node_add-IsStrict t e f h =
      rw (entries-node_add t e (inr (f, h))) (put-IsStrict e (entries t) f h)

  -- Adding an entry keeps the keys in order, also where equal ones are kept.
  pub node_add-IsSorted :
      (t : Tree K V) (e : Entry K V)
      → e.flags.replace ≡ false
      → IsSorted (entries t)
      → IsSorted (entries (node_add t e))
  node_add-IsSorted t e f h = rw (entries-node_add t e (inl (f, h))) (put-IsSorted e (entries t) h)

  -- In a tree whose entries have distinct keys in order, after an entry with OD_REPLACE was
  -- added, its key finds it, and every other key finds what it found before.
  pub find_node-node_add :
      (t : Tree K V) (e : Entry K V) (key : K)
      → e.flags.replace ≡ true
      → IsStrict (entries t)
      → find_node (node_add t e) key ≡ elim (o.cmp key e.key) [ eq ↦ some e | _ ↦ find_node t key ]
  find_node-node_add t e key f h =
      rw
        (
          find_node-find_first (node_add t e) key (node_add-IsStrict t e f h),
          entries-node_add t e (inr (f, h)),
        )
        (find_first-put e (entries t) key f
          ∙ ap {B = Option (Entry K V)} (λ t. elim (o.cmp key e.key) [ eq ↦ some e | _ ↦ t ])
              (sym (find_node-find_first t key h)))
