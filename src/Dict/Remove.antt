-- ===== src/Dict/Remove.antt =====
-- `onion_dict_remove` takes the entry of a key out of the list of entries.
use Prim.Native.Nat.Ordering.{lt, eq, gt}
use onion.Prelude.{
  ℕ, zero, suc, ◌+◌, ◌≤◌, List, [], ◌∷◌, ◌++◌, ◌≡◌, ◌≢◌, refl, sym, ap, subst, ◌∙◌, arith, inl, inr,
  append_assoc, append-nil,
}
use onion.Prelude.Predicates.{All-append, All-append_parts}
use onion.Dict.Order.{KeyOrder, ◌≺◌, ≼_of_not_lt, Ordering-cases}
use onion.Dict.{
  Entry, Tree, null, node, entries, count, skew, split, decrease_level, leftmost, rightmost,
  cleared, clear_leftmost, clear_rightmost, on_right, rebalance, node_remove,
}
use onion.Dict.Entries.{entries-skew, entries-split, entries-decrease_level}
use onion.Dict.Sorted.{IsStrict, IsStrict-append}
use onion.Dict.Find.{Unequal, Unequal-below, Unequal-above}

module _ {ℓ κ} {K : Type ℓ} {V : Type κ} where
  entries-on_right :
      (f : Tree K V → Tree K V)
      → ((t : Tree K V) → entries (f t) ≡ entries t)
      → (t : Tree K V) → entries (on_right f t) ≡ entries t
  unfolding entries
  entries-on_right f h null = refl
  entries-on_right f h (node x n l r) = ap (λ es. entries l ++ x ∷ es) (h r)

  entries-rebalance : (t : Tree K V) → entries (rebalance t) ≡ entries t
  unfolding rebalance
  entries-rebalance t =
      let t1 = skew (decrease_level t) in
      let t2 = on_right (λ r. on_right skew (skew r)) t1 in
      entries-on_right split entries-split (split t2)
      ∙ entries-split t2
      ∙ entries-on_right (λ r. on_right skew (skew r))
          (λ r. entries-on_right skew entries-skew (skew r) ∙ entries-skew r) t1
      ∙ entries-skew (decrease_level t)
      ∙ entries-decrease_level t

  entries_first :
      (y : Entry K V) (m : ℕ) (a b : Tree K V)
      → (rest : List (Entry K V)) × (entries (node y m a b) ≡ leftmost y a ∷ rest)
        × (entries (clear_leftmost y m a b) ≡ cleared (leftmost y a) ∷ rest)
  unfolding entries leftmost clear_leftmost
  entries_first y m null b = (entries b, refl, refl)
  entries_first y m (node z k c d) b =
      let (rest, e, e') = entries_first z k c d in
      (rest ++ y ∷ entries b, ap (λ es. es ++ y ∷ entries b) e, ap (λ es. es ++ y ∷ entries b) e')

  entries_last :
      (y : Entry K V) (m : ℕ) (a b : Tree K V)
      → (rest : List (Entry K V)) × (entries (node y m a b) ≡ rest ++ rightmost y b ∷ [])
        × (entries (clear_rightmost y m a b) ≡ rest ++ cleared (rightmost y b) ∷ [])
  unfolding entries rightmost clear_rightmost
  entries_last y m a null = (entries a, refl, refl)
  entries_last y m a (node z k c d) =
      let (rest, e, e') = entries_last z k c d in
      (
        entries a ++ y ∷ rest,
        ap (λ es. entries a ++ y ∷ es) e ∙ sym (append_assoc (entries a) (y ∷ rest) _),
        ap (λ es. entries a ++ y ∷ es) e' ∙ sym (append_assoc (entries a) (y ∷ rest) _),
      )

  count-clear_leftmost :
      (y : Entry K V) (m : ℕ) (a b : Tree K V)
      → count (clear_leftmost y m a b) ≡ count (node y m a b)
  unfolding count clear_leftmost
  count-clear_leftmost y m null b = refl
  count-clear_leftmost y m (node z k c d) b =
      ap (λ n. 1 + n + count b) (count-clear_leftmost z k c d)

  count-clear_rightmost :
      (y : Entry K V) (m : ℕ) (a b : Tree K V)
      → count (clear_rightmost y m a b) ≡ count (node y m a b)
  unfolding count clear_rightmost
  count-clear_rightmost y m a null = refl
  count-clear_rightmost y m a (node z k c d) =
      ap (λ n. 1 + count a + n) (count-clear_rightmost z k c d)

module _ {ℓ κ} {K : Type ℓ} {V : Type κ} ⦃o : KeyOrder K⦄ where
  -- The list without its first entry with an equal key.
  unfoldable pub remove_first : K → List (Entry K V) → List (Entry K V)
  remove_first key [] = []
  remove_first key (x ∷ xs) = elim (o.cmp key x.key) [ eq ↦ xs | _ ↦ x ∷ remove_first key xs ]

  remove_first-append_right :
      (key : K) (l r : List (Entry K V))
      → Unequal key l
      → remove_first key (l ++ r) ≡ l ++ remove_first key r
  unfolding remove_first
  remove_first-append_right key [] r h = refl
  remove_first-append_right key (x ∷ l) r (h, hs) =
      ground (arith, remove_first-append_right key l r hs)

  remove_first-Unequal :
      (key : K) (xs : List (Entry K V)) → Unequal key xs → remove_first key xs ≡ xs
  unfolding remove_first
  remove_first-Unequal key [] h = refl
  remove_first-Unequal key (x ∷ xs) (h, hs) = ground (arith, remove_first-Unequal key xs hs)

  remove_first-append_left :
      (key : K) (l r : List (Entry K V))
      → Unequal key r
      → remove_first key (l ++ r) ≡ remove_first key l ++ r
  unfolding remove_first
  remove_first-append_left key [] r h = remove_first-Unequal key r h
  remove_first-append_left key (x ∷ l) r h = ground (arith, remove_first-append_left key l r h)

  remove_first-skip :
      (key : K) (x : Entry K V) (r : List (Entry K V))
      → o.cmp key x.key ≢ eq
      → remove_first key (x ∷ r) ≡ x ∷ remove_first key r
  unfolding remove_first
  remove_first-skip key x r h = ground arith

  remove_first-hit :
      (key : K) (x : Entry K V) (r : List (Entry K V))
      → o.cmp key x.key ≡ eq
      → remove_first key (x ∷ r) ≡ r
  unfolding remove_first
  remove_first-hit key x r h = ground arith

  -- Clearing flags changes no key.
  IsStrict-cleared_first :
      (x : Entry K V) (r : List (Entry K V)) → IsStrict (x ∷ r) → IsStrict (cleared x ∷ r)
  IsStrict-cleared_first x r h = h

  IsStrict-cleared_last :
      (l : List (Entry K V)) (x : Entry K V)
      → IsStrict (l ++ x ∷ [])
      → IsStrict (l ++ cleared x ∷ [])
  IsStrict-cleared_last [] x h = h
  IsStrict-cleared_last (y ∷ l) x (h, hs) =
      let (hl, hr) = All-append_parts (λ z. y.key ≺ z.key) l (x ∷ []) h in
      (
        All-append (λ z. y.key ≺ z.key) l (cleared x ∷ []) hl (hr.0, tt),
        IsStrict-cleared_last l x hs,
      )

  node_remove-lt :
      (f n : ℕ) (x : Entry K V) (l r : Tree K V) (key : K)
      → o.cmp key x.key ≡ lt
      → entries (node_remove (suc f) (node x n l r) key)
        ≡ entries (node_remove f l key) ++ x ∷ entries r
  unfolding node_remove
  node_remove-lt f n x l r key c =
      rw (c, node_remove) (entries-rebalance _ ∙ unfold entries in refl)

  node_remove-gt :
      (f n : ℕ) (x : Entry K V) (l r : Tree K V) (key : K)
      → o.cmp key x.key ≡ gt
      → entries (node_remove (suc f) (node x n l r) key)
        ≡ entries l ++ x ∷ entries (node_remove f r key)
  unfolding node_remove
  node_remove-gt f n x l r key c =
      rw (c, node_remove) (entries-rebalance _ ∙ unfold entries in refl)

  pub node_remove_leaf :
      (f n : ℕ) (x : Entry K V) (key : K)
      → o.cmp key x.key ≡ eq
      → entries (node_remove (suc f) (node x n null null) key) ≡ []
  unfolding node_remove entries
  node_remove_leaf f n x key c = rw (c, node_remove)

  -- The node takes the next entry, which is then removed from the right.
  pub node_remove_next :
      (f n m : ℕ) (x y : Entry K V) (a b : Tree K V) (key : K)
      → o.cmp key x.key ≡ eq
      → entries (node_remove (suc f) (node x n null (node y m a b)) key)
        ≡ leftmost y a ∷ entries (node_remove f (clear_leftmost y m a b) (leftmost y a).key)
  unfolding node_remove
  node_remove_next f n m x y a b key c =
      rw (c, node_remove) (entries-rebalance _ ∙ unfold entries in refl)

  -- The node takes the entry before, which is then removed from the left.
  pub node_remove_prev :
      (f n m : ℕ) (x y : Entry K V) (a b r : Tree K V) (key : K)
      → o.cmp key x.key ≡ eq
      → entries (node_remove (suc f) (node x n (node y m a b) r) key)
        ≡ entries (node_remove f (clear_rightmost y m a b) (rightmost y b).key)
          ++ rightmost y b ∷ entries r
  unfolding node_remove
  node_remove_prev f n m x y a b r key c =
      rw (c, node_remove) (entries-rebalance _ ∙ unfold entries in refl)

  remove_first_key : (x : Entry K V) (r : List (Entry K V)) → remove_first x.key (cleared x ∷ r) ≡ r
  remove_first_key x r = remove_first-hit x.key (cleared x) r (o.cmp_refl x.key)

  removed_left :
      (f n : ℕ) (x : Entry K V) (l r : Tree K V) (key : K)
      → o.cmp key x.key ≡ lt
      → IsStrict (entries l ++ x ∷ entries r)
      → entries (node_remove f l key) ≡ remove_first key (entries l)
      → entries (node_remove (suc f) (node x n l r) key)
        ≡ remove_first key (entries l ++ x ∷ entries r)
  removed_left f n x l r key c s ih =
      let (below, above, sl, sr) = IsStrict-append (entries l) x (entries r) s in
      node_remove-lt f n x l r key c
      ∙ ap (λ es. es ++ x ∷ entries r) ih
      ∙ sym (
          remove_first-append_left key (entries l) (x ∷ entries r)
            (cc, Unequal-above key x.key (entries r) (cc) above))

  removed_right :
      (f n : ℕ) (x : Entry K V) (l r : Tree K V) (key : K)
      → o.cmp key x.key ≡ gt
      → IsStrict (entries l ++ x ∷ entries r)
      → entries (node_remove f r key) ≡ remove_first key (entries r)
      → entries (node_remove (suc f) (node x n l r) key)
        ≡ remove_first key (entries l ++ x ∷ entries r)
  removed_right f n x l r key c s ih =
      let (below, above, sl, sr) = IsStrict-append (entries l) x (entries r) s in
      node_remove-gt f n x l r key c
      ∙ ap (λ es. entries l ++ x ∷ es) ih
      ∙ ap (λ es. entries l ++ es) (sym (remove_first-skip key x (entries r) (cc)))
      ∙ sym (
          remove_first-append_right key (entries l) (x ∷ entries r)
            (Unequal-below key x.key (entries l) (≼_of_not_lt key x.key (cc)) below))

  -- At the node of the key the list loses the node's entry.
  removed_here :
      (x : Entry K V) (l r : List (Entry K V)) (key : K)
      → o.cmp key x.key ≡ eq
      → IsStrict (l ++ x ∷ r)
      → remove_first key (l ++ x ∷ r) ≡ l ++ r
  removed_here x l r key c s =
      let (below, above, sl, sr) = IsStrict-append l x r s in
      remove_first-append_right key l (x ∷ r)
        (Unequal-below key x.key l (≼_of_not_lt key x.key (cc)) below)
      ∙ ap (λ es. l ++ es) (remove_first-hit key x r c)

  -- Taking out the last entry, whose flags were cleared.
  remove_first_last :
      (l : List (Entry K V)) (x : Entry K V)
      → IsStrict (l ++ x ∷ [])
      → remove_first x.key (l ++ cleared x ∷ []) ≡ l
  remove_first_last l x s =
      let (below, above, sl, sr) = IsStrict-append l x [] s in
      remove_first-append_right x.key l (cleared x ∷ []) (
        Unequal-below x.key x.key l (≼_of_not_lt x.key x.key (ground (arith, o.cmp_refl x.key)))
          below)
      ∙ ap (λ es. l ++ es) (remove_first_key x [])
      ∙ append-nil l

  -- Whatever the shape of the tree, the entry of the key is taken out of the list, and nothing else
  -- changes.
  pub entries-node_remove :
      (f : ℕ) (t : Tree K V) (key : K)
      → count t ≤ f
      → IsStrict (entries t)
      → entries (node_remove f t key) ≡ remove_first key (entries t)
  unfolding entries count
  entries-node_remove zero null key h s = unfold node_remove remove_first in refl
  entries-node_remove zero (node x n l r) key h s = absurd (omega arith)
  entries-node_remove (suc f) null key h s = unfold node_remove remove_first in refl
  entries-node_remove (suc f) (node x n null null) key h s =
      elim (Ordering-cases (o.cmp key x.key)) [
        | inl c ↦
            removed_left f n x null null key c s (entries-node_remove f null key (omega arith) tt)
        | inr (inr c) ↦
            removed_right f n x null null key c s (entries-node_remove f null key (omega arith) tt)
        | inr (inl c) ↦ node_remove_leaf f n x key c ∙ sym (removed_here x [] [] key c s)
      ]
  entries-node_remove (suc f) (node x n null (node y m a b)) key h s =
      elim (Ordering-cases (o.cmp key x.key)) [
        | inl c ↦
            removed_left f n x null (node y m a b) key c s
              (entries-node_remove f null key (omega arith) tt)
        | inr (inr c) ↦
            removed_right f n x null (node y m a b) key c s
              (entries-node_remove f (node y m a b) key (omega arith) s.1)
        | inr (inl c) ↦
            let (rest, e, e') = entries_first y m a b in
            let t = leftmost y a in
            let fewer : count (clear_leftmost y m a b) ≤ f =
              omega (arith, count-clear_leftmost y m a b) in
            let strict : IsStrict (entries (clear_leftmost y m a b)) =
              rw e' (subst IsStrict e s.1) in
            node_remove_next f n m x y a b key c
            ∙ ap (λ es. t ∷ es)
                (entries-node_remove f (clear_leftmost y m a b) t.key fewer strict
                  ∙ ap (remove_first t.key) e'
                  ∙ remove_first_key t rest)
            ∙ sym e
            ∙ sym (removed_here x [] (entries (node y m a b)) key c s)
      ]
  entries-node_remove (suc f) (node x n (node y m a b) r) key h s =
      let el = entries (node y m a b) in
      let (below, above, sl, sr) = IsStrict-append el x (entries r) s in
      elim (Ordering-cases (o.cmp key x.key)) [
        | inl c ↦
            removed_left f n x (node y m a b) r key c s
              (entries-node_remove f (node y m a b) key (omega arith) sl)
        | inr (inr c) ↦
            removed_right f n x (node y m a b) r key c s
              (entries-node_remove f r key (omega arith) sr)
        | inr (inl c) ↦
            let (rest, e, e') = entries_last y m a b in
            let t = rightmost y b in
            let fewer : count (clear_rightmost y m a b) ≤ f =
              omega (arith, count-clear_rightmost y m a b) in
            let known : IsStrict (rest ++ t ∷ []) = subst IsStrict e sl in
            let strict : IsStrict (entries (clear_rightmost y m a b)) =
              rw e' (IsStrict-cleared_last rest t known) in
            node_remove_prev f n m x y a b r key c
            ∙ ap (λ es. es ++ t ∷ entries r)
                (entries-node_remove f (clear_rightmost y m a b) t.key fewer strict
                  ∙ ap (remove_first t.key) e'
                  ∙ remove_first_last rest t known)
            ∙ sym (append_assoc rest (t ∷ []) (entries r))
            ∙ ap (λ es. es ++ entries r) (sym e)
            ∙ sym (removed_here x el (entries r) key c s)
      ]
