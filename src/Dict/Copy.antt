-- ===== src/Dict/Copy.antt =====
-- `onion_dict_merge` and `onion_dict_hard_dup` by the lists of entries.
use onion.Prelude.{
  List, [], ◌∷◌, ◌++◌, map, ◌≡◌, refl, sym, ap, ◌∙◌, inl, append_assoc, append-nil, Bytes,
}
use onion.Prelude.Predicates.{All, All-append, All-append_parts}
use onion.Dict.Order.{KeyOrder, ◌≼◌}
use onion.Strings.{exact}
use onion.Dict.{Entry, Tree, null, entries, node_add, hard_dup_entry, hard_dup_from, hard_dup}
use onion.Dict.Sorted.{IsSorted, Passes, put, IsSorted-append, put-append-Passes}
use onion.Dict.Add.{Passes-of, entries-node_add}
use onion.Dict.Balance.{IsBalanced, node_add-IsBalanced}

module _ {ℓ κ} {K : Type ℓ} {V : Type κ} ⦃o : KeyOrder K⦄ where
  -- An entry behind all others goes to the end.
  put_last : (e : Entry K V) (xs : List (Entry K V)) → All (Passes e) xs → put e xs ≡ xs ++ e ∷ []
  put_last e xs h =
      ap (λ t. put e t) (sym (append-nil xs)) ∙ put-append-Passes e xs [] h ∙ unfold put in refl

  -- The keys are all that the order sees.
  IsSorted-map : (xs : List (Entry K V)) → IsSorted xs → IsSorted (map hard_dup_entry xs)
  IsSorted-map [] h = tt
  IsSorted-map (x ∷ xs) (h, hs) = (above xs h, IsSorted-map xs hs)
    where
      above :
          (ys : List (Entry K V))
          → All (λ y. x.key ≼ y.key) ys
          → All (λ y. x.key ≼ y.key) (map hard_dup_entry ys)
      above [] h = tt
      above (y ∷ ys) (h, hs) = (h, above ys hs)

  Passes-All :
      (x : Entry K V) (xs : List (Entry K V))
      → All (λ y. y.key ≼ x.key) xs
      → All (Passes (hard_dup_entry x)) xs
  Passes-All x [] h = tt
  Passes-All x (y ∷ xs) (h, hs) = (Passes-of (hard_dup_entry x) y refl h, Passes-All x xs hs)

  IsSorted-copy :
      (l : List (Entry K V)) (x : Entry K V) (r : List (Entry K V))
      → IsSorted (l ++ x ∷ r)
      → IsSorted (l ++ hard_dup_entry x ∷ r)
  IsSorted-copy [] x r h = h
  IsSorted-copy (y ∷ l) x r (h, hs) =
      let (hl, hr) = All-append_parts (λ z. y.key ≼ z.key) l (x ∷ r) h in
      (
        All-append (λ z. y.key ≼ z.key) l (hard_dup_entry x ∷ r) hl (hr.0, hr.1),
        IsSorted-copy l x r hs,
      )

  entries-node_add_last :
      (t : Tree K V) (x : Entry K V) (xs : List (Entry K V))
      → IsSorted (entries t ++ x ∷ xs)
      → entries (node_add t (hard_dup_entry x)) ≡ entries t ++ hard_dup_entry x ∷ []
  entries-node_add_last t x xs h =
      let (below, above, sl, sr) = IsSorted-append (entries t) x xs h in
      entries-node_add t (hard_dup_entry x) (inl (refl, sl))
      ∙ put_last (hard_dup_entry x) (entries t) (Passes-All x (entries t) below)

  entries-hard_dup_from :
      (t : Tree K V) (xs : List (Entry K V))
      → IsSorted (entries t ++ xs)
      → entries (hard_dup_from t xs) ≡ entries t ++ map hard_dup_entry xs
  unfolding hard_dup_from
  entries-hard_dup_from t [] h = sym (append-nil (entries t))
  entries-hard_dup_from t (x ∷ xs) h =
      let last = entries-node_add_last t x xs h in
      let whole = ap (λ l. l ++ xs) last ∙ append_assoc (entries t) (hard_dup_entry x ∷ []) xs in
      let sorted : IsSorted (entries (node_add t (hard_dup_entry x)) ++ xs) =
        rw whole (IsSorted-copy (entries t) x xs h) in
      entries-hard_dup_from (node_add t (hard_dup_entry x)) xs sorted
      ∙ ap (λ l. l ++ map hard_dup_entry xs) last
      ∙ append_assoc (entries t) (hard_dup_entry x ∷ []) (map hard_dup_entry xs)

  hard_dup_from-IsBalanced :
      (t : Tree K V) (xs : List (Entry K V)) → IsBalanced t → IsBalanced (hard_dup_from t xs)
  unfolding hard_dup_from
  hard_dup_from-IsBalanced t [] b = b
  hard_dup_from-IsBalanced t (x ∷ xs) b =
      hard_dup_from-IsBalanced (node_add t (hard_dup_entry x)) xs
        (node_add-IsBalanced t (hard_dup_entry x) b)

module _ {κ} {V : Type κ} where
  -- A hard copy of a tree whose entries are in the order of `strcmp` holds the same keys and values in the same
  -- order, equal keys included; each entry owns its key and its value.
  pub entries-hard_dup :
      (t : Tree Bytes V)
      → IsSorted (entries t)
      → entries (hard_dup t) ≡ map hard_dup_entry (entries t)
  unfolding hard_dup entries
  entries-hard_dup t h = entries-hard_dup_from null (entries t) h

  -- A hard copy is balanced, whatever shape the tree has.
  pub hard_dup-IsBalanced : (t : Tree Bytes V) → IsBalanced (hard_dup t)
  unfolding hard_dup
  hard_dup-IsBalanced t = hard_dup_from-IsBalanced null (entries t) tt
