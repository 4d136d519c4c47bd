-- ===== src/Dict/Removal.antt =====
-- What a dictionary finds after `onion_dict_remove`, and what the removal does to equal keys.
use Prim.Native.Nat.Ordering.{eq}
use onion.Prelude.{List, [], ◌∷◌, ◌++◌, Option, none, ◌≡◌, sym, ap, ◌∙◌, arith}
use onion.Prelude.Predicates.{All}
use onion.Dict.Order.{KeyOrder, ◌≺◌}
use onion.Dict.{
  Entry, Tree, null, node, entries, count, find_node, leftmost, rightmost, cleared, clear_leftmost,
  clear_rightmost, node_remove, remove,
}
use onion.Dict.Sorted.{IsStrict, find_first}
use onion.Dict.Find.{Unequal-above, find_first-Unequal, find_node-find_first}
use onion.Dict.Remove.{
  remove_first, entries-node_remove, node_remove_leaf, node_remove_next, node_remove_prev,
}

module _ {ℓ κ} {K : Type ℓ} {V : Type κ} ⦃o : KeyOrder K⦄ where
  All-remove_first {μ} :
      (P : Entry K V → Type μ) (key : K) (xs : List (Entry K V))
      → All P xs
      → All P (remove_first key xs)
  unfolding remove_first
  All-remove_first P key [] h = tt
  All-remove_first P key (x ∷ xs) (hx, h) = ground (arith, All-remove_first P key xs h)

  remove_first-IsStrict :
      (key : K) (xs : List (Entry K V)) → IsStrict xs → IsStrict (remove_first key xs)
  unfolding remove_first
  remove_first-IsStrict key [] h = tt
  remove_first-IsStrict key (x ∷ xs) (h, hs) =
      ground
        (arith, remove_first-IsStrict key xs hs, All-remove_first (λ y. x.key ≺ y.key) key xs h)

  find_first_beyond :
      (k : K) (x : Entry K V) (xs : List (Entry K V))
      → o.cmp k x.key ≡ eq
      → All (λ y. x.key ≺ y.key) xs
      → find_first k xs ≡ none
  find_first_beyond k x xs c h = find_first-Unequal k xs (Unequal-above k x.key xs (cc) h)

  find_first-remove_first :
      (key k : K) (xs : List (Entry K V))
      → IsStrict xs
      → find_first k (remove_first key xs) ≡ elim (o.cmp k key) [ eq ↦ none | _ ↦ find_first k xs ]
  unfolding remove_first find_first
  find_first-remove_first key k [] h = ground arith
  find_first-remove_first key k (x ∷ xs) (h, hs) = ground (
    arith,
    find_first-remove_first key k xs hs,
    find_first_beyond k x xs,
    o.eq_trans k key x.key,
    o.eq_trans key x.key k,
    o.eq_trans k x.key key,
    o.cmp_flip key x.key,
    o.cmp_flip k key,
    o.cmp_flip k x.key,
  )

  -- In a tree whose entries have distinct keys in order, a removal takes the first entry with an
  -- equal key out of the list of entries and changes nothing else.
  pub entries-remove :
      (t : Tree K V) (key : K)
      → IsStrict (entries t)
      → entries (remove t key) ≡ remove_first key (entries t)
  unfolding remove
  entries-remove t key h = entries-node_remove (count t) t key (omega arith) h

  pub remove-IsStrict :
      (t : Tree K V) (key : K) → IsStrict (entries t) → IsStrict (entries (remove t key))
  remove-IsStrict t key h = rw (entries-remove t key h) (remove_first-IsStrict key (entries t) h)

  -- In a tree whose entries have distinct keys in order, a removed key is not found afterwards,
  -- and every other key finds what it found before.
  pub find_node-remove :
      (t : Tree K V) (key k : K)
      → IsStrict (entries t)
      → find_node (remove t key) k ≡ elim (o.cmp k key) [ eq ↦ none | _ ↦ find_node t k ]
  find_node-remove t key k h =
      rw (find_node-find_first (remove t key) k (remove-IsStrict t key h), entries-remove t key h)
        (find_first-remove_first key k (entries t) h
          ∙ ap {B = Option (Entry K V)} (λ f. elim (o.cmp k key) [ eq ↦ none | _ ↦ f ])
              (sym (find_node-find_first t k h)))

  remove_successor :
      (a1 a2 : Entry K V)
      → o.cmp a2.key a1.key ≡ eq
      → entries (node_remove 3 (node a1 1 null (node (cleared a2) 1 null null)) a2.key)
        ≡ cleared a2 ∷ []
  unfolding leftmost clear_leftmost
  remove_successor a1 a2 e =
      node_remove_next 2 1 1 a1 (cleared a2) null null a2.key e
      ∙ ap (λ es. cleared a2 ∷ es) (node_remove_leaf 1 1 (cleared a2) a2.key (o.cmp_refl a2.key))

  -- Two entries `a1` and `a2` with one key below `c` in a tree: the removal of `c` loses the first
  -- of them, and keeps the second twice, once with its flags and once without.
  pub remove_duplicates :
      (a1 a2 c d : Entry K V)
      → o.cmp a2.key a1.key ≡ eq
      → entries
          (remove (node c 2 (node a1 1 null (node a2 1 null null)) (node d 1 null null)) c.key)
        ≡ cleared a2 ∷ a2 ∷ d ∷ []
  unfolding remove count entries rightmost clear_rightmost
  remove_duplicates a1 a2 c d e =
      node_remove_prev 3 2 1 c a1 null (node a2 1 null null) (node d 1 null null) c.key
        (o.cmp_refl c.key)
      ∙ ap (λ es. es ++ a2 ∷ d ∷ []) (remove_successor a1 a2 e)
