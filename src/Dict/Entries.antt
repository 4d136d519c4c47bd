-- ===== src/Dict/Entries.antt =====
-- The entries in order: what `onion_dict_node_add` does to them.
use onion.Prelude.{◌∷◌, ◌++◌, ◌≡◌, refl, append_assoc, arith, length, length-append}
use onion.Dict.{Tree, null, node, skew, split, decrease_level, entries, count}

module _ {ℓ κ} {K : Type ℓ} {V : Type κ} where
  pub entries-skew : (t : Tree K V) → entries (skew t) ≡ entries t
  unfolding entries skew
  entries-skew null = refl
  entries-skew (node x n null r) = refl
  entries-skew (node x n (node y m a b) r) =
      ground (arith, append_assoc (entries a) (y ∷ entries b) (x ∷ entries r))

  pub entries-split : (t : Tree K V) → entries (split t) ≡ entries t
  unfolding entries split
  entries-split null = refl
  entries-split (node x n l null) = refl
  entries-split (node x n l (node y m a null)) = refl
  entries-split (node x n l (node y m a (node z k b c))) =
      ground (arith, append_assoc (entries l) (x ∷ entries a) (y ∷ (entries b ++ z ∷ entries c)))

  pub entries-decrease_level : (t : Tree K V) → entries (decrease_level t) ≡ entries t
  unfolding entries decrease_level
  entries-decrease_level null = refl
  entries-decrease_level (node x n l null) = ground arith
  entries-decrease_level (node x n l (node y m a b)) = ground arith

  -- `onion_dict_count` counts the entries that `onion_dict_preorder` visits.
  pub count-entries : (t : Tree K V) → count t ≡ length (entries t)
  unfolding entries count
  count-entries null = refl
  count-entries (node x n l r) =
      omega (arith, count-entries l, count-entries r, length-append (entries l) (x ∷ entries r))
