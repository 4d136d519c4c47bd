-- ===== src/SessionsMem/Laws.antt =====
-- A saved session is the one that is found, and a session that was saved as NULL is not found.
use Prim.Native.Nat.Ordering.{eq}
use onion.Prelude.{none, some, ◌≡◌, refl, arith, Option-cases, inl, inr}
use onion.Dict.{Tree, null, node, entries, find_node, get_dict, remove}
use onion.Dict.Order.{KeyOrder}
use onion.Dict.Sorted.{IsStrict}
use onion.Dict.Find.{find_node-node_add, node_add-IsStrict}
use onion.Dict.Removal.{find_node-remove, remove-IsStrict}
use onion.SessionsMem.{session_entry, get, save}

module _ {ℓ κ} {K : Type ℓ} {V : Type κ} ⦃o : KeyOrder K⦄ where
  -- In a store with distinct identifiers in order, a session that is saved is found by its
  -- identifier, every other identifier finds what it found before, and the identifiers stay
  -- distinct and in order.
  pub get-save-some :
      (t : Tree K V) (id k : K) (session : V)
      → IsStrict (entries t)
      → (get (save t id (some session)) k ≡ elim (o.cmp k id) [ eq ↦ some session | _ ↦ get t k ])
        × IsStrict (entries (save t id (some session)))
  unfolding get save get_dict
  get-save-some t id k session h =
      let e = session_entry id session in
      (ground (arith, find_node-node_add t e k refl h), node_add-IsStrict t e refl h)

  -- Equal identifiers find the same entry.
  find_node-equal : (t : Tree K V) (id k : K) → o.cmp k id ≡ eq → find_node t k ≡ find_node t id
  unfolding find_node
  find_node-equal null id k c = refl
  find_node-equal (node x n l r) id k c =
      ground (arith, o.eq_trans k id x.key c, find_node-equal l id k c, find_node-equal r id k c)

  get_dict-equal : (t : Tree K V) (id k : K) → o.cmp k id ≡ eq → get_dict t k ≡ get_dict t id
  unfolding get_dict
  get_dict-equal t id k c = rw (find_node-equal t id k c, get_dict) refl

  get_dict-remove :
      (t : Tree K V) (id k : K)
      → IsStrict (entries t)
      → get_dict (remove t id) k ≡ elim (o.cmp k id) [ eq ↦ none | _ ↦ get_dict t k ]
  unfolding get_dict
  get_dict-remove t id k h = ground (arith, find_node-remove t id k h)

  -- In a store with distinct identifiers in order, a session that is saved as NULL is not found,
  -- every other identifier finds what it found before, and the identifiers stay distinct and in
  -- order.
  pub get-save-none :
      (t : Tree K V) (id k : K)
      → IsStrict (entries t)
      → (get (save t id none) k ≡ elim (o.cmp k id) [ eq ↦ none | _ ↦ get t k ])
        × IsStrict (entries (save t id none))
  unfolding get save
  get-save-none t id k h = elim (Option-cases (get_dict t id)) [
    | inl e ↦ rw (e, save) (ground (arith, get_dict-equal t id k), h)
    | inr (session, e) ↦ rw (e, save) (get_dict-remove t id k h, remove-IsStrict t id h)
  ]
