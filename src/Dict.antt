-- ===== src/Dict.antt =====
-- src/onion/dict.c: the dictionary, an AA tree of entries under the dictionary's comparison.
-- A value is of any type; the flag OD_DICT of an entry says whether it is a dictionary itself. What
-- an entry owns is in its flags; copies and frees of texts leave no other trace here.
pub mod Order
pub mod Sorted
pub mod Entries
pub mod Add
pub mod Find
pub mod Balance
pub mod Copy
pub mod Remove
pub mod Removal
pub mod Json
use Prim.Native.Nat.Ordering.{lt, eq, gt}
use onion.Prelude.{
  ℕ, zero, suc, ◌+◌, List, [], ◌∷◌, ◌++◌, Bool, true, false, ◌||◌, Option, none, some, ◌==◌, ltb,
  min, if◌then◌else◌, Bytes,
}
use onion.Dict.Order.{KeyOrder}
use onion.Strings.{exact}

-- `onion_dict_flags_e`: OD_FREE_KEY, OD_FREE_VALUE, the bits that OD_DUP_KEY and OD_DUP_VALUE add,
-- OD_REPLACE and OD_DICT.
pub record Flags : Type 0 where
  pub free_key : Bool
  pub free_value : Bool
  pub dup_key : Bool
  pub dup_value : Bool
  pub replace : Bool
  pub is_dict : Bool

abbrev pub no_flags : Flags
no_flags = record {
  free_key = false;
  free_value = false;
  dup_key = false;
  dup_value = false;
  replace = false;
  is_dict = false;
}

-- OD_DUP_ALL, which is OD_FREE_ALL and two more bits.
abbrev pub dup_all : Flags
dup_all = record no_flags { free_key = true; free_value = true; dup_key = true; dup_value = true }

-- `onion_dict_node_data`
pub record Entry {ℓ κ} (K : Type ℓ) (V : Type κ) : Type (ℓ ⊔ κ) where
  pub key : K
  pub value : V
  pub flags : Flags

-- `onion_dict_node`, or NULL.
pub data Tree {ℓ κ} (K : Type ℓ) (V : Type κ) : Type (ℓ ⊔ κ) where
  null : Tree K V
  node : Entry K V → ℕ → Tree K V → Tree K V → Tree K V

module _ {ℓ κ} {K : Type ℓ} {V : Type κ} where
  abbrev pub level : Tree K V → ℕ
  level null = 0
  level (node x n l r) = n

  -- `onion_dict_node_new`
  abbrev pub node_new : Entry K V → Tree K V
  node_new x = node x 1 null null

  unfoldable pub skew : Tree K V → Tree K V
  skew null = null
  skew (node x n null r) = node x n null r
  skew (node x n (node y m a b) r) =
      if m == n then node y m a (node x n b r) else node x n (node y m a b) r

  unfoldable pub split : Tree K V → Tree K V
  split null = null
  split (node x n l null) = node x n l null
  split (node x n l (node y m a null)) = node x n l (node y m a null)
  split (node x n l (node y m a (node z k b c))) =
      if n == k
      then node y (m + 1) (node x n l a) (node z k b c)
      else node x n l (node y m a (node z k b c))

  -- Sets the level of a right child that stands above `should_be`.
  abbrev pub lower : ℕ → Tree K V → Tree K V
  lower should_be null = null
  lower should_be (node y m a b) = if ltb should_be m then node y should_be a b else node y m a b

  unfoldable pub decrease_level : Tree K V → Tree K V
  decrease_level null = null
  decrease_level (node x n l r) =
      let should_be = min (level l) (level r) + 1 in
      if ltb should_be n then node x should_be l (lower should_be r) else node x n l r

  -- `onion_dict_node_preorder`: the entries in the order in which the function is called on them.
  unfoldable pub entries : Tree K V → List (Entry K V)
  entries null = []
  entries (node x n l r) = entries l ++ x ∷ entries r

  -- `onion_dict_node_count` and `onion_dict_count`.
  unfoldable pub count : Tree K V → ℕ
  count null = 0
  count (node x n l r) = 1 + count l + count r

module _ {ℓ κ} {K : Type ℓ} {V : Type κ} ⦃o : KeyOrder K⦄ where
  -- `onion_dict_find_node`, from the node `current`.
  unfoldable pub find_node : Tree K V → K → Option (Entry K V)
  find_node null key = none
  find_node (node x n l r) key = elim (o.cmp key x.key) [
    | eq ↦ some x
    | lt ↦ find_node l key
    | gt ↦ find_node r key
  ]

  -- `onion_dict_node_add`
  unfoldable pub node_add : Tree K V → Entry K V → Tree K V
  node_add null e = node_new e
  node_add (node x n l r) e =
      let left = split (skew (node x n (node_add l e) r)) in
      let right = split (skew (node x n l (node_add r e))) in
      elim (o.cmp e.key x.key) [
        | lt ↦ left
        | eq ↦ if e.flags.replace then node e n l r else right
        | gt ↦ right
      ]

  -- `onion_dict_get` and `onion_dict_get_dict`: the value, where it is of the kind that is asked for.
  unfoldable pub get : Tree K V → K → Option V
  get t key = elim (find_node t key) [
    | none ↦ none
    | some x ↦ if x.flags.is_dict then none else some x.value
  ]

  unfoldable pub get_dict : Tree K V → K → Option V
  get_dict t key = elim (find_node t key) [
    | none ↦ none
    | some x ↦ if x.flags.is_dict then some x.value else none
  ]

  -- `onion_dict_add_merge` on each entry of a list in turn: OD_DUP_ALL is added to the flags.
  unfoldable pub add_merge : Tree K V → List (Entry K V) → Tree K V
  add_merge t [] = t
  add_merge t (x ∷ xs) =
      add_merge
        (node_add t (record x {
          flags = record (x.flags) {
            free_key = true;
            free_value = true;
            dup_key = true;
            dup_value = true;
          };
        }))
        xs

  -- `onion_dict_merge`
  unfoldable pub merge : Tree K V → Tree K V → Tree K V
  merge me other = add_merge me (entries other)

  -- The entry that `onion_dict_hard_dup_helper` adds.
  abbrev pub hard_dup_entry : Entry K V → Entry K V
  hard_dup_entry x = record x { flags = record dup_all { is_dict = x.flags.is_dict } }

  -- `onion_dict_hard_dup_helper` on each entry of a list in turn.
  unfoldable pub hard_dup_from : Tree K V → List (Entry K V) → Tree K V
  hard_dup_from t [] = t
  hard_dup_from t (x ∷ xs) = hard_dup_from (node_add t (hard_dup_entry x)) xs

module _ {κ} {V : Type κ} where
  -- `onion_dict_hard_dup`: the copy is a new dictionary, by `strcmp`, whatever the order of the other.
  unfoldable pub hard_dup : Tree Bytes V → Tree Bytes V
  hard_dup t = hard_dup_from null (entries t)

module _ {ℓ κ} {K : Type ℓ} {V : Type κ} where
  -- `while (t->left) t = t->left` from a node with the entry `y` and the left child `a`, and the
  -- same to the right.
  unfoldable pub leftmost : Entry K V → Tree K V → Entry K V
  leftmost y null = y
  leftmost y (node z k c d) = leftmost z c

  unfoldable pub rightmost : Entry K V → Tree K V → Entry K V
  rightmost y null = y
  rightmost y (node z k c d) = rightmost z d

  -- `t->data.flags = 0` at that node.
  abbrev pub cleared : Entry K V → Entry K V
  cleared x = record x { flags = no_flags }

  unfoldable pub clear_leftmost : Entry K V → ℕ → Tree K V → Tree K V → Tree K V
  clear_leftmost y m null b = node (cleared y) m null b
  clear_leftmost y m (node z k c d) b = node y m (clear_leftmost z k c d) b

  unfoldable pub clear_rightmost : Entry K V → ℕ → Tree K V → Tree K V → Tree K V
  clear_rightmost y m a null = node (cleared y) m a null
  clear_rightmost y m a (node z k c d) = node y m a (clear_rightmost z k c d)

  abbrev pub on_right : (Tree K V → Tree K V) → Tree K V → Tree K V
  on_right f null = null
  on_right f (node x n l r) = node x n l (f r)

  -- The end of `onion_dict_node_remove`.
  unfoldable pub rebalance : Tree K V → Tree K V
  rebalance t =
      on_right split (split (on_right (λ r. on_right skew (skew r)) (skew (decrease_level t))))

module _ {ℓ κ} {K : Type ℓ} {V : Type κ} ⦃o : KeyOrder K⦄ where
  -- `onion_dict_node_remove`. The fuel bounds the depth of the calls; a call on a child, its flags
  -- cleared or not, has one node less at least.
  unfoldable pub node_remove : ℕ → Tree K V → K → Tree K V
  node_remove zero t key = t
  node_remove (suc f) null key = null
  node_remove (suc f) (node x n l r) key = elim (o.cmp key x.key) [
    | lt ↦ rebalance (node x n (node_remove f l key) r)
    | gt ↦ rebalance (node x n l (node_remove f r key))
    | eq ↦ elim l [
      | null ↦ elim r [
        | null ↦ null
        | node y m a b ↦
            let t = leftmost y a in
            rebalance (node t n null (node_remove f (clear_leftmost y m a b) t.key))
      ]
      | node y m a b ↦
          let t = rightmost y b in
          rebalance (node t n (node_remove f (clear_rightmost y m a b) t.key) r)
    ]
  ]

  -- `onion_dict_remove`, which returns 1 whatever it finds.
  unfoldable pub remove : Tree K V → K → Tree K V
  remove t key = node_remove (count t) t key
