-- ===== src/PtrList.antt =====
-- src/onion/ptr_list.c: lists of pointers. NULL is the empty list, and a pointer is a number.
use onion.Prelude.{
  ℕ, zero, suc, ◌+◌, List, [], ◌∷◌, Bool, Option, none, some, ◌≡◌, ◌≢◌, refl, arith, ◌==◌,
  if◌then◌else◌, ==_iff,
}

-- `onion_ptr_list_add`
abbrev pub add : List ℕ → ℕ → List ℕ
add l ptr = ptr ∷ l

-- `onion_ptr_list_remove`, whose call in the end is on the same list. The fuel bounds the calls.
unfoldable pub remove : ℕ → List ℕ → ℕ → Option (List ℕ)
remove zero l ptr = none
remove (suc n) [] ptr = some []
remove (suc n) (p ∷ next) ptr =
    let again = remove n (p ∷ next) ptr in if ptr == p then some next else again

-- `onion_ptr_list_foreach`: the pointers that `f` is called on, in order.
unfoldable pub foreach : List ℕ → List ℕ
foreach [] = []
foreach (p ∷ next) = p ∷ foreach next

-- `onion_ptr_list_filter`, with the function applied to its data.
unfoldable pub filter : (ℕ → Bool) → List ℕ → List ℕ
filter f [] = []
filter f (p ∷ next) = let rest = filter f next in if f p then p ∷ rest else rest

-- `onion_ptr_list_count`, from the count so far.
unfoldable pub count_from : ℕ → List ℕ → ℕ
count_from n [] = n
count_from n (p ∷ next) = count_from (n + 1) next

-- A list whose first pointer is another one: `onion_ptr_list_remove` returns after no number of
-- calls, whether the pointer is in the list or not.
remove_lem : (n p ptr : ℕ) (next : List ℕ) → ptr ≢ p → remove n (p ∷ next) ptr ≡ none
unfolding remove
remove_lem zero p ptr next h = refl
remove_lem (suc n) p ptr next h = ground (arith, ==_iff ptr p, remove_lem n p ptr next h)
