-- ===== src/Dict/Json/Order.antt =====
-- The order in which a dictionary that is read from JSON holds its members.
use Prim.Native.Nat.Ordering.{lt}
use onion.Prelude.{List, [], ◌∷◌, false, ◌≡◌, ◌≢◌, refl, sym, ap, ◌∙◌, Bytes, arith, inl}
use onion.Strings.{exact, compare_texts}
use onion.Dict.Order.{◌≼◌}
use onion.Dict.{Entry, Tree, entries, node_add}
use onion.Dict.Sorted.{IsSorted, put}
use onion.Dict.Add.{entries-node_add}
use onion.Dict.Json.{Value, Members, text, dict, end, member, add}

-- The keys and values of entries, in their order.
unfoldable pub members_of : List (Entry Bytes Value) → Members
members_of [] = end
members_of (x ∷ xs) = member x.key x.value (members_of xs)

add-put :
    (e : Entry Bytes Value) (xs : List (Entry Bytes Value))
    → e.flags.replace ≡ false
    → add e.key e.value (members_of xs) ≡ members_of (put e xs)
unfolding add members_of put
add-put e [] h = refl
add-put e (x ∷ xs) h = ground (arith, add-put e xs h)

-- What `add` does is what `onion_dict_add` without OD_REPLACE does to the tree.
pub add-node_add :
    (t : Tree Bytes Value) (e : Entry Bytes Value)
    → e.flags.replace ≡ false
    → IsSorted (entries t)
    → members_of (entries (node_add t e)) ≡ add e.key e.value (members_of (entries t))
add-node_add t e h s =
    ap members_of (entries-node_add t e (inl (h, s))) ∙ sym (add-put e (entries t) h)

-- A key stands before those of a dictionary, or is equal to them.
abbrev pub IsFirst : Bytes → Members → Type 0
IsFirst key end = Unit
IsFirst key (member k v ms) = (key ≼ k) × IsFirst key ms

-- The keys of a dictionary, and of those inside of it, are in the order of `strcmp`. Keys may be equal.
unfoldable mutual
  pub IsOrderedValue : Value → Type 0
  IsOrderedValue (text s) = Unit
  IsOrderedValue (dict ms) = IsOrdered ms

  pub IsOrdered : Members → Type 0
  IsOrdered end = Unit
  IsOrdered (member key v ms) = IsFirst key ms × IsOrderedValue v × IsOrdered ms

-- The members of one dictionary before those of another.
unfoldable pub members_append : Members → Members → Members
members_append end ms = ms
members_append (member key v acc) ms = member key v (members_append acc ms)

-- The members that are added in turn.
unfoldable pub add_members : Members → Members → Members
add_members acc end = acc
add_members acc (member key v ms) = add_members (add key v acc) ms

abbrev AreFirst : Members → Members → Type 0
AreFirst end ms = Unit
AreFirst (member key v acc) ms = IsFirst key ms × AreFirst acc ms

members_append-end : (acc : Members) → members_append acc end ≡ acc
unfolding members_append
members_append-end end = refl
members_append-end (member key v acc) = ap (member key v) (members_append-end acc)

members_append_assoc :
    (acc : Members) (key : Bytes) (v : Value) (ms : Members)
    → members_append (members_append acc (member key v end)) ms
      ≡ members_append acc (member key v ms)
unfolding members_append
members_append_assoc end key v ms = refl
members_append_assoc (member k w acc) key v ms = ap (member k w) (members_append_assoc acc key v ms)

not_lt : (a b : Bytes) → a ≼ b → compare_texts b a ≢ lt
not_lt a b h = λ e. ground (arith, exact.cmp_flip b a)

add_last :
    (acc : Members) (key : Bytes) (v : Value) (ms : Members)
    → AreFirst acc (member key v ms)
    → add key v acc ≡ members_append acc (member key v end)
unfolding add members_append
add_last end key v ms h = refl
add_last (member k w acc) key v ms ((h, hs), hacc) =
    ground (arith, not_lt k key h, add_last acc key v ms hacc)

AreFirst-members_append :
    (acc : Members) (key : Bytes) (v : Value) (ms : Members)
    → AreFirst acc (member key v ms)
    → IsFirst key ms
    → AreFirst (members_append acc (member key v end)) ms
unfolding members_append
AreFirst-members_append end key v ms h f = (f, tt)
AreFirst-members_append (member k w acc) key v ms ((h, hs), hacc) f =
    (hs, AreFirst-members_append acc key v ms hacc f)

add_members-members_append :
    (acc ms : Members) → AreFirst acc ms → IsOrdered ms → add_members acc ms ≡ members_append acc ms
unfolding add_members IsOrdered
add_members-members_append acc end h o = sym (members_append-end acc)
add_members-members_append acc (member key v ms) h (f, ov, o) =
    let last = add_last acc key v ms h in
    ap (λ t. add_members t ms) last
    ∙ add_members-members_append (members_append acc (member key v end)) ms
        (AreFirst-members_append acc key v ms h f) o
    ∙ members_append_assoc acc key v ms

-- Members in order that are added in turn to a new dictionary are the dictionary.
pub add_members-IsOrdered : (ms : Members) → IsOrdered ms → add_members end ms ≡ ms
unfolding members_append
add_members-IsOrdered ms o = add_members-members_append end ms tt o
