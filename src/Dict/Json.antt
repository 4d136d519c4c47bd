-- ===== src/Dict/Json.antt =====
-- src/onion/dict.c: dictionaries as JSON texts, `onion_dict_to_json` and `onion_dict_from_json`. A
-- dictionary is here the list of its keys and values, as `onion_dict_node_preorder` visits them; a
-- value with OD_DICT is such a list again. Order relates `add` to the tree. A block, whose operations
-- Block has, is the list of its bytes.
pub mod Order
pub mod RoundTrip
use Prim.Native.Nat.Ordering.{lt}
use onion.Prelude.{
  ℕ, zero, suc, ◌+◌, ◌-◌, List, [], ◌∷◌, ◌++◌, Bool, true, false, ◌&&◌, ◌||◌, Option, none, some,
  ◌==◌, ltb, leb, if◌then◌else◌, Bytes, codes, length, take, drop,
}
use onion.Codecs.Json.{json_quote, json_unquote, Unquoted, unquoted, past, failed, behind}
use onion.Strings.{compare_texts}

mutual
  pub data Value : Type 0 where
    text : Bytes → Value
    dict : Members → Value

  pub data Members : Type 0 where
    end : Members
    member : Bytes → Value → Members → Members

-- The end of `onion_dict_to_json`: the last comma and its space are taken back.
unfoldable pub closed : Bytes → Bytes
closed block = (if length block == 1 then block else take (length block - 2) block) ++ b'}' ∷ []

-- `onion_dict_json_preorder` on the entries in turn.
unfoldable mutual
  unfolding closed

  pub value_json : Value → Bytes
  value_json (text s) = b'"' ∷ (json_quote s ++ b'"' ∷ [])
  value_json (dict ms) = closed (b'{' ∷ json_preorder ms)

  pub json_preorder : Members → Bytes
  json_preorder end = []
  json_preorder (member key v ms) =
      b'"' ∷ (json_quote key ++ (b'"' ∷ b':' ∷ (value_json v ++ (b',' ∷ b' ' ∷ json_preorder ms))))

-- `onion_dict_to_json`
unfoldable pub to_json : Members → Bytes
unfolding closed json_preorder
to_json ms = closed (b'{' ∷ json_preorder ms)

-- `onion_dict_add` to a dictionary by `strcmp`, without OD_REPLACE: the entry goes before the first one
-- with a greater key.
unfoldable pub add : Bytes → Value → Members → Members
add key v end = member key v end
add key v (member k w ms) = elim (compare_texts key k) [
  | lt ↦ member key v (member k w ms)
  | _ ↦ member k w (add key v ms)
]

-- A text behind what was read of it; NULL; a read behind the terminator; or no fuel.
pub data Read (A : Type 0) : Type 0 where
  parsed : A → Bytes → Read A
  invalid : Read A
  outside : Read A
  no_fuel : Read A

abbrev pub and_read : {A B : Type 0} → Read A → (A → Bytes → Read B) → Read B
and_read (parsed a rest) f = f a rest
and_read invalid f = invalid
and_read outside f = outside
and_read no_fuel f = no_fuel

-- A text, behind which the reader goes on: past the terminator that is a read behind it.
abbrev pub unquoted_text : Unquoted → Read Bytes
unquoted_text (unquoted s rest) = parsed s rest
unquoted_text (past s) = outside
unquoted_text failed = invalid
unquoted_text behind = outside

abbrev pub is_json_space : ℕ → Bool
is_json_space c = (c == b'\t') || (c == b'\n') || (c == b'\r') || (c == b' ')

abbrev pub is_json_digit : ℕ → Bool
is_json_digit c = leb b'0' c && leb c b'9'

abbrev pub skip_json_spaces : Bytes → Bytes
skip_json_spaces [] = []
skip_json_spaces (c ∷ data_) = if is_json_space c then skip_json_spaces data_ else c ∷ data_

abbrev pub take_digits : Bytes → Bytes × Bytes
take_digits [] = ([], [])
take_digits (c ∷ data_) =
    if is_json_digit c then (c ∷ (take_digits data_).0, (take_digits data_).1) else ([], c ∷ data_)

-- Whether a text, which has a terminator, starts with a character.
abbrev pub starts_with : ℕ → Bytes → Bool
starts_with c [] = false
starts_with c (d ∷ data_) = d == c

abbrev pub starts_digit : Bytes → Bool
starts_digit [] = false
starts_digit (d ∷ data_) = is_json_digit d

-- `onion_dict_from_json_`, by the loop over the members of a dictionary, which is new.
unfoldable pub from_json_by : (Members → Bytes → Read Members) → Bytes → Read Members
from_json_by loop data_ =
    let opened = skip_json_spaces data_ in
    let inside = loop end (skip_json_spaces (drop 1 opened)) in
    if starts_with b'{' opened then inside else invalid

-- A value: a dictionary, digits, or a text.
unfoldable pub read_value : (Members → Bytes → Read Members) → Bytes → Read Value
unfolding from_json_by
read_value loop data_ =
    let sub = and_read (from_json_by loop data_) (λ ms rest. parsed (dict ms) rest) in
    let (digits, rest) = take_digits data_ in
    let string = and_read (unquoted_text (json_unquote data_)) (λ s rest. parsed (text s) rest) in
    if starts_with b'{' data_
    then sub
    else if starts_digit data_
    then parsed (text digits) rest
    else if starts_with b'"' data_
    then string
    else invalid

-- What follows a value: the end of the dictionary, or a comma and the next round. `ret` has the value.
unfoldable pub read_next : (Members → Bytes → Read Members) → Members → Bytes → Read Members
read_next loop ret data_ =
    let later = loop ret (skip_json_spaces (drop 1 data_)) in
    if starts_with b'}' data_
    then parsed ret (drop 1 data_)
    else if starts_with b',' data_
    then later
    else invalid

-- A key, its colon and its value.
unfoldable pub read_member : (Members → Bytes → Read Members) → Members → Bytes → Read Members
unfolding read_value read_next add
read_member loop ret data_ = and_read (unquoted_text (json_unquote data_)) (λ key rest.
    let colon = skip_json_spaces rest in
    let valued =
      and_read (read_value loop (skip_json_spaces (drop 1 colon)))
        (λ v rest1. read_next loop (add key v ret) (skip_json_spaces rest1)) in
    if starts_with b':' colon then valued else invalid)

-- The loop of `onion_dict_from_json_`. The fuel counts the rounds and the calls inside of them, each
-- of which reads a byte at least.
unfoldable pub read_members : ℕ → Members → Bytes → Read Members
unfolding read_member
read_members zero ret data_ = no_fuel
read_members (suc n) ret data_ =
    let some_member = read_member (read_members n) ret data_ in
    if starts_with b'}' data_ then parsed ret (drop 1 data_) else some_member

-- `onion_dict_from_json`: nothing but spaces may follow.
unfoldable pub from_json : Bytes → Read Members
unfolding from_json_by read_members
from_json data_ =
    and_read (from_json_by (read_members (suc (length data_))) data_)
      (λ ms rest. elim (skip_json_spaces rest) [ [] ↦ parsed ms [] | ◌∷◌ c behind_it ↦ invalid ])
