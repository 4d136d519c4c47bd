-- ===== src/Dict/Json/RoundTrip.antt =====
-- A dictionary that was printed as a JSON text is read back.
use onion.Prelude.{
  ℕ, suc, ◌+◌, ◌-◌, ◌≤◌, [], ◌∷◌, ◌++◌, false, ◌≡◌, refl, sym, ap, ◌∙◌, ◌==◌, Bytes, length, take,
  append_assoc, append-nil, length-append, arith,
}
use onion.Prelude.Predicates.{All}
use onion.Codecs.Json.{json_quote, json_unquote}
use onion.Codecs.Json.RoundTrip.{json_unquote-json_quote}
use onion.Dict.Json.Order.{IsOrdered, IsOrderedValue, add_members, add_members-IsOrdered}
use onion.Dict.Json.{
  add, Value, Members, text, dict, end, member, closed, value_json, json_preorder, to_json, Read,
  parsed, skip_json_spaces, from_json_by, read_value, read_next, read_member, read_members,
  from_json, unquoted_text, and_read, invalid,
}

-- The texts of a dictionary have no terminators in them.
unfoldable mutual
  pub AreValueTexts : Value → Type 0
  AreValueTexts (text s) = All (λ c. 1 ≤ c) s
  AreValueTexts (dict ms) = AreTexts ms

  pub AreTexts : Members → Type 0
  AreTexts end = Unit
  AreTexts (member key v ms) = All (λ c. 1 ≤ c) key × AreValueTexts v × AreTexts ms

-- The number of members, those inside of others included.
unfoldable mutual
  size_value : Value → ℕ
  size_value (text s) = 0
  size_value (dict ms) = suc (size ms)

  size : Members → ℕ
  size end = 0
  size (member key v ms) = suc (size_value v + size ms)

-- A key and what follows it.
abbrev keyed : Bytes → Bytes → Bytes
keyed key rest = b'"' ∷ (json_quote key ++ (b'"' ∷ b':' ∷ rest))

-- A value, and the members behind the opening brace, each with the text that follows.
unfoldable mutual
  value_text : Value → Bytes → Bytes
  value_text (text s) rest = b'"' ∷ (json_quote s ++ b'"' ∷ rest)
  value_text (dict ms) rest = b'{' ∷ body ms rest

  body : Members → Bytes → Bytes
  body end rest = b'}' ∷ rest
  body (member key v ms) rest = keyed key (value_text v (more ms rest))

  -- The members behind another one.
  more : Members → Bytes → Bytes
  more end rest = b'}' ∷ rest
  more (member key v ms) rest = b',' ∷ b' ' ∷ keyed key (value_text v (more ms rest))

keyed-append : (key rest rest' : Bytes) → keyed key rest ++ rest' ≡ keyed key (rest ++ rest')
keyed-append key rest rest' =
    ap (λ t. b'"' ∷ t) (append_assoc (json_quote key) (b'"' ∷ b':' ∷ rest) rest')

-- A block without its last two bytes.
take_but_two : (xs : Bytes) (a b : ℕ) → take (length (xs ++ a ∷ b ∷ []) - 2) (xs ++ a ∷ b ∷ []) ≡ xs
take_but_two [] a b = refl
take_but_two (x ∷ xs) a b =
    let same : length (x ∷ xs ++ a ∷ b ∷ []) - 2 ≡ suc (length (xs ++ a ∷ b ∷ []) - 2) =
      omega (arith, length-append xs (a ∷ b ∷ [])) in
    ap (λ n. take n (x ∷ xs ++ a ∷ b ∷ [])) same ∙ ap (λ t. x ∷ t) (take_but_two xs a b)

closed-comma : (xs : Bytes) → closed (b'{' ∷ (xs ++ b',' ∷ b' ' ∷ [])) ≡ b'{' ∷ (xs ++ b'}' ∷ [])
unfolding closed
closed-comma xs =
    let long : (length (b'{' ∷ (xs ++ b',' ∷ b' ' ∷ [])) == 1) ≡ false =
      ground (arith, length-append xs (b',' ∷ b' ' ∷ [])) in
    rw long (ap (λ t. t ++ b'}' ∷ []) (take_but_two (b'{' ∷ xs) b',' b' '))

-- A comma behind a text, and the members behind it.
abbrev commaed : Bytes → Bytes
commaed rest = b',' ∷ b' ' ∷ rest

keyed_comma :
    (xs key t rest : Bytes)
    → xs ++ commaed (keyed key (t ++ commaed rest)) ≡ (xs ++ commaed (keyed key t)) ++ commaed rest
keyed_comma xs key t rest =
    ap (λ u. xs ++ commaed u) (sym (keyed-append key t (commaed rest)))
    ∙ sym (append_assoc xs (commaed (keyed key t)) (commaed rest))

mutual
  unfolding value_json value_text

  value_json-value_text : (v : Value) (rest : Bytes) → value_json v ++ rest ≡ value_text v rest
  value_json-value_text (text s) rest =
      ap (λ t. b'"' ∷ t) (append_assoc (json_quote s) (b'"' ∷ []) rest)
  value_json-value_text (dict ms) rest = closed-body ms rest

  closed-body :
      (ms : Members) (rest : Bytes) → closed (b'{' ∷ json_preorder ms) ++ rest ≡ b'{' ∷ body ms rest
  closed-body end rest = refl
  closed-body (member key v ms) rest =
      ap (λ t. closed (b'{' ∷ t) ++ rest)
        (sym (keyed-append key (value_json v) (commaed (json_preorder ms))))
      ∙ closed-more ms (keyed key (value_json v)) rest
      ∙ ap (λ t. b'{' ∷ t)
          (keyed-append key (value_json v) (more ms rest)
            ∙ ap (keyed key) (value_json-value_text v (more ms rest)))

  closed-more :
      (ms : Members) (xs rest : Bytes)
      → closed (b'{' ∷ (xs ++ commaed (json_preorder ms))) ++ rest ≡ b'{' ∷ (xs ++ more ms rest)
  closed-more end xs rest =
      ap (λ t. t ++ rest) (closed-comma xs) ∙ ap (λ t. b'{' ∷ t) (append_assoc xs (b'}' ∷ []) rest)
  closed-more (member key v ms) xs rest =
      let before = xs ++ commaed (keyed key (value_json v)) in
      ap (λ t. closed (b'{' ∷ t) ++ rest) (keyed_comma xs key (value_json v) (json_preorder ms))
      ∙ closed-more ms before rest
      ∙ ap (λ t. b'{' ∷ t)
          (append_assoc xs (commaed (keyed key (value_json v))) (more ms rest)
            ∙ ap (λ t. xs ++ commaed t)
                (keyed-append key (value_json v) (more ms rest)
                  ∙ ap (keyed key) (value_json-value_text v (more ms rest))))

skip_json_spaces-body :
    (ms : Members) (rest : Bytes) → skip_json_spaces (body ms rest) ≡ body ms rest
unfolding value_text
skip_json_spaces-body end rest = refl
skip_json_spaces-body (member key v ms) rest = refl

from_json_by-body :
    (loop : Members → Bytes → Read Members) (ms : Members) (rest : Bytes)
    → from_json_by loop (b'{' ∷ body ms rest) ≡ loop end (body ms rest)
unfolding from_json_by
from_json_by-body loop ms rest = ap (loop end) (skip_json_spaces-body ms rest)

-- A text that was put between quotation marks, with what follows.
unquoted-quoted :
    (s rest : Bytes)
    → All (λ c. 1 ≤ c) s
    → unquoted_text (json_unquote (b'"' ∷ (json_quote s ++ b'"' ∷ rest))) ≡ parsed s rest
unquoted-quoted s rest h = ap unquoted_text (json_unquote-json_quote s rest h)

read_next-more :
    (n : ℕ) (ret ms : Members) (rest : Bytes)
    → read_members n ret (body ms rest) ≡ parsed (add_members ret ms) rest
    → read_next (read_members n) ret (skip_json_spaces (more ms rest))
      ≡ parsed (add_members ret ms) rest
unfolding read_next value_text add_members
read_next-more n ret end rest h = refl
read_next-more n ret (member key v ms) rest h = h

mutual
  unfolding AreTexts IsOrdered add_members size value_text read_members read_member read_value
      from_json_by

  read_value-value_text :
      (v : Value) (e : ℕ) (rest : Bytes)
      → AreValueTexts v
      → IsOrderedValue v
      → read_value (read_members (size_value v + e)) (skip_json_spaces (value_text v rest))
        ≡ parsed v rest
  read_value-value_text (text s) e rest h o = rw (unquoted-quoted s rest h) refl
  read_value-value_text (dict ms) e rest h o =
      let more_fuel : suc (size ms) + e ≡ suc (size ms + e) = omega arith in
      let read =
        ap (λ k. read_members k end (body ms rest)) more_fuel
        ∙ read_members-body end ms e rest h o
        ∙ ap (λ sub. parsed sub rest) (add_members-IsOrdered ms o) in
      rw (skip_json_spaces-body ms rest)
        (ap (λ r. and_read r (λ sub behind. parsed (dict sub) behind)) read)

  read_members-body :
      (ret ms : Members) (e : ℕ) (rest : Bytes)
      → AreTexts ms
      → IsOrdered ms
      → read_members (suc (size ms + e)) ret (body ms rest) ≡ parsed (add_members ret ms) rest
  read_members-body ret end e rest h o = refl
  read_members-body ret (member key v ms) e rest (hkey, hv, hms) (first, ov, oms) =
      let n = suc (size_value v + size ms) + e in
      let for_value : size_value v + suc (size ms + e) ≡ n = omega arith in
      let for_rest : suc (size ms + (size_value v + e)) ≡ n = omega arith in
      let valued =
        ap (λ k. read_value (read_members k) (skip_json_spaces (value_text v (more ms rest))))
          (sym for_value)
        ∙ read_value-value_text v (suc (size ms + e)) (more ms rest) hv ov in
      let behind =
        ap (λ k. read_members k (add key v ret) (body ms rest)) (sym for_rest)
        ∙ read_members-body (add key v ret) ms (size_value v + e) rest hms oms in
      rw (unquoted-quoted key (b':' ∷ value_text v (more ms rest)) hkey, valued)
        (read_next-more n (add key v ret) ms rest behind)

-- The fuel of `onion_dict_from_json` is enough.
mutual
  unfolding size value_text

  size-value_text :
      (v : Value) (rest : Bytes) → size_value v + length rest ≤ length (value_text v rest)
  size-value_text (text s) rest = omega (arith, length-append (json_quote s) (b'"' ∷ rest))
  size-value_text (dict ms) rest = omega (arith, size-body ms rest)

  size-body : (ms : Members) (rest : Bytes) → size ms + length rest ≤ length (body ms rest)
  size-body end rest = omega arith
  size-body (member key v ms) rest = omega (
    arith,
    length-append (json_quote key) (b'"' ∷ b':' ∷ value_text v (more ms rest)),
    size-value_text v (more ms rest),
    size-more ms rest,
  )

  size-more : (ms : Members) (rest : Bytes) → size ms + length rest ≤ length (more ms rest)
  size-more end rest = omega arith
  size-more (member key v ms) rest = omega (
    arith,
    length-append (json_quote key) (b'"' ∷ b':' ∷ value_text v (more ms rest)),
    size-value_text v (more ms rest),
    size-more ms rest,
  )

from_json-body :
    (ms : Members) → AreTexts ms → IsOrdered ms → from_json (b'{' ∷ body ms []) ≡ parsed ms []
unfolding from_json
from_json-body ms h o =
    let len = length (body ms []) in
    let fuel = size-body ms [] in
    let enough : suc (size ms + (len + 1 - size ms)) ≡ suc (suc len) = omega arith in
    let read : from_json_by (read_members (suc (suc len))) (b'{' ∷ body ms []) ≡ parsed ms [] =
      from_json_by-body (read_members (suc (suc len))) ms []
      ∙ ap (λ k. read_members k end (body ms [])) (sym enough)
      ∙ read_members-body end ms (len + 1 - size ms) [] h o
      ∙ ap (λ t. parsed t []) (add_members-IsOrdered ms o) in
    ap
      (λ r. and_read r (λ ms rest. elim (skip_json_spaces rest) as (λ _. Read Members) [
        | [] ↦ parsed ms []
        | ◌∷◌ c behind_it ↦ invalid
      ]))
      read

-- A dictionary of texts without terminators in them, and of such dictionaries, all with their keys in
-- the order of `strcmp`, equal ones included, that was printed is read back: what is added to the new
-- dictionary, in the order of its keys, is the same keys and values in the same order.
pub from_json-to_json :
    (ms : Members) → AreTexts ms → IsOrdered ms → from_json (to_json ms) ≡ parsed ms []
unfolding to_json
from_json-to_json ms h o =
    ap from_json (sym (append-nil (to_json ms)) ∙ closed-body ms []) ∙ from_json-body ms h o
