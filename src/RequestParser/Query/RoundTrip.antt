-- ===== src/RequestParser/Query/RoundTrip.antt =====
-- A query that was put together of quoted fields is read back.
use mathlib.Core.List.{flat_map}
use onion.Prelude.{
  ◌>>=◌, ℕ, List, [], ◌∷◌, ◌++◌, Bool, true, none, some, ◌≡◌, ◌≢◌, refl, sym, ap, ◌∙◌, ◌==◌, Bytes,
  arith, append_assoc, append-nil, Bool-cases, inl, inr, not, ◌&&◌, ◌||◌, ◌<◌,
}
use onion.Prelude.Table.{all_below, all_below_sound}
use onion.Utils.{is_alnum}
use onion.Prelude.Predicates.{All, All-append, IsBuffer}
use onion.Strings.{exact, c_string}
use onion.Codecs.Url.{quote_new, hex_high, hex_low}
use onion.Codecs.Url.RoundTrip.{quoted, quote_new-flat_map, unquote_inplace-quote_new}
use onion.Dict.{Tree, null, no_flags, node_add}
use onion.RequestParser.Query.{add_field, query_from, query_to_dict, split_query, parse_query}

-- `key=value`, quoted.
abbrev pub field : Bytes × Bytes → Bytes
field (k, v) = quote_new k ++ (b'=' ∷ quote_new v)

-- The fields of a query, with `&` between them.
unfoldable pub print_query : List (Bytes × Bytes) → Bytes
print_query [] = []
print_query (f ∷ []) = field f
print_query (f ∷ (g ∷ fs)) = field f ++ (b'&' ∷ print_query (g ∷ fs))

-- The additions that the fields stand for, in their order.
unfoldable pub add_fields : Tree Bytes Bytes → List (Bytes × Bytes) → Tree Bytes Bytes
add_fields dict [] = dict
add_fields dict ((k, v) ∷ fs) =
    add_fields (node_add dict (record { key = k; value = v; flags = no_flags })) fs

-- The bytes of a text of C, which has no 0.
abbrev pub IsText : Bytes → Type 0
IsText s = IsBuffer s × All (λ c. c ≢ 0) s

pub c_string_lem : (s : Bytes) → All (λ c. c ≢ 0) s → c_string s ≡ s
unfolding c_string
c_string_lem [] h = refl
c_string_lem (c ∷ s) (h, hs) = ground (arith, c_string_lem s hs)

-- A byte that ends no key and no value.
abbrev pub IsInner : ℕ → Type 0
IsInner c = (c ≢ b'&') × (c ≢ b'=') × (c ≢ b'?')

abbrev is_inner : ℕ → Bool
is_inner c = not ((c == b'&') || (c == b'=') || (c == b'?'))

is_inner_sound : (c : ℕ) → is_inner c ≡ true → IsInner c
is_inner_sound c h = ground arith

hex_table : all_below 256 (λ c. is_inner (hex_high c) && is_inner (hex_low c)) ≡ true
unfolding all_below
hex_table = refl

and_parts : (a b : Bool) → (a && b) ≡ true → (a ≡ true) × (b ≡ true)
and_parts a b h = ground arith

alnum-IsInner : (c : ℕ) → is_alnum c ≡ true → IsInner c
unfolding is_alnum
alnum-IsInner c h = ground arith

quoted-IsInner : (c : ℕ) → c < 256 → All IsInner (quoted c)
unfolding quoted
quoted-IsInner c h = elim (Bool-cases (is_alnum c)) [
  | inl e ↦ rw e (alnum-IsInner c e, tt)
  | inr e ↦
      let both =
        all_below_sound 256 (λ c. is_inner (hex_high c) && is_inner (hex_low c)) c hex_table h in
      let (high, low) = and_parts (is_inner (hex_high c)) (is_inner (hex_low c)) both in
      rw e (
        is_inner_sound b'%' refl,
        (is_inner_sound (hex_high c) high, (is_inner_sound (hex_low c) low, tt)),
      )
]

flat_map-IsInner : (s : Bytes) → IsBuffer s → All IsInner (flat_map quoted s)
unfolding flat_map
flat_map-IsInner [] h = tt
flat_map-IsInner (c ∷ s) (h, hs) =
    All-append IsInner (quoted c) (flat_map quoted s) (quoted-IsInner c h) (flat_map-IsInner s hs)

pub quote_new-IsInner : (s : Bytes) → IsBuffer s → All IsInner (quote_new s)
quote_new-IsInner s h = rw (quote_new-flat_map s).0 (flat_map-IsInner s h)

-- The loop takes inner bytes to the key, and to the value.
query_from-key :
    (dict : Tree Bytes Bytes) (key s p : Bytes)
    → All IsInner s
    → query_from dict key none (s ++ p) ≡ query_from dict (key ++ s) none p
unfolding query_from
query_from-key dict key [] p h = ap (λ k. query_from dict k none p) (sym (append-nil key))
query_from-key dict key (c ∷ s) p (h, hs) =
    ground (arith, query_from-key dict (key ++ c ∷ []) s p hs)
    ∙ ap (λ k. query_from dict k none p) (append_assoc key (c ∷ []) s)

query_from-value :
    (dict : Tree Bytes Bytes) (key value s p : Bytes)
    → All IsInner s
    → query_from dict key (some value) (s ++ p) ≡ query_from dict key (some (value ++ s)) p
unfolding query_from
query_from-value dict key value [] p h =
    ap (λ v. query_from dict key (some v) p) (sym (append-nil value))
query_from-value dict key value (c ∷ s) p (h, hs) =
    ground (arith, query_from-value dict key (value ++ c ∷ []) s p hs)
    ∙ ap (λ v. query_from dict key (some v) p) (append_assoc value (c ∷ []) s)

add_field-quoted :
    (dict : Tree Bytes Bytes) (k v : Bytes)
    → IsText k
    → IsText v
    → add_field dict (quote_new k) (quote_new v)
      ≡ some (node_add dict (record { key = k; value = v; flags = no_flags }))
unfolding add_field
add_field-quoted dict k v (hk, nk) (hv, nv) = rw (
  unquote_inplace-quote_new k hk,
  unquote_inplace-quote_new v hv,
  c_string_lem k nk,
  c_string_lem v nv,
)

-- A field and what follows it.
query_from-field :
    (dict : Tree Bytes Bytes) (k v p : Bytes)
    → IsText k
    → IsText v
    → query_from dict [] none (field (k, v) ++ p)
      ≡ query_from dict (quote_new k) (some (quote_new v)) p
unfolding query_from
query_from-field dict k v p hk hv =
    ap (query_from dict [] none) (append_assoc (quote_new k) (b'=' ∷ quote_new v) p)
    ∙ query_from-key dict [] (quote_new k) (b'=' ∷ (quote_new v ++ p)) (quote_new-IsInner k hk.0)
    ∙ query_from-value dict (quote_new k) [] (quote_new v) p (quote_new-IsInner v hv.0)

abbrev pub IsField : Bytes × Bytes → Type 0
IsField f = IsText f.0 × IsText f.1

-- A query of quoted fields gives the fields, in their order.
pub query_to_dict-print_query :
    (dict : Tree Bytes Bytes) (fs : List (Bytes × Bytes))
    → All IsField fs
    → query_to_dict dict (print_query fs) ≡ some (add_fields dict fs)
unfolding query_to_dict print_query add_fields query_from
query_to_dict-print_query dict [] h = refl
query_to_dict-print_query dict ((k, v) ∷ []) ((hk, hv), h) =
    ap (query_from dict [] none) (sym (append-nil (field (k, v))))
    ∙ query_from-field dict k v [] hk hv
    ∙ add_field-quoted dict k v hk hv
query_to_dict-print_query dict ((k, v) ∷ (g ∷ fs)) ((hk, hv), h) =
    query_from-field dict k v (b'&' ∷ print_query (g ∷ fs)) hk hv
    ∙ ap (λ m. m >>= λ d. query_from d [] none (print_query (g ∷ fs)))
        (add_field-quoted dict k v hk hv)
    ∙ query_to_dict-print_query (node_add dict (record { key = k; value = v; flags = no_flags }))
        (g ∷ fs) h

split_query-IsInner : (s p : Bytes) → All IsInner s → split_query (s ++ b'?' ∷ p) ≡ (s, some p)
unfolding split_query
split_query-IsInner [] p h = refl
split_query-IsInner (c ∷ s) p (h, hs) = ground (arith, split_query-IsInner s p hs)

-- A quoted path with a query of quoted fields behind it is taken apart into the path and the fields.
-- No text has a 0 byte.
pub parse_query-print_query :
    (path : Bytes) (fs : List (Bytes × Bytes))
    → IsText path
    → All IsField fs
    → parse_query (quote_new path ++ b'?' ∷ print_query fs) ≡ some (path, some (add_fields null fs))
unfolding parse_query
parse_query-print_query path fs (h, nulls) hs = rw (
  split_query-IsInner (quote_new path) (print_query fs) (quote_new-IsInner path h),
  unquote_inplace-quote_new path h,
  c_string_lem path nulls,
  query_to_dict-print_query null fs hs,
)
