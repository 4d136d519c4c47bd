-- ===== src/Request/Cookies/RoundTrip.antt =====
-- The cookies that a browser sends are read back.
use onion.Prelude.{
  List, [], ◌∷◌, ◌++◌, Option, none, some, ◌≡◌, ◌≢◌, refl, sym, ap, ◌∙◌, ◌==◌, true, false, Bytes,
  codes, arith, append-nil, append_assoc,
}
use onion.Prelude.Predicates.{All}
use onion.Strings.{exact}
use onion.Dict.{Entry, Tree, null, no_flags, node_add}
use onion.RequestParser.Machine.{Request, header}
use onion.Request.Cookies.{no_key, in_key, in_value, add_cookie, cookies_from, get_cookies_dict}

-- A name starts with no space, and has no equals sign behind its first byte.
abbrev pub IsName : Bytes → Type 0
IsName [] = ⊥
IsName (c ∷ k) = (c ≢ b' ') × All (λ d. d ≢ b'=') k

-- A value has no semicolon and is not empty.
abbrev pub IsValue : Bytes → Type 0
IsValue v = (v ≢ []) × All (λ d. d ≢ b';') v

abbrev pub IsCookie : Bytes × Bytes → Type 0
IsCookie c = IsName c.0 × IsValue c.1

-- `name=value; name=value`
unfoldable pub print_cookies : List (Bytes × Bytes) → Bytes
print_cookies [] = []
print_cookies ((k, v) ∷ []) = k ++ b'=' ∷ v
print_cookies ((k, v) ∷ (c ∷ cs)) = k ++ b'=' ∷ (v ++ (b';' ∷ b' ' ∷ print_cookies (c ∷ cs)))

-- The cookies behind the first one, in their order.
unfoldable add_cookies : Tree Bytes Bytes → List (Bytes × Bytes) → Tree Bytes Bytes
add_cookies dict [] = dict
add_cookies dict ((k, v) ∷ cs) =
    add_cookies (node_add dict (record { key = k; value = v; flags = no_flags })) cs

-- The dictionary with each name as a key and its value as the value. The copy of the header is freed
-- with the key of the first.
unfoldable pub cookies_dict : List (Bytes × Bytes) → Tree Bytes Bytes
unfolding add_cookies
cookies_dict [] = null
cookies_dict ((k, v) ∷ cs) =
    let first : Entry Bytes Bytes = record {
      key = k;
      value = v;
      flags = record no_flags { free_key = true };
    } in
    add_cookies (node_add null first) cs

module _ (dict : Tree Bytes Bytes) (lead : Option Bytes) where
  cookies_from-key :
      (k s p : Bytes)
      → All (λ d. d ≢ b'=') s
      → cookies_from dict lead (in_key k) (s ++ p) ≡ cookies_from dict lead (in_key (k ++ s)) p
  unfolding cookies_from
  cookies_from-key k [] p h = ap (λ t. cookies_from dict lead (in_key t) p) (sym (append-nil k))
  cookies_from-key k (c ∷ s) p (h, hs) =
      let other : (c == b'=') ≡ false = ground arith in
      rw (other, cookies_from)
        (cookies_from-key (k ++ c ∷ []) s p hs
          ∙ ap (λ t. cookies_from dict lead (in_key t) p) (append_assoc k (c ∷ []) s))

  cookies_from-value :
      (k v s p : Bytes)
      → All (λ d. d ≢ b';') s
      → cookies_from dict lead (in_value k v) (s ++ p)
        ≡ cookies_from dict lead (in_value k (v ++ s)) p
  unfolding cookies_from
  cookies_from-value k v [] p h =
      ap (λ t. cookies_from dict lead (in_value k t) p) (sym (append-nil v))
  cookies_from-value k v (c ∷ s) p (h, hs) =
      let other : (c == b';') ≡ false = ground arith in
      rw (other, cookies_from)
        (cookies_from-value k (v ++ c ∷ []) s p hs
          ∙ ap (λ t. cookies_from dict lead (in_value k t) p) (append_assoc v (c ∷ []) s))

  -- One cookie and what follows its value.
  cookies_from-cookie :
      (k v p : Bytes)
      → IsName k
      → All (λ d. d ≢ b';') v
      → cookies_from dict lead no_key (k ++ b'=' ∷ (v ++ p))
        ≡ cookies_from dict lead (in_value k v) p
  unfolding cookies_from
  cookies_from-cookie [] v p h hv = absurd h
  cookies_from-cookie (c ∷ k) v p (h, hs) hv =
      let starts : (c == b' ') ≡ false = ground arith in
      rw (starts, cookies_from)
        (cookies_from-key (c ∷ []) k (b'=' ∷ (v ++ p)) hs ∙ cookies_from-value (c ∷ k) [] v p hv)

  cookies_from-last :
      (k v : Bytes) → v ≢ [] → cookies_from dict lead (in_value k v) [] ≡ add_cookie dict lead k v
  unfolding cookies_from
  cookies_from-last k [] h = absurd (h refl)
  cookies_from-last k (c ∷ v) h = refl

-- The loop at the start of a cookie adds that one, and is then at the start of the next.
cookies_from-print_cookies :
    (dict : Tree Bytes Bytes) (lead : Option Bytes) (k v : Bytes) (cs : List (Bytes × Bytes))
    → IsCookie (k, v)
    → All IsCookie cs
    → cookies_from dict lead no_key (print_cookies ((k, v) ∷ cs))
      ≡ add_cookies (add_cookie dict lead k v) cs
unfolding cookies_from print_cookies add_cookies add_cookie
cookies_from-print_cookies dict lead k v [] (hk, (hn, hv)) h =
    ap (λ t. cookies_from dict lead no_key (k ++ b'=' ∷ t)) (sym (append-nil v))
    ∙ cookies_from-cookie dict lead k v [] hk hv
    ∙ cookies_from-last dict lead k v hn
cookies_from-print_cookies dict lead k v ((k', v') ∷ cs) (hk, (hn, hv)) (h, hs) =
    cookies_from-cookie dict lead k v (b';' ∷ b' ' ∷ print_cookies ((k', v') ∷ cs)) hk hv
    ∙ cookies_from-print_cookies (add_cookie dict lead k v) none k' v' cs h hs

cookies_from-whole :
    (cs : List (Bytes × Bytes))
    → All IsCookie cs
    → cookies_from null (some []) no_key (print_cookies cs) ≡ cookies_dict cs
unfolding cookies_from print_cookies cookies_dict add_cookie
cookies_from-whole [] h = refl
cookies_from-whole ((k, v) ∷ cs) (h, hs) = cookies_from-print_cookies null (some []) k v cs h hs

-- A request whose `Cookie` header holds `name=value` pairs with a semicolon and a space between them:
-- the dictionary of its cookies is the empty one with these pairs added in their order, each name as
-- the key and its value as the value, where the key of the first is to be freed. A name starts with no
-- space and has no equals sign behind its first byte; a value has no semicolon and is not empty.
pub get_cookies_dict-print_cookies :
    (req : Request) (cs : List (Bytes × Bytes))
    → All IsCookie cs
    → header req (codes "Cookie") ≡ some (print_cookies cs)
    → get_cookies_dict req ≡ cookies_dict cs
unfolding get_cookies_dict
get_cookies_dict-print_cookies req cs h e = rw (e, get_cookies_dict) (cookies_from-whole cs h)
