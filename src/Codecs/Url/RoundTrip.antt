-- ===== src/Codecs/Url/RoundTrip.antt =====
-- What URL quoting writes, and that unquoting reads it back.
use mathlib.Core.List.{flat_map}
use onion.Prelude.{
  ℕ, ◌+◌, ◌<◌, [], ◌∷◌, ◌++◌, true, some, ◌≡◌, ◌≢◌, refl, sym, ◌==◌, ==_iff, if◌then◌else◌, Bytes,
  length, arith, append-nil, append_assoc, Bool-cases, inl, inr,
}
use onion.Prelude.Predicates.{IsBuffer}
use onion.Prelude.Table.{all_below, all_below_sound}
use onion.Utils.{is_alnum}
use onion.Codecs.Url.{
  hex_high, hex_low, quote_from, quote, quote_size, quote_new, strtol_two, unquote_inplace, written,
}

-- What one byte of the text becomes.
unfoldable pub quoted : ℕ → Bytes
quoted c = if is_alnum c then c ∷ [] else b'%' ∷ hex_high c ∷ hex_low c ∷ []

quote_size-length : (nl : ℕ) (s : Bytes) → quote_size nl s ≡ nl + length (flat_map quoted s)
unfolding quote_size quoted flat_map
quote_size-length nl [] = omega arith
quote_size-length nl (c ∷ s) = elim (Bool-cases (is_alnum c)) [
  | inl e ↦ rw e (omega (arith, quote_size-length (nl + 1) s))
  | inr e ↦ rw e (omega (arith, quote_size-length (nl + 3) s))
]

-- With room for all, the loop is not cut.
quote_from-flat_map :
    (i n : ℕ) (res s : Bytes)
    → i + length (flat_map quoted s) < n
    → quote_from i n res s ≡ res ++ flat_map quoted s
unfolding quote_from quoted flat_map
quote_from-flat_map i n res [] h = sym (append-nil res)
quote_from-flat_map i n res (c ∷ s) h = elim (Bool-cases (is_alnum c)) [
  | inl e ↦ ground (
    arith,
    quote_from-flat_map (i + 1) n (res ++ c ∷ []) s,
    append_assoc res (c ∷ []) (flat_map quoted s),
  )
  | inr e ↦ ground (
    arith,
    quote_from-flat_map (i + 1) n (res ++ b'%' ∷ hex_high c ∷ hex_low c ∷ []) s,
    append_assoc res (b'%' ∷ hex_high c ∷ hex_low c ∷ []) (flat_map quoted s),
  )
]

-- `onion_quote_new` quotes each byte, and the size that it counts is the room that this takes with
-- the terminator.
pub quote_new-flat_map :
    (s : Bytes) → (quote_new s ≡ flat_map quoted s) × (quote_size 1 s ≡ length (quote_new s) + 1)
unfolding quote_new quote
quote_new-flat_map s =
    let e = quote_from-flat_map 0 (quote_size 1 s) [] s (omega (arith, quote_size-length 1 s)) in
    (e, rw e (omega (arith, quote_size-length 1 s)))

hex_table : all_below 256 (λ c. strtol_two (hex_high c) (hex_low c) == c) ≡ true
unfolding all_below strtol_two
hex_table = refl

strtol_two-hex : (c : ℕ) → c < 256 → strtol_two (hex_high c) (hex_low c) ≡ c
strtol_two-hex c h = (==_iff _ c).0 (all_below_sound 256 _ c hex_table h)

alnum_plain : (c : ℕ) → is_alnum c ≡ true → (c ≢ b'%') × (c ≢ b'+')
unfolding is_alnum
alnum_plain c h = ground arith

-- A byte that is neither a percent sign nor a plus sign is copied.
unquote_inplace-cons :
    (c : ℕ) (r : Bytes)
    → c ≢ b'%'
    → c ≢ b'+'
    → unquote_inplace (c ∷ r) ≡ written c (unquote_inplace r)
unfolding unquote_inplace
unquote_inplace-cons c [] p q = ground arith
unquote_inplace-cons c (h ∷ []) p q = ground arith
unquote_inplace-cons c (h ∷ l ∷ r) p q = ground arith

unquote_inplace-quoted :
    (c : ℕ) (r : Bytes) → c < 256 → unquote_inplace (quoted c ++ r) ≡ written c (unquote_inplace r)
unfolding quoted
unquote_inplace-quoted c r h = elim (Bool-cases (is_alnum c)) [
  | inl e ↦ rw e (unquote_inplace-cons c r (alnum_plain c e).0 (alnum_plain c e).1)
  | inr e ↦ rw e (unfold unquote_inplace in rw (strtol_two-hex c h))
]

unquote_inplace-flat_map : (s : Bytes) → IsBuffer s → unquote_inplace (flat_map quoted s) ≡ some s
unfolding flat_map
unquote_inplace-flat_map [] h = unfold unquote_inplace in refl
unquote_inplace-flat_map (c ∷ s) (h, hs) =
    rw (unquote_inplace-quoted c (flat_map quoted s) h, unquote_inplace-flat_map s hs)

-- Unquoting a quoted text of bytes gives the text back.
pub unquote_inplace-quote_new : (s : Bytes) → IsBuffer s → unquote_inplace (quote_new s) ≡ some s
unquote_inplace-quote_new s h = rw (quote_new-flat_map s).0 (unquote_inplace-flat_map s h)
