-- ===== src/Codecs/Json/RoundTrip.antt =====
-- A text that was quoted for JSON is read back.
use onion.Prelude.{
  ℕ, zero, suc, ◌≤◌, ◌<◌, [], ◌∷◌, ◌++◌, true, false, ◌≡◌, ◌≢◌, refl, ap, ◌∙◌, ◌==◌, Bytes, length,
  arith, length-append, append_assoc, ==_iff, lt→ltb, lt→leb,
}
use onion.Prelude.Predicates.{All}
use onion.Prelude.Table.{all_below, all_below_sound}
use onion.Codecs.Url.{hex_high, hex_low}
use onion.Codecs.Json.{
  json_quoted, json_quote, hex4, utf8, escaped, unquoted, behind, adds, json_unquote_from,
  json_unquote,
}

hex4_table : all_below 128 (λ c. hex4 (b'0' ∷ b'0' ∷ hex_high c ∷ hex_low c ∷ []) == c) ≡ true
unfolding all_below hex4
hex4_table = refl

hex4-hex : (c : ℕ) (r : Bytes) → c < 128 → hex4 (b'0' ∷ b'0' ∷ hex_high c ∷ hex_low c ∷ r) ≡ c
unfolding hex4
hex4-hex c r h =
    let e =
      all_below_sound 128 (λ c. hex4 (b'0' ∷ b'0' ∷ hex_high c ∷ hex_low c ∷ []) == c) c hex4_table
        h in
    (==_iff _ c).0 e

utf8-ascii : (c : ℕ) → c < 128 → utf8 c ≡ c ∷ []
unfolding utf8
utf8-ascii c h = rw (lt→ltb c 128 h)

-- An escape for a control character.
json_unquote_from-unicode :
    (n x y c : ℕ) (r : Bytes)
    → hex4 (b'0' ∷ b'0' ∷ x ∷ y ∷ r) ≡ c
    → 1 ≤ c
    → c < 128
    → json_unquote_from (suc n) b'"' (b'\\' ∷ b'u' ∷ b'0' ∷ b'0' ∷ x ∷ y ∷ r)
      ≡ adds (c ∷ []) (json_unquote_from n b'"' r)
unfolding json_unquote_from
json_unquote_from-unicode n x y c r e h k =
    let some_char : (c == 0) ≡ false = ground arith in
    rw (e, some_char, lt→leb 56320 c (omega arith), lt→leb 55296 c (omega arith), utf8-ascii c k)

json_unquote_from-hex :
    (n c : ℕ) (r : Bytes)
    → 1 ≤ c
    → c < 128
    → json_unquote_from (suc n) b'"' (b'\\' ∷ b'u' ∷ b'0' ∷ b'0' ∷ hex_high c ∷ hex_low c ∷ r)
      ≡ adds (c ∷ []) (json_unquote_from n b'"' r)
json_unquote_from-hex n c r h k =
    json_unquote_from-unicode n (hex_high c) (hex_low c) c r (hex4-hex c r k) h k

json_unquote_from-quoted :
    (n c d : ℕ) (r : Bytes)
    → 1 ≤ c
    → json_unquote_from (suc n) b'"' (json_quoted c ++ d ∷ r)
      ≡ adds (c ∷ []) (json_unquote_from n b'"' (d ∷ r))
unfolding json_quoted json_unquote_from escaped
json_unquote_from-quoted n c d r h = ground (arith, json_unquote_from-hex n c (d ∷ r) h)

append_ne : (xs : Bytes) (y : ℕ) (ys : Bytes) → xs ++ y ∷ ys ≢ []
append_ne [] y ys = λ e. ground arith
append_ne (x ∷ xs) y ys = λ e. ground arith

json_unquote_from-byte :
    (n c : ℕ) (t : Bytes)
    → 1 ≤ c
    → t ≢ []
    → json_unquote_from (suc n) b'"' (json_quoted c ++ t)
      ≡ adds (c ∷ []) (json_unquote_from n b'"' t)
json_unquote_from-byte n c [] h k = absurd (k refl)
json_unquote_from-byte n c (d ∷ r) h k = json_unquote_from-quoted n c d r h

json_unquote_from-end :
    (n : ℕ) (rest : Bytes) → json_unquote_from (suc n) b'"' (b'"' ∷ rest) ≡ unquoted [] rest
unfolding json_unquote_from
json_unquote_from-end n [] = refl
json_unquote_from-end n (d ∷ rest) = refl

json_unquote_from-json_quote :
    (n : ℕ) (s rest : Bytes)
    → All (λ c. 1 ≤ c) s
    → length s < n
    → json_unquote_from n b'"' (json_quote s ++ b'"' ∷ rest) ≡ unquoted s rest
unfolding json_quote adds
json_unquote_from-json_quote zero s rest hs h = absurd (omega arith)
json_unquote_from-json_quote (suc n) [] rest hs h = json_unquote_from-end n rest
json_unquote_from-json_quote (suc n) (c ∷ s) rest (hc, hs) h =
    let t = json_quote s ++ b'"' ∷ rest in
    ap (json_unquote_from (suc n) b'"') (append_assoc (json_quoted c) (json_quote s) (b'"' ∷ rest))
    ∙ json_unquote_from-byte n c t hc (append_ne (json_quote s) b'"' rest)
    ∙ ap (adds (c ∷ [])) (json_unquote_from-json_quote n s rest hs (omega arith))

length-json_quoted : (c : ℕ) → 1 ≤ length (json_quoted c)
unfolding json_quoted
length-json_quoted c = ground arith

length-json_quote : (s : Bytes) → length s ≤ length (json_quote s)
unfolding json_quote
length-json_quote [] = omega arith
length-json_quote (c ∷ s) =
    omega (
      arith,
      length-json_quote s,
      length-json_quoted c,
      length-append (json_quoted c) (json_quote s),
    )

-- A text without terminators in it that was quoted and put between quotation marks is read back,
-- and the reader stops behind the second mark.
pub json_unquote-json_quote :
    (s rest : Bytes)
    → All (λ c. 1 ≤ c) s
    → json_unquote (b'"' ∷ (json_quote s ++ b'"' ∷ rest)) ≡ unquoted s rest
unfolding json_unquote
json_unquote-json_quote s rest hs =
    json_unquote_from-json_quote (suc (length (json_quote s ++ b'"' ∷ rest))) s rest hs
      (omega (arith, length-json_quote s, length-append (json_quote s) (b'"' ∷ rest)))

json_unquote_from-behind :
    (n : ℕ) (s : Bytes)
    → All (λ c. (c ≢ b'"') × (c ≢ b'\\')) s
    → length s < n
    → json_unquote_from n b'"' s ≡ behind
unfolding json_unquote_from adds
json_unquote_from-behind zero s hs h = absurd (omega arith)
json_unquote_from-behind (suc n) [] hs h = refl
json_unquote_from-behind (suc zero) (c ∷ []) (hc, hs) h = absurd (omega arith)
json_unquote_from-behind (suc (suc n)) (c ∷ []) (hc, hs) h = ground arith
json_unquote_from-behind (suc n) (c ∷ (d ∷ s)) (hc, hs) h =
    ground (arith, json_unquote_from-behind n (d ∷ s) hs (omega arith))

-- A text that starts with a quotation mark and has no other, nor an escape, is read behind its
-- terminator.
json_unquote-behind :
    (s : Bytes) → All (λ c. (c ≢ b'"') × (c ≢ b'\\')) s → json_unquote (b'"' ∷ s) ≡ behind
unfolding json_unquote
json_unquote-behind s hs = json_unquote_from-behind (suc (length s)) s hs (omega arith)
