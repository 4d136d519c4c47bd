-- ===== src/Codecs/Html/Decode.antt =====
-- HTML quoting against a reader of entities.
use mathlib.Core.List.{flat_map}
use onion.Prelude.{
  ℕ, zero, suc, ◌+◌, ◌≤◌, ◌<◌, [], ◌∷◌, ◌++◌, Bool, true, false, none, some, ◌≡◌, ◌≢◌, refl, sym,
  ◌==◌, ◌&&◌, ==_iff, zero-add, if◌then◌else◌, Bytes, codes, length, length-append, arith,
  append-nil, append_assoc, Bool-cases, inl, inr, ◌∙◌, ap,
}
use onion.Prelude.Predicates.{All, All-append}
use onion.Codecs.Html.{
  html_add_enc, html_encoding_size, html_size, html_write, html_quote, html_quote_dup, html_safe,
}

-- Neither an angle bracket nor a quote, which HTML text and attribute values cannot hold.
abbrev pub IsPlain : ℕ → Type 0
IsPlain c = (c ≢ b'<') × (c ≢ b'>') × (c ≢ b'"') × (c ≢ b'\'')

html_add_enc-size : (c : ℕ) → length (html_add_enc c) ≡ html_encoding_size c
unfolding html_add_enc html_encoding_size
html_add_enc-size c = ground arith

html_write-flat_map : (t s : Bytes) → html_write t s ≡ t ++ flat_map html_add_enc s
unfolding html_write flat_map
html_write-flat_map t [] = sym (append-nil t)
html_write-flat_map t (c ∷ s) =
    html_write-flat_map (t ++ html_add_enc c) s
    ∙ append_assoc t (html_add_enc c) (flat_map html_add_enc s)

html_size-length : (n : ℕ) (s : Bytes) → html_size n s ≡ n + length (flat_map html_add_enc s)
unfolding html_size flat_map
html_size-length n [] = omega arith
html_size-length n (c ∷ s) = omega (
  arith,
  html_size-length (n + html_encoding_size c) s,
  html_add_enc-size c,
  length-append (html_add_enc c) (flat_map html_add_enc s),
)

html_encoding_size_pos : (c : ℕ) → 1 ≤ html_encoding_size c
unfolding html_encoding_size
html_encoding_size_pos c = ground arith

abbrev starts : Bytes → Bytes → Bool
starts [] s = true
starts (c ∷ p) [] = false
starts (c ∷ p) (d ∷ s) = (c == d) && starts p s

-- What an ampersand before `s` stands for, and how many bytes of `s` belong to it.
entity : Bytes → ℕ × ℕ
entity s =
    if starts (codes "lt;") s
    then (b'<', 3)
    else if starts (codes "gt;") s
    then (b'>', 3)
    else if starts (codes "quot;") s
    then (b'"', 5)
    else if starts (codes "amp;") s
    then (b'&', 4)
    else if starts (codes "#39;") s
    then (b'\'', 4)
    else (b'&', 0)

-- A reader of HTML text that knows the five entities and skips the `k` bytes that belong to the
-- entity before; any other ampersand stands for itself.
pub html_decode : ℕ → Bytes → Bytes
unfolding entity
html_decode k [] = []
html_decode (suc k) (c ∷ s) = html_decode k s
html_decode zero (c ∷ s) =
    let read = (entity s).0 ∷ html_decode (entity s).1 s in
    let plain = c ∷ html_decode 0 s in if c == b'&' then read else plain

html_decode-html_add_enc :
    (c : ℕ) (r : Bytes) → html_decode 0 (html_add_enc c ++ r) ≡ c ∷ html_decode 0 r
unfolding html_decode html_add_enc
html_decode-html_add_enc c r = ground arith

html_decode-flat_map : (s : Bytes) → html_decode 0 (flat_map html_add_enc s) ≡ s
unfolding flat_map
html_decode-flat_map [] = unfold html_decode in refl
html_decode-flat_map (c ∷ s) =
    html_decode-html_add_enc c (flat_map html_add_enc s) ∙ ap (λ t. c ∷ t) (html_decode-flat_map s)

html_add_enc-IsPlain : (c : ℕ) → All IsPlain (html_add_enc c)
unfolding html_add_enc
html_add_enc-IsPlain c = ground arith

flat_map-IsPlain : (s : Bytes) → All IsPlain (flat_map html_add_enc s)
unfolding flat_map
flat_map-IsPlain [] = tt
flat_map-IsPlain (c ∷ s) =
    All-append IsPlain (html_add_enc c) (flat_map html_add_enc s) (html_add_enc-IsPlain c)
      (flat_map-IsPlain s)

-- A byte that takes one place stands for itself.
html_add_enc_one : (c : ℕ) → html_encoding_size c ≡ 1 → html_add_enc c ≡ c ∷ []
unfolding html_add_enc html_encoding_size
html_add_enc_one c h = ground arith

length-le-flat_map : (s : Bytes) → length s ≤ length (flat_map html_add_enc s)
unfolding flat_map
length-le-flat_map [] = omega arith
length-le-flat_map (c ∷ s) = omega (
  arith,
  length-le-flat_map s,
  html_add_enc-size c,
  html_encoding_size_pos c,
  length-append (html_add_enc c) (flat_map html_add_enc s),
)

flat_map_same :
    (s : Bytes) → length (flat_map html_add_enc s) ≡ length s → flat_map html_add_enc s ≡ s
unfolding flat_map
flat_map_same [] h = refl
flat_map_same (c ∷ s) h =
    let one : html_encoding_size c ≡ 1 = omega (
      arith,
      length-le-flat_map s,
      html_add_enc-size c,
      html_encoding_size_pos c,
      length-append (html_add_enc c) (flat_map html_add_enc s),
    ) in
    let rest : length (flat_map html_add_enc s) ≡ length s =
      omega (
        arith,
        one,
        html_add_enc-size c,
        length-append (html_add_enc c) (flat_map html_add_enc s),
      ) in
    rw (html_add_enc_one c one) (ap (λ t. c ∷ t) (flat_map_same s rest))

html_safe-flat_map : (s : Bytes) → html_safe s ≡ flat_map html_add_enc s
unfolding html_safe html_quote
html_safe-flat_map s = elim (Bool-cases (html_size 0 s == length s)) [
  | inl e ↦ rw (e, html_safe) (sym (flat_map_same s (ground (arith, html_size-length 0 s))))
  | inr e ↦ rw (e, html_safe) (html_write-flat_map [] s)
]

-- What `onion_response_write_html_safe` writes for a text holds no angle bracket and no quote, and
-- a reader of entities reads the text back from it.
pub html_decode-html_safe :
    (s : Bytes) → All IsPlain (html_safe s) × (html_decode 0 (html_safe s) ≡ s)
html_decode-html_safe s = rw (html_safe-flat_map s) (flat_map-IsPlain s, html_decode-flat_map s)

-- A copy that `onion_html_quote` gives is as long as the first loop counts, and longer than the text.
pub html_quote-size :
    (s t : Bytes) → html_quote s ≡ some t → (length t ≡ html_size 0 s) × (length s < length t)
unfolding html_quote
html_quote-size s t h =
    ground (arith, html_size-length 0 s, html_write-flat_map [] s, length-le-flat_map s)

-- `onion_html_quote_dup` returns NULL for every text in which no byte needs quoting.
pub html_quote_dup_plain : (s : Bytes) → flat_map html_add_enc s ≡ s → html_quote_dup s ≡ none
unfolding html_quote_dup html_quote
html_quote_dup_plain s h =
    let e : (html_size 0 s == length s) ≡ true =
      (==_iff _ _).1 (html_size-length 0 s ∙ zero-add _ ∙ ap length h) in
    rw e
