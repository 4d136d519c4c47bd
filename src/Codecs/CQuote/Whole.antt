-- ===== src/Codecs/CQuote/Whole.antt =====
-- `onion_c_quote_new` quotes all of a text, in the room that it counts.
use mathlib.Core.List.{flat_map}
use onion.Prelude.{
  ℕ, ◌+◌, ◌-◌, ◌≤◌, [], ◌∷◌, ◌++◌, true, false, ◌&&◌, ◌≡◌, refl, ap, sym, ◌∙◌, ltb, leb, Bytes,
  length, arith, append_assoc, append-nil, length-append, lt→leb,
}
use onion.Codecs.CQuote.{c_escape, c_quote_from, c_quote, c_quote_size, c_quote_new}

-- The room that one byte is given.
abbrev room : ℕ → ℕ
room p = c_quote_size 0 (p ∷ [])

room-c_escape : (p : ℕ) → (length (c_escape p) ≤ room p) × (1 ≤ room p)
unfolding c_escape c_quote_size
room-c_escape p = ground arith

c_quote_size-cons :
    (l p : ℕ) (str : Bytes) → c_quote_size l (p ∷ str) ≡ c_quote_size (l + room p) str
unfolding c_quote_size
c_quote_size-cons l p str = ap (λ n. c_quote_size n str) (ground arith)

c_quote_size-add : (l : ℕ) (str : Bytes) → c_quote_size l str ≡ l + c_quote_size 0 str
unfolding c_quote_size
c_quote_size-add l [] = omega arith
c_quote_size-add l (p ∷ str) = omega (
  arith,
  c_quote_size-cons l p str,
  c_quote_size-cons 0 p str,
  c_quote_size-add (l + room p) str,
  c_quote_size-add (0 + room p) str,
)

wide_room : (p : ℕ) → ltb 127 p ≡ true → 4 ≤ room p
unfolding c_quote_size
wide_room p h = ground arith

enough : (l p : ℕ) → room p ≤ l → (ltb 127 p && ltb l 4) ≡ false
enough l p h = ground (arith, wide_room p)

-- With room for the text, no byte is left out.
c_quote_from-whole :
    (l : ℕ) (str : Bytes)
    → c_quote_size 0 str ≤ l
    → c_quote_from l str ≡ flat_map c_escape str ++ b'"' ∷ []
unfolding c_quote_from flat_map
c_quote_from-whole l [] h = refl
c_quote_from-whole l (p ∷ []) h =
    let e = c_quote_size-cons 0 p [] in
    let a = c_quote_size-add (0 + room p) [] in
    rw (enough l p (omega arith))
      (ground arith ∙ ap (λ t. t ++ b'"' ∷ []) (sym (append-nil (c_escape p))))
c_quote_from-whole l (p ∷ (q ∷ str)) h =
    let e = c_quote_size-cons 0 p (q ∷ str) in
    let a = c_quote_size-add (0 + room p) (q ∷ str) in
    let e' = c_quote_size-cons 0 q str in
    let a' = c_quote_size-add (0 + room q) str in
    let one = room-c_escape p in
    let other = room-c_escape q in
    let more : leb l 1 ≡ false = lt→leb l 1 (omega arith) in
    rw (enough l p (omega arith), more)
      (ap (λ t. c_escape p ++ t) (c_quote_from-whole (l - 1) (q ∷ str) (omega arith))
        ∙ sym (append_assoc (c_escape p) (flat_map c_escape (q ∷ str)) (b'"' ∷ [])))

length-flat_map : (str : Bytes) → length (flat_map c_escape str) ≤ c_quote_size 0 str
unfolding flat_map
length-flat_map [] = omega arith
length-flat_map (p ∷ str) = omega (
  arith,
  length-flat_map str,
  room-c_escape p,
  length-append (c_escape p) (flat_map c_escape str),
  c_quote_size-cons 0 p str,
  c_quote_size-add (0 + room p) str,
)

-- Every byte of the text is quoted, between two quotation marks, and what is written takes no more
-- room with its terminator than was counted.
pub c_quote_new-flat_map :
    (str : Bytes)
    → (c_quote_new str ≡ b'"' ∷ (flat_map c_escape str ++ b'"' ∷ []))
      × (length (c_quote_new str) + 1 ≤ c_quote_size 3 str)
unfolding c_quote_new c_quote
c_quote_new-flat_map str =
    let size = c_quote_size-add 3 str in
    let e = c_quote_from-whole (c_quote_size 3 str - 3) str (omega arith) in
    let fits = length-append (flat_map c_escape str) (b'"' ∷ []) in
    (rw e refl, rw e (omega (arith, length-flat_map str)))
