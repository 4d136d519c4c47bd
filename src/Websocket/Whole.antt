-- ===== src/Websocket/Whole.antt =====
-- Which headers are whole, where everything that the client sends has arrived.
use onion.Prelude.{
  ℕ, ◌+◌, ◌%◌, [], ◌∷◌, Bool, true, false, ◌≡◌, refl, sym, ap, ◌∙◌, ◌==◌, if◌then◌else◌, Bool-cases,
  inl, inr, leb, Bytes, length, take, drop, get_or, length-drop, length-take, arith,
}
use onion.Websocket.Socket.{
  Socket, arrived, read_start, read_number, read_length, read_mask, read_header, and_then,
}
use onion.Websocket.Header.{on, begun}

-- The number of bytes of a header, by its second byte.
abbrev length_size : ℕ → ℕ
length_size short = if short == 126 then 2 else if short == 127 then 8 else 0

abbrev mask_size : Bool → ℕ
mask_size masked = if masked then 4 else 0

abbrev pub header_size : Bytes → ℕ
header_size input =
    2 + length_size (get_or input 1 0 % 128) + mask_size (leb 128 (get_or input 1 0))

takes : (n : ℕ) (xs : Bytes) → (length (take n xs) == n) ≡ leb n (length xs)
takes n xs = ground (arith, length-take n xs)

-- What a step leaves: it went on exactly where `n` bytes were there, and has read them.
abbrev Takes : ℕ → Bytes → Bool → Bool × Socket Bytes → Type 0
Takes n input masked r =
    (r.0 ≡ leb n (length input)) × (r.0 ≡ true → (r.1.input ≡ drop n input) × (r.1.masked ≡ masked))

read_number-Takes :
    (n : ℕ) (input : Bytes) (s : Socket Bytes)
    → Takes n input s.masked (read_number arrived n (on input s))
unfolding read_number
read_number-Takes n input s = elim (Bool-cases (length (take n input) == n)) [
  | inl e ↦ rw (e, read_number) (sym e ∙ takes n input, λ h. (refl, refl))
  | inr e ↦ rw (e, read_number) (sym e ∙ takes n input, λ h. (refl, refl))
]

read_length-Takes :
    (input : Bytes) (s : Socket Bytes)
    → Takes (length_size s.data_left) input s.masked (read_length arrived (on input s))
unfolding read_length
read_length-Takes input s = elim (Bool-cases (s.data_left == 126)) [
  | inl e ↦ rw (e, read_length) (read_number-Takes 2 input s)
  | inr e ↦ elim (Bool-cases (s.data_left == 127)) [
    | inl f ↦ rw (e, f, read_length) (read_number-Takes 8 input s)
    | inr f ↦ rw (e, f, read_length) (ground arith, λ h. (refl, refl))
  ]
]

read_mask_lem :
    (s : Socket Bytes) → (read_mask arrived s).0 ≡ leb (mask_size s.masked) (length s.input)
unfolding read_mask
read_mask_lem s = elim (Bool-cases s.masked) [
  | inl e ↦ elim (Bool-cases (length (take 4 s.input) == 4)) [
    | inl f ↦ rw (e, f, read_mask) (sym f ∙ takes 4 s.input)
    | inr f ↦ rw (e, f, read_mask) (sym f ∙ takes 4 s.input)
  ]
  | inr e ↦ rw (e, read_mask) (ground arith)
]

-- Two steps, one after the other.
masked_after :
    (n : ℕ) (input : Bytes) (masked : Bool) (r : Bool × Socket Bytes)
    → Takes n input masked r
    → (and_then arrived r (read_mask arrived)).0 ≡ leb (n + mask_size masked) (length input)
masked_after n input masked (true, s) (h, k) =
    let (e, f) = k refl in
    read_mask_lem s
    ∙ ap (λ b. leb (mask_size b) (length s.input)) f
    ∙ ground (arith, length-drop n input, ap length e)
masked_after n input masked (false, s) (h, k) = ground arith

-- Where all that the client sends has arrived: the header of a frame is read exactly where it is
-- whole, two bytes and those that the second of them asks for; otherwise the connection closes.
pub read_header-whole :
    (input : Bytes) (s : Socket Bytes)
    → (read_header arrived (on input s)).0 ≡ leb (header_size input) (length input)
unfolding read_header read_start
read_header-whole [] s = refl
read_header-whole (first ∷ []) s = refl
read_header-whole (first ∷ second ∷ rest) s =
    masked_after (length_size (second % 128)) rest (leb 128 second)
      (read_length arrived (begun first second rest s))
      (read_length-Takes rest (begun first second rest s))
    ∙ ground arith
