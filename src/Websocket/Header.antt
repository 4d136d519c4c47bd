-- ===== src/Websocket/Header.antt =====
-- What a client reads back from a header that `onion_websocket_write` sends.
use onion.Prelude.{
  ℕ, ◌+◌, ◌*◌, ◌/◌, ◌%◌, ◌≤◌, ◌<◌, [], ◌∷◌, ◌++◌, Bool, true, false, ◌≡◌, refl, ap, ◌∙◌, ◌==◌,
  Bool-cases, inl, inr, lt→ltb, ltb→lt, le→leb, lt→leb, ltb, leb, Bytes, arith,
}
use onion.Websocket.{byte_at, write_header}
use onion.Websocket.Socket.{
  Socket, arrived, number, read_start, read_number, read_length, read_mask, read_header,
}

abbrev pub on : Bytes → Socket Bytes → Socket Bytes
on input s = record s { input = input }

-- A socket that has read a header without a mask.
abbrev pub announced : Bool → ℕ → ℕ → Bytes → Socket Bytes → Socket Bytes
announced fin opcode n rest s = record s {
  fin = fin;
  masked = false;
  opcode = opcode;
  data_left = n;
  input = rest;
}

-- A socket that has read the first two bytes.
abbrev pub begun : ℕ → ℕ → Bytes → Socket Bytes → Socket Bytes
begun first second rest s = record s {
  fin = leb 128 first;
  masked = leb 128 second;
  opcode = first % 16;
  data_left = second % 128;
  input = rest;
}

abbrev pub sized : ℕ → Bytes → Socket Bytes → Socket Bytes
sized n rest s = record s { data_left = n; input = rest }

pub read_start-arrived :
    (first second : ℕ) (rest : Bytes) (s : Socket Bytes)
    → read_start arrived (on (first ∷ second ∷ rest) s) ≡ (true, begun first second rest s)
unfolding read_start
read_start-arrived first second rest s = refl

pub read_length_short : (s : Socket Bytes) → s.data_left < 126 → read_length arrived s ≡ (true, s)
unfolding read_length
read_length_short s h =
    let not_two : (s.data_left == 126) ≡ false = ground arith in
    let not_eight : (s.data_left == 127) ≡ false = ground arith in rw (not_two, not_eight) refl

pub read_length_two :
    (a b : ℕ) (rest : Bytes) (s : Socket Bytes)
    → s.data_left ≡ 126
    → read_length arrived (on (a ∷ b ∷ rest) s) ≡ (true, sized (a * 256 + b) rest s)
unfolding read_length read_number number
read_length_two a b rest s h =
    let two : (s.data_left == 126) ≡ true = ground arith in
    let e : (0 * 256 + a) * 256 + b ≡ a * 256 + b = omega arith in
    rw two (ap (λ n. (true, sized n rest s)) e)

-- A header whose second byte has no mask bit.
read_header-unmasked :
    (first second n : ℕ) (rest rest' : Bytes) (s : Socket Bytes)
    → second < 128
    → read_length arrived (begun first second rest s)
      ≡ (true, sized n rest' (begun first second rest s))
    → read_header arrived (on (first ∷ second ∷ rest) s)
      ≡ (true, announced (leb 128 first) (first % 16) n rest' s)
unfolding read_header read_mask
read_header-unmasked first second n rest rest' s h e =
    rw (read_start-arrived first second rest s, e, lt→leb 128 second h) refl

first_byte :
    (opcode n : ℕ) (rest : Bytes) (s : Socket Bytes)
    → opcode < 16
    → announced (leb 128 (128 + opcode % 16)) ((128 + opcode % 16) % 16) n rest s
      ≡ announced true opcode n rest s
first_byte opcode n rest s h =
    let same : (128 + opcode % 16) % 16 ≡ opcode = omega arith in
    rw (le→leb 128 (128 + opcode % 16) (omega arith), same) refl

-- A frame of fewer than 65535 bytes and an opcode below 16 is announced as it is: its opcode and
-- length are read back, and nothing of what follows is taken for the header.
pub read_header-write_header :
    (u v opcode len : ℕ) (rest : Bytes) (s : Socket Bytes)
    → opcode < 16
    → len < 65535
    → read_header arrived (on (write_header u v opcode len ++ rest) s)
      ≡ (true, announced true opcode len rest s)
unfolding write_header
read_header-write_header u v opcode len rest s h k = elim (Bool-cases (ltb len 126)) [
  | inl c ↦
      let short : len < 126 = ltb→lt len 126 c in
      let same : len % 128 ≡ len = omega arith in
      rw c (
        read_header-unmasked (128 + opcode % 16) len len rest rest s (omega arith) (
          read_length_short (begun (128 + opcode % 16) len rest s) (omega arith)
          ∙ ap (λ n. (true, sized n rest (begun (128 + opcode % 16) len rest s))) same)
        ∙ ap (λ f. (true, f)) (first_byte opcode len rest s h))
  | inr c ↦
      let e : byte_at 1 len * 256 + byte_at 0 len ≡ len = omega arith in
      let more = byte_at 1 len ∷ byte_at 0 len ∷ rest in
      rw (c, lt→ltb len 65535 k)
        (read_header-unmasked (128 + opcode % 16) 126 len more rest s (omega arith) (
            read_length_two (byte_at 1 len) (byte_at 0 len) rest
              (begun (128 + opcode % 16) 126 more s) refl
            ∙ ap (λ n. (true, sized n rest (begun (128 + opcode % 16) 126 more s))) e)
          ∙ ap (λ f. (true, f)) (first_byte opcode len rest s h))
]

shifted_length :
    (u v len : ℕ)
    → len < 2147483648
    → number 0 (
        u
        ∷ v
        ∷ byte_at 7 len
        ∷ byte_at 6 len
        ∷ byte_at 5 len
        ∷ byte_at 4 len
        ∷ byte_at 3 len
        ∷ byte_at 2 len
        ∷ [])
      ≡ u * 72057594037927936 + v * 281474976710656 + len / 65536
unfolding number
shifted_length u v len h = omega arith

-- The length of a frame of at least 65535 bytes, and fewer than 2147483648, is not what is
-- announced: two bytes that were never set come first, and the lowest two bytes of the length are
-- missing.
read_header-write_header_long :
    (u v opcode len : ℕ) (rest : Bytes) (s : Socket Bytes)
    → opcode < 16
    → 65535 ≤ len
    → len < 2147483648
    → read_header arrived (on (write_header u v opcode len ++ rest) s) ≡ (
      true,
      announced true opcode (u * 72057594037927936 + v * 281474976710656 + len / 65536) rest s,
    )
unfolding write_header read_length read_number
read_header-write_header_long u v opcode len rest s h k m =
    let not_short : ltb len 126 ≡ false = ground arith in
    let not_medium : ltb len 65535 ≡ false = ground arith in
    let more =
      u
      ∷ v
      ∷ byte_at 7 len
      ∷ byte_at 6 len
      ∷ byte_at 5 len
      ∷ byte_at 4 len
      ∷ byte_at 3 len
      ∷ byte_at 2 len
      ∷ rest in
    rw (not_short, not_medium)
      (read_header-unmasked (128 + opcode % 16) 127 _ more rest s (omega arith) (
          ap (λ n. (true, sized n rest (begun (128 + opcode % 16) 127 more s)))
            (shifted_length u v len m))
        ∙ ap (λ f. (true, f)) (first_byte opcode _ rest s h))
