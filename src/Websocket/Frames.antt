-- ===== src/Websocket/Frames.antt =====
-- The frames of a client, as RFC 6455 has them, read back by a websocket.
use onion.Prelude.{
  ℕ, ◌+◌, ◌*◌, ◌/◌, ◌%◌, ◌≤◌, ◌<◌, [], ◌∷◌, ◌++◌, Bool, true, ◌≡◌, refl, ap, ◌∙◌, ltb, leb,
  if◌then◌else◌, Bool-cases, inl, inr, le→leb, ltb→lt, Bytes, length, drop, append_assoc, arith,
}
use onion.Websocket.Socket.{Socket, arrived, read_length, read_mask, read_header}
use onion.Websocket.Read.{unmask}
use onion.Websocket.Header.{
  on, begun, sized, read_start-arrived, read_length_short, read_length_two,
}
use onion.Websocket.Content.{drop_all}

-- The four bytes of a mask.
abbrev pub mask_of : ℕ → ℕ → ℕ → ℕ → Bytes
mask_of a b c d = a ∷ b ∷ c ∷ d ∷ []

abbrev pub print_length : ℕ → Bytes
print_length len = if ltb len 126 then (128 + len) ∷ [] else 254 ∷ len / 256 ∷ len % 256 ∷ []

abbrev pub print_header : ℕ → Bytes → ℕ → Bytes
print_header opcode mask len = (128 + opcode) ∷ (print_length len ++ mask)

-- A last frame of a client, with a payload of fewer than 65536 bytes.
abbrev pub print_frame : ℕ → Bytes → Bytes → Bytes
print_frame opcode mask payload = print_header opcode mask (length payload) ++ unmask mask 0 payload

-- The socket once the header of such a frame is read.
abbrev pub headed : ℕ → Bytes → ℕ → Bytes → Socket Bytes → Socket Bytes
headed opcode mask len behind s = record s {
  fin = true;
  masked = true;
  opcode = opcode;
  data_left = len;
  mask = mask;
  mask_pos = 0;
  input = behind;
}

abbrev pub entered : ℕ → Bytes → Bytes → Bytes → Socket Bytes → Socket Bytes
entered opcode mask payload rest s =
    headed opcode mask (length payload) (unmask mask 0 payload ++ rest) s

masked_header :
    (first second n a b c d : ℕ) (more rest : Bytes) (s : Socket Bytes)
    → 128 ≤ second
    → read_length arrived (begun first second more s)
      ≡ (true, sized n (a ∷ b ∷ c ∷ d ∷ rest) (begun first second more s))
    → read_header arrived (on (first ∷ second ∷ more) s) ≡ (
      true,
      record s {
        fin = leb 128 first;
        masked = true;
        opcode = first % 16;
        data_left = n;
        mask = mask_of a b c d ++ drop 4 s.mask;
        mask_pos = 0;
        input = rest;
      },
    )
unfolding read_header read_mask
masked_header first second n a b c d more rest s h e =
    rw (read_start-arrived first second more s, e, le→leb 128 second h) refl

-- A socket as `headed`, with the first byte as it was sent.
headed_first :
    (opcode a b c d len : ℕ) (behind : Bytes) (s : Socket Bytes)
    → opcode < 16
    → length s.mask ≡ 4
    → ◌≡◌ {A = Bool × Socket Bytes}
        (
          true,
          record s {
            fin = leb 128 (128 + opcode);
            masked = true;
            opcode = (128 + opcode) % 16;
            data_left = len;
            mask = mask_of a b c d ++ drop 4 s.mask;
            mask_pos = 0;
            input = behind;
          },
        )
        (true, headed opcode (mask_of a b c d) len behind s)
headed_first opcode a b c d len behind s h four =
    let same : (128 + opcode) % 16 ≡ opcode = omega arith in
    let none_left : drop 4 s.mask ≡ [] = drop_all 4 s.mask (omega arith) in
    rw (le→leb 128 (128 + opcode) (omega arith), same, none_left) refl

pub read_header-print_header :
    (opcode a b c d len : ℕ) (behind : Bytes) (s : Socket Bytes)
    → opcode < 16
    → len < 65536
    → length s.mask ≡ 4
    → read_header arrived (on (print_header opcode (mask_of a b c d) len ++ behind) s)
      ≡ (true, headed opcode (mask_of a b c d) len behind s)
read_header-print_header opcode a b c d len behind s h l four =
    let masked = a ∷ b ∷ c ∷ d ∷ behind in
    elim (Bool-cases (ltb len 126)) [
      | inl e ↦
          let short : len < 126 = ltb→lt len 126 e in
          let same : (128 + len) % 128 ≡ len = omega arith in
          rw e (
            masked_header (128 + opcode) (128 + len) len a b c d masked behind s (omega arith) (
              read_length_short (begun (128 + opcode) (128 + len) masked s) (omega arith)
              ∙ ap (λ n. (true, sized n masked (begun (128 + opcode) (128 + len) masked s))) same)
            ∙ headed_first opcode a b c d len behind s h four)
      | inr e ↦
          let same : len / 256 * 256 + len % 256 ≡ len = omega arith in
          let more = (len / 256) ∷ (len % 256) ∷ masked in
          rw e (
            masked_header (128 + opcode) 254 len a b c d more behind s (omega arith) (
              read_length_two (len / 256) (len % 256) masked (begun (128 + opcode) 254 more s) refl
              ∙ ap (λ n. (true, sized n masked (begun (128 + opcode) 254 more s))) same)
            ∙ headed_first opcode a b c d len behind s h four)
    ]

pub read_header-print_frame :
    (opcode a b c d : ℕ) (payload rest : Bytes) (s : Socket Bytes)
    → opcode < 16
    → length payload < 65536
    → length s.mask ≡ 4
    → read_header arrived (on (print_frame opcode (mask_of a b c d) payload ++ rest) s)
      ≡ (true, entered opcode (mask_of a b c d) payload rest s)
read_header-print_frame opcode a b c d payload rest s h l four =
    let mask = mask_of a b c d in
    ap (λ t. read_header arrived (on t s))
      (append_assoc (print_header opcode mask (length payload)) (unmask mask 0 payload) rest)
    ∙ read_header-print_header opcode a b c d (length payload) (unmask mask 0 payload ++ rest) s h l
        four
