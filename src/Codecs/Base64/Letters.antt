-- ===== src/Codecs/Base64/Letters.antt =====
-- The tables of the codec, and one round of the decoder over one group of letters.
use native.Mathlib.Nat.{suc-add}
use onion.Prelude.{
  ℕ, zero, suc, ◌+◌, ◌*◌, ◌/◌, ◌%◌, ◌<◌, [], ◌∷◌, ◌++◌, Bool, true, false, ◌&&◌, some, ◌≡◌, refl,
  ap, ◌∙◌, not, ◌==◌, ltb, lt→ltb, Bytes, length, get_or, get_elem?, arith, zero-add, append_assoc,
  append-nil,
}
use onion.Prelude.Predicates.{IsBuffer}
use onion.Prelude.Table.{all_below, all_below_sound}
use onion.Codecs.Base64.{
  code64, encode_group, encode_line, db64, is_skipped, get_next, decode_group, decode_loop,
}

-- What the tables say of the letter for an index: it is read back, and is neither skipped nor the
-- padding.
abbrev pub is_letter : ℕ → Bool
is_letter i =
    (get_or db64 (code64 i) 0 == i)
    && ltb (code64 i) 128
    && not (is_skipped (code64 i))
    && not (code64 i == b'=')

pub letters : all_below 64 is_letter ≡ true
unfolding all_below
letters = refl

pub letter : (i : ℕ) → i < 64 → is_letter i ≡ true
letter i h = all_below_sound 64 is_letter i letters h

pub get_elem?-get_or : (l : Bytes) (v : ℕ) → v < length l → get_elem? l v ≡ some (get_or l v 0)
get_elem?-get_or [] v h = absurd (omega arith)
get_elem?-get_or (x ∷ l) zero h = refl
get_elem?-get_or (x ∷ l) (suc v) h = get_elem?-get_or l v (omega arith)

-- The same facts of any values.
pub letter_facts :
    (i x d : ℕ)
    → ((d == i) && ltb x 128 && not (is_skipped x) && not (x == b'=')) ≡ true
    → (d ≡ i) × (x < 128) × (is_skipped x ≡ false) × ((x == b'=') ≡ false)
letter_facts i x d h = ground arith

pub code64_facts :
    (i : ℕ)
    → i < 64
    → (get_or db64 (code64 i) 0 ≡ i)
      × (code64 i < 128)
      × (is_skipped (code64 i) ≡ false)
      × ((code64 i == b'=') ≡ false)
code64_facts i h = letter_facts i (code64 i) (get_or db64 (code64 i) 0) (letter i h)

pub get_next_found :
    (x v p q : ℕ) (m : Bytes)
    → is_skipped x ≡ false
    → get_elem? db64 x ≡ some v
    → get_next (x ∷ m) p q ≡ some (v, record { second_last = q; last = x; rest = m })
unfolding get_next
get_next_found x v p q m e f = rw (e, f)

pub get_next-letter :
    (i p q : ℕ) (m : Bytes)
    → i < 64
    → get_next (code64 i ∷ m) p q ≡ some (i, record { second_last = q; last = code64 i; rest = m })
get_next-letter i p q m h =
    let (value, low, kept, _) = code64_facts i h in
    get_next_found (code64 i) i p q m kept
      (get_elem?-get_or db64 (code64 i) low ∙ ap (λ v. some v) value)

pub first_byte :
    (a b : ℕ) → a < 256 → (a / 4 % 64 % 64 * 4 + (a % 4 * 16 + b / 16 % 16) / 16 % 4) % 256 ≡ a
first_byte a b h = omega arith

pub second_byte :
    (a b c : ℕ)
    → b < 256
    → ((a % 4 * 16 + b / 16 % 16) % 16 * 16 + (b % 16 * 4 + c / 64 % 4) / 4 % 16) % 256 ≡ b
second_byte a b c h = omega arith

pub third_byte : (b c : ℕ) → c < 256 → ((b % 16 * 4 + c / 64 % 4) % 4 * 64 + c % 64) % 256 ≡ c
third_byte b c h = omega arith

pub decode_group-encode_group :
    (a b c p q : ℕ) (m : Bytes)
    → a < 256
    → b < 256
    → c < 256
    → decode_group (record { second_last = p; last = q; rest = encode_group a b c ++ m })
      ≡ some (
        a ∷ b ∷ c ∷ [],
        record { second_last = code64 (b % 16 * 4 + c / 64 % 4); last = code64 (c % 64); rest = m },
      )
unfolding decode_group
decode_group-encode_group a b c p q m ha hb hc = rw (
  get_next-letter (a / 4 % 64) _ _ _ (omega arith),
  get_next-letter (a % 4 * 16 + b / 16 % 16) _ _ _ (omega arith),
  get_next-letter (b % 16 * 4 + c / 64 % 4) _ _ _ (omega arith),
  get_next-letter (c % 64) _ _ _ (omega arith),
  first_byte a b ha,
  second_byte a b c hb,
  third_byte b c hc,
)

-- One round over a group of four letters.
pub decode_loop-encode_group :
    (n a b c p q : ℕ) (m ret : Bytes)
    → a < 256
    → b < 256
    → c < 256
    → decode_loop (suc n) (record { second_last = p; last = q; rest = encode_group a b c ++ m }) ret
      ≡ decode_loop n
          (record {
            second_last = code64 (b % 16 * 4 + c / 64 % 4);
            last = code64 (c % 64);
            rest = m;
          })
          (ret ++ a ∷ b ∷ c ∷ [])
unfolding decode_loop
decode_loop-encode_group n a b c p q m ret ha hb hc = rw (
  lt→ltb 2 (length (encode_group a b c ++ m)) (omega arith),
  decode_group-encode_group a b c p q m ha hb hc,
)

-- A full line of groups.
pub decode_loop-encode_line :
    (j n p q : ℕ) (o m ret : Bytes)
    → IsBuffer o
    → length o ≡ 3 * j
    → (p' : ℕ) × (q' : ℕ) × (decode_loop
          (j + n)
          (record { second_last = p; last = q; rest = encode_line o ++ m })
          ret
        ≡ decode_loop n (record { second_last = p'; last = q'; rest = m }) (ret ++ o))
unfolding encode_line
decode_loop-encode_line zero n p q [] m ret _ _ = (p, q, rw (zero-add, append-nil))
decode_loop-encode_line (suc j) n p q [] m ret _ h = absurd (omega arith)
decode_loop-encode_line j n p q (a ∷ []) m ret _ h = absurd (omega arith)
decode_loop-encode_line j n p q (a ∷ b ∷ []) m ret _ h = absurd (omega arith)
decode_loop-encode_line zero n p q (a ∷ b ∷ c ∷ o) m ret _ h = absurd (omega arith)
decode_loop-encode_line (suc j) n p q (a ∷ b ∷ c ∷ o) m ret (ha, (hb, (hc, ho))) h =
    let (p', q', e) =
      decode_loop-encode_line j n (code64 (b % 16 * 4 + c / 64 % 4)) (code64 (c % 64)) o m
        (ret ++ a ∷ b ∷ c ∷ []) ho (omega arith) in
    (
      p',
      q',
      rw suc-add (
          decode_loop-encode_group (j + n) a b c p q (encode_line o ++ m) ret ha hb hc
          ∙ e
          ∙ ap (decode_loop n (record { second_last = p'; last = q'; rest = m }))
              (append_assoc ret (a ∷ b ∷ c ∷ []) o)),
    )

-- The line feed before the next group is skipped.
pub decode_loop-newline :
    (n p q : ℕ) (m ret : Bytes)
    → 2 < length m
    → decode_loop (suc n) (record { second_last = p; last = q; rest = b'\n' ∷ m }) ret
      ≡ decode_loop (suc n) (record { second_last = q; last = b'\n'; rest = m }) ret
unfolding decode_loop decode_group get_next
decode_loop-newline n p q m ret h =
    rw (lt→ltb 2 (length m) h, lt→ltb 2 (suc (length m)) (omega arith))

-- With one byte and the terminator left the loop has ended.
pub decode_loop_end :
    (n p q c : ℕ) (ret : Bytes)
    → decode_loop (suc n) (record { second_last = p; last = q; rest = c ∷ 0 ∷ [] }) ret
      ≡ some (ret, record { second_last = p; last = q; rest = c ∷ 0 ∷ [] })
unfolding decode_loop
decode_loop_end n p q c ret = refl
