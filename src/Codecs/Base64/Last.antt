-- ===== src/Codecs/Base64/Last.antt =====
-- The last line of the encoder, with its padding, read back.
use onion.Prelude.{
  ℕ, zero, suc, ◌+◌, ◌-◌, ◌*◌, ◌/◌, ◌%◌, ◌<◌, [], ◌∷◌, ◌++◌, some, ◌≡◌, refl, ap, ◌∙◌, ap₂, Bytes,
  length, take, arith, take_all, length-append, append_assoc,
}
use onion.Prelude.Predicates.{IsBuffer}
use onion.Codecs.Base64.{
  code64, encode_group, encode_last, get_next, decode_group, decode_loop, cut_padding, finish,
  decoded,
}
use onion.Codecs.Base64.Letters.{
  code64_facts, get_next-letter, first_byte, second_byte, decode_loop-encode_group, decode_loop_end,
}

-- Nothing is cut behind a letter.
pub cut_padding_letters :
    (i j : ℕ) (ret m : Bytes)
    → i < 64
    → j < 64
    → cut_padding ret (record { second_last = code64 i; last = code64 j; rest = m }) ≡ ret
unfolding cut_padding
cut_padding_letters i j ret m hi hj =
    rw ((code64_facts i hi).3, (code64_facts j hj).3) (take_all (length ret) ret (omega arith))

pub take-append : (xs ys : Bytes) → take (length xs) (xs ++ ys) ≡ xs
take-append [] ys = refl
take-append (x ∷ xs) ys = ap (λ t. x ∷ t) (take-append xs ys)

pub cut_padding_two :
    (x y z : ℕ) (ret m : Bytes)
    → cut_padding (ret ++ x ∷ y ∷ z ∷ []) (record { second_last = b'='; last = b'='; rest = m })
      ≡ ret ++ x ∷ []
unfolding cut_padding
cut_padding_two x y z ret m =
    let size : length (ret ++ x ∷ y ∷ z ∷ []) - 2 ≡ length (ret ++ x ∷ []) =
      omega (arith, length-append ret (x ∷ y ∷ z ∷ []), length-append ret (x ∷ [])) in
    rw (size, ← append_assoc ret (x ∷ []) (y ∷ z ∷ [])) (take-append (ret ++ x ∷ []) (y ∷ z ∷ []))

pub cut_padding_one :
    (i x y z : ℕ) (ret m : Bytes)
    → i < 64
    → cut_padding (ret ++ x ∷ y ∷ z ∷ []) (record { second_last = code64 i; last = b'='; rest = m })
      ≡ ret ++ x ∷ y ∷ []
unfolding cut_padding
cut_padding_one i x y z ret m h =
    let size : length (ret ++ x ∷ y ∷ z ∷ []) - 1 ≡ length (ret ++ x ∷ y ∷ []) =
      omega (arith, length-append ret (x ∷ y ∷ z ∷ []), length-append ret (x ∷ y ∷ [])) in
    rw ((code64_facts i h).3, size, ← append_assoc ret (x ∷ y ∷ []) (z ∷ []))
      (take-append (ret ++ x ∷ y ∷ []) (z ∷ []))

pub get_next_pad :
    (p q : ℕ) (m : Bytes)
    → get_next (b'=' ∷ m) p q ≡ some (255, record { second_last = q; last = b'='; rest = m })
unfolding get_next
get_next_pad p q m = refl

-- A last group of two letters and one of three.
pub finish_two :
    (n i j p q : ℕ) (ret : Bytes)
    → i < 64
    → j < 64
    → finish (
        decode_loop
          (suc (suc n))
          (record {
            second_last = p;
            last = q;
            rest = code64 i ∷ code64 j ∷ b'=' ∷ b'=' ∷ b'\n' ∷ 0 ∷ [];
          })
          ret)
      ≡ decoded (ret ++ (i % 64 * 4 + j / 16 % 4) % 256 ∷ [])
unfolding decode_loop decode_group
finish_two n i j p q ret hi hj =
    rw
      (
        get_next-letter i _ _ _ hi,
        get_next-letter j _ _ _ hj,
        get_next_pad _ _ _,
        get_next_pad _ _ _,
      )
      (ap decoded (cut_padding_two _ _ _ ret (b'\n' ∷ 0 ∷ [])))

pub finish_three :
    (n i j k p q : ℕ) (ret : Bytes)
    → i < 64
    → j < 64
    → k < 64
    → finish (
        decode_loop
          (suc (suc n))
          (record {
            second_last = p;
            last = q;
            rest = code64 i ∷ code64 j ∷ code64 k ∷ b'=' ∷ b'\n' ∷ 0 ∷ [];
          })
          ret)
      ≡ decoded (ret ++ (i % 64 * 4 + j / 16 % 4) % 256 ∷ (j % 16 * 16 + k / 4 % 16) % 256 ∷ [])
unfolding decode_loop decode_group
finish_three n i j k p q ret hi hj hk =
    rw
      (
        get_next-letter i _ _ _ hi,
        get_next-letter j _ _ _ hj,
        get_next-letter k _ _ _ hk,
        get_next_pad _ _ _,
      )
      (ap decoded (cut_padding_one k _ _ _ ret (b'\n' ∷ 0 ∷ []) hk))

pub finish_four :
    (n a b c p q : ℕ) (ret : Bytes)
    → a < 256
    → b < 256
    → c < 256
    → finish (
        decode_loop
          (suc (suc n))
          (record { second_last = p; last = q; rest = encode_group a b c ++ b'\n' ∷ 0 ∷ [] })
          ret)
      ≡ decoded (ret ++ a ∷ b ∷ c ∷ [])
finish_four n a b c p q ret ha hb hc =
    rw
      (
        decode_loop-encode_group (suc n) a b c p q (b'\n' ∷ 0 ∷ []) ret ha hb hc,
        decode_loop_end n _ _ b'\n' _,
      )
      (ap decoded (
        cut_padding_letters (b % 16 * 4 + c / 64 % 4) (c % 64) (ret ++ a ∷ b ∷ c ∷ [])
          (b'\n' ∷ 0 ∷ []) (omega arith) (omega arith)))

-- The last line of the encoder, read from its first letter.
pub finish-encode_last :
    (n p q : ℕ) (o ret : Bytes)
    → IsBuffer o
    → 0 < length o
    → length o < n
    → finish
        (decode_loop n (record { second_last = p; last = q; rest = encode_last o ++ 0 ∷ [] }) ret)
      ≡ decoded (ret ++ o)
unfolding encode_last
finish-encode_last zero p q o ret _ _ h = elim h [ ]
finish-encode_last (suc n) p q [] ret _ h _ = absurd (omega arith)
finish-encode_last (suc zero) p q (a ∷ o) ret _ _ h = absurd (omega arith)
finish-encode_last (suc (suc n)) p q (a ∷ []) ret (ha, _) _ h =
    finish_two n (a / 4 % 64) (a % 4 * 16 + 0 / 16 % 16) p q ret (omega arith) (omega arith)
    ∙ ap (λ x. decoded (ret ++ x ∷ [])) (first_byte a 0 ha)
finish-encode_last (suc (suc n)) p q (a ∷ b ∷ []) ret (ha, (hb, _)) _ h =
    finish_three n (a / 4 % 64) (a % 4 * 16 + b / 16 % 16) (b % 16 * 4 + 0 / 64 % 4) p q ret
      (omega arith) (omega arith) (omega arith)
    ∙ ap₂ (λ x y. decoded (ret ++ x ∷ y ∷ [])) (first_byte a b ha) (second_byte a b 0 hb)
finish-encode_last (suc (suc n)) p q (a ∷ b ∷ c ∷ []) ret (ha, (hb, (hc, _))) _ h =
    finish_four n a b c p q ret ha hb hc
finish-encode_last (suc (suc n)) p q (a ∷ b ∷ c ∷ d ∷ o) ret (ha, (hb, (hc, ho))) _ h =
    ap finish
      (decode_loop-encode_group (suc n) a b c p q (encode_last (d ∷ o) ++ 0 ∷ []) ret ha hb hc)
    ∙ finish-encode_last (suc n) (code64 (b % 16 * 4 + c / 64 % 4)) (code64 (c % 64)) (d ∷ o)
        (ret ++ a ∷ b ∷ c ∷ []) ho (omega arith) (omega arith)
    ∙ ap decoded (append_assoc ret (a ∷ b ∷ c ∷ []) (d ∷ o))
