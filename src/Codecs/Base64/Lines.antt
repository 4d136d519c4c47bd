-- ===== src/Codecs/Base64/Lines.antt =====
-- The full lines of the encoder, read back.
use onion.Prelude.{
  ℕ, zero, suc, ◌+◌, ◌-◌, ◌<◌, [], ◌∷◌, ◌++◌, ◌≡◌, ap, ◌∙◌, ltb, ltb→lt, Bool-cases, inl, inr,
  Bytes, length, take, drop, arith, length-append, append_assoc, take-append-drop, length-take,
  length-drop,
}
use onion.Prelude.Predicates.{All-take, All-drop, IsBuffer}
use onion.Codecs.Base64.{encode_line, encode_last, encode_lines, decode_loop, finish, decoded}
use onion.Codecs.Base64.Letters.{decode_loop-encode_line, decode_loop-newline}
use onion.Codecs.Base64.Last.{finish-encode_last}

-- Every line ends in a line feed, behind at least one group.
pub length-encode_last : (o : Bytes) → 0 < length o → 4 < length (encode_last o)
unfolding encode_last
length-encode_last [] h = absurd (omega arith)
length-encode_last (a ∷ []) h = omega arith
length-encode_last (a ∷ b ∷ []) h = omega arith
length-encode_last (a ∷ b ∷ c ∷ []) h = omega arith
length-encode_last (a ∷ b ∷ c ∷ d ∷ o) h = omega (arith, length-encode_last (d ∷ o) (omega arith))

pub length-encode_lines : (n : ℕ) (o : Bytes) → 0 < length o → 4 < length (encode_lines n o)
unfolding encode_lines
length-encode_lines zero o h = length-encode_last o h
length-encode_lines (suc n) o h = elim (Bool-cases (ltb 57 (length o))) [
  | inl e ↦ rw e (
      omega (
        arith,
        ltb→lt 57 (length o) e,
        length-drop 57 o,
        length-encode_lines n (drop 57 o),
        length-append (encode_line (take 57 o)) (b'\n' ∷ encode_lines n (drop 57 o)),
      ))
  | inr e ↦ rw e (length-encode_last o h)
]

-- A full line takes 19 rounds, and its line feed is skipped.
pub decode_loop_line :
    (n p q : ℕ) (l m ret : Bytes)
    → IsBuffer l
    → length l ≡ 57
    → 19 < n
    → 2 < length m
    → (p' : ℕ) × (decode_loop n
          (record { second_last = p; last = q; rest = encode_line l ++ b'\n' ∷ m })
          ret
        ≡ decode_loop
            (suc (n - 20))
            (record { second_last = p'; last = b'\n'; rest = m })
            (ret ++ l))
decode_loop_line n p q l m ret hl size fuel more =
    let (p', q', e) =
      decode_loop-encode_line 19 (suc (n - 20)) p q l (b'\n' ∷ m) ret hl (omega arith) in
    let rounds : n ≡ 19 + suc (n - 20) = omega arith in
    (
      q',
      ap
            (λ f.
              decode_loop f
                (record { second_last = p; last = q; rest = encode_line l ++ b'\n' ∷ m }) ret)
            rounds
          ∙ e
          ∙ decode_loop-newline (n - 20) p' q' m (ret ++ l) more,
    )

-- All the lines, read from the first letter.
pub finish-encode_lines :
    (f n p q : ℕ) (o ret : Bytes)
    → IsBuffer o
    → 0 < length o
    → length o < n
    → finish (
        decode_loop n (record { second_last = p; last = q; rest = encode_lines f o ++ 0 ∷ [] }) ret)
      ≡ decoded (ret ++ o)
unfolding encode_lines
finish-encode_lines zero n p q o ret ho pos fuel = finish-encode_last n p q o ret ho pos fuel
finish-encode_lines (suc f) n p q o ret ho pos fuel = elim (Bool-cases (ltb 57 (length o))) [
  | inr e ↦ rw e (finish-encode_last n p q o ret ho pos fuel)
  | inl e ↦
      let long = ltb→lt 57 (length o) e in
      let left = length-drop 57 o in
      let more = encode_lines f (drop 57 o) in
      let (p', step) =
        decode_loop_line n p q (take 57 o) (more ++ 0 ∷ []) ret (All-take _ 57 o ho)
          (omega (arith, length-take 57 o)) (omega arith)
          (omega (
            arith,
            length-append more (0 ∷ []),
            length-encode_lines f (drop 57 o) (omega arith),
          )) in
      rw (e, append_assoc (encode_line (take 57 o)) (b'\n' ∷ more) (0 ∷ []))
        (ap finish step
          ∙ finish-encode_lines f (suc (n - 20)) p' b'\n' (drop 57 o) (ret ++ take 57 o)
              (All-drop _ 57 o ho) (omega arith) (omega arith)
          ∙ ap decoded (
              append_assoc ret (take 57 o) (drop 57 o)
              ∙ ap (λ t. ret ++ t) (take-append-drop 57 o)))
]
