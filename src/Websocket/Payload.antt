-- ===== src/Websocket/Payload.antt =====
-- What arrives of the bytes that `onion_websocket_write` is given.
use onion.Prelude.{
  ℕ, zero, suc, ◌+◌, ◌-◌, ◌%◌, ◌≤◌, ◌<◌, List, [], ◌∷◌, ◌++◌, ◌≡◌, refl, zero-add, sym, ap, ◌∙◌,
  ◌==◌, ltb, if◌then◌else◌, Bytes, length, take, drop, arith, append-nil, length-drop, take_all,
  take-append-drop, Bool-cases, inl, inr, lt→ltb, ltb→lt, ==_iff,
}
use onion.Websocket.{write_payload}

-- What a sequence of writes sends.
unfoldable pub joined : List Bytes → Bytes
joined [] = []
joined (piece ∷ pieces) = piece ++ joined pieces

take-drop : (k n : ℕ) (xs : Bytes) → take k xs ++ take n (drop k xs) ≡ take (k + n) xs
take-drop zero n xs = ap (λ m. take m xs) (sym (zero-add n))
take-drop (suc k) zero [] = sym (take_all (suc k + 0) [] (omega arith))
take-drop (suc k) (suc n) [] = sym (take_all (suc k + suc n) [] (omega arith))
take-drop (suc k) n (x ∷ xs) =
    let e : suc (k + n) ≡ suc k + n = omega arith in
    ap (λ t. x ∷ t) (take-drop k n xs) ∙ ap (λ m. take m (x ∷ xs)) e

last_piece :
    (len : ℕ) (rest : Bytes)
    → length rest ≤ 1024
    → len % 1024 ≡ length rest % 1024
    → take (len % 1024) rest ++ []
      ≡ (if (len % 1024) == 0 then take (length rest - 1024) rest else rest)
last_piece len rest h e = elim (Bool-cases ((len % 1024) == 0)) [
  | inl c ↦
      let whole : len % 1024 ≡ 0 = (==_iff (len % 1024) 0).0 c in
      let none_left : len % 1024 ≡ length rest - 1024 = omega arith in
      rw c (append-nil (take (len % 1024) rest) ∙ ap (λ n. take n rest) none_left)
  | inr c ↦
      let some_left : length rest ≤ len % 1024 = ground (arith, ==_iff (len % 1024) 0) in
      rw c (append-nil (take (len % 1024) rest) ∙ take_all (len % 1024) rest some_left)
]

write_payload_from :
    (n len : ℕ) (rest : Bytes)
    → length rest ≤ n
    → len % 1024 ≡ length rest % 1024
    → joined (write_payload n len rest)
      ≡ (if (len % 1024) == 0 then take (length rest - 1024) rest else rest)
unfolding write_payload joined
write_payload_from zero len rest h e = last_piece len rest (omega arith) e
write_payload_from (suc n) len rest h e = elim (Bool-cases (ltb 1024 (length rest))) [
  | inl c ↦
      let more : 1024 < length rest = ltb→lt 1024 (length rest) c in
      let left = length-drop 1024 rest in
      let ih = write_payload_from n len (drop 1024 rest) (omega arith) (omega arith) in
      rw c (
        ap (λ t. take 1024 rest ++ t) ih ∙ elim (Bool-cases ((len % 1024) == 0)) [
          | inl c' ↦
              let whole : len % 1024 ≡ 0 = (==_iff (len % 1024) 0).0 c' in
              let same : 1024 + (length (drop 1024 rest) - 1024) ≡ length rest - 1024 =
                omega arith in
              rw c'
                (take-drop 1024 (length (drop 1024 rest) - 1024) rest ∙ ap (λ n. take n rest) same)
          | inr c' ↦ rw c' (take-append-drop 1024 rest)
        ])
  | inr c ↦ rw c (last_piece len rest (ground (arith, lt→ltb 1024 (length rest))) e)
]

-- The writes after the header hold the bytes of the buffer in order. Where their number is a
-- positive multiple of 1024, the last 1024 of them are never written.
pub write_payload-kept :
    (buffer : Bytes)
    → joined (write_payload (length buffer) (length buffer) buffer)
      ≡ (if (length buffer % 1024) == 0 then take (length buffer - 1024) buffer else buffer)
write_payload-kept buffer =
    write_payload_from (length buffer) (length buffer) buffer (omega arith) refl
