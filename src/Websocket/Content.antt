-- ===== src/Websocket/Content.antt =====
-- Reading the masked content of a frame in pieces, where everything that the client sends has
-- arrived.
use onion.Prelude.{
  ℕ, zero, suc, ◌+◌, ◌%◌, ◌^◌, ◌≤◌, ◌<◌, [], ◌∷◌, ◌++◌, true, false, Option, some, ◌≡◌, refl, ap,
  ◌∙◌, ◌==◌, ltb, Bool-cases, inl, inr, Bytes, length, take, drop, take_all, append-nil,
  length-take, length-drop, arith,
}
use onion.Prelude.Integers.{pos}
use onion.Websocket.Socket.{Socket, arrived}
use onion.Websocket.Read.{unmask, as_int, Returned, read_some, finished, ends, read_content, read}
use onion.Websocket.Mask.{unmask_twice, length-unmask, unmask_mod, take-unmask, drop-unmask}

-- A socket inside of a masked frame, of which a payload is left, with more behind it.
abbrev pub Holds : Bytes → Bytes → Socket Bytes → Type 0
Holds payload rest s =
    (s.masked ≡ true)
    × (s.data_left ≡ length payload)
    × (s.input ≡ unmask s.mask s.mask_pos payload ++ rest)

-- A read that returned the bytes of a payload up to a length, and wrote nothing.
abbrev pub Reads : ℕ → Bytes → Bytes → Socket Bytes → Returned Bytes → Type 0
Reads k payload rest s r =
    (r.value ≡ pos k)
    × (r.stored ≡ take k payload)
    × Holds (drop k payload) rest r.socket
    × (r.socket.sent ≡ s.sent)
    × (r.socket.opcode ≡ s.opcode)

pub take-append : (k : ℕ) (xs ys : Bytes) → k ≤ length xs → take k (xs ++ ys) ≡ take k xs
take-append zero xs ys h = refl
take-append (suc k) [] ys h = absurd (omega arith)
take-append (suc k) (x ∷ xs) ys h = ap (λ t. x ∷ t) (take-append k xs ys (omega arith))

pub drop-append : (k : ℕ) (xs ys : Bytes) → k ≤ length xs → drop k (xs ++ ys) ≡ drop k xs ++ ys
drop-append zero xs ys h = refl
drop-append (suc k) [] ys h = absurd (omega arith)
drop-append (suc k) (x ∷ xs) ys h = drop-append k xs ys (omega arith)

pub drop_all : (k : ℕ) (xs : Bytes) → length xs ≤ k → drop k xs ≡ []
drop_all zero [] h = refl
drop_all zero (x ∷ xs) h = absurd (omega arith)
drop_all (suc k) [] h = refl
drop_all (suc k) (x ∷ xs) h = drop_all k xs (omega arith)

as_int_small : (k : ℕ) → k < 2 ^ 31 → as_int (pos k) ≡ pos k
unfolding as_int
as_int_small k h =
    let same : k % 2 ^ 32 ≡ k = omega arith in
    let small : ltb k (2 ^ 31) ≡ true = ground arith in rw (same, small) refl

module _ (errno : Bytes → ℕ) (unset : Bytes) where
  pub read_some-Reads :
      (k : ℕ) (payload rest : Bytes) (s : Socket Bytes)
      → k ≤ length payload
      → k < 2 ^ 31
      → length payload < 2 ^ 64
      → Holds payload rest s
      → Reads k payload rest s (read_some arrived errno unset k s)
  unfolding read_some
  read_some-Reads k payload rest s h int l (masked, left, input) =
      let hidden = unmask s.mask s.mask_pos payload in
      let long = length-unmask s.mask s.mask_pos payload in
      let content : take k s.input ≡ unmask s.mask s.mask_pos (take k payload) =
        ap (take k) input
        ∙ take-append k hidden rest (omega arith)
        ∙ take-unmask k s.mask_pos s.mask payload in
      let behind : drop k s.input ≡ unmask s.mask (s.mask_pos + k) (drop k payload) ++ rest =
        ap (drop k) input
        ∙ drop-append k hidden rest (omega arith)
        ∙ ap (λ t. t ++ rest) (drop-unmask k s.mask_pos s.mask payload) in
      let count : length (take k s.input) ≡ k =
        ap length content
        ∙ length-unmask s.mask s.mask_pos (take k payload)
        ∙ omega (arith, length-take k payload) in
      let tmp = take k s.input in
      let cut : take k tmp ≡ tmp = take_all k tmp (omega arith) in
      let none_left : drop k tmp ≡ [] = drop_all k tmp (omega arith) in
      rw (masked, count, as_int_small k int)
        (
          refl,
          ap (λ t. unmask s.mask s.mask_pos t ++ drop k tmp) cut
              ∙ ap (λ t. unmask s.mask s.mask_pos tmp ++ t) none_left
              ∙ append-nil (unmask s.mask s.mask_pos tmp)
              ∙ ap (unmask s.mask s.mask_pos) content
              ∙ unmask_twice s.mask s.mask_pos (take k payload),
          (
            refl,
            omega (arith, length-drop k payload),
            behind
                ∙ ap (λ t. t ++ rest)
                    (unmask_mod s.mask (s.mask_pos + k) ((s.mask_pos + k) % 256) (drop k payload)
                      (omega arith)),
          ),
          refl,
          refl,
        )

  pub finished-Reads :
      (k : ℕ) (payload rest : Bytes) (s : Socket Bytes) (r : Returned Bytes)
      → Reads k payload rest s r
      → Reads k payload rest s (finished arrived errno unset r)
  finished-Reads k payload rest s r h = elim (Bool-cases (ends r.value (errno r.socket.input))) [
    | inl e ↦ rw e h
    | inr e ↦ rw e h
  ]

  pub read_content-Reads :
      (more : ℕ → Socket Bytes → Option (Returned Bytes)) (k : ℕ) (payload rest : Bytes)
      (s : Socket Bytes)
      → k ≤ length payload
      → k < 2 ^ 31
      → length payload < 2 ^ 64
      → Holds payload rest s
      → (r : Returned Bytes) × (read_content arrived errno unset more k s ≡ some r)
        × Reads k payload rest s r
  unfolding read_content
  read_content-Reads more k payload rest s h int l holds =
      let (masked, left, input) = holds in
      let enough : ltb s.data_left k ≡ false = ground arith in
      let all : ltb k k ≡ false = ground arith in
      (
        finished arrived errno unset (read_some arrived errno unset k s),
        rw (enough, all) refl,
        finished-Reads k payload rest s (read_some arrived errno unset k s)
            (read_some-Reads k payload rest s h int l holds),
      )

  pub read-Reads :
      (n k : ℕ) (payload rest : Bytes) (s : Socket Bytes)
      → 0 < length payload
      → k ≤ length payload
      → k < 2 ^ 31
      → length payload < 2 ^ 64
      → Holds payload rest s
      → (r : Returned Bytes) × (read arrived errno unset (suc n) k s ≡ some r)
        × Reads k payload rest s r
  unfolding read
  read-Reads n k payload rest s some_left h int l holds =
      let (masked, left, input) = holds in
      let inside : (s.data_left == 0) ≡ false = ground arith in
      rw inside (read_content-Reads (read arrived errno unset n) k payload rest s h int l holds)
