-- ===== src/Block/Contents.antt =====
-- What the operations of a block do to its contents, the bytes before its size.
use onion.Prelude.{
  ◌>>=◌, ℕ, zero, suc, ◌+◌, ◌-◌, ◌^◌, ◌≤◌, ◌<◌, [], ◌∷◌, ◌++◌, Option, some, ◌≡◌, refl, sym, ap,
  ◌∙◌, ltb, leb, ◌==◌, min, max, Bytes, length, take, drop, arith, inl, inr, Bool-cases,
  length-append, length-take, length-drop, ltb→lt, lt→ltb, leb→le, le→leb, ==_iff, append_assoc,
}
use onion.Block.{
  Allocator, Block, to_int, write_at, rewind, new, min_maxsize, grown, add_char, reallocated,
  add_data, add_str, add_block, terminated,
}

abbrev pub contents : Block → Bytes
contents b = take b.size b.data_

-- The allocation is as long as `maxsize` says, and the contents lie in it.
abbrev pub IsValid : Block → Type 0
IsValid b = (length b.data_ ≡ b.maxsize) × (b.size ≤ b.maxsize) × (16 ≤ b.maxsize)

pub to_int-small : (n : ℕ) → n < 2 ^ 31 → to_int n ≡ some n
unfolding to_int
to_int-small n h = rw (lt→ltb n (2 ^ 31) h)

pub write_at-inside :
    (memory : Bytes) (i : ℕ) (s : Bytes)
    → i + length s ≤ length memory
    → write_at memory i s ≡ some (take i memory ++ (s ++ drop (i + length s) memory))
unfolding write_at
write_at-inside memory i s h = rw (le→leb (i + length s) (length memory) h)

length-written :
    (memory : Bytes) (i : ℕ) (s : Bytes)
    → i + length s ≤ length memory
    → length (take i memory ++ (s ++ drop (i + length s) memory)) ≡ length memory
length-written memory i s h =
    let rest = drop (i + length s) memory in
    omega (
      arith,
      length-append (take i memory) (s ++ rest),
      length-append s rest,
      length-take i memory,
      length-drop (i + length s) memory,
    )

take-append : (xs ys : Bytes) → take (length xs) (xs ++ ys) ≡ xs
take-append [] ys = refl
take-append (x ∷ xs) ys = ap (λ t. x ∷ t) (take-append xs ys)

take-written :
    (memory : Bytes) (i : ℕ) (s : Bytes)
    → i + length s ≤ length memory
    → take (i + length s) (take i memory ++ (s ++ drop (i + length s) memory)) ≡ take i memory ++ s
take-written memory i s h =
    let rest = drop (i + length s) memory in
    let n : i + length s ≡ length (take i memory ++ s) =
      omega (arith, length-append (take i memory) s, length-take i memory) in
    ap (λ t. take (i + length s) t) (sym (append_assoc (take i memory) s rest))
    ∙ ap (λ n. take n ((take i memory ++ s) ++ rest)) n
    ∙ take-append (take i memory ++ s) rest

take-take : (i n : ℕ) (xs : Bytes) → i ≤ n → take i (take n xs) ≡ take i xs
take-take zero n xs h = refl
take-take (suc i) zero xs h = absurd (omega arith)
take-take (suc i) (suc n) [] h = refl
take-take (suc i) (suc n) (x ∷ xs) h = ap (λ t. x ∷ t) (take-take i n xs (omega arith))

-- A memory that keeps what was in it keeps every beginning of it.
take-kept :
    (i : ℕ) (memory more : Bytes)
    → i ≤ length memory
    → take (length memory) more ≡ memory
    → take i more ≡ take i memory
take-kept i memory more h e = sym (take-take i (length memory) more h) ∙ ap (λ t. take i t) e

-- What a growth gives: room for `l` bytes more, and the contents as they were.
abbrev Grown : Block → ℕ → Option Block → Type 0
Grown b l result =
    (g : Block) × (result ≡ some g)
    × IsValid g
    × (g.size ≡ b.size)
    × (g.size + l ≤ g.maxsize)
    × (contents g ≡ contents b)

-- What an addition of `s` gives.
abbrev pub Added : Block → Bytes → Option Block → Type 0
Added b s result =
    (g : Block) × (result ≡ some g)
    × IsValid g
    × (g.size ≡ b.size + length s)
    × (contents g ≡ contents b ++ s)

written_lem :
    (g : Block) (s : Bytes)
    → IsValid g
    → g.size + length s ≤ g.maxsize
    → g.size + length s < 2 ^ 31
    → Added g s (do
      memory ← write_at g.data_ g.size s
      size ← to_int (g.size + length s)
      some (record g { data_ = memory; size = size }))
written_lem g s (hl, hs, hm) fits h =
    let inside : g.size + length s ≤ length g.data_ = omega arith in
    rw (write_at-inside g.data_ g.size s inside, to_int-small (g.size + length s) h)
      (
        record g {
          data_ = take g.size g.data_ ++ (s ++ drop (g.size + length s) g.data_);
          size = g.size + length s;
        },
        refl,
        (length-written g.data_ g.size s inside ∙ hl, fits, hm),
        refl,
        take-written g.data_ g.size s inside,
      )

module _ (o : Allocator) where
  grown_lem : (b : Block) → IsValid b → b.maxsize + 1024 < 2 ^ 31 → Grown b 1 (grown o b)
  unfolding grown
  grown_lem b (hl, hs, hm) h = elim (Bool-cases (leb b.maxsize b.size)) [
    | inl e ↦
        let n = b.maxsize + min b.maxsize 1024 in
        let kept : take b.size (o.realloc b.data_ n) ≡ take b.size b.data_ =
          take-kept b.size b.data_ (o.realloc b.data_ n) (omega arith)
            (o.take-realloc b.data_ n (omega arith)) in
        let full : b.maxsize ≤ b.size = leb→le b.maxsize b.size e in
        rw (e, to_int-small n (omega arith))
          (
            record b { data_ = o.realloc b.data_ n; maxsize = n },
            refl,
            (o.length-realloc b.data_ n, omega arith, omega arith),
            refl,
            omega arith,
            kept,
          )
    | inr e ↦ rw e (b, refl, (hl, hs, hm), refl, ground (arith, le→leb b.maxsize b.size), refl)
  ]

  reallocated_lem :
      (b : Block) (l : ℕ) → IsValid b → b.size + l + 16 < 2 ^ 31 → Grown b l (reallocated o b l)
  unfolding reallocated
  reallocated_lem b l (hl, hs, hm) h = elim (Bool-cases (ltb b.maxsize (b.size + l))) [
    | inl e ↦
        let n = b.size + max l 16 in
        let old = take b.size b.data_ in
        let len : length old ≡ b.size = omega (arith, length-take b.size b.data_) in
        let room : 0 + length old ≤ length (o.malloc n) = omega (arith, o.length-malloc n) in
        rw
          (
            e,
            to_int-small l (omega arith),
            to_int-small n (omega arith),
            write_at-inside (o.malloc n) 0 old room,
          )
          (
            record b { data_ = old ++ drop (0 + length old) (o.malloc n); maxsize = n },
            refl,
            (length-written (o.malloc n) 0 old room ∙ o.length-malloc n, omega arith, omega arith),
            refl,
            omega arith,
            ap (λ k. take k (old ++ drop (0 + length old) (o.malloc n))) (sym len)
                ∙ take-append old (drop (0 + length old) (o.malloc n)),
          )
    | inr e ↦
        rw e (b, refl, (hl, hs, hm), refl, ground (arith, lt→ltb b.maxsize (b.size + l)), refl)
  ]

  -- Bytes are added behind the contents of a valid block, in the allocation or in a new one, and
  -- the block stays valid, as long as its sizes are those of an `int`.
  pub add_data-contents :
      (b : Block) (s : Bytes)
      → IsValid b
      → b.size + length s + 16 < 2 ^ 31
      → Added b s (add_data o b s)
  unfolding add_data
  add_data-contents b s v h =
      let (g, e, vg, same, room, kept) = reallocated_lem b (length s) v h in
      let (g', e', v', size, whole) = written_lem g s vg room (omega arith) in
      rw e (g', e', v', omega arith, whole ∙ ap (λ t. t ++ s) kept)

  -- A character is added behind the contents of a valid block, whatever growth that takes, and
  -- the block stays valid, as long as its sizes are those of an `int`.
  pub add_char-contents :
      (b : Block) (c : ℕ)
      → IsValid b
      → b.maxsize + 1024 < 2 ^ 31
      → Added b (c ∷ []) (add_char o b c)
  unfolding add_char
  add_char-contents b c v h =
      let (g, e, vg, same, room, kept) = grown_lem b v h in
      let (g', e', v', size, whole) = written_lem g (c ∷ []) vg room (omega arith) in
      rw e (g', e', v', omega arith, whole ∙ ap (λ t. t ++ c ∷ []) kept)

  -- A text is added behind the contents of a valid block, without its terminator, and the block
  -- stays valid, as long as its sizes are those of an `int`.
  pub add_str-contents :
      (b : Block) (s : Bytes)
      → IsValid b
      → b.size + length s + 17 < 2 ^ 31
      → Added b s (add_str o b s)
  unfolding add_str
  add_str-contents b s v h =
      let more : length (s ++ 0 ∷ []) ≡ length s + 1 = length-append s (0 ∷ []) in
      let (g, e, (hl, hs, hm), size, whole) = add_data-contents b (s ++ 0 ∷ []) v (omega arith) in
      let shorter : g.size - 1 ≡ length (contents b ++ s) =
        omega (arith, length-append (contents b) s, length-take b.size b.data_) in
      let less : contents (record g { size = g.size - 1 }) ≡ contents b ++ s =
        sym (take-take (g.size - 1) g.size g.data_ (omega arith))
        ∙ ap (λ t. take (g.size - 1) t) (whole ∙ sym (append_assoc (contents b) s (0 ∷ [])))
        ∙ ap (λ n. take n ((contents b ++ s) ++ 0 ∷ [])) shorter
        ∙ take-append (contents b ++ s) (0 ∷ []) in
      rw e (record g { size = g.size - 1 }, refl, (hl, omega arith, hm), omega arith, less)

  -- The contents of a valid block are added behind those of a valid block, which may be the same
  -- one, and the block stays valid, as long as its sizes are those of an `int`.
  pub add_block-contents :
      (b to_add : Block)
      → IsValid b
      → IsValid to_add
      → b.size + to_add.size + 16 < 2 ^ 31
      → Added b (contents to_add) (add_block o b to_add)
  unfolding add_block
  add_block-contents b to_add v (hl, hs, hm) h =
      add_data-contents b (contents to_add) v (omega (arith, length-take to_add.size to_add.data_))

  -- What a caller reads of the bytes of a valid block, if its sizes are those of an `int`: its
  -- contents and then a terminator. The block stays valid and keeps its size.
  pub terminated-contents :
      (b : Block)
      → IsValid b
      → b.maxsize + 1024 < 2 ^ 31
      → (g : Block) × (terminated o b ≡ some g)
        × IsValid g
        × (g.size ≡ b.size)
        × (take (g.size + 1) g.data_ ≡ contents b ++ 0 ∷ [])
  unfolding terminated
  terminated-contents b (hl, hs, hm) h = elim (Bool-cases (b.size == b.maxsize)) [
    | inl e ↦
        let (g, e', (gl, gs, gm), size, whole) = add_char-contents b 0 (hl, hs, hm) h in
        let restored : g.size - 1 + 1 ≡ g.size = omega arith in
        rw (e, e')
          (
            record g { size = g.size - 1 },
            refl,
            (gl, omega arith, gm),
            omega arith,
            ap (λ n. take n g.data_) restored ∙ whole,
          )
    | inr e ↦
        let room : b.size + 1 ≤ length b.data_ = ground (arith, ==_iff b.size b.maxsize) in
        rw (e, write_at-inside b.data_ b.size (0 ∷ []) room)
          (
            record b { data_ = take b.size b.data_ ++ (0 ∷ [] ++ drop (b.size + 1) b.data_) },
            refl,
            (length-written b.data_ b.size (0 ∷ []) room ∙ hl, hs, hm),
            refl,
            take-written b.data_ b.size (0 ∷ []) room,
          )
  ]

  -- A new block is valid and empty.
  pub new-IsValid : IsValid (new o) × (contents (new o) ≡ [])
  unfolding new
  new-IsValid = ((o.length-malloc 16, omega arith, omega arith), refl)

  -- More room changes no contents.
  pub min_maxsize-contents :
      (b : Block) (minsize : ℕ)
      → IsValid b
      → IsValid (min_maxsize o b minsize)
        × (contents (min_maxsize o b minsize) ≡ contents b)
        × (minsize ≤ (min_maxsize o b minsize).maxsize)
  unfolding min_maxsize
  min_maxsize-contents b minsize (hl, hs, hm) = elim (Bool-cases (ltb b.maxsize minsize)) [
    | inl e ↦
        let more : b.maxsize < minsize = ltb→lt b.maxsize minsize e in
        rw e (
          (o.length-realloc b.data_ minsize, omega arith, omega arith),
          take-kept b.size b.data_ (o.realloc b.data_ minsize) (omega arith)
              (o.take-realloc b.data_ minsize (omega arith)),
          omega arith,
        )
    | inr e ↦ rw e ((hl, hs, hm), refl, ground (arith, lt→ltb b.maxsize minsize))
  ]

-- The last `n` bytes are forgotten, or all of them where there are fewer.
pub rewind-contents :
    (b : Block) (n : ℕ)
    → IsValid b
    → IsValid (rewind b n) × (contents (rewind b n) ≡ take (length (contents b) - n) (contents b))
unfolding rewind
rewind-contents b n (hl, hs, hm) =
    let len : length (contents b) ≡ b.size = omega (arith, length-take b.size b.data_) in
    elim (Bool-cases (ltb b.size n)) [
      | inl e ↦
          let less : b.size < n = ltb→lt b.size n e in
          let none_left : 0 ≡ length (contents b) - n = omega arith in
          rw e ((hl, omega arith, hm), ap (λ k. take k (contents b)) none_left)
      | inr e ↦
          let left : b.size - n ≡ length (contents b) - n = omega arith in
          rw e (
            (hl, omega arith, hm),
            sym (take-take (b.size - n) b.size b.data_ (omega arith))
                ∙ ap (λ k. take k (contents b)) left,
          )
    ]
