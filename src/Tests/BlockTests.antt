-- ===== src/Tests/BlockTests.antt =====
-- A block of a few bytes over an allocator that gives zeros.
use onion.Prelude.{
  ℕ, zero, suc, ◌≤◌, [], ◌∷◌, ◌≡◌, refl, ap, arith, Bytes, codes, length, take, replicate,
  length-replicate,
}
use onion.Block.{
  Allocator, Block, new, add_char, add_data, add_str, add_block, terminated, min_maxsize, rewind,
}
use onion.Block.Contents.{contents, IsValid, Added}
use onion.Block

abbrev resized : Bytes → ℕ → Bytes
resized memory zero = []
resized [] (suc n) = 0 ∷ resized [] n
resized (c ∷ memory) (suc n) = c ∷ resized memory n

length-resized : (memory : Bytes) (n : ℕ) → length (resized memory n) ≡ n
length-resized memory zero = refl
length-resized [] (suc n) = omega (arith, length-resized [] n)
length-resized (c ∷ memory) (suc n) = omega (arith, length-resized memory n)

take-resized :
    (memory : Bytes) (n : ℕ) → length memory ≤ n → take (length memory) (resized memory n) ≡ memory
take-resized [] n h = refl
take-resized (c ∷ memory) zero h = absurd (omega arith)
take-resized (c ∷ memory) (suc n) h = ap (λ t. c ∷ t) (take-resized memory n (omega arith))

abbrev zeros : Allocator
zeros = record {
  malloc = λ n. replicate n 0;
  realloc = resized;
  length-malloc = λ n. length-replicate n 0;
  length-realloc = length-resized;
  take-realloc = take-resized;
}

abbrev full : Block
full = record { data_ = replicate 16 b'x'; size = 16; maxsize = 16 }

full-IsValid : IsValid full
full-IsValid = (refl, omega arith, omega arith)

add_data-contents_example : Added full (codes "abc") (add_data zeros full (codes "abc"))
add_data-contents_example =
    Block.Contents.add_data-contents zeros full (codes "abc") full-IsValid (omega arith)
