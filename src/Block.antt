-- ===== src/Block.antt =====
-- src/onion/block.c: blocks, byte buffers that grow. The allocated memory is a list as long as the
-- allocation, and a write that does not lie in it has no result; neither has one after which a size
-- is no longer an `int`.
pub mod Contents
use onion.Prelude.{
  ◌>>=◌, ℕ, ◌+◌, ◌-◌, ◌^◌, ◌≤◌, List, [], ◌∷◌, ◌++◌, Option, none, some, ◌≡◌, ltb, leb, ◌==◌, min,
  max, if◌then◌else◌, Bytes, length, take, drop,
}

-- What the blocks need of `malloc` and `realloc`, whose fresh bytes are arbitrary.
pub record Allocator : Type 0 where
  pub malloc : ℕ → Bytes
  pub realloc : Bytes → ℕ → Bytes
  pub length-malloc : (n : ℕ) → length (malloc n) ≡ n
  pub length-realloc : (memory : Bytes) (n : ℕ) → length (realloc memory n) ≡ n
  pub take-realloc :
      (memory : Bytes) (n : ℕ)
      → length memory ≤ n
      → take (length memory) (realloc memory n) ≡ memory

pub record Block : Type 0 where
  pub data_ : Bytes
  pub size : ℕ
  pub maxsize : ℕ

-- ONION_BLOCK_GROW_MIN_BLOCK and ONION_BLOCK_GROW_EXPONENTIAL_LIMIT.
abbrev pub grow_min_block : ℕ
grow_min_block = 16

abbrev pub grow_exponential_limit : ℕ
grow_exponential_limit = 1024

-- A value that an `int` holds.
unfoldable pub to_int : ℕ → Option ℕ
to_int n = if ltb n (2 ^ 31) then some n else none

-- The bytes `s` put at the index `i` of a memory.
unfoldable pub write_at : Bytes → ℕ → Bytes → Option Bytes
write_at memory i s =
    if leb (i + length s) (length memory)
    then some (take i memory ++ (s ++ drop (i + length s) memory))
    else none

-- `onion_block_clear`
unfoldable pub clear : Block → Block
clear b = record b { size = 0 }

-- `onion_block_rewind`
unfoldable pub rewind : Block → ℕ → Block
rewind b n = if ltb b.size n then record b { size = 0 } else record b { size = b.size - n }

module _ (o : Allocator) where
  -- `onion_block_new`
  unfoldable pub new : Block
  new = record { data_ = o.malloc grow_min_block; size = 0; maxsize = grow_min_block }

  -- `onion_block_min_maxsize`
  unfoldable pub min_maxsize : Block → ℕ → Block
  min_maxsize b minsize =
      if ltb b.maxsize minsize
      then record b { data_ = o.realloc b.data_ minsize; maxsize = minsize }
      else b

  -- The growth of `onion_block_add_char`: twice the size, and by 1024 bytes from there on.
  unfoldable pub grown : Block → Option Block
  grown b =
      if leb b.maxsize b.size
      then (do
        maxsize ← to_int (b.maxsize + min b.maxsize grow_exponential_limit)
        some (record b { data_ = o.realloc b.data_ maxsize; maxsize = maxsize }))
      else some b

  -- `onion_block_add_char`
  unfoldable pub add_char : Block → ℕ → Option Block
  add_char b c = do
    g ← grown b
    memory ← write_at g.data_ g.size (c ∷ [])
    size ← to_int (g.size + 1)
    some (record g { data_ = memory; size = size })

  -- The growth of `onion_block_add_data`: a new allocation, with the bytes of the old one.
  unfoldable pub reallocated : Block → ℕ → Option Block
  reallocated b l =
      if ltb b.maxsize (b.size + l)
      then (do
        n ← to_int l
        maxsize ← to_int (b.size + max n grow_min_block)
        memory ← write_at (o.malloc maxsize) 0 (take b.size b.data_)
        some (record b { data_ = memory; maxsize = maxsize }))
      else some b

  -- `onion_block_add_data` of the bytes `s`, which are read before the old allocation is freed: they
  -- may lie in it.
  unfoldable pub add_data : Block → Bytes → Option Block
  add_data b s = do
    g ← reallocated b (length s)
    memory ← write_at g.data_ g.size s
    size ← to_int (g.size + length s)
    some (record g { data_ = memory; size = size })

  -- `onion_block_add_str`: the text and its terminator, which is then not counted.
  unfoldable pub add_str : Block → Bytes → Option Block
  add_str b str = do g ← add_data b (str ++ 0 ∷ []); some (record g { size = g.size - 1 })

  -- `onion_block_add_block`
  unfoldable pub add_block : Block → Block → Option Block
  add_block b to_add = add_data b (take to_add.size to_add.data_)

  -- `onion_block_data`: the block after it, whose bytes end with a terminator.
  unfoldable pub terminated : Block → Option Block
  terminated b =
      if b.size == b.maxsize
      then (do g ← add_char b 0; some (record g { size = g.size - 1 }))
      else (do memory ← write_at b.data_ b.size (0 ∷ []); some (record b { data_ = memory }))
