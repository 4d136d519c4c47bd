-- ===== src/Sessions.antt =====
-- src/onion/sessions.c: identifiers of sessions, and the operations on a store of sessions, over the
-- functions that `onion_sessions` holds. Who frees the data of a session is not modelled.
pub mod Ids
use onion.Prelude.{
  ℕ, ◌+◌, ◌-◌, ◌%◌, ◌^◌, Option, none, some, ◌≡◌, ltb, if◌then◌else◌, map, Bytes, codes, get_or,
}

-- What a store promises: its functions `get` and `save`, where NULL as the data removes a session.
pub record Store (S D : Type 0) : Type 1 where
  pub find : S → Bytes → Option D
  pub save : S → Bytes → Option D → S
  pub IsValid : S → Type 0
  pub save-IsValid : (s : S) (id : Bytes) (data_ : Option D) → IsValid s → IsValid (save s id data_)
  pub find-save :
      (s : S) (id : Bytes) (data_ : D) → IsValid s → find (save s id (some data_)) id ≡ some data_
  pub find-removed : (s : S) (id : Bytes) → IsValid s → find (save s id none) id ≡ none

abbrev pub allowed_chars : Bytes
allowed_chars = codes "abcdefghijklmnopqrstuvwxyzABCDEFGHIJKLMNOPQRSTUVWXYZ0123456789"

-- A random byte is a `char`, which may be negative, and is then taken as a `size_t` of 64 bits.
abbrev pub id_char : ℕ → ℕ
id_char c = get_or allowed_chars ((if ltb c 128 then c else 2 ^ 64 - 256 + c) % 62) 0

-- `onion_sessions_generate_id`, of the bytes that the random generator gives.
unfoldable pub generate_id : Bytes → Bytes
generate_id ret = map id_char ret

module _ {S D : Type 0} ⦃store : Store S D⦄ where
  -- `onion_sessions_create`, with the new dictionary.
  unfoldable pub create : Bytes → D → S → Bytes × S
  unfolding generate_id
  create random_bytes data_ sessions =
      (generate_id random_bytes, store.save sessions (generate_id random_bytes) (some data_))

  -- `onion_sessions_get` and `onion_sessions_save` of a store.
  unfoldable pub sessions_get : S → Bytes → Option D
  sessions_get sessions session_id = store.find sessions session_id

  unfoldable pub sessions_save : S → Bytes → Option D → S
  sessions_save sessions session_id data_ = store.save sessions session_id data_

-- `onion_sessions_remove`
unfoldable pub sessions_remove : {S : Type 0} (D : Type 0) ⦃store : Store S D⦄ → S → Bytes → S
sessions_remove D ⦃store⦄ sessions session_id = store.save sessions session_id none
