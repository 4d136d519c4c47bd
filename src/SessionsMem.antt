-- ===== src/SessionsMem.antt =====
-- src/onion/sessions_mem.c: the sessions in memory, a dictionary from identifiers to the data of the
-- sessions. The data is of any type here; its reference count is not modelled.
pub mod Laws
pub mod Implements
use onion.Prelude.{ℕ, Option, none, some, true, if◌then◌else◌}
use onion.Dict.{Entry, Tree, Flags, no_flags, get_dict, node_add, remove}
use onion.Dict.Order.{KeyOrder}

module _ {ℓ κ} {K : Type ℓ} {V : Type κ} ⦃o : KeyOrder K⦄ where
  -- The entry that `onion_sessions_mem_save` adds: OD_DUP_KEY, OD_FREE_VALUE, OD_DICT, OD_REPLACE.
  abbrev pub session_entry : K → V → Entry K V
  session_entry session_id session = record {
    key = session_id;
    value = session;
    flags = record no_flags {
      free_key = true;
      dup_key = true;
      free_value = true;
      is_dict = true;
      replace = true;
    };
  }

  -- `onion_sessions_mem_get`
  unfoldable pub get : Tree K V → K → Option V
  get sessions session_id = get_dict sessions session_id

  -- `onion_sessions_mem_save`: `none` is NULL, which removes the session.
  unfoldable pub save : Tree K V → K → Option V → Tree K V
  save sessions session_id none = elim (get_dict sessions session_id) [
    | none ↦ sessions
    | some session ↦ remove sessions session_id
  ]
  save sessions session_id (some session) = node_add sessions (session_entry session_id session)
