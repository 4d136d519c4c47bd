-- ===== src/SessionsMem/Implements.antt =====
-- The sessions in memory keep the promise of a store.
use onion.Prelude.{Option, none, some, ◌≡◌, refl, ◌∙◌, Bytes}
use onion.Dict.{Tree, entries}
use onion.Dict.Sorted.{IsStrict}
use onion.Strings.{exact}
use onion.SessionsMem.{get, save}
use onion.SessionsMem.Laws.{get-save-some, get-save-none}
use onion.Sessions.{Store}

module _ {D : Type 0} where
  pub save-IsStrict :
      (t : Tree Bytes D) (id : Bytes) (session : Option D)
      → IsStrict (entries t)
      → IsStrict (entries (save t id session))
  save-IsStrict t id none h = (get-save-none t id id h).1
  save-IsStrict t id (some session) h = (get-save-some t id id session h).1

  pub get-saved :
      (t : Tree Bytes D) (id : Bytes) (session : D)
      → IsStrict (entries t)
      → get (save t id (some session)) id ≡ some session
  get-saved t id session h = (get-save-some t id id session h).0 ∙ rw (exact.cmp_refl id) refl

  pub get-removed :
      (t : Tree Bytes D) (id : Bytes) → IsStrict (entries t) → get (save t id none) id ≡ none
  get-removed t id h = (get-save-none t id id h).0 ∙ rw (exact.cmp_refl id) refl

  -- `onion_sessions_mem_new` sets these functions.
  instance abbrev pub mem_store : Store (Tree Bytes D) D
  mem_store = record {
    find = get;
    save = save;
    IsValid = λ t. IsStrict (entries t);
    save-IsValid = save-IsStrict;
    find-save = get-saved;
    find-removed = get-removed;
  }
