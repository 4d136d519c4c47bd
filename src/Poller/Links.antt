-- ===== src/Poller/Links.antt =====
-- The list of the slots of a poller: what is linked after the operations that change it.
use onion.Prelude.{
  ℕ, List, [], ◌∷◌, false, Option, none, some, ◌≡◌, refl, sym, ap, subst, ◌∙◌, inl, inr, ◌==◌,
  if◌then◌else◌, arith, Bool-cases, Option-cases, ltb,
}
use onion.Poller.State.{Poller, is_linked, slot_free}
use onion.Poller.{unlink, remove, get, poller_stop, stop_alone}

-- No slot is linked twice.
abbrev pub IsDistinct : List ℕ → Type 0
IsDistinct [] = Unit
IsDistinct (fd ∷ fds) = (is_linked fd fds ≡ false) × IsDistinct fds

is_linked-unlink :
    (k fd : ℕ) (fds : List ℕ)
    → IsDistinct fds
    → is_linked k (unlink fd fds) ≡ (if fd == k then false else is_linked k fds)
is_linked-unlink k fd [] d = ground arith
is_linked-unlink k fd (head ∷ next) (d, ds) =
    let rest = is_linked-unlink k fd next ds in
    elim (Bool-cases (head == fd)) [
      | inl e ↦ elim (Bool-cases (fd == k)) [
        | inl f ↦
            let same : head ≡ k = ground arith in
            rw (e, f) (subst (λ t. is_linked t next ≡ false) same d)
        | inr f ↦ rw (e, f) (ground arith)
      ]
      | inr e ↦ rw e (ground arith)
    ]

unlink-IsDistinct : (fd : ℕ) (fds : List ℕ) → IsDistinct fds → IsDistinct (unlink fd fds)
unlink-IsDistinct fd [] d = tt
unlink-IsDistinct fd (head ∷ next) (d, ds) =
    let rest = is_linked-unlink head fd next ds in
    elim (Bool-cases (head == fd)) [
      | inl e ↦ rw e ds
      | inr e ↦ rw e (ground arith, unlink-IsDistinct fd next ds)
    ]

get_lem : (k : ℕ) (fds : List ℕ) → get k fds ≡ (if is_linked k fds then some k else none)
unfolding get
get_lem k [] = refl
get_lem k (head ∷ next) =
    let rest = get_lem k next in
    elim (Bool-cases (head == k)) [
      | inl e ↦ let same : head ≡ k = ground arith in rw e (ap some same)
      | inr e ↦ rw e rest
    ]

unlink_absent : (fd : ℕ) (fds : List ℕ) → is_linked fd fds ≡ false → unlink fd fds ≡ fds
unlink_absent fd [] h = refl
unlink_absent fd (head ∷ next) h =
    let other : (head == fd) ≡ false = ground arith in
    rw other (ap (λ t. head ∷ t) (unlink_absent fd next (ground arith)))

linked-slot_free : (fd : ℕ) (p : Poller) → (slot_free fd p).linked ≡ p.linked
unfolding slot_free
linked-slot_free fd p = elim (Option-cases ((p.slots fd).shutdown)) [
  | inl e ↦ rw (e, slot_free) refl
  | inr (sd, e) ↦ rw (e, slot_free) refl
]

linked-poller_stop : (p : Poller) → (poller_stop p).linked ≡ p.linked
unfolding poller_stop
linked-poller_stop p = elim (Bool-cases (ltb 0 p.npollers)) [
  | inl e ↦ rw (e, poller_stop) refl
  | inr e ↦ rw (e, poller_stop) refl
]

linked-stop_alone : (fds : List ℕ) (p : Poller) → (stop_alone fds p).linked ≡ p.linked
unfolding stop_alone
linked-stop_alone [] p = linked-poller_stop p
linked-stop_alone (k ∷ next) p = refl

-- `onion_poller_remove` of a poller that is not empty.
abbrev pub Removes : ℕ → Poller → Option Poller → Type 0
Removes fd p none = ⊥
Removes fd p (some after) = after.linked ≡ unlink fd p.linked

remove-Removes :
    (fd head : ℕ) (next : List ℕ) (p : Poller) → p.linked ≡ head ∷ next → Removes fd p (remove fd p)
unfolding remove
remove-Removes fd head next p e = elim (Bool-cases (head == fd)) [
  | inl f ↦ rw (e, f) (rw f (linked-slot_free fd (record p { linked = next })))
  | inr f ↦ elim (Bool-cases (is_linked fd next)) [
    | inl g ↦
        let unlinked = record p { linked = head ∷ unlink fd next } in
        rw (e, f, g)
          (rw f (
            linked-slot_free fd (stop_alone (unlink fd next) unlinked)
            ∙ linked-stop_alone (unlink fd next) unlinked))
    | inr g ↦ rw (e, f, g) (rw f (ap (λ t. head ∷ t) (sym (unlink_absent fd next g))))
  ]
]

remove-linked_from :
    (fds : List ℕ) (fd : ℕ) (p after : Poller)
    → p.linked ≡ fds
    → remove fd p ≡ some after
    → after.linked ≡ unlink fd p.linked
unfolding remove
remove-linked_from [] fd p after f e = let fails : remove fd p ≡ none = rw (f, remove) refl in cc
remove-linked_from (head ∷ next) fd p after f e =
    subst (Removes fd p) e (remove-Removes fd head next p f)

remove-linked :
    (fd : ℕ) (p after : Poller) → remove fd p ≡ some after → after.linked ≡ unlink fd p.linked
remove-linked fd p after e = remove-linked_from p.linked fd p after refl e

-- A slot is removed from a poller whose slots are linked once: afterwards it is not found, every other
-- slot is found as before, and no slot is linked twice.
pub get-remove :
    (fd k : ℕ) (p after : Poller)
    → remove fd p ≡ some after
    → IsDistinct p.linked
    → (get k after.linked ≡ (if fd == k then none else get k p.linked)) × IsDistinct after.linked
get-remove fd k p after e d =
    let same = remove-linked fd p after e in
    (
      ap (get k) same
          ∙ get_lem k (unlink fd p.linked)
          ∙ ap (λ b. if b then some k else none) (is_linked-unlink k fd p.linked d)
          ∙ elim (Bool-cases (fd == k)) [
            | inl f ↦ rw f refl
            | inr f ↦ rw f (sym (get_lem k p.linked))
          ],
      subst IsDistinct (sym same) (unlink-IsDistinct fd p.linked d),
    )
