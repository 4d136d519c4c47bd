-- ===== src/Poller/Timer.antt =====
-- The timer of the poller: when it rings next, and what it has shut down.
use onion.Prelude.{
  ℕ, ◌+◌, ◌≤◌, ◌<◌, List, [], ◌∷◌, true, false, ◌≡◌, ◌≢◌, refl, ◌∙◌, ◌⊎◌, inl, inr, ◌==◌, ltb, leb,
  arith, Bool-cases, lt→ltb,
}
use onion.Prelude.Predicates.{All}
use onion.Poller.State.{Slot, Poller, int_max, is_linked}
use onion.Poller.{day, scan, scanned, lowered, armed, timer, timer_check, add, listed, added, link}

-- Of a slot after a scan: its limit is the old one or none.
abbrev Keeps : (ℕ → Slot) → (ℕ → Slot) → Type 0
Keeps slots slots' =
    (fd : ℕ)
    → ((slots' fd).timeout_limit ≡ (slots fd).timeout_limit) ⊎ ((slots' fd).timeout_limit ≡ int_max)

-- No slot of the list has expired, and the timer rings before the next one does.
abbrev pub Waits : ℕ → ℕ → (ℕ → Slot) → List ℕ → Type 0
Waits ctime timeout slots fds =
    All (λ fd. (ctime < (slots fd).timeout_limit) × (timeout ≤ (slots fd).timeout_limit)) fds

scanned-limit :
    (ctime cur fd : ℕ) (slots : ℕ → Slot)
    → ((scanned ctime cur slots fd).timeout_limit ≡ (slots fd).timeout_limit)
      ⊎ ((scanned ctime cur slots fd).timeout_limit ≡ int_max)
unfolding scanned
scanned-limit ctime cur fd slots = elim (Bool-cases (leb (slots cur).timeout_limit ctime)) [
  | inl e ↦
      rw (e, scanned)
        (elim (Bool-cases (fd == cur)) [ inl f ↦ rw f (inr refl) | inr f ↦ rw f (inl refl) ])
  | inr e ↦ rw (e, scanned) (inl refl)
]

-- A limit that has not passed, or none.
scanned-later :
    (ctime cur : ℕ) (slots : ℕ → Slot)
    → ctime < int_max
    → ctime < (scanned ctime cur slots cur).timeout_limit
unfolding scanned
scanned-later ctime cur slots h =
    let same : (cur == cur) ≡ true = ground arith in
    elim (Bool-cases (leb (slots cur).timeout_limit ctime)) [
      | inl e ↦ rw (e, scanned) (rw same h)
      | inr e ↦ rw (e, scanned) (ground arith)
    ]

lowered_bounds :
    (ctime cur timeout : ℕ) (slots : ℕ → Slot)
    → timeout ≤ int_max
    → (lowered ctime (slots cur).timeout_limit timeout ≤ timeout)
      × (lowered ctime (slots cur).timeout_limit timeout
          ≤ (scanned ctime cur slots cur).timeout_limit)
      × (ctime < timeout → ctime < lowered ctime (slots cur).timeout_limit timeout)
unfolding scanned lowered
lowered_bounds ctime cur timeout slots h =
    let same : (cur == cur) ≡ true = ground arith in
    elim (Bool-cases (leb (slots cur).timeout_limit ctime)) [
      | inl e ↦ rw (e, scanned) (rw same (omega arith, h, λ k. k))
      | inr e ↦ rw (e, scanned) (ground arith, ground arith, λ k. ground arith)
    ]

scan-Keeps :
    (ctime : ℕ) (fds : List ℕ) (slots : ℕ → Slot) (timeout : ℕ)
    → Keeps slots (scan ctime fds slots timeout).0
unfolding scan
scan-Keeps ctime [] slots timeout fd = inl refl
scan-Keeps ctime (cur ∷ fds) slots timeout fd =
    elim (scan-Keeps ctime fds (scanned ctime cur slots)
      (lowered ctime (slots cur).timeout_limit timeout) fd) [
        | inl e ↦ elim (scanned-limit ctime cur fd slots) [
          | inl f ↦ inl (e ∙ f)
          | inr f ↦ inr (e ∙ f)
        ]
        | inr e ↦ inr e
      ]

scan_bounds :
    (ctime : ℕ) (fds : List ℕ) (slots : ℕ → Slot) (timeout : ℕ)
    → ctime < timeout
    → timeout ≤ int_max
    → (ctime < (scan ctime fds slots timeout).2) × ((scan ctime fds slots timeout).2 ≤ timeout)
unfolding scan
scan_bounds ctime [] slots timeout h k = (h, omega arith)
scan_bounds ctime (cur ∷ fds) slots timeout h k =
    let (le, below, later) = lowered_bounds ctime cur timeout slots k in
    let (x, y) =
      scan_bounds ctime fds (scanned ctime cur slots)
        (lowered ctime (slots cur).timeout_limit timeout) (later h) (omega arith) in
    (x, omega arith)

scan-Waits :
    (ctime : ℕ) (fds : List ℕ) (slots : ℕ → Slot) (timeout : ℕ)
    → ctime < timeout
    → timeout ≤ int_max
    → Waits ctime (scan ctime fds slots timeout).2 (scan ctime fds slots timeout).0 fds
unfolding scan
scan-Waits ctime [] slots timeout h k = tt
scan-Waits ctime (cur ∷ fds) slots timeout h k =
    let slots' = scanned ctime cur slots in
    let timeout' = lowered ctime (slots cur).timeout_limit timeout in
    let (le, below, later) = lowered_bounds ctime cur timeout slots k in
    let (x, y) = scan_bounds ctime fds slots' timeout' (later h) (omega arith) in
    let late = scanned-later ctime cur slots (omega arith) in
    (
      elim (scan-Keeps ctime fds slots' timeout' cur) [
        | inl e ↦ (omega arith, omega arith)
        | inr e ↦ (omega arith, omega arith)
      ],
      scan-Waits ctime fds slots' timeout' (later h) (omega arith),
    )

-- A run of the timer in another second than the last one: afterwards no slot of the poller has
-- expired, and the timer is set, to a day at most, so that it rings at the first limit of a slot or
-- before. The time is less than `INT_MAX` by a day.
pub timer-Waits :
    (ctime : ℕ) (p : Poller)
    → ctime ≢ p.last_time
    → ctime + day ≤ int_max
    → Waits ctime (timer ctime p).current_timeout_limit (timer ctime p).slots (timer ctime p).linked
      × (ctime + (timer ctime p).timer ≡ (timer ctime p).current_timeout_limit)
      × (0 < (timer ctime p).timer)
      × ((timer ctime p).timer ≤ day)
unfolding timer
timer-Waits ctime p h k =
    let other : (ctime == p.last_time) ≡ false = ground arith in
    let (x, y) = scan_bounds ctime p.linked p.slots (ctime + day) (omega arith) k in
    rw other (
      scan-Waits ctime p.linked p.slots (ctime + day) (omega arith) k,
      omega arith,
      omega arith,
      omega arith,
    )

is_linked-link : (fd : ℕ) (fds : List ℕ) → is_linked fd (link fd fds) ≡ true
is_linked-link fd [] = ground arith
is_linked-link fd (head ∷ next) = ground arith

-- A slot is added in the second in which the timer ran last, with a limit before the one that the
-- timer is set to: the timer is set to a day from now, and so the poller does not look at the slot
-- when its limit passes, if that is within the day.
pub add-late :
    (ctime fd : ℕ) (p : Poller)
    → p.last_time ≡ ctime
    → is_linked fd p.linked ≡ false
    → (p.slots fd).timeout_limit < p.current_timeout_limit
    → (p.slots fd).timeout_limit < ctime + day
    → (after : Poller) × (add ctime true fd p ≡ listed after)
      × (after.timer ≡ day)
      × ((after.slots fd).timeout_limit < after.current_timeout_limit)
      × (is_linked fd after.linked ≡ true)
unfolding add timer_check timer
add-late ctime fd p e f l k =
    let early : ltb (p.slots fd).timeout_limit p.current_timeout_limit ≡ true = lt→ltb _ _ l in
    let same : (ctime == p.last_time) ≡ true = ground arith in
    (
      armed ctime (ctime + day) (added fd p),
      rw (f, early, same) refl,
      omega arith,
      k,
      is_linked-link fd p.linked,
    )
