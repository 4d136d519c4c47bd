-- ===== src/Poller/State.antt =====
-- src/onion/poller.c: the slots of the file descriptors, and a poller with the list of its slots.
use onion.Prelude.{
  ℕ, ◌+◌, ◌-◌, ◌/◌, ◌^◌, List, [], ◌∷◌, Bool, true, false, ◌||◌, Option, none, some, ◌==◌, ltb,
  if◌then◌else◌,
}

-- `onion_poller_slot` less its `next`: callbacks and their data by a number, and a timeout of -1 is
-- none. `type` is which of EPOLLIN, EPOLLOUT, and EPOLLERR with EPOLLPRI are set; the others always are.
pub record Slot : Type 0 where
  pub f : ℕ
  pub reads : Bool
  pub writes : Bool
  pub others : Bool
  pub shutdown : Option ℕ
  pub timeout : Option ℕ
  pub timeout_limit : ℕ

-- What the poller asks of the system and of the slots: `shutdown(fd, SHUT_RD)`, the shutdown function
-- of a slot, the wake of another thread, and `epoll_ctl` with EPOLL_CTL_MOD.
pub data Call : Type 0 where
  shutdown_read : ℕ → Call
  slot_shutdown : ℕ → Call
  wake : Call
  rearm : ℕ → Call

-- `onion_poller` with the static array of slots, which is indexed by the file descriptors. The slots
-- that are linked from `head` are in `linked`, by their file descriptors; `timer` is the number of
-- seconds that the timer is set to, and `calls` what was called, the last first.
pub record Poller : Type 0 where
  pub slots : ℕ → Slot
  pub max_slots : ℕ
  pub last_time : ℕ
  pub linked : List ℕ
  pub n : ℕ
  pub stop : Bool
  pub npollers : ℕ
  pub current_timeout_limit : ℕ
  pub timer : ℕ
  pub calls : List Call

abbrev pub int_max : ℕ
int_max = 2 ^ 31 - 1

abbrev pub set_slot : ℕ → Slot → (ℕ → Slot) → ℕ → Slot
set_slot fd el slots k = if k == fd then el else slots k

abbrev pub is_linked : ℕ → List ℕ → Bool
is_linked fd [] = false
is_linked fd (k ∷ fds) = (k == fd) || is_linked fd fds

-- The list up to a slot whose `next` is set to NULL.
abbrev pub cut_behind : ℕ → List ℕ → List ℕ
cut_behind fd [] = []
cut_behind fd (k ∷ fds) = k ∷ (if k == fd then [] else cut_behind fd fds)

-- `onion_poller_slot_new`, or NULL: the slot of the file descriptor is emptied wherever it stands.
unfoldable pub slot_new : ℕ → ℕ → Poller → Option Poller
slot_new fd f p =
    if ltb fd p.max_slots
    then some (record p {
      slots =
          set_slot fd
            (record {
              f = f;
              reads = true;
              writes = false;
              others = false;
              shutdown = none;
              timeout = none;
              timeout_limit = int_max;
            })
            p.slots;
      linked = cut_behind fd p.linked;
    })
    else none

-- `onion_poller_slot_set_shutdown`
unfoldable pub slot_set_shutdown : ℕ → ℕ → Poller → Poller
slot_set_shutdown fd sd p = record p {
  slots = set_slot fd (record (p.slots fd) { shutdown = some sd }) p.slots;
}

-- `onion_poller_slot_set_timeout`, of a timeout that is not negative, at a time.
unfoldable pub slot_set_timeout : ℕ → ℕ → ℕ → Poller → Poller
slot_set_timeout time fd timeout p = record p {
  slots =
      set_slot fd
        (record (p.slots fd) {
          timeout = some (timeout / 1000);
          timeout_limit = time + timeout / 1000;
        })
        p.slots;
}

-- `onion_poller_slot_set_type`, of O_POLL_READ, O_POLL_WRITE and O_POLL_OTHER.
unfoldable pub slot_set_type : ℕ → Bool → Bool → Bool → Poller → Poller
slot_set_type fd reads writes others p = record p {
  slots =
      set_slot fd (record (p.slots fd) { reads = reads; writes = writes; others = others }) p.slots;
}

-- `onion_poller_slot_free`
unfoldable pub slot_free : ℕ → Poller → Poller
slot_free fd p = elim ((p.slots fd).shutdown) [
  | none ↦ p
  | some sd ↦ record p { calls = slot_shutdown sd ∷ p.calls }
]
