-- ===== src/Poller.antt =====
-- src/onion/poller.c: timeouts, the list of slots, and the loop over the events of epoll, in one
-- thread. Times are seconds of the monotonic clock, one for each time that it is read.
pub mod State
pub mod Timer
pub mod Links
use onion.Prelude.{
  ℕ, zero, suc, ◌+◌, ◌-◌, ◌*◌, ◌^◌, ◌<◌, List, [], ◌∷◌, ◌++◌, Bool, true, false, ◌&&◌, ◌||◌, not,
  Option, none, some, ◌==◌, ltb, leb, if◌then◌else◌, ◌>>=◌,
}
use onion.Poller.State.{
  Slot, Poller, Call, shutdown_read, slot_shutdown, wake, rearm, int_max, set_slot, is_linked,
  slot_new, slot_free,
}

abbrev pub day : ℕ
day = 24 * 60 * 60

abbrev pub with_limit : ℕ → Slot → Slot
with_limit limit el = record el { timeout_limit = limit }

-- One round of the loop of `onion_poller_timer`: an expired slot gets no limit, another one may lower
-- `next_timeout`.
unfoldable pub scanned : ℕ → ℕ → (ℕ → Slot) → ℕ → Slot
scanned ctime cur slots =
    if leb (slots cur).timeout_limit ctime
    then set_slot cur (with_limit int_max (slots cur)) slots
    else slots

unfoldable pub lowered : ℕ → ℕ → ℕ → ℕ
lowered ctime limit next_timeout =
    if leb limit ctime then next_timeout else if ltb limit next_timeout then limit else next_timeout

-- The loop: the slots after it, the file descriptors that were shut down, and `next_timeout`.
unfoldable pub scan : ℕ → List ℕ → (ℕ → Slot) → ℕ → (ℕ → Slot) × List ℕ × ℕ
unfolding scanned lowered
scan ctime [] slots next_timeout = (slots, [], next_timeout)
scan ctime (cur ∷ next) slots next_timeout =
    let (slots', fds, timeout) =
      scan ctime next (scanned ctime cur slots)
        (lowered ctime (slots cur).timeout_limit next_timeout) in
    (slots', (if leb (slots cur).timeout_limit ctime then cur ∷ fds else fds), timeout)

abbrev pub shut_reads : List ℕ → List Call → List Call
shut_reads [] calls = calls
shut_reads (fd ∷ fds) calls = shut_reads fds (shutdown_read fd ∷ calls)

-- The end of `onion_poller_timer`, where no other thread changes the limit.
abbrev pub armed : ℕ → ℕ → Poller → Poller
armed ctime next_timeout p = record p {
  current_timeout_limit = next_timeout;
  timer = next_timeout - ctime;
}

-- `onion_poller_timer`
unfoldable pub timer : ℕ → Poller → Poller
unfolding scan
timer ctime p =
    let (slots, fds, next_timeout) = scan ctime p.linked p.slots (ctime + day) in
    let scanned = record p { last_time = ctime; slots = slots; calls = shut_reads fds p.calls } in
    if ctime == p.last_time then armed ctime (ctime + day) p else armed ctime next_timeout scanned

-- `onion_poller_timer_check`
unfoldable pub timer_check : ℕ → ℕ → Poller → Poller
unfolding timer
timer_check ctime timelimit p = if ltb timelimit p.current_timeout_limit then timer ctime p else p

-- A slot whose `next` is NULL, as `onion_poller_slot_new` leaves it, is linked behind the head, which
-- stays.
abbrev pub link : ℕ → List ℕ → List ℕ
link fd [] = fd ∷ []
link fd (head ∷ next) = head ∷ fd ∷ next

abbrev pub added : ℕ → Poller → Poller
added fd p = record p {
  linked = link fd p.linked;
  n = elim (p.linked) [ [] ↦ p.n | ◌∷◌ head next ↦ p.n + 1 ];
}

-- The slots before that of a file descriptor.
abbrev pub before : ℕ → List ℕ → List ℕ
before fd [] = []
before fd (k ∷ next) = let rest = k ∷ before fd next in if k == fd then [] else rest

-- Where a slot that is linked already is linked behind the head again, its `next` is what was behind
-- the head, which leads back to it: these are the slots of the list, once each. The head itself, or the
-- slot behind it, is then its own `next`.
abbrev pub round : ℕ → List ℕ → List ℕ
round fd [] = []
round fd (head ∷ next) = if head == fd then head ∷ [] else head ∷ fd ∷ before fd next

-- How `onion_poller_add` ends: with a list of slots; or, before `epoll_ctl`, with a list without an
-- end, where `linked` has the slots up to the first one that comes again. No loop over all of that list
-- returns, the timer's among them.
pub data Listing : Type 0 where
  listed : Poller → Listing
  cyclic : Poller → Listing

-- `onion_poller_add` of the slot of `fd`, where `epoll_ctl` succeeds or not.
unfoldable pub add : ℕ → Bool → ℕ → Poller → Listing
unfolding timer_check
add ctime epoll_added fd p =
    let watched =
      if epoll_added
      then timer_check ctime (p.slots fd).timeout_limit (added fd p)
      else added fd p in
    if is_linked fd p.linked
    then cyclic (record p { linked = round fd p.linked; n = p.n + 1 })
    else listed watched

abbrev pub listed_by : Listing → Option Poller
listed_by (listed p) = some p
listed_by (cyclic p) = none

-- `onion_poller_stop`
unfoldable pub poller_stop : Poller → Poller
poller_stop p =
    if ltb 0 p.npollers
    then record p { stop = true; calls = wake ∷ p.calls }
    else record p { stop = true }

-- The list without the first slot of a file descriptor.
abbrev pub unlink : ℕ → List ℕ → List ℕ
unlink fd [] = []
unlink fd (k ∷ next) = let rest = k ∷ unlink fd next in if k == fd then next else rest

-- The poller stops where only the head is left.
unfoldable pub stop_alone : List ℕ → Poller → Poller
unfolding poller_stop
stop_alone [] p = poller_stop p
stop_alone (k ∷ next) p = p

-- `onion_poller_remove`. None is the read of the head's `next` where there is no head.
unfoldable pub remove : ℕ → Poller → Option Poller
unfolding slot_free stop_alone
remove fd p = elim (p.linked) [
  | [] ↦ none
  | ◌∷◌ head next ↦
      let unlinked = record p { linked = head ∷ unlink fd next } in
      if head == fd
      then some (slot_free fd (record p { linked = next }))
      else if is_linked fd next
      then some (slot_free fd (stop_alone (unlink fd next) unlinked))
      else some p
]

-- `onion_poller_get`
unfoldable pub get : ℕ → List ℕ → Option ℕ
get fd [] = none
get fd (k ∷ next) = let later = get fd next in if k == fd then some k else later

-- An event of `epoll_wait`, with the time at which its slot gets its next limit, and the time of the
-- check of the timer after that.
pub record Event : Type 0 where
  pub fd : ℕ
  pub hangs_up : Bool
  pub set_at : ℕ
  pub checked_at : ℕ

-- What epoll was told to watch again.
abbrev pub rearmed : ℕ → Poller → Poller
rearmed fd p = record p { calls = rearm fd ∷ p.calls }

-- The limit that a slot gets once its callback is done.
abbrev pub renewed : Event → Poller → Poller
renewed e p = elim ((p.slots e.fd).timeout) [
  | none ↦ p
  | some timeout ↦
      if ltb 0 timeout
      then timer_check e.checked_at (e.set_at + timeout) (record p {
        slots = set_slot e.fd (with_limit (e.set_at + timeout) (p.slots e.fd)) p.slots;
      })
      else p
]

-- The slot of an event has no limit while its callback runs.
abbrev pub waiting : Event → Poller → Poller
waiting e p = record p { slots = set_slot e.fd (with_limit int_max (p.slots e.fd)) p.slots }

-- What a callback does to the poller, and whether it returns a negative number.
module _ (callback : ℕ → Poller → Option (Bool × Poller)) where
  -- The body of the loop over the events in `onion_poller_poll`.
  unfoldable pub handle_event : Event → Poller → Option Poller
  unfolding timer_check remove
  handle_event e p =
      let called : Option Poller = (do
        (negative, after) ← callback (p.slots e.fd).f (waiting e p)
        if negative
            then remove e.fd (renewed e after)
            else some (rearmed e.fd (renewed e after))) in
      if e.hangs_up then remove e.fd p else called

  unfoldable pub handle_events : List Event → Poller → Option Poller
  unfolding handle_event
  handle_events [] p = some p
  handle_events (e ∷ events) p = do after ← handle_event e p; handle_events events after

  -- A return of `epoll_wait`: an error, or events.
  abbrev pub Wait : Type 0
  Wait = Option (List Event)

  abbrev pub goes_on : Poller → Bool
  goes_on p = not p.stop && elim (p.linked) [ [] ↦ false | ◌∷◌ head next ↦ true ]

  abbrev pub left : Poller → Poller
  left p = record p { npollers = p.npollers - 1 }

  -- The loop of `onion_poller_poll`, for what `epoll_wait` returns in its turn.
  unfoldable pub poll_from : List Wait → Poller → Option Poller
  unfolding handle_events
  poll_from [] p = some p
  poll_from (none ∷ waits) p =
      let rest = poll_from waits p in if goes_on p then rest else some (left p)
  poll_from (some events ∷ waits) p =
      let rest : Option Poller = (do after ← handle_events events p; poll_from waits after) in
      if goes_on p then rest else some (left p)

  -- `onion_poller_poll`
  unfoldable pub poll : List Wait → Poller → Option Poller
  unfolding poll_from
  poll waits p = poll_from waits (record p { npollers = p.npollers + 1; stop = false })

-- `onion_poller_free`, the loop that calls the shutdown functions.
unfoldable pub shutdown_slots : List ℕ → Poller → Poller
unfolding slot_free
shutdown_slots [] p = p
shutdown_slots (fd ∷ next) p = shutdown_slots next (slot_free fd p)

-- The zeroed memory that `onion_poller_new` starts from, with the static data.
abbrev pub zeroed : Poller → Poller
zeroed p = record p {
  linked = [];
  n = 0;
  stop = false;
  npollers = 0;
  current_timeout_limit = 0;
  timer = 0;
  calls = [];
}

-- `onion_poller_new`, where the system gives the two descriptors, which are not the same: 0 and 1 are the callbacks
-- `onion_poller_stop_helper` and `onion_poller_timer`.
unfoldable pub poller_new : ℕ → ℕ → ℕ → Poller → Option Poller
unfolding slot_new add timer
poller_new ctime eventfd timerfd p = do
  stopping ← slot_new eventfd 0 (zeroed p)
  stops ← listed_by (add ctime true eventfd stopping)
  timing ← slot_new timerfd 1 stops
  times ← listed_by (add ctime true timerfd timing)
  some (timer ctime times)
