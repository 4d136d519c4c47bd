-- ===== src/Tests/PollerTests.antt =====
-- Runs of the poller with a few slots.
use onion.Prelude.{
  ℕ, ◌+◌, ◌<◌, ◌≤◌, [], ◌∷◌, true, false, none, some, ◌≡◌, refl, ◌==◌, if◌then◌else◌, arith,
}
use onion.Poller.State.{Poller, int_max, is_linked}
use onion.Poller.{day, timer, add, listed, remove, get}
use onion.Poller.Links.{IsDistinct, get-remove}
use onion.Poller.Timer.{Waits, timer-Waits, add-late}

-- The slot of 5 has passed its limit at 1000, and the one of 6 passes it at 1030.
abbrev limits : ℕ → ℕ
limits fd = if fd == 5 then 990 else if fd == 6 then 1030 else int_max

abbrev three : Poller
three = record {
  slots = λ fd. record {
    f = fd;
    reads = true;
    writes = false;
    others = false;
    shutdown = none;
    timeout = none;
    timeout_limit = limits fd;
  };
  max_slots = 1024;
  last_time = 900;
  linked = 4 ∷ 6 ∷ 5 ∷ [];
  n = 2;
  stop = false;
  npollers = 0;
  current_timeout_limit = 900 + day;
  timer = day;
  calls = [];
}

timer-Waits_example :
    Waits 1000
      (timer 1000 three).current_timeout_limit
      (timer 1000 three).slots
      (timer 1000 three).linked
    × (1000 + (timer 1000 three).timer ≡ (timer 1000 three).current_timeout_limit)
    × (0 < (timer 1000 three).timer)
    × ((timer 1000 three).timer ≤ day)
timer-Waits_example = timer-Waits 1000 three (ground arith) (omega arith)

rings_at_limit : (timer 1000 three).timer ≡ 30
unfolding timer
rings_at_limit = refl

abbrev two : Poller
two = record three { linked = 4 ∷ 5 ∷ [] }

add-late_example :
    (after : Poller) × (add 900 true 6 two ≡ listed after)
    × (after.timer ≡ day)
    × ((after.slots 6).timeout_limit < after.current_timeout_limit)
    × (is_linked 6 after.linked ≡ true)
add-late_example = add-late 900 6 two refl refl (omega arith) (omega arith)

three_once : IsDistinct three.linked
three_once = (refl, (refl, (refl, tt)))

remove_six : remove 6 three ≡ some (record three { linked = 4 ∷ 5 ∷ [] })
unfolding remove
remove_six = refl

get-remove_example :
    (get 4 (record three { linked = 4 ∷ 5 ∷ [] }).linked ≡ some 4)
    × IsDistinct (record three { linked = 4 ∷ 5 ∷ [] }).linked
unfolding get
get-remove_example =
    get-remove 6 4 three (record three { linked = 4 ∷ 5 ∷ [] }) remove_six three_once
