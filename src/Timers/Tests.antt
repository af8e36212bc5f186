-- ===== src/Timers/Tests.antt =====
-- Timers at concrete times.
use clear_moon.Prelude.{
  ℕ, ◌+◌, ◌*◌, ◌≡◌, ◌≢◌, ◌==◌, ==_iff, ◌<◌, refl, ◌⊎◌, false, List, [], ◌∷◌, ◌++◌, none, some,
  arith,
}
use clear_moon.OrdMap.{number_key}
use clear_moon.Timers.Timestamp.{at, how_much_time_from_now, how_much_time_from_now_lem}
use clear_moon.Timers.TimerQueue.{
  Timer, Entry, TimerQueue, Command, cancel, get_expired, add_timer_in_loop, handle_read,
  run_expired, obey_all, cancel_in_loop, reset, reset_entries, reset_entry, drop_expired,
  drop_active, has_active, split_at, reset_timer_fd,
}
use clear_moon.Timers.TimerQueue.Order.{IsOrdered, All, IsAlive, IsDue, IsLater, get_expired-splits}
use clear_moon.Timers.TimerQueue.Alive.{Safe}
use clear_moon.Timers.TimerQueue.Fires.{handle_read-Safe}
use clear_moon.Timers.TimerQueue.Batch.{AllocatesAll}
use clear_moon.Timers.TimerQueue.Alarm.{first_place, add_timer_in_loop-alarm}

abbrev once : ℕ → ℕ → Timer
once time number = record {
  expiration = at time;
  micro = 0;
  repeat = false;
  sequence = number;
  cancelled = false;
}

-- Two timers are due at 30 and one is not; a fourth is on the heap and not yet in the sets.
abbrev three : TimerQueue
three = record {
  heap = (100, once 10 0) ∷ (200, once 20 1) ∷ (300, once 50 2) ∷ (400, once 5 3) ∷ [];
  created = 4;
  timers =
      record { first_at = at 10; timer = 100 }
      ∷ record { first_at = at 20; timer = 200 }
      ∷ record { first_at = at 50; timer = 300 }
      ∷ [];
  active_timers =
      record { number = 0; address = 100 }
      ∷ record { number = 1; address = 200 }
      ∷ record { number = 2; address = 300 }
      ∷ [];
  cancelling = [];
  handle_timer = false;
  alarm = none;
}

abbrev three_alive : All (IsAlive three.heap) three.timers
three_alive = (
  (omega arith, (once 10 0, refl)),
  ((omega arith, (once 20 1, refl)), ((omega arith, (once 50 2, refl)), tt)),
)

abbrev three_in_order : IsOrdered three.timers
three_in_order = ((refl, (refl, tt)), ((refl, tt), (tt, tt)))

get_expired-splits_example :
    (expired : List Entry) × (q' : TimerQueue) × (get_expired (at 30) three ≡ some (expired, q'))
    × (expired ++ q'.timers ≡ three.timers)
    × All (IsDue (at 30)) expired
    × All (IsLater (at 30)) q'.timers
    × (q'.heap ≡ three.heap)
get_expired-splits_example = get_expired-splits (at 30) three three_in_order three_alive

add_timer_in_loop-alarm_example :
    (q' : TimerQueue) × (add_timer_in_loop (at 1) 400 three ≡ some q')
    × IsOrdered q'.timers
    × (((first_place q'.timers ≡ first_place three.timers) × (q'.alarm ≡ none))
        ⊎ ((first_place q'.timers ≡ some 6)
            × (q'.alarm ≡ some (how_much_time_from_now (at 1) (at 5)))))
add_timer_in_loop-alarm_example =
    add_timer_in_loop-alarm (at 1) 400 (once 5 3) three refl three_in_order

how_much_time_from_now_lem_example :
    ((how_much_time_from_now (at 5) (at 3000007)).nsec < 1000000000)
    × ((how_much_time_from_now (at 5) (at 3000007)).sec * 1000000000
          + (how_much_time_from_now (at 5) (at 3000007)).nsec
        ≡ 3000002 * 1000)
how_much_time_from_now_lem_example = how_much_time_from_now_lem (at 5) (at 3000007)

-- The callback of the first timer cancels the second, which is in the same batch: both are gone at the
-- end, and the second is not in the sets any more when its turn comes.
cancelled_in_batch :
    handle_read 30 (at 31) (λ n. cancel (record { number = 1; address = 200 }) ∷ []) three
    ≡ some (record three {
      heap = (300, once 50 2) ∷ (400, once 5 3) ∷ [];
      timers = record { first_at = at 50; timer = 300 } ∷ [];
      active_timers = record { number = 2; address = 300 } ∷ [];
      alarm = some (how_much_time_from_now (at 31) (at 50));
    })
unfolding handle_read get_expired split_at drop_expired drop_active run_expired obey_all
    cancel_in_loop has_active reset reset_entries reset_entry reset_timer_fd
cancelled_in_batch = refl

-- Every callback cancels the second timer.
abbrev cancels_second : ℕ → List Command
cancels_second n = cancel (record { number = 1; address = 200 }) ∷ []

no_new : (l : List Entry) (r : TimerQueue) → AllocatesAll (at 31) cancels_second l r
no_new [] r = tt
no_new (e ∷ l) r = λ t f. ((tt, λ r e. tt), λ r e. no_new l r)

unequal : {m n : ℕ} → (m == n) ≡ false → m ≢ n
unequal {m} {n} e f = ground (arith, ==_iff m n, e, f)

three-Safe : Safe [] three
three-Safe = record {
  ordered = three_in_order;
  entered = (
    (omega arith, (once 10 0, refl, refl)),
    ((omega arith, (once 20 1, refl, refl)), ((omega arith, (once 50 2, refl, refl)), tt)),
  );
  actives = ((once 10 0, refl, refl), ((once 20 1, refl, refl), ((once 50 2, refl, refl), tt)));
  held = tt;
  apart = (tt, (tt, (tt, tt)));
  parted = (tt, (tt, (tt, tt)));
  distinct = tt;
  timers_distinct = ((unequal refl, (unequal refl, tt)), ((unequal refl, tt), (tt, tt)));
}

handle_read-Safe_example :
    (r : TimerQueue) × (handle_read 30 (at 31) cancels_second three ≡ some r) × Safe [] r
handle_read-Safe_example =
    handle_read-Safe 30 (at 31) cancels_second three three-Safe (λ l r e. no_new l r)
