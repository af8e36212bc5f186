-- ===== src/Timers/TimerQueue/Alarm.antt =====
-- The timer descriptor is set to the earliest timer.
use clear_moon.Prelude.{
  ℕ, ◌≡◌, refl, ◌⊎◌, inl, inr, true, false, List, [], ◌∷◌, Option, none, some, arith, Bool-cases,
}
use clear_moon.OrdMap.{find, number_key}
use clear_moon.Timers.Timestamp.{Timestamp, place, how_much_time_from_now}
use clear_moon.Timers.TimerQueue.{
  Timer, Entry, comes_before, TimerQueue, insert, comes_first, enter, reset_timer_fd,
  add_timer_in_loop,
}
use clear_moon.Timers.TimerQueue.Order.{IsOrdered, insert-IsOrdered}

-- The number of the earliest time, in a list in order.
abbrev pub first_place : List Entry → Option ℕ
first_place [] = none
first_place (e ∷ rest) = some (place e.first_at)

insert_first :
    (e : Entry) (l : List Entry)
    → comes_first e.first_at l ≡ true
    → first_place (insert e l) ≡ some (place e.first_at)
unfolding insert
insert_first e [] h = refl
insert_first e (d ∷ rest) h = let f : comes_before e d ≡ true = ground arith in rw f refl

insert_behind :
    (e : Entry) (l : List Entry)
    → comes_first e.first_at l ≡ false
    → first_place (insert e l) ≡ first_place l
unfolding insert
insert_behind e [] h = cc
insert_behind e (d ∷ rest) h = elim (Bool-cases (comes_before e d)) [
  | inl f ↦ rw f (ground arith)
  | inr f ↦ elim (Bool-cases (comes_before d e)) [ inl g ↦ rw (f, g) refl | inr g ↦ rw (f, g) refl ]
]

-- Adding a timer that is on the heap keeps the timers in order, and the descriptor with the earliest:
-- either the earliest time and the alarm are those from before, or they are the timer's.
pub add_timer_in_loop-alarm :
    (now : Timestamp) (address : ℕ) (t : Timer) (q : TimerQueue)
    → find address q.heap ≡ some t
    → IsOrdered q.timers
    → (q' : TimerQueue) × (add_timer_in_loop now address q ≡ some q')
      × IsOrdered q'.timers
      × (((first_place q'.timers ≡ first_place q.timers) × (q'.alarm ≡ q.alarm))
          ⊎ ((first_place q'.timers ≡ some (place t.expiration))
              × (q'.alarm ≡ some (how_much_time_from_now now t.expiration))))
unfolding add_timer_in_loop reset_timer_fd
add_timer_in_loop-alarm now address t q h o =
    let e : Entry = record { first_at = t.expiration; timer = address } in
    elim (Bool-cases (comes_first t.expiration q.timers)) [
      | inl f ↦ (
        reset_timer_fd now t.expiration (enter address t q),
        rw (h, f) refl,
        insert-IsOrdered e q.timers o,
        inr (insert_first e q.timers f, refl),
      )
      | inr f ↦ (
        enter address t q,
        rw (h, f) refl,
        insert-IsOrdered e q.timers o,
        inl (insert_behind e q.timers f, refl),
      )
    ]
