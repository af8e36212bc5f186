-- ===== src/Timers/Timestamp.antt =====
-- net/Timestamp.h, and the delay that net/TimerQueue.cc sets a timer descriptor to. A time is a number
-- of microseconds from the epoch on, or the time -1 that stands for none.
use clear_moon.Prelude.{ℕ, suc, ◌+◌, ◌-◌, ◌*◌, ◌/◌, ◌%◌, ◌<◌, ◌≡◌, Bool, arith, ltb, if◌then◌else◌}

pub data Timestamp : Type 0 where
  invalid : Timestamp
  at : ℕ → Timestamp

-- The number of a time, with one added.
abbrev pub place : Timestamp → ℕ
place invalid = 0
place (at n) = suc n

abbrev pub earlier : Timestamp → Timestamp → Bool
earlier s t = ltb (place s) (place t)

abbrev pub is_valid : Timestamp → Bool
is_valid t = ltb 1 (place t)

-- `std::abs` of the difference.
abbrev pub differ_micro_second : Timestamp → Timestamp → ℕ
differ_micro_second s t = (place t - place s) + (place s - place t)

pub record Timespec : Type 0 where
  pub sec : ℕ
  pub nsec : ℕ

-- `micro < 100` also where the time is past: there the difference is negative.
unfoldable pub how_much_time_from_now : Timestamp → Timestamp → Timespec
how_much_time_from_now now when_ =
    let micro = place when_ - place now in
    let micro = if ltb micro 100 then 100 else micro in
    record { sec = micro / 1000000; nsec = micro % 1000000 * 1000 }

-- The delay is a proper `timespec` that is never 0, which would turn the timer off: all in nanoseconds,
-- it is the time up to `when_`, or 100 microseconds where that is less or past.
pub how_much_time_from_now_lem :
    (now when_ : Timestamp)
    → ((how_much_time_from_now now when_).nsec < 1000000000)
      × ((how_much_time_from_now now when_).sec * 1000000000
            + (how_much_time_from_now now when_).nsec
          ≡ (if ltb (place when_ - place now) 100 then 100 else place when_ - place now) * 1000)
unfolding how_much_time_from_now
how_much_time_from_now_lem now when_ =
    let micro : ℕ = if ltb (place when_ - place now) 100 then 100 else place when_ - place now in
    (omega arith, omega arith)
