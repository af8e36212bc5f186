-- ===== src/Latch.antt =====
-- base/CountDownLatch.h and CountDownLatch.cc: a monitor. What a thread does under the lock, up to where
-- it leaves the lock or sleeps, is one function; `sleepers` counts the threads that sleep on `cond_`. The
-- counter is an `int`, taken without its bounds.
pub mod Released
pub mod Tests
use clear_moon.Prelude.{ℕ, zero, suc, ◌≡◌, ◌+◌, Bool, true, false, if◌then◌else◌}

-- The numbers from 0 up, and those below, from -1 down.
pub data ℤ : Type 0 where
  pos negsuc : ℕ → ℤ

abbrev pub one_less : ℤ → ℤ
one_less (pos zero) = negsuc zero
one_less (pos (suc n)) = pos n
one_less (negsuc n) = negsuc (suc n)

abbrev pub is_positive : ℤ → Bool
is_positive (pos (suc n)) = true
is_positive _ = false

abbrev pub is_zero : ℤ → Bool
is_zero (pos zero) = true
is_zero _ = false

pub record CountDownLatch : Type 0 where
  pub count : ℤ
  pub sleepers : ℕ

abbrev pub create : ℤ → CountDownLatch
create count = record { count = count; sleepers = 0 }

-- Where the count is positive the thread sleeps, else it goes on (`true`).
abbrev pub wait_on : Bool → CountDownLatch → Bool × CountDownLatch
wait_on true l = (false, record l { sleepers = suc l.sleepers })
wait_on false l = (true, l)

unfoldable pub wait : CountDownLatch → Bool × CountDownLatch
wait l = wait_on (is_positive l.count) l

unfoldable pub count_down : CountDownLatch → CountDownLatch
count_down l =
    if is_zero (one_less l.count)
    then record { count = one_less l.count; sleepers = 0 }
    else record l { count = one_less l.count }

abbrev pub get_count : CountDownLatch → ℤ
get_count l = l.count

-- Threads that come, count and wake, notified or not, in any order; `passed` is how many went on, and
-- `counted` how often it was counted down.
pub data Run (start : ℤ) : ℕ → CountDownLatch → Type 0 where
  begins : Run start 0 (create start)
  waits : {n : ℕ} {l : CountDownLatch} → Run start n l → Run start n (wait l).1
  waits_again :
      {n : ℕ} {l : CountDownLatch} (k : ℕ)
      → l.sleepers ≡ suc k
      → Run start n l
      → Run start n (wait (record l { sleepers = k })).1
  counts : {n : ℕ} {l : CountDownLatch} → Run start n l → Run start (suc n) (count_down l)
