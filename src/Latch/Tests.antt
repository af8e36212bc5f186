-- ===== src/Latch/Tests.antt =====
-- A latch of one.
use clear_moon.Latch.{pos, create, wait, count_down, begins, waits, counts}
use clear_moon.Latch.Released.{Released, no_one_sleeps_on}

-- A thread waits, and another counts down.
no_one_sleeps_on_example : Released (pos 1) 1 (count_down (wait (create (pos 1))).1)
no_one_sleeps_on_example = no_one_sleeps_on (counts (waits begins))
