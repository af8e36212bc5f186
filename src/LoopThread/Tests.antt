-- ===== src/LoopThread/Tests.antt =====
-- A loop thread that is started, comes into its loop and is destroyed there.
use clear_moon.Prelude.{ℕ, ◌≡◌, refl, Bool, true, false, some}
use clear_moon.EventLoop.System.{no_events, advance, testing}
use clear_moon.LoopThread.{
  running, gone, destroyed, LoopThread, holds_lock, is_alive, create, destroy, owner_step,
  thread_step, thread_steps, Runs, born, starts, destroys, owner_moves, thread_moves,
}
use clear_moon.LoopThread.Kept.{is_destroyed}
use clear_moon.LoopThread.Owned.{owner_finds_the_loop}
use clear_moon.LoopThread.Joined.{destructor_returns}

abbrev no_quits : ℕ → Bool
no_quits n = false

-- `start` has returned, and `loop` has begun.
abbrev in_loop : LoopThread ℕ
in_loop = record (create false) {
  started = true;
  published = true;
  place = running;
  system = record (create false).system {
    loop = record (create false).system.loop { looping = true };
    phase = testing;
  };
}

begins_loop : Runs no_quits in_loop
unfolding owner_step thread_step advance
begins_loop =
    thread_moves no_events
      (owner_moves (thread_moves no_events (starts (born false) refl refl) refl) refl) refl

owner_finds_the_loop_example :
    ((destroy in_loop).published ≡ true → is_alive (destroy in_loop).place ≡ true)
    × (holds_lock (destroy in_loop).owner ≡ true → is_alive (destroy in_loop).place ≡ true)
    × (is_destroyed (destroy in_loop).owner ≡ true → (destroy in_loop).place ≡ gone)
owner_finds_the_loop_example = owner_finds_the_loop no_quits (destroys begins_loop refl)

destructor_returns_example :
    (k : LoopThread ℕ) × (owner_step (destroy in_loop) ≡ some k)
    × (n : ℕ) × (u : LoopThread ℕ) × (thread_steps no_quits n k ≡ some u)
    × (owner_step u ≡ some (record u { joined = true; owner = destroyed }))
    × (u.place ≡ gone)
destructor_returns_example = destructor_returns no_quits begins_loop refl refl refl refl
