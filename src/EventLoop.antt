-- ===== src/EventLoop.antt =====
-- net/EventLoop.h and EventLoop.cc: one thread that runs the loop, and any others that leave functions
-- to it. A function is a value of a type `F`; all that counts of it is whether it calls `quit`. The
-- eventfd is its counter.
pub mod System
pub mod Heard
pub mod Wakes
pub mod Ends
pub mod Quit
pub mod Clock
pub mod Tests
use clear_moon.Prelude.{
  ℕ, suc, ◌+◌, ◌-◌, ◌^◌, Bool, true, false, not, ◌||◌, List, [], ◌∷◌, ◌++◌, Option, none, some,
  ◌>>=◌, ◌>>◌, assert, ltb, if◌then◌else◌,
}

pub record EventLoop (F : Type 0) : Type 0 where
  pub looping : Bool
  pub quit_ : Bool
  pub event_handling : Bool
  pub calling_pending : Bool
  pub counter : ℕ
  pub pending : List F

-- The highest count of an eventfd: `write` fails there, which the code does not look at.
abbrev pub max_count : ℕ
max_count = 2 ^ 64 - 2

module _ {F : Type 0} where
  abbrev pub create : EventLoop F
  create = record {
    looping = false;
    quit_ = false;
    event_handling = false;
    calling_pending = false;
    counter = 0;
    pending = [];
  }

  abbrev pub weakup : EventLoop F → EventLoop F
  weakup l = record l { counter = if ltb l.counter max_count then suc l.counter else l.counter }

  abbrev pub handle_weakup : EventLoop F → EventLoop F
  handle_weakup l = record l { counter = 0 }

  -- `queueInLoop` takes the lock for the first part, and wakes the loop behind it.
  abbrev pub push : F → EventLoop F → EventLoop F
  push f l = record l { pending = l.pending ++ (f ∷ []) }

  abbrev pub has_to_wake : Bool → EventLoop F → Bool
  has_to_wake in_thread l = not in_thread || l.calling_pending

  abbrev pub queue_in_loop : Bool → F → EventLoop F → EventLoop F
  queue_in_loop in_thread f l =
      let l' = push f l in if has_to_wake in_thread l' then weakup l' else l'

  -- `run` is what the function does when it is called at once.
  abbrev pub run_in_loop : Bool → (F → EventLoop F → EventLoop F) → F → EventLoop F → EventLoop F
  run_in_loop in_thread run f l = if in_thread then run f l else queue_in_loop in_thread f l

  -- `quit` up to the wake-up of another thread.
  abbrev pub set_quit : EventLoop F → EventLoop F
  set_quit l = record l { quit_ = true }

  abbrev pub quit : Bool → EventLoop F → EventLoop F
  quit in_thread l = if l.quit_ then l else if in_thread then set_quit l else weakup (set_quit l)

  -- The first part of `doPendingFuncs`: what is to be run, and the loop without it.
  abbrev pub take_pending : EventLoop F → Option (List F × EventLoop F)
  take_pending l =
      assert (not l.calling_pending)
      >> some (l.pending, record l { calling_pending = true; pending = [] })

  abbrev pub done_pending : EventLoop F → EventLoop F
  done_pending l = record l { calling_pending = false }

  abbrev pub begin_loop : EventLoop F → EventLoop F
  begin_loop l = record l { looping = true; quit_ = false }

  abbrev pub end_loop : EventLoop F → EventLoop F
  end_loop l = record l { looping = false }
