-- ===== src/LoopThread.antt =====
-- net/EventLoopThread.h and EventLoopThread.cc: the object that starts the thread of a loop, and that
-- thread. What is done under `mutex_` is one step, but for the `quit` of the destructor, which takes two
-- with the lock held. Only the destructor, `start` and `join` belong to the owner, which is no thread of
-- the loop; the condition variable is the test that it waits for.
pub mod Kept
pub mod Owned
pub mod Joined
pub mod Tests
use clear_moon.Prelude.{
  ℕ, zero, suc, ◌-◌, ◌≡◌, Bool, true, false, not, List, [], ◌∷◌, ◌++◌, Option, none, some, ◌>>=◌,
  ◌>>◌, assert, if◌then◌else◌,
}
use clear_moon.EventLoop.System.{
  Phase, before, finished, System, Events, no_events, quit_if, advance, give, wake, ask_to_quit,
}
use clear_moon.EventLoop.System

-- Where the new thread is: in front of the lock that publishes the loop, in `loop`, behind it, and over.
pub data Place : Type 0 where
  unborn preparing running leaving gone : Place

-- What the owner does: nothing, waiting in `start`, in `quit` with the lock held, about to write the
-- wake-up or not, in `join` for itself or for the destructor, behind the destructor, or thrown out of
-- `join` of a thread that was never started.
pub data Owner : Type 0 where
  idle waiting : Owner
  quitting : Bool → Owner
  joining : Bool → Owner
  destroyed thrown : Owner

-- `published` is whether `loop_` is set. `callback_quits`: whether `callback_` calls `quit`.
pub record LoopThread (F : Type 0) : Type 0 where
  pub published : Bool
  pub started : Bool
  pub exiting : Bool
  pub joined : Bool
  pub callback_quits : Bool
  pub place : Place
  pub owner : Owner
  pub system : System F

abbrev pub holds_lock : Owner → Bool
holds_lock (quitting _) = true
holds_lock _ = false

-- The loop is an object on the stack of the thread.
abbrev pub is_alive : Place → Bool
is_alive unborn = false
is_alive gone = false
is_alive _ = true

abbrev pub after_join : Bool → Owner
after_join true = destroyed
after_join false = idle

module _ {F : Type 0} where
  abbrev pub create : Bool → LoopThread F
  create callback_quits = record {
    published = false;
    started = false;
    exiting = false;
    joined = false;
    callback_quits = callback_quits;
    place = unborn;
    owner = idle;
    system = System.start;
  }

  -- `start` up to the wait.
  abbrev pub start : LoopThread F → Option (LoopThread F)
  start h =
      assert (not h.started)
      >> some (record h {
        started = true;
        place = preparing;
        owner = waiting;
        system = record h.system { loop = quit_if h.callback_quits h.system.loop };
      })

  -- The destructor up to the wake-up of `quit`, or up to `join`.
  abbrev pub destroy : LoopThread F → LoopThread F
  destroy h =
      if h.started
      then if h.published
        then record h {
          exiting = true;
          system = ask_to_quit h.system;
          owner = quitting (not h.system.loop.quit_);
        }
        else record h { exiting = true; owner = joining true }
      else record h { exiting = true; owner = joining true }

  -- `join` of the thread, where it was not joined before.
  abbrev pub join_at : Place → Bool → LoopThread F → Option (LoopThread F)
  join_at unborn destroys h = some (record h { owner = thrown })
  join_at gone destroys h = some (record h { joined = true; owner = after_join destroys })
  join_at _ destroys h = none

  -- What the owner is about to do; `none`: it waits, or has nothing to do.
  abbrev pub owner_step_in : Owner → LoopThread F → Option (LoopThread F)
  owner_step_in waiting h = if h.published then some (record h { owner = idle }) else none
  owner_step_in (quitting true) h =
      some (record h { system = wake (h.system.wakers - 1) h.system; owner = joining true })
  owner_step_in (quitting false) h = some (record h { owner = joining true })
  owner_step_in (joining destroys) h =
      if h.joined
      then some (record h { owner = after_join destroys })
      else join_at h.place destroys h
  owner_step_in _ h = none

  unfoldable pub owner_step : LoopThread F → Option (LoopThread F)
  owner_step h = owner_step_in h.owner h

  abbrev pub join : LoopThread F → LoopThread F
  join h = record h { owner = joining false }

  abbrev pub with_system : LoopThread F → System F → LoopThread F
  with_system h s = record h { system = s }

  -- `loop.loop()` is over, or goes on.
  abbrev pub loop_in : (F → Bool) → Phase → Events → LoopThread F → Option (LoopThread F)
  loop_in quits finished ev h = some (record h { place = leaving })
  loop_in quits _ ev h = advance quits ev h.system >>= λ s. some (with_system h s)

  -- `threadFunc`.
  abbrev pub thread_step_in : (F → Bool) → Place → Events → LoopThread F → Option (LoopThread F)
  thread_step_in quits preparing ev h =
      if holds_lock h.owner then none else some (record h { published = true; place = running })
  thread_step_in quits running ev h = loop_in quits h.system.phase ev h
  thread_step_in quits leaving ev h =
      if holds_lock h.owner then none else some (record h { published = false; place = gone })
  thread_step_in quits _ ev h = none

  unfoldable pub thread_step : (F → Bool) → Events → LoopThread F → Option (LoopThread F)
  thread_step quits ev h = thread_step_in quits h.place ev h

  -- The thread on its own, with no event.
  unfoldable pub thread_steps : (F → Bool) → ℕ → LoopThread F → Option (LoopThread F)
  thread_steps quits zero h = some h
  thread_steps quits (suc n) h = thread_step quits no_events h >>= thread_steps quits n

  -- The owner, the thread, and others that give functions to the loop, in any order.
  pub data Runs (quits : F → Bool) : LoopThread F → Type 0 where
    born : (b : Bool) → Runs quits (create b)
    starts : {h k : LoopThread F} → Runs quits h → h.owner ≡ idle → start h ≡ some k → Runs quits k
    joins : {h : LoopThread F} → Runs quits h → h.owner ≡ idle → Runs quits (join h)
    destroys : {h : LoopThread F} → Runs quits h → h.owner ≡ idle → Runs quits (destroy h)
    owner_moves : {h k : LoopThread F} → Runs quits h → owner_step h ≡ some k → Runs quits k
    thread_moves :
        {h k : LoopThread F} (ev : Events)
        → Runs quits h
        → thread_step quits ev h ≡ some k
        → Runs quits k
    is_given :
        {h : LoopThread F} (f : F)
        → Runs quits h
        → is_alive h.place ≡ true
        → Runs quits (with_system h (give f h.system))
    is_woken :
        {h : LoopThread F} (k : ℕ)
        → Runs quits h
        → h.system.wakers ≡ suc k
        → Runs quits (with_system h (wake k h.system))
