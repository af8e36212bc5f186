-- ===== src/EventLoop/System.antt =====
-- net/EventLoop.cc: `loop` as the steps of its thread, and what other threads do between them.
use clear_moon.Prelude.{
  ℕ, zero, suc, ◌≡◌, Bool, true, false, ◌||◌, List, [], ◌∷◌, ◌++◌, Option, none, some, ◌>>=◌, ltb,
  if◌then◌else◌,
}
use clear_moon.EventLoop.{
  EventLoop, create, weakup, handle_weakup, push, quit, set_quit, take_pending, done_pending,
  begin_loop, end_loop,
}

-- Where the thread of the loop is: before `loop`; at the test of `while`; in `poll`; behind it, where
-- the wake-up channel is among the active ones or is not; in front of `doPendingFuncs` and in it, in the
-- loop or behind it; and behind `loop`.
pub data Phase : Type 0 where
  before testing polling : Phase
  handling : Bool → Phase
  swapping draining : Bool → Phase
  finished : Phase

-- `running` is what `doPendingFuncs` still has to call, `wakers` counts the threads that are about to
-- call `weakup`; `given` and `ran` are the functions that were left to the loop, and called.
pub record System (F : Type 0) : Type 0 where
  pub loop : EventLoop F
  pub phase : Phase
  pub running : List F
  pub wakers : ℕ
  pub given : List F
  pub ran : List F

-- Whether a descriptor other than the eventfd is ready, and whether its callbacks call `quit`.
pub record Events : Type 0 where
  pub ready : Bool
  pub event_quits : Bool

abbrev pub no_events : Events
no_events = record { ready = false; event_quits = false }

module _ {F : Type 0} where
  abbrev pub quit_if : Bool → EventLoop F → EventLoop F
  quit_if asks l = if asks then quit true l else l

  abbrev pub start_draining : Bool → System F → Option (System F)
  start_draining last s = take_pending s.loop >>= λ r.
      some (record s { loop = r.1; phase = draining last; running = r.0 })

  -- Behind the last function.
  abbrev pub stop_draining : Bool → System F → System F
  stop_draining false s = record s { loop = done_pending s.loop; phase = testing }
  stop_draining true s = record s { loop = end_loop (done_pending s.loop); phase = finished }

  module _ (quits : F → Bool) where
    abbrev pub call_next : Bool → List F → System F → System F
    call_next last [] s = stop_draining last s
    call_next last (f ∷ rest) s = record s {
      loop = quit_if (quits f) s.loop;
      running = rest;
      ran = s.ran ++ (f ∷ []);
    }

    -- `none`: `poll` waits, or the loop is over.
    abbrev pub advance_in : Phase → Events → System F → Option (System F)
    advance_in before ev s = some (record s { loop = begin_loop s.loop; phase = testing })
    advance_in testing ev s =
        some (record s { phase = if s.loop.quit_ then swapping true else polling })
    advance_in polling ev s =
        if ltb 0 s.loop.counter || ev.ready
        then some (record s {
          loop = record s.loop { event_handling = true };
          phase = handling (ltb 0 s.loop.counter);
        })
        else none
    advance_in (handling woken) ev s =
        let l = quit_if ev.event_quits (if woken then handle_weakup s.loop else s.loop) in
        some (record s { loop = record l { event_handling = false }; phase = swapping false })
    advance_in (swapping last) ev s = start_draining last s
    advance_in (draining last) ev s = some (call_next last s.running s)
    advance_in finished ev s = none

    unfoldable pub advance : Events → System F → Option (System F)
    advance ev s = advance_in s.phase ev s

    -- The loop's own thread, left alone, with no other descriptor ready.
    unfoldable pub advance_times : ℕ → System F → Option (System F)
    advance_times zero s = some s
    advance_times (suc n) s = advance no_events s >>= advance_times n

  -- The other threads.
  abbrev pub give : F → System F → System F
  give f s = record s { loop = push f s.loop; wakers = suc s.wakers; given = s.given ++ (f ∷ []) }

  abbrev pub wake : ℕ → System F → System F
  wake k s = record s { loop = weakup s.loop; wakers = k }

  abbrev pub ask_to_quit : System F → System F
  ask_to_quit s =
      if s.loop.quit_ then s else record s { loop = set_quit s.loop; wakers = suc s.wakers }

  -- Any order of them all.
  pub data Reach (quits : F → Bool) (s : System F) : System F → Type 0 where
    here : Reach quits s s
    loops :
        {t u : System F} (ev : Events)
        → Reach quits s t
        → advance quits ev t ≡ some u
        → Reach quits s u
    gives : {t : System F} (f : F) → Reach quits s t → Reach quits s (give f t)
    wakes : {t : System F} (k : ℕ) → Reach quits s t → t.wakers ≡ suc k → Reach quits s (wake k t)
    asks : {t : System F} → Reach quits s t → Reach quits s (ask_to_quit t)

  abbrev pub start : System F
  start = record { loop = create; phase = before; running = []; wakers = 0; given = []; ran = [] }
