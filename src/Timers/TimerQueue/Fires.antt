-- ===== src/Timers/TimerQueue/Fires.antt =====
-- `handleRead`, with callbacks that add timers and cancel them.
use clear_moon.Prelude.{ℕ, ◌≡◌, refl, true, false, List, [], some}
use clear_moon.OrdMap.{number_key}
use clear_moon.Timers.Timestamp.{Timestamp, at}
use clear_moon.Timers.TimerQueue.{Entry, TimerQueue, Command, handle_read, get_expired}
use clear_moon.Timers.TimerQueue.Alive.{Safe, restyled-Safe}
use clear_moon.Timers.TimerQueue.Expired.{get_expired-Safe}
use clear_moon.Timers.TimerQueue.Batch.{AllocatesAll, run_expired-Safe, reset-Safe}

-- On a queue in order, whose entries and active timers are timers on the heap, `handleRead` fails
-- nowhere: no assert fails, and no timer is read or deleted that is not there, whatever the callbacks
-- add and cancel, timers of the same batch included, where `new` gives an address of no timer each time.
-- The queue is in that state again behind it.
pub handle_read-Safe :
    (now : ℕ) (later : Timestamp) (callback : ℕ → List Command) (q : TimerQueue)
    → Safe [] q
    → ((l : List Entry) (r : TimerQueue)
        → get_expired (at now) (record q { handle_timer = true }) ≡ some (l, r)
        → AllocatesAll later callback l r)
    → (r : TimerQueue) × (handle_read now later callback q ≡ some r) × Safe [] r
unfolding handle_read
handle_read-Safe now later callback q s n =
    let q0 : TimerQueue = record q { handle_timer = true } in
    let (l, q1, e, s1) = get_expired-Safe (at now) q0 (restyled-Safe [] q q0 refl refl refl s) in
    let (q2, f, s2) = run_expired-Safe later callback [] l q1 (n l q1 e) s1 in
    let q2' : TimerQueue = record q2 { handle_timer = false } in
    let (q3, g, s3) = reset-Safe later now l q2' (restyled-Safe l q2 q2' refl refl refl s2) in
    (
      record q3 { cancelling = [] },
      rw e (rw f (rw g refl)),
      restyled-Safe [] q3 _ refl refl refl s3,
    )
