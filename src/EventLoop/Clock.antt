-- ===== src/EventLoop/Clock.antt =====
-- net/EventLoop.cc: what the loop passes on to the poller and to the timers. The clock, the address that
-- `new` gives, and a delay as it is cast to microseconds are arguments.
use clear_moon.Prelude.{ℕ, ◌+◌, Bool, false, Option, ◌>>◌, assert}
use clear_moon.Reactor.Epoller.{Channel, Epoller}
use clear_moon.Reactor.Epoller
use clear_moon.Reactor.Channel
use clear_moon.Reactor.Channel.{enable_reading, remove}
use clear_moon.Timers.Timestamp.{Timestamp, at}
use clear_moon.Timers.TimerQueue.{ActiveTimer, TimerQueue, add_timer, cancel_in_loop}

-- `in_thread`: whether the loop's own thread calls; to abort is `none`.

-- What the constructor does with the channel of the eventfd, and the destructor behind its `quit`.
abbrev pub open_weakup : ℕ → ℕ → Epoller → Option (Channel × Epoller)
open_weakup address fd p = enable_reading (Channel.create address fd) p

abbrev pub close_weakup : Channel → Epoller → Option (Channel × Epoller)
close_weakup c p = remove c p

abbrev pub update_channel : Bool → Channel → Epoller → Option (Channel × Epoller)
update_channel in_thread c p = assert in_thread >> Epoller.update_channel c p

abbrev pub remove_channel : Channel → Epoller → Option (Channel × Epoller)
remove_channel c p = Epoller.remove_channel c p

abbrev pub run_at : Timestamp → ℕ → Timestamp → TimerQueue → Option (ActiveTimer × TimerQueue)
run_at now address when_ q = add_timer now address when_ 0 false q

abbrev pub run_after : ℕ → ℕ → ℕ → TimerQueue → Option (ActiveTimer × TimerQueue)
run_after now address delay q = add_timer (at now) address (at (now + delay)) 0 false q

-- A timer of an interval that is no positive number is not repeated.
abbrev pub run_every : ℕ → ℕ → ℕ → Bool → TimerQueue → Option (ActiveTimer × TimerQueue)
run_every now address interval repeat q =
    add_timer (at now) address (at (now + interval)) interval repeat q

abbrev pub cancel : ActiveTimer → TimerQueue → Option TimerQueue
cancel key q = cancel_in_loop key q
