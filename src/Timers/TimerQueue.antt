-- ===== src/Timers/TimerQueue.antt =====
-- net/Timer.h, Timer.cc, TimerId.h, TimerQueue.h and TimerQueue.cc, in the loop's thread. Timers are objects
-- on a heap, by their addresses: to read a timer that is deleted, or to delete it again, is `none`.
-- What `new` gives, the time and the callbacks are arguments.
pub mod Order
pub mod Alarm
pub mod Sets
pub mod Alive
pub mod Safe
pub mod Batch
pub mod Expired
pub mod Fires
use clear_moon.Prelude.{
  ℕ, zero, suc, ◌+◌, Bool, true, false, not, ◌&&◌, ◌||◌, List, [], ◌∷◌, ◌++◌, Option, none, some,
  ◌>>=◌, ◌>>◌, assert, ltb, ◌==◌, if◌then◌else◌,
}
use clear_moon.OrdMap.{OrdMap, find, assign, erase, number_key}
use clear_moon.Timers.Timestamp.{
  Timestamp, at, invalid, place, earlier, Timespec, how_much_time_from_now,
}

-- `micro` is the interval in microseconds, as `restart` casts it.
pub record Timer : Type 0 where
  pub expiration : Timestamp
  pub micro : ℕ
  pub repeat : Bool
  pub sequence : ℕ
  pub cancelled : Bool

abbrev pub restart : ℕ → Timer → Timer
restart now t = record t { expiration = if t.repeat then at (now + t.micro) else invalid }

-- `first_at` is the `expiration_` of an entry, `timer` its pointer.
pub record Entry : Type 0 where
  pub first_at : Timestamp
  pub timer : ℕ

-- `Entry::operator<`: by time, then by address.
abbrev pub comes_before : Entry → Entry → Bool
comes_before a b =
    if place a.first_at == place b.first_at
    then ltb a.timer b.timer
    else ltb (place a.first_at) (place b.first_at)

-- `ActiveTimer` and `TimerId`: a sequence number and an address.
pub record ActiveTimer : Type 0 where
  pub number : ℕ
  pub address : ℕ

abbrev pub same_active : ActiveTimer → ActiveTimer → Bool
same_active a b = (a.number == b.number) && (a.address == b.address)

-- `created` is `s_numCreated_`, `alarm` what the timer descriptor was last set to.
pub record TimerQueue : Type 0 where
  pub heap : OrdMap ℕ Timer
  pub created : ℕ
  pub timers : List Entry
  pub active_timers : List ActiveTimer
  pub cancelling : List ActiveTimer
  pub handle_timer : Bool
  pub alarm : Option Timespec

-- `std::set`: in order, each once.
unfoldable pub insert : Entry → List Entry → List Entry
insert e [] = e ∷ []
insert e (d ∷ rest) =
    if comes_before e d
    then e ∷ d ∷ rest
    else if comes_before d e
    then d ∷ insert e rest
    else d ∷ rest

unfoldable pub remove : Entry → List Entry → List Entry
remove e [] = []
remove e (d ∷ rest) =
    if comes_before e d || comes_before d e then d ∷ remove e rest else remove e rest

unfoldable pub has_active : ActiveTimer → List ActiveTimer → Bool
has_active a [] = false
has_active a (b ∷ rest) = same_active a b || has_active a rest

abbrev pub put_active : ActiveTimer → List ActiveTimer → List ActiveTimer
put_active a l = if has_active a l then l else a ∷ l

unfoldable pub drop_active : ActiveTimer → List ActiveTimer → List ActiveTimer
drop_active a [] = []
drop_active a (b ∷ rest) = if same_active a b then drop_active a rest else b ∷ drop_active a rest

-- `delete`.
abbrev pub free : ℕ → TimerQueue → Option TimerQueue
free address q = find address q.heap >>= λ t. some (record q { heap = erase address q.heap })

unfoldable pub reset_timer_fd : Timestamp → Timestamp → TimerQueue → TimerQueue
reset_timer_fd now when_ q = record q { alarm = some (how_much_time_from_now now when_) }

abbrev pub comes_first : Timestamp → List Entry → Bool
comes_first t [] = true
comes_first t (e ∷ rest) = earlier t e.first_at

-- Into both sets.
abbrev pub enter : ℕ → Timer → TimerQueue → TimerQueue
enter address t q = record q {
  timers = insert (record { first_at = t.expiration; timer = address }) q.timers;
  active_timers = put_active (record { number = t.sequence; address = address }) q.active_timers;
}

unfoldable pub add_timer_in_loop : Timestamp → ℕ → TimerQueue → Option TimerQueue
unfolding reset_timer_fd
add_timer_in_loop now address q = do
  t ← find address q.heap
  let q' = enter address t q
  some (if comes_first t.expiration q.timers then reset_timer_fd now t.expiration q' else q')

-- `new Timer` at `address`, and its id.
unfoldable pub add_timer :
    Timestamp → ℕ → Timestamp → ℕ → Bool → TimerQueue → Option (ActiveTimer × TimerQueue)
unfolding add_timer_in_loop
add_timer now address when_ micro repeat q = do
  let t : Timer = record {
    expiration = when_;
    micro = micro;
    repeat = repeat;
    sequence = q.created;
    cancelled = false;
  }
  q' ←
      add_timer_in_loop now address
        (record q { heap = assign address t q.heap; created = suc q.created })
  some (record { number = t.sequence; address = address }, q')

unfoldable pub cancel_in_loop : ActiveTimer → TimerQueue → Option TimerQueue
cancel_in_loop key q =
    if has_active key q.active_timers
    then (do
      t ← find key.address q.heap
      free key.address (record q {
        timers = remove (record { first_at = t.expiration; timer = key.address }) q.timers;
        active_timers =
            drop_active (record { number = t.sequence; address = key.address }) q.active_timers;
      }))
    else if q.handle_timer
    then some (record q { cancelling = put_active key q.cancelling })
    else some q

-- `lower_bound` of `{now, UINTPTR_MAX}`: the entries in front of it, and those behind.
unfoldable pub split_at : Entry → List Entry → List Entry × List Entry
split_at sentry [] = ([], [])
split_at sentry (e ∷ rest) =
    let (front, back) = split_at sentry rest in
    if comes_before e sentry then (e ∷ front, back) else ([], e ∷ rest)

abbrev pub uintptr_max : ℕ
uintptr_max = 18446744073709551615

abbrev pub sentry_at : Timestamp → Entry
sentry_at now = record { first_at = now; timer = uintptr_max }

abbrev pub later_than : Timestamp → List Entry → Bool
later_than now [] = true
later_than now (e ∷ rest) = earlier now e.first_at

-- The expired entries leave the set of active timers, by what their timers say.
unfoldable pub drop_expired : List Entry → TimerQueue → Option TimerQueue
drop_expired [] q = some q
drop_expired (e ∷ rest) q = do
  t ← find e.timer q.heap
  drop_expired rest (record q {
    active_timers = drop_active (record { number = t.sequence; address = e.timer }) q.active_timers;
  })

unfoldable pub get_expired : Timestamp → TimerQueue → Option (List Entry × TimerQueue)
unfolding drop_expired
get_expired now q = do
  let (expired, left) = split_at (sentry_at now) q.timers
  assert (later_than now left)
  q' ← drop_expired expired q
  some (expired, record q' { timers = left })

-- What a callback does with the queue; `new` gives an address to each timer that it adds.
pub data Command : Type 0 where
  add : ℕ → Timestamp → ℕ → Bool → Command
  cancel : ActiveTimer → Command

abbrev pub obey : Timestamp → Command → TimerQueue → Option TimerQueue
obey now (add address when_ micro repeat) q =
    add_timer now address when_ micro repeat q >>= λ r. some (r.1)
obey now (cancel key) q = cancel_in_loop key q

unfoldable pub obey_all : Timestamp → List Command → TimerQueue → Option TimerQueue
obey_all now [] q = some q
obey_all now (c ∷ cs) q = obey now c q >>= obey_all now cs

-- The callbacks of the expired timers, by sequence number, in order.
unfoldable pub run_expired :
    Timestamp → (ℕ → List Command) → List Entry → TimerQueue → Option TimerQueue
run_expired now callback [] q = some q
run_expired now callback (e ∷ rest) q = do
  t ← find e.timer q.heap
  q' ← if t.cancelled then some q else obey_all now (callback t.sequence) q
  run_expired now callback rest q'

unfoldable pub reset_entry : ℕ → Entry → TimerQueue → Option TimerQueue
reset_entry now e q = do
  t ← find e.timer q.heap
  if has_active (record { number = t.sequence; address = e.timer }) q.cancelling
        || t.cancelled
        || not t.repeat
      then free e.timer q
      else some (
          enter e.timer (restart now t) (record q { heap = assign e.timer (restart now t) q.heap }))

unfoldable pub reset_entries : ℕ → List Entry → TimerQueue → Option TimerQueue
unfolding reset_entry
reset_entries now [] q = some q
reset_entries now (e ∷ rest) q = reset_entry now e q >>= reset_entries now rest

abbrev pub rearm : Timestamp → List Entry → TimerQueue → TimerQueue
rearm now [] q = q
rearm now (e ∷ rest) q = reset_timer_fd now e.first_at q

unfoldable pub reset : Timestamp → ℕ → List Entry → TimerQueue → Option TimerQueue
unfolding reset_entries reset_timer_fd
reset later now expired q = do q' ← reset_entries now expired q; some (rearm later q'.timers q')

-- `now` is read once; the clock is read again, as `later`, where an alarm is set.
unfoldable pub handle_read : ℕ → Timestamp → (ℕ → List Command) → TimerQueue → Option TimerQueue
unfolding get_expired run_expired reset
handle_read now later callback q = do
  (expired, q1) ← get_expired (at now) (record q { handle_timer = true })
  q2 ← run_expired later callback expired q1
  q3 ← reset later now expired (record q2 { handle_timer = false })
  some (record q3 { cancelling = [] })
