-- ===== src/Timers/TimerQueue/Batch.antt =====
-- The timers of a batch are run, and reset.
use clear_moon.Prelude.{
  ℕ, ◌<◌, ◌≡◌, ◌≢◌, refl, sym, ap, ◌∙◌, subst, Bool, true, false, not, ◌||◌, List, [], ◌∷◌, ◌++◌,
  Option, none, some, ◌>>=◌, append_assoc, if◌then◌else◌,
}
use clear_moon.OrdMap.{find, assign, erase, number_key}
use clear_moon.Timers.Timestamp.{Timestamp}
use clear_moon.Timers.TimerQueue.{
  Timer, Entry, TimerQueue, Command, add, cancel, obey, obey_all, run_expired, reset_entry,
  reset_entries, rearm, reset, has_active, uintptr_max, free, enter, restart, reset_timer_fd,
}
use clear_moon.Timers.TimerQueue.Order.{All, All-parts}
use clear_moon.Timers.TimerQueue.Sets.{Apart, All-turn}
use clear_moon.Timers.TimerQueue.Safe.{Gives, add_timer-Safe, cancel_in_loop-Safe}
use clear_moon.Timers.TimerQueue.Alive.{
  Heap, Held, Safe, Agrees, assign-Agrees, erase-Agrees, find-assigned, rebase-Safe, enter-Safe,
  restyled-Safe,
}

-- `new` gives an address where no timer is, and not the last one.
abbrev pub NewAt : Command → TimerQueue → Type 0
NewAt (add address when_ micro repeat) q = (find address q.heap ≡ none) × (address < uintptr_max)
NewAt (cancel key) q = Unit

-- At each command of a callback.
abbrev pub Allocates : Timestamp → List Command → TimerQueue → Type 0
Allocates now [] q = Unit
Allocates now (c ∷ cs) q =
    NewAt c q × ((r : TimerQueue) → obey now c q ≡ some r → Allocates now cs r)

-- In all callbacks of the timers that are run.
abbrev pub AllocatesAll : Timestamp → (ℕ → List Command) → List Entry → TimerQueue → Type 0
AllocatesAll now callback [] q = Unit
AllocatesAll now callback (e ∷ rest) q =
    (t : Timer)
    → find e.timer q.heap ≡ some t
    → Allocates now (callback t.sequence) q
      × ((r : TimerQueue)
          → (if t.cancelled then some q else obey_all now (callback t.sequence) q) ≡ some r
          → AllocatesAll now callback rest r)

obey-Safe :
    (now : Timestamp) (c : Command) (l : List Entry) (q : TimerQueue)
    → NewAt c q
    → Safe l q
    → Gives (Safe l) (obey now c q)
obey-Safe now (add address when_ micro repeat) l q (n, m) s =
    let (x, r, e, k) = add_timer-Safe now address when_ micro repeat l q n m s in (r, rw e refl, k)
obey-Safe now (cancel key) l q n s = cancel_in_loop-Safe key l q s

obey_all-Safe :
    (now : Timestamp) (cs : List Command) (l : List Entry) (q : TimerQueue)
    → Allocates now cs q
    → Safe l q
    → Gives (Safe l) (obey_all now cs q)
unfolding obey_all
obey_all-Safe now [] l q n s = (q, refl, s)
obey_all-Safe now (c ∷ cs) l q (n, m) s =
    let (r, e, k) = obey-Safe now c l q n s in
    let (u, f, j) = obey_all-Safe now cs l r (m r e) k in (u, rw e f, j)

has_timer :
    (k : List Entry) (e : Entry) (l : List Entry) (h : Heap)
    → All (Held h) (k ++ (e ∷ l))
    → Held h e
has_timer k e l h s = ((All-parts (Held h) k (e ∷ l) s).1).0

-- Those that were run, and those that are still to be.
pub run_expired-Safe :
    (now : Timestamp) (callback : ℕ → List Command) (k l : List Entry) (q : TimerQueue)
    → AllocatesAll now callback l q
    → Safe (k ++ l) q
    → Gives (Safe (k ++ l)) (run_expired now callback l q)
unfolding run_expired
run_expired-Safe now callback k [] q n s = (q, refl, s)
run_expired-Safe now callback k (e ∷ l) q n s =
    let (m, (t, f)) = has_timer k e l q.heap s.held in
    let (a, b) = n t f in
    let (r, g, j) = runs t.cancelled t a in
    let turned : (k ++ (e ∷ [])) ++ l ≡ k ++ (e ∷ l) = append_assoc k (e ∷ []) l in
    let (u, h, i) =
      run_expired-Safe now callback (k ++ (e ∷ [])) l r (b r g)
        (subst (λ x. Safe x r) (sym turned) j) in
    (u, rw f (rw g h), subst (λ x. Safe x u) turned i)
  where
    runs :
        (b : Bool) (t : Timer)
        → Allocates now (callback t.sequence) q
        → Gives (Safe (k ++ (e ∷ l))) (if b then some q else obey_all now (callback t.sequence) q)
    runs true t a = (q, refl, s)
    runs false t a = obey_all-Safe now (callback t.sequence) (k ++ (e ∷ l)) q a s

-- The first of those that were run, apart from all others.
tail-Safe : (e : Entry) (l : List Entry) (q : TimerQueue) → Safe (e ∷ l) q → Safe l q
tail-Safe e l q s = record {
  ordered = s.ordered;
  entered = s.entered;
  actives = s.actives;
  held = s.held.1;
  apart =
      All-turn (λ x. Apart x.address (e ∷ l)) (λ x. Apart x.address l) q.active_timers (λ x p. p.1)
        s.apart;
  parted =
      All-turn (λ d. Apart d.timer (e ∷ l)) (λ d. Apart d.timer l) q.timers (λ x p. p.1) s.parted;
  distinct = s.distinct.1;
  timers_distinct = s.timers_distinct;
}

head-Apart : (e : Entry) (l : List Entry) (q : TimerQueue) → Safe (e ∷ l) q → Apart e.timer q.timers
head-Apart e l q s =
    All-turn (λ d. Apart d.timer (e ∷ l)) (λ d. e.timer ≢ d.timer) q.timers (λ d p i. p.0 (sym i))
      s.parted

head_inactive :
    (e : Entry) (l : List Entry) (q : TimerQueue)
    → Safe (e ∷ l) q
    → All (λ x. e.timer ≢ x.address) q.active_timers
head_inactive e l q s =
    All-turn (λ x. Apart x.address (e ∷ l)) (λ x. e.timer ≢ x.address) q.active_timers
      (λ d p i. p.0 (sym i)) s.apart

reset_entry-Safe :
    (now : ℕ) (e : Entry) (l : List Entry) (q : TimerQueue)
    → Safe (e ∷ l) q
    → Gives (Safe l) (reset_entry now e q)
unfolding reset_entry
reset_entry-Safe now e l q s = resets s.held.0
  where
    moved : (g : Heap) → Agrees e.timer q.heap g → Safe l (record q { heap = g })
    moved g a =
        rebase-Safe e.timer g l q a (head-Apart e l q s) (head_inactive e l q s) s.distinct.0
          (tail-Safe e l q s)

    by_test :
        (b : Bool) (t : Timer)
        → find e.timer q.heap ≡ some t
        → Gives (Safe l) (
            if b
            then free e.timer q
            else some (
                enter e.timer
                  (restart now t)
                  (record q { heap = assign e.timer (restart now t) q.heap })))
    by_test true t f = (
      record q { heap = erase e.timer q.heap },
      rw f refl,
      moved (erase e.timer q.heap) (erase-Agrees e.timer q.heap),
    )
    by_test false t f =
        let t' : Timer = restart now t in
        let r : TimerQueue = record q { heap = assign e.timer t' q.heap } in
        (
          enter e.timer t' r,
          refl,
          enter-Safe e.timer t' l r (find-assigned e.timer t' q.heap) (s.held.0).0
              (head-Apart e l q s) s.distinct.0
              (moved (assign e.timer t' q.heap) (assign-Agrees e.timer t' q.heap)),
        )

    body : Timer → Option TimerQueue
    body t =
        if has_active (record { number = t.sequence; address = e.timer }) q.cancelling
          || t.cancelled
          || not t.repeat
        then free e.timer q
        else some (
            enter e.timer (restart now t)
              (record q { heap = assign e.timer (restart now t) q.heap }))

    resets : Held q.heap e → Gives (Safe l) (reset_entry now e q)
    resets (m, (t, f)) =
        subst (λ o. Gives (Safe l) (o >>= body)) (sym f)
          (by_test
            (has_active (record { number = t.sequence; address = e.timer }) q.cancelling
              || t.cancelled
              || not t.repeat)
            t f)

reset_entries-Safe :
    (now : ℕ) (l : List Entry) (q : TimerQueue) → Safe l q → Gives (Safe []) (reset_entries now l q)
unfolding reset_entries
reset_entries-Safe now [] q s = (q, refl, s)
reset_entries-Safe now (e ∷ l) q s =
    let (r, f, k) = reset_entry-Safe now e l q s in
    let (u, g, j) = reset_entries-Safe now l r k in
    (u, ap (λ o. o >>= reset_entries now l) f ∙ g, j)

rearm-Safe :
    (now : Timestamp) (l : List Entry) (q : TimerQueue) → Safe [] q → Safe [] (rearm now l q)
unfolding reset_timer_fd
rearm-Safe now [] q s = s
rearm-Safe now (e ∷ l) q s = restyled-Safe [] q _ refl refl refl s

pub reset-Safe :
    (later : Timestamp) (now : ℕ) (l : List Entry) (q : TimerQueue)
    → Safe l q
    → Gives (Safe []) (reset later now l q)
unfolding reset
reset-Safe later now l q s =
    let (r, f, k) = reset_entries-Safe now l q s in
    (rearm later r.timers r, rw f refl, rearm-Safe later r.timers r k)
