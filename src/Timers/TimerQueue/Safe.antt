-- ===== src/Timers/TimerQueue/Safe.antt =====
-- No timer is read or deleted that is not there.
use clear_moon.Prelude.{
  ℕ, suc, ◌<◌, ◌≡◌, ◌≢◌, refl, sym, ap, ◌∙◌, Bool, true, false, List, Option, none, some, ◌>>=◌,
  arith, ==_iff, if◌then◌else◌,
}
use clear_moon.OrdMap.{find, assign, erase, number_key}
use clear_moon.Timers.Timestamp.{Timestamp, place}
use clear_moon.Timers.TimerQueue.{
  Timer, Entry, ActiveTimer, TimerQueue, remove, has_active, same_active, put_active, drop_active,
  uintptr_max, free, reset_timer_fd, comes_first, enter, add_timer_in_loop, add_timer,
  cancel_in_loop,
}
use clear_moon.Timers.TimerQueue.Order.{All}
use clear_moon.Timers.TimerQueue.Sets.{
  Apart, Differs, All-turn, All-pair, All-remove, remove-All, remove-Distinct, remove-IsOrdered,
  All-drop_active, has_active-All,
}
use clear_moon.Timers.TimerQueue.Alive.{
  Heap, Entered, IsActive, Held, Safe, assign-Agrees, erase-Agrees, find-assigned, rebase-Safe,
  enter-Safe, restyled-Safe, absent_present,
}

-- An address of no timer is apart from all of them.
unused-Apart : (a : ℕ) (h : Heap) (l : List Entry) → find a h ≡ none → All (Held h) l → Apart a l
unused-Apart a h l n s =
    All-turn (Held h) (λ e. a ≢ e.timer) l
      (λ e p i. let (m, (t, f)) = p in absent_present (sym n ∙ ap (λ j. find j h) i ∙ f)) s

pub Entered-Held : (h : Heap) (l : List Entry) → All (Entered h) l → All (Held h) l
Entered-Held h l s =
    All-turn (Entered h) (Held h) l (λ e p. let (m, (t, f, x)) = p in (m, (t, f))) s

abbrev pub Gives : (TimerQueue → Type 0) → Option TimerQueue → Type 0
Gives P o = (q : TimerQueue) × (o ≡ some q) × P q

pub add_timer-Safe :
    (now : Timestamp) (a : ℕ) (when_ : Timestamp) (micro : ℕ) (repeat : Bool) (l : List Entry)
    (q : TimerQueue)
    → find a q.heap ≡ none
    → a < uintptr_max
    → Safe l q
    → (x : ActiveTimer) × (r : TimerQueue) × (add_timer now a when_ micro repeat q ≡ some (x, r))
      × Safe l r
unfolding add_timer add_timer_in_loop reset_timer_fd
add_timer-Safe now a when_ micro repeat l q n m s =
    let t : Timer = record {
      expiration = when_;
      micro = micro;
      repeat = repeat;
      sequence = q.created;
      cancelled = false;
    } in
    let h : Heap = assign a t q.heap in
    let b : Apart a q.timers =
      unused-Apart a q.heap q.timers n (Entered-Held q.heap q.timers s.entered) in
    let d : Apart a l = unused-Apart a q.heap l n s.held in
    let c : All (λ x. a ≢ x.address) q.active_timers =
      All-turn (λ x. IsActive q.heap x.number x.address) (λ x. a ≢ x.address) q.active_timers
        (λ x p i. let (t, f, g) = p in absent_present (sym n ∙ ap (λ j. find j q.heap) i ∙ f))
        s.actives in
    let q0 : TimerQueue = record q { heap = h; created = suc q.created } in
    let s0 : Safe l q0 =
      restyled-Safe l (record q { heap = h }) q0 refl refl refl
        (rebase-Safe a h l q (assign-Agrees a t q.heap) b c d s) in
    let s1 : Safe l (enter a t q0) = enter-Safe a t l q0 (find-assigned a t q.heap) m b d s0 in
    (
      record { number = q.created; address = a },
      _,
      rw (find-assigned a t q.heap) refl,
      chooses (comes_first when_ q.timers) now when_ (enter a t q0) s1,
    )
  where
    chooses :
        (b : Bool) (now when_ : Timestamp) (r : TimerQueue)
        → Safe l r
        → Safe l (if b then reset_timer_fd now when_ r else r)
    chooses true now when_ r s = restyled-Safe l r _ refl refl refl s
    chooses false now when_ r s = s

some_inj : {s t : Timer} → some s ≡ some t → s ≡ t
some_inj e = cc

Differs-Apart : (e d : Entry) → e.first_at ≡ d.first_at → Differs e d → e.timer ≢ d.timer
Differs-Apart e d f g n = ground (arith, ap place f, g, n)

drop-Safe :
    (a : ℕ) (t : Timer) (l : List Entry) (q : TimerQueue)
    → find a q.heap ≡ some t
    → Apart a l
    → Safe l q
    → Safe l (record q {
      heap = erase a q.heap;
      timers = remove (record { first_at = t.expiration; timer = a }) q.timers;
      active_timers = drop_active (record { number = t.sequence; address = a }) q.active_timers;
    })
drop-Safe a t l q f d s =
    rebase-Safe a (erase a q.heap) l q1 (erase-Agrees a q.heap) gone_timers gone_actives d (record {
      ordered = remove-IsOrdered e q.timers s.ordered;
      entered = remove-All (Entered q.heap) e q.timers s.entered;
      actives =
          All-turn _ IsThere others (λ y p. p.0)
            (All-drop_active IsThere x q.active_timers s.actives);
      held = s.held;
      apart =
          All-turn _ IsApart others (λ y p. p.0)
            (All-drop_active IsApart x q.active_timers s.apart);
      parted = remove-All (λ e. Apart e.timer l) e q.timers s.parted;
      distinct = s.distinct;
      timers_distinct = remove-Distinct e q.timers s.timers_distinct;
    })
  where
    e : Entry
    e = record { first_at = t.expiration; timer = a }

    x : ActiveTimer
    x = record { number = t.sequence; address = a }

    IsThere : ActiveTimer → Type 0
    IsThere y = IsActive q.heap y.number y.address

    IsApart : ActiveTimer → Type 0
    IsApart y = Apart y.address l

    others : List ActiveTimer
    others = drop_active x q.active_timers

    q1 : TimerQueue
    q1 = record q { timers = remove e q.timers; active_timers = others }

    not_it : (d : Entry) → Entered q.heap d × Differs e d → a ≢ d.timer
    not_it d ((m, (u, g, h)), p) i =
        Differs-Apart e d
          (ap (λ z. z.expiration) (some_inj (sym f ∙ ap (λ j. find j q.heap) i ∙ g)) ∙ h) p i

    gone_timers : Apart a (remove e q.timers)
    gone_timers =
        All-turn (λ d. Entered q.heap d × Differs e d) (λ d. a ≢ d.timer) (remove e q.timers) not_it
          (All-remove (Entered q.heap) e q.timers s.entered)

    not_active : (y : ActiveTimer) → IsThere y × (same_active x y ≡ false) → a ≢ y.address
    not_active y ((u, g, h), p) i =
        let n : t.sequence ≡ y.number =
          ap (λ z. z.sequence) (some_inj (sym f ∙ ap (λ j. find j q.heap) i ∙ g)) ∙ h in
        ground (arith, ==_iff t.sequence y.number, ==_iff a y.address, n, i, p)

    gone_actives : All (λ y. a ≢ y.address) others
    gone_actives =
        All-turn (λ y. IsThere y × (same_active x y ≡ false)) (λ y. a ≢ y.address) others not_active
          (All-drop_active IsThere x q.active_timers s.actives)

pub cancel_in_loop-Safe :
    (key : ActiveTimer) (l : List Entry) (q : TimerQueue)
    → Safe l q
    → Gives (Safe l) (cancel_in_loop key q)
unfolding cancel_in_loop
cancel_in_loop-Safe key l q s = by_test (has_active key q.active_timers) refl
  where
    there :
        has_active key q.active_timers ≡ true
        → IsActive q.heap key.number key.address × Apart key.address l
    there e =
        has_active-All (λ n a. IsActive q.heap n a × Apart a l) key q.active_timers e
          (All-pair (λ x. IsActive q.heap x.number x.address) (λ x. Apart x.address l)
            q.active_timers s.actives s.apart)

    noted :
        (b : Bool)
        → Gives
            (Safe l)
            (if b then some (record q { cancelling = put_active key q.cancelling }) else some q)
    noted true = (
      record q { cancelling = put_active key q.cancelling },
      refl,
      restyled-Safe l q _ refl refl refl s,
    )
    noted false = (q, refl, s)

    by_test :
        (b : Bool)
        → has_active key q.active_timers ≡ b
        → Gives (Safe l) (
            if b
            then (do
              t ← find key.address q.heap
              free key.address (record q {
                timers = remove (record { first_at = t.expiration; timer = key.address }) q.timers;
                active_timers =
                    drop_active
                      (record { number = t.sequence; address = key.address })
                      q.active_timers;
              }))
            else if q.handle_timer
            then some (record q { cancelling = put_active key q.cancelling })
            else some q)
    by_test false e = noted q.handle_timer
    by_test true e =
        let ((t, f, n), d) = there e in
        (
          record q {
            heap = erase key.address q.heap;
            timers = remove (record { first_at = t.expiration; timer = key.address }) q.timers;
            active_timers =
                drop_active (record { number = t.sequence; address = key.address }) q.active_timers;
          },
          rw f refl,
          drop-Safe key.address t l q f d s,
        )
