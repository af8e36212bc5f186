-- ===== src/Timers/TimerQueue/Expired.antt =====
-- `getExpired` takes the timers that are due out of both sets.
use clear_moon.Prelude.{
  ◌≡◌, ◌≢◌, refl, sym, ap, ◌∙◌, subst, Bool, true, false, List, [], ◌∷◌, ◌++◌, none, some, ◌>>=◌,
  arith, >>=-eq-some, ==_iff,
}
use clear_moon.OrdMap.{find, number_key}
use clear_moon.Timers.Timestamp.{Timestamp}
use clear_moon.Timers.TimerQueue.{
  Timer, Entry, ActiveTimer, TimerQueue, get_expired, drop_expired, split_at, sentry_at, later_than,
  same_active, drop_active,
}
use clear_moon.Timers.TimerQueue.Order.{All, All-parts, IsOrdered, get_expired-splits}
use clear_moon.Timers.TimerQueue.Sets.{Apart, Distinct, All-turn, Distinct-parts, All-drop_active}
use clear_moon.Timers.TimerQueue.Safe.{Entered-Held}
use clear_moon.Timers.TimerQueue.Alive.{Entered, IsActive, Held, Safe}

some_inj : {s t : Timer} → some s ≡ some t → s ≡ t
some_inj e = cc

-- What is active behind `drop_expired` has another address than all of these.
drop_expired-Apart :
    (P : ActiveTimer → Type 0) (l : List Entry) (q : TimerQueue)
    → All (Held q.heap) l
    → All (λ x. IsActive q.heap x.number x.address × P x) q.active_timers
    → (r : TimerQueue) × (drop_expired l q ≡ some r)
      × (r.heap ≡ q.heap)
      × All (λ x. (IsActive q.heap x.number x.address × P x) × Apart x.address l) r.active_timers
unfolding drop_expired
drop_expired-Apart P [] q h a = (q, refl, refl, All-turn _ _ q.active_timers (λ x p. (p, tt)) a)
drop_expired-Apart P (e ∷ l) q ((m, (t, f)), hs) a =
    let x : ActiveTimer = record { number = t.sequence; address = e.timer } in
    let q1 : TimerQueue = record q { active_timers = drop_active x q.active_timers } in
    let Q : ActiveTimer → Type 0 = λ y. P y × (y.address ≢ e.timer) in
    let There : ActiveTimer → Type 0 = λ y. IsActive q.heap y.number y.address × P y in
    let other : (y : ActiveTimer)
        → There y × (same_active x y ≡ false)
        → IsActive q.heap y.number y.address × Q y =
      (λ y p. (p.0.0, (p.0.1, λ i. not_it x y (seen f p.0.0 (sym i)) (sym i) p.1))) in
    let (r, g, k, b) = drop_expired-Apart Q l q1 hs (
      All-turn _ _ (drop_active x q.active_timers) other
        (All-drop_active There x q.active_timers a)) in
    (
      r,
      ap
            (λ o. o >>= λ t. drop_expired l (record q {
              active_timers =
                  drop_active (record { number = t.sequence; address = e.timer }) q.active_timers;
            }))
            f
          ∙ g,
      k,
      All-turn _ _ r.active_timers (λ y p. ((p.0.0, p.0.1.0), (p.0.1.1, p.1))) b,
    )
  where
    not_it :
        (x y : ActiveTimer)
        → x.number ≡ y.number
        → x.address ≡ y.address
        → same_active x y ≡ false
        → ⊥
    not_it x y n i s = ground (arith, ==_iff x.number y.number, ==_iff x.address y.address, n, i, s)

    seen :
        {t : Timer} {y : ActiveTimer}
        → find e.timer q.heap ≡ some t
        → IsActive q.heap y.number y.address
        → e.timer ≡ y.address
        → t.sequence ≡ y.number
    seen f (u, g, h) i = ap (λ z. z.sequence) (some_inj (sym f ∙ ap (λ j. find j q.heap) i ∙ g)) ∙ h

ordered_behind : (k l : List Entry) → IsOrdered (k ++ l) → IsOrdered l
ordered_behind [] l o = o
ordered_behind (e ∷ k) l (h, o) = ordered_behind k l o

pair_inj : {a b : List Entry × TimerQueue} → some a ≡ some b → a ≡ b
pair_inj e = cc

no_pair : {p : List Entry × TimerQueue} → none ≡ some p → ⊥
no_pair e = cc

pub get_expired-Safe :
    (now : Timestamp) (q : TimerQueue)
    → Safe [] q
    → (l : List Entry) × (r : TimerQueue) × (get_expired now q ≡ some (l, r)) × Safe l r
unfolding get_expired
get_expired-Safe now q s =
    let (l', q', e, parts, due, later, same_heap) =
      get_expired-splits now q s.ordered (Entered-Held q.heap q.timers s.entered) in
    let on_time : later_than now left ≡ true = is_later e (later_than now left) refl in
    let (d, f, g) =
      >>=-eq-some (drop_expired l q) (λ d. some (l, record d { timers = left }))
        (sym (rw on_time refl) ∙ e) in
    taken on_time (
      ap (λ p. p.0 ++ (p.1).timers)
        (pair_inj {a = (l, record d { timers = left })} {b = (l', q')} g)
      ∙ parts)
  where
    l : List Entry
    l = (split_at (sentry_at now) q.timers).0

    left : List Entry
    left = (split_at (sentry_at now) q.timers).1

    is_later :
        {p : List Entry × TimerQueue}
        → get_expired now q ≡ some p
        → (b : Bool) → later_than now left ≡ b
        → later_than now left ≡ true
    is_later e true h = h
    is_later e false h = absurd (no_pair (sym (rw h refl) ∙ e))

    taken :
        later_than now left ≡ true
        → l ++ left ≡ q.timers
        → (l : List Entry) × (r : TimerQueue) × (get_expired now q ≡ some (l, r)) × Safe l r
    taken on_time whole =
        let (in_l, in_left) =
          All-parts (Entered q.heap) l left (subst (All (Entered q.heap)) (sym whole) s.entered) in
        let (distinct, left_distinct, parted) =
          Distinct-parts l left (subst Distinct (sym whole) s.timers_distinct) in
        let (d, f, same_heap, a) =
          drop_expired-Apart (λ x. Unit) l q (Entered-Held q.heap l in_l)
            (All-turn (λ x. IsActive q.heap x.number x.address)
              (λ x. IsActive q.heap x.number x.address × Unit) q.active_timers (λ x p. (p, tt))
              s.actives) in
        (
          l,
          record d { timers = left },
          rw (on_time, f) refl,
          record {
            ordered = ordered_behind l left (subst IsOrdered (sym whole) s.ordered);
            entered = subst (λ h. All (Entered h) left) (sym same_heap) in_left;
            actives =
                subst (λ h. All (λ x. IsActive h x.number x.address) d.active_timers)
                  (sym same_heap)
                  (All-turn _ (λ x. IsActive q.heap x.number x.address) d.active_timers
                    (λ x p. p.0.0) a);
            held = subst (λ h. All (Held h) l) (sym same_heap) (Entered-Held q.heap l in_l);
            apart = All-turn _ (λ x. Apart x.address l) d.active_timers (λ x p. p.1) a;
            parted = parted;
            distinct = distinct;
            timers_distinct = left_distinct;
          },
        )
