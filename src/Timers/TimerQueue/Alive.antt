-- ===== src/Timers/TimerQueue/Alive.antt =====
-- Timers on the heap, and what it takes to touch one of them.
use clear_moon.Prelude.{ℕ, ◌<◌, ◌≡◌, ◌≢◌, refl, sym, ◌∙◌, subst, List, none, some, arith, ==_iff}
use clear_moon.OrdMap.{OrdMap, find, assign, erase, number_key, find-assign, find-erase}
use clear_moon.Timers.TimerQueue.{Timer, Entry, ActiveTimer, TimerQueue, uintptr_max, enter}
use clear_moon.Timers.TimerQueue.Order.{All, IsOrdered, insert-IsOrdered}
use clear_moon.Timers.TimerQueue.Sets.{
  Apart, Distinct, Parted, All-turn, All-pair, All-insert, insert-Distinct, All-put_active,
}

abbrev pub Heap : Type 0
Heap = OrdMap ℕ Timer

-- An entry is of a timer with its time; an active timer is one with its number.
abbrev pub Entered : Heap → Entry → Type 0
Entered h e =
    (e.timer < uintptr_max)
    × ((t : Timer) × (find e.timer h ≡ some t) × (t.expiration ≡ e.first_at))

abbrev pub IsActive : Heap → ℕ → ℕ → Type 0
IsActive h n a = (t : Timer) × (find a h ≡ some t) × (t.sequence ≡ n)

abbrev pub Held : Heap → Entry → Type 0
Held h e = (e.timer < uintptr_max) × ((t : Timer) × (find e.timer h ≡ some t))

-- The queue while the timers of `l` are being run; they are in neither of its sets.
pub record Safe (l : List Entry) (q : TimerQueue) : Type 0 where
  pub ordered : IsOrdered q.timers
  pub entered : All (Entered q.heap) q.timers
  pub actives : All (λ x. IsActive q.heap x.number x.address) q.active_timers
  pub held : All (Held q.heap) l
  pub apart : All (λ x. Apart x.address l) q.active_timers
  pub parted : Parted l q.timers
  pub distinct : Distinct l
  pub timers_distinct : Distinct q.timers

-- A heap that is another at one address only.
abbrev pub Agrees : ℕ → Heap → Heap → Type 0
Agrees a h g = (j : ℕ) → a ≢ j → find j g ≡ find j h

pub assign-Agrees : (a : ℕ) (t : Timer) (h : Heap) → Agrees a h (assign a t h)
assign-Agrees a t h j n = ground (arith, find-assign a j t h, ==_iff a j)

pub erase-Agrees : (a : ℕ) (h : Heap) → Agrees a h (erase a h)
erase-Agrees a h j n = ground (arith, find-erase a j h, ==_iff a j)

pub find-assigned : (a : ℕ) (t : Timer) (h : Heap) → find a (assign a t h) ≡ some t
find-assigned a t h = ground (arith, find-assign a a t h, ==_iff a a)

-- What is elsewhere on the heap is as it was.
pub rebase-Safe :
    (a : ℕ) (g : Heap) (l : List Entry) (q : TimerQueue)
    → Agrees a q.heap g
    → Apart a q.timers
    → All (λ x. a ≢ x.address) q.active_timers
    → Apart a l
    → Safe l q
    → Safe l (record q { heap = g })
rebase-Safe a g l q same b c d s = record {
  ordered = s.ordered;
  entered =
      All-turn (λ e. Entered q.heap e × (a ≢ e.timer)) (Entered g) q.timers
        (λ e p. let (m, (t, f, x)) = p.0 in (m, (t, same e.timer p.1 ∙ f, x)))
        (All-pair (Entered q.heap) (λ e. a ≢ e.timer) q.timers s.entered b);
  actives =
      All-turn (λ x. IsActive q.heap x.number x.address × (a ≢ x.address))
        (λ x. IsActive g x.number x.address) q.active_timers
        (λ x p. let (t, f, n) = p.0 in (t, same x.address p.1 ∙ f, n))
        (All-pair (λ x. IsActive q.heap x.number x.address) (λ x. a ≢ x.address) q.active_timers
          s.actives c);
  held =
      All-turn (λ e. Held q.heap e × (a ≢ e.timer)) (Held g) l
        (λ e p. let (m, (t, f)) = p.0 in (m, (t, same e.timer p.1 ∙ f)))
        (All-pair (Held q.heap) (λ e. a ≢ e.timer) l s.held d);
  apart = s.apart;
  parted = s.parted;
  distinct = s.distinct;
  timers_distinct = s.timers_distinct;
}

-- A timer that is on the heap, in neither set and not being run, is put into both sets.
pub enter-Safe :
    (a : ℕ) (t : Timer) (l : List Entry) (q : TimerQueue)
    → find a q.heap ≡ some t
    → a < uintptr_max
    → Apart a q.timers
    → Apart a l
    → Safe l q
    → Safe l (enter a t q)
enter-Safe a t l q f m b d s =
    let e : Entry = record { first_at = t.expiration; timer = a } in
    let x : ActiveTimer = record { number = t.sequence; address = a } in
    record {
      ordered = insert-IsOrdered e q.timers s.ordered;
      entered = All-insert (Entered q.heap) e q.timers (m, (t, f, refl)) s.entered;
      actives =
          All-put_active (λ x. IsActive q.heap x.number x.address) x q.active_timers (t, f, refl)
            s.actives;
      held = s.held;
      apart = All-put_active (λ x. Apart x.address l) x q.active_timers d s.apart;
      parted = All-insert (λ e. Apart e.timer l) e q.timers d s.parted;
      distinct = s.distinct;
      timers_distinct = insert-Distinct e q.timers b s.timers_distinct;
    }

-- The alarm and the notes are not looked at.
pub restyled-Safe :
    (l : List Entry) (q r : TimerQueue)
    → r.heap ≡ q.heap
    → r.timers ≡ q.timers
    → r.active_timers ≡ q.active_timers
    → Safe l q
    → Safe l r
restyled-Safe l q r e f g s = record {
  ordered = subst IsOrdered (sym f) s.ordered;
  entered = rw (e, f) s.entered;
  actives = rw (e, g) s.actives;
  held = rw e s.held;
  apart = rw g s.apart;
  parted = rw f s.parted;
  distinct = s.distinct;
  timers_distinct = rw f s.timers_distinct;
}

pub absent_present : {t : Timer} → none ≡ some t → ⊥
absent_present e = cc
