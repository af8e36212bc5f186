-- ===== src/Timers/TimerQueue/Order.antt =====
-- The order of the timers, and what expires.
use clear_moon.Prelude.{
  ℕ, ◌≤◌, ◌<◌, ◌≡◌, refl, sym, ap, subst, inl, inr, true, false, List, [], ◌∷◌, ◌++◌, some, arith,
  Bool-cases,
}
use clear_moon.OrdMap.{OrdMap, find, number_key}
use clear_moon.Timers.Timestamp.{Timestamp, place}
use clear_moon.Timers.TimerQueue.{
  Timer, Entry, comes_before, TimerQueue, insert, split_at, sentry_at, uintptr_max, later_than,
  drop_expired, get_expired, drop_active,
}

-- In front of all of these.
abbrev pub Leads : Entry → List Entry → Type 0
Leads e [] = Unit
Leads e (d ∷ rest) = (comes_before e d ≡ true) × Leads e rest

abbrev pub IsOrdered : List Entry → Type 0
IsOrdered [] = Unit
IsOrdered (e ∷ rest) = Leads e rest × IsOrdered rest

abbrev pub All : {A : Type 0} → (A → Type 0) → List A → Type 0
All P [] = Unit
All P (e ∷ rest) = P e × All P rest

before_trans :
    (a b c : Entry) → comes_before a b ≡ true → comes_before b c ≡ true → comes_before a c ≡ true
before_trans a b c h k = ground arith

pub Leads-trans : (a b : Entry) (l : List Entry) → comes_before a b ≡ true → Leads b l → Leads a l
Leads-trans a b [] h k = tt
Leads-trans a b (d ∷ rest) h (k, ks) = (before_trans a b d h k, Leads-trans a b rest h ks)

insert-Leads :
    (a e : Entry) (l : List Entry) → comes_before a e ≡ true → Leads a l → Leads a (insert e l)
unfolding insert
insert-Leads a e [] h k = (h, tt)
insert-Leads a e (d ∷ rest) h (k, ks) = elim (Bool-cases (comes_before e d)) [
  | inl f ↦ rw f (h, (k, ks))
  | inr f ↦ elim (Bool-cases (comes_before d e)) [
    | inl g ↦ rw (f, g) (k, insert-Leads a e rest h ks)
    | inr g ↦ rw (f, g) (k, ks)
  ]
]

-- A timer put among the others keeps the order.
pub insert-IsOrdered : (e : Entry) (l : List Entry) → IsOrdered l → IsOrdered (insert e l)
unfolding insert
insert-IsOrdered e [] h = (tt, tt)
insert-IsOrdered e (d ∷ rest) (h, hs) = elim (Bool-cases (comes_before e d)) [
  | inl f ↦ rw f ((f, Leads-trans e d rest f h), (h, hs))
  | inr f ↦ elim (Bool-cases (comes_before d e)) [
    | inl g ↦ rw (f, g) (insert-Leads d e rest g h, insert-IsOrdered e rest hs)
    | inr g ↦ rw (f, g) (h, hs)
  ]
]

-- The parts in front of `sentry` and behind it.
record Divides (sentry : Entry) (l : List Entry) : Type 0 where
  whole : (split_at sentry l).0 ++ (split_at sentry l).1 ≡ l
  front : All (λ e. comes_before e sentry ≡ true) (split_at sentry l).0
  back : All (λ e. comes_before e sentry ≡ false) (split_at sentry l).1

not_before_trans :
    (a b s : Entry) → comes_before a b ≡ true → comes_before a s ≡ false → comes_before b s ≡ false
not_before_trans a b s h k = ground arith

Leads-back :
    (a s : Entry) (l : List Entry)
    → comes_before a s ≡ false
    → Leads a l
    → All (λ e. comes_before e s ≡ false) l
Leads-back a s [] h k = tt
Leads-back a s (d ∷ rest) h (k, ks) = (not_before_trans a d s k h, Leads-back a s rest h ks)

split_at-Divides : (s : Entry) (l : List Entry) → IsOrdered l → Divides s l
unfolding split_at
split_at-Divides s [] h = record { whole = refl; front = tt; back = tt }
split_at-Divides s (e ∷ rest) (h, hs) =
    let r = split_at-Divides s rest hs in
    elim (Bool-cases (comes_before e s)) [
      | inl f ↦ record {
        whole = rw f (ap (λ t. e ∷ t) r.whole);
        front = rw f (f, r.front);
        back = rw f r.back;
      }
      | inr f ↦ record {
        whole = rw f refl;
        front = rw f tt;
        back = rw f (f, Leads-back e s rest f h);
      }
    ]

All-weaken : (P Q : Entry → Type 0) (l : List Entry) → ((e : Entry) → P e → Q e) → All P l → All Q l
All-weaken P Q [] f h = tt
All-weaken P Q (e ∷ rest) f (h, hs) = (f e h, All-weaken P Q rest f hs)

All-both : (P Q : Entry → Type 0) (l : List Entry) → All P l → All Q l → All (λ e. P e × Q e) l
All-both P Q [] h k = tt
All-both P Q (e ∷ rest) (h, hs) (k, ks) = ((h, k), All-both P Q rest hs ks)

pub All-parts : (P : Entry → Type 0) (k l : List Entry) → All P (k ++ l) → All P k × All P l
All-parts P [] l h = (tt, h)
All-parts P (e ∷ k) l (h, hs) = let (a, b) = All-parts P k l hs in ((h, a), b)

-- An entry whose timer is on the heap, at an address that no object has behind it.
abbrev pub IsAlive : OrdMap ℕ Timer → Entry → Type 0
IsAlive heap e = (e.timer < uintptr_max) × ((t : Timer) × (find e.timer heap ≡ some t))

abbrev pub IsDue : Timestamp → Entry → Type 0
IsDue now e = place e.first_at ≤ place now

abbrev pub IsLater : Timestamp → Entry → Type 0
IsLater now e = place now < place e.first_at

drop_expired-heap :
    (l : List Entry) (q : TimerQueue)
    → All (IsAlive q.heap) l
    → (q' : TimerQueue) × (drop_expired l q ≡ some q') × (q'.heap ≡ q.heap)
unfolding drop_expired
drop_expired-heap [] q h = (q, refl, refl)
drop_expired-heap (e ∷ rest) q ((_, (t, f)), hs) =
    let (q', g, k) =
      drop_expired-heap rest
        (record q {
          active_timers =
              drop_active (record { number = t.sequence; address = e.timer }) q.active_timers;
        })
        hs in
    (q', rw f g, k)

later_than-IsLater :
    (now : Timestamp) (l : List Entry) → All (IsLater now) l → later_than now l ≡ true
later_than-IsLater now [] h = refl
later_than-IsLater now (e ∷ rest) (h, hs) = ground arith

-- On timers in order and on the heap, `getExpired` fails nowhere and cuts them in two, in their order:
-- those that are due at `now`, which it gives, and those that are later, which stay.
pub get_expired-splits :
    (now : Timestamp) (q : TimerQueue)
    → IsOrdered q.timers
    → All (IsAlive q.heap) q.timers
    → (expired : List Entry) × (q' : TimerQueue) × (get_expired now q ≡ some (expired, q'))
      × (expired ++ q'.timers ≡ q.timers)
      × All (IsDue now) expired
      × All (IsLater now) q'.timers
      × (q'.heap ≡ q.heap)
unfolding get_expired
get_expired-splits now q o alive =
    let expired : List Entry = (split_at (sentry_at now) q.timers).0 in
    let left : List Entry = (split_at (sentry_at now) q.timers).1 in
    let s : Divides (sentry_at now) q.timers = split_at-Divides (sentry_at now) q.timers o in
    let (live, rest) =
      All-parts (IsAlive q.heap) expired left (subst (All (IsAlive q.heap)) (sym s.whole) alive) in
    let (q', f, k) = drop_expired-heap expired q live in
    let later : All (IsLater now) left =
      All-weaken _ (IsLater now) left (λ e h. is_later e (h.0) (h.1))
        (All-both (λ e. comes_before e (sentry_at now) ≡ false) (IsAlive q.heap) left s.back
          rest) in
    (
      expired,
      record q' { timers = left },
      rw (later_than-IsLater now left later, f) refl,
      s.whole,
      All-weaken (λ e. comes_before e (sentry_at now) ≡ true) (IsDue now) expired is_due s.front,
      later,
      k,
    )
  where
    is_due : (e : Entry) → comes_before e (sentry_at now) ≡ true → IsDue now e
    is_due e h = ground arith

    is_later :
        (e : Entry) → comes_before e (sentry_at now) ≡ false → IsAlive q.heap e → IsLater now e
    is_later e h (a, _) = ground arith
