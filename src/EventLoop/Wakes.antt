-- ===== src/EventLoop/Wakes.antt =====
-- A loop that is left alone calls what waits for it.
use clear_moon.Prelude.{
  ℕ, suc, ◌<◌, ◌≡◌, refl, sym, ap, ◌∙◌, subst, Bool, true, false, ◌||◌, List, [], ◌∷◌, ◌++◌, none,
  some, arith, length, ltb, lt→ltb, append_assoc, append-nil, if◌then◌else◌,
}
use clear_moon.EventLoop.{EventLoop, set_quit}
use clear_moon.EventLoop.System.{
  Phase, polling, handling, swapping, draining, System, no_events, quit_if, call_next, advance_in,
  advance, advance_times, Reach, start,
}
use clear_moon.EventLoop.Heard.{InvAt, Reach-Inv, start-Inv}

module _ {F : Type 0} (quits : F → Bool) where
  pub advance-at :
      (p : Phase) (s : System F)
      → s.phase ≡ p
      → advance quits no_events s ≡ advance_in quits p no_events s
  unfolding advance
  advance-at p s e = ap (λ x. advance_in quits x no_events s) e

  quit_if-pending : (b : Bool) (l : EventLoop F) → (quit_if b l).pending ≡ l.pending
  quit_if-pending false l = refl
  quit_if-pending true l = by_test l.quit_
    where
      by_test : (b : Bool) → (if b then l else set_quit l).pending ≡ l.pending
      by_test true = refl
      by_test false = refl

  -- All that is still to be called is called.
  record Called (l : List F) (s u : System F) : Type 0 where
    all : u.ran ≡ s.ran ++ l
    none_left : u.running ≡ []
    waiting : u.loop.pending ≡ s.loop.pending
    given : u.given ≡ s.given

  drains :
      (l : List F) (s : System F)
      → s.phase ≡ draining false
      → s.running ≡ l
      → (u : System F) × (advance_times quits (length l) s ≡ some u) × Called l s u
  unfolding advance_times
  drains [] s p e = (
    s,
    refl,
    record { all = sym (append-nil s.ran); none_left = e; waiting = refl; given = refl },
  )
  drains (f ∷ rest) s p e =
      let m : System F = call_next quits false (f ∷ rest) s in
      let step : advance quits no_events s ≡ some m =
        advance-at (draining false) s p ∙ ap (λ l. some (call_next quits false l s)) e in
      let (u, g, c) = drains rest m p refl in
      (
        u,
        rw step g,
        record {
          all = c.all ∙ append_assoc s.ran (f ∷ []) rest;
          none_left = c.none_left;
          waiting = c.waiting ∙ quit_if-pending (quits f) s.loop;
          given = c.given;
        },
      )

  -- `poll` returns where the eventfd is readable.
  pub wakes_up :
      (s : System F)
      → s.phase ≡ polling
      → 0 < s.loop.counter
      → advance quits no_events s
        ≡ some (record s { loop = record s.loop { event_handling = true }; phase = handling true })
  wakes_up s p h = advance-at polling s p ∙ woken (ltb 0 s.loop.counter) (lt→ltb 0 s.loop.counter h)
    where
      woken :
          (b : Bool)
          → b ≡ true
          → (if b || false
              then some
                  (record s { loop = record s.loop { event_handling = true }; phase = handling b })
              else none)
            ≡ some
                (record s { loop = record s.loop { event_handling = true }; phase = handling true })
      woken b e = rw e refl

  -- The four steps from `poll` to the first function.
  gets_there :
      (s : System F)
      → s.phase ≡ polling
      → 0 < s.loop.counter
      → InvAt polling s
      → (m : System F) × (m.phase ≡ draining false)
        × (m.running ≡ s.loop.pending)
        × (m.ran ≡ s.ran)
        × (m.given ≡ s.given)
        × (m.loop.pending ≡ [])
        × ((n : ℕ) → advance_times quits (suc (suc (suc n))) s ≡ advance_times quits n m)
  unfolding advance_times
  gets_there s p h i =
      let s1 : System F = record s {
        loop = record s.loop { event_handling = true };
        phase = handling true;
      } in
      let s2 : System F = record s {
        loop = record s.loop { event_handling = false; counter = 0 };
        phase = swapping false;
      } in
      let s3 : System F = record s {
        loop = record s.loop {
          event_handling = false;
          counter = 0;
          calling_pending = true;
          pending = [];
        };
        phase = draining false;
        running = s.loop.pending;
      } in
      let a : advance quits no_events s ≡ some s1 = wakes_up s p h in
      let b : advance quits no_events s1 ≡ some s2 = advance-at (handling true) s1 refl in
      let c : advance quits no_events s2 ≡ some s3 =
        advance-at (swapping false) s2 refl ∙ rw i.flag refl in
      (s3, refl, refl, refl, refl, refl, λ n. rw a (rw b (rw c refl)))

  -- Where a loop that has come to `poll` has functions that wait, and no thread is about to wake it, its
  -- own thread calls them all, and those that were given before, in turn, and none is left.
  pub waiting_functions_are_called :
      {s : System F}
      → Reach quits start s
      → s.phase ≡ polling
      → s.wakers ≡ 0
      → 0 < length s.loop.pending
      → (u : System F) × (advance_times quits (suc (suc (suc (length s.loop.pending)))) s ≡ some u)
        × (u.ran ≡ s.given)
        × (u.given ≡ s.given)
        × (u.loop.pending ≡ [])
  waiting_functions_are_called {s} r p w h =
      let i : InvAt polling s = subst (λ x. InvAt x s) p (Reach-Inv quits start-Inv r) in
      let (m, mp, mr, mn, mg, me, steps) = gets_there s p (omega (arith, i.heard refl h, w)) i in
      let (u, e, c) = drains s.loop.pending m mp mr in
      let whole : s.ran ++ s.loop.pending ≡ s.given =
        ap (λ l. s.ran ++ (l ++ s.loop.pending)) (sym (i.idle refl)) ∙ i.in_turn in
      (
        u,
        steps (length s.loop.pending) ∙ e,
        c.all ∙ ap (λ l. l ++ s.loop.pending) mn ∙ whole,
        c.given ∙ mg,
        c.waiting ∙ me,
      )
