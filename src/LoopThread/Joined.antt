-- ===== src/LoopThread/Joined.antt =====
-- The destructor of a running loop thread comes to its end.
use clear_moon.Prelude.{
  ℕ, zero, suc, ◌-◌, ◌≡◌, refl, ap, ◌∙◌, subst, Bool, true, false, not, some, ◌>>=◌, if◌then◌else◌,
  arith, >>=-eq-some,
}
use clear_moon.EventLoop.{set_quit}
use clear_moon.EventLoop.System.{
  Phase, before, testing, polling, handling, swapping, draining, finished, System, no_events,
  advance_in, advance, advance_times, wake,
}
use clear_moon.EventLoop.Heard.{Inv, wake-Inv, ask_to_quit-Inv}
use clear_moon.EventLoop.Ends.{has_begun, stops_at}
use clear_moon.LoopThread.{
  running, leaving, gone, idle, quitting, joining, destroyed, LoopThread, holds_lock, destroy,
  owner_step, with_system, loop_in, thread_step_in, thread_step, thread_steps, Runs,
}
use clear_moon.LoopThread.Kept.{KeepsAt}
use clear_moon.LoopThread.Owned.{Runs-Keeps}

module _ {F : Type 0} (quits : F → Bool) where
  -- The thread with the loop left behind.
  abbrev over : LoopThread F → System F → LoopThread F
  over h s = record h { published = false; place = gone; system = s }

  loop_at :
      (p : Phase) (h : LoopThread F) {s : System F}
      → advance_in quits p no_events h.system ≡ some s
      → loop_in quits p no_events h
        ≡ (advance quits no_events h.system >>= λ s. some (with_system h s))
  loop_at finished h e = cc
  loop_at before h e = refl
  loop_at testing h e = refl
  loop_at polling h e = refl
  loop_at (handling w) h e = refl
  loop_at (swapping w) h e = refl
  loop_at (draining w) h e = refl

  step_at :
      (h : LoopThread F) {s : System F}
      → h.place ≡ running
      → advance quits no_events h.system ≡ some s
      → thread_step quits no_events h ≡ some (with_system h s)
  unfolding advance thread_step
  step_at h {s} p e =
      ap (λ x. thread_step_in quits x no_events h) p
      ∙ loop_at h.system.phase h e
      ∙ ap (λ o. o >>= λ s. some (with_system h s)) e

  -- The last two steps.
  goes_out :
      (h : LoopThread F)
      → h.place ≡ running
      → holds_lock h.owner ≡ false
      → h.system.phase ≡ finished
      → thread_steps quits 2 h ≡ some (over h h.system)
  unfolding thread_step thread_steps
  goes_out h p l f =
      let k : LoopThread F = record h { place = leaving } in
      let a : thread_step quits no_events h ≡ some k =
        ap (λ x. thread_step_in quits x no_events h) p ∙ ap (λ x. loop_in quits x no_events h) f in
      let b : thread_step quits no_events k ≡ some (over h h.system) = rw l refl in rw a (rw b refl)

  gets_out :
      (n : ℕ) (h : LoopThread F) {s : System F}
      → h.place ≡ running
      → holds_lock h.owner ≡ false
      → advance_times quits n h.system ≡ some s
      → s.phase ≡ finished
      → (m : ℕ) × (thread_steps quits m h ≡ some (over h s))
  unfolding advance_times thread_steps
  gets_out zero h {s} p l e f =
      let same : h.system ≡ s = cc in
      (2, goes_out h p l (ap (λ x. x.phase) same ∙ f) ∙ ap (λ x. some (over h x)) same)
  gets_out (suc n) h {s} p l e f =
      let (t, a, b) = (>>=-eq-some (advance quits no_events h.system) (advance_times quits n) e) in
      let (m, c) = gets_out n (with_system h t) p l b f in
      (suc m, ap (λ o. o >>= thread_steps quits m) (step_at h p a) ∙ c)

  -- Behind the wake-up of the destructor.
  woken_up :
      (h : LoopThread F) (x : Bool) (s : System F)
      → h.place ≡ running
      → h.joined ≡ false
      → Inv s
      → has_begun s.phase ≡ true
      → s.wakers ≡ 0
      → s.loop.quit_ ≡ true
      → (n : ℕ) × (u : LoopThread F) × (thread_steps quits n
            (record h { exiting = x; owner = joining true; system = s })
          ≡ some u)
        × (owner_step u ≡ some (record u { joined = true; owner = destroyed }))
        × (u.place ≡ gone)
  unfolding owner_step
  woken_up h x s p j i b w q =
      let (n, u, e, f) = stops_at quits s.phase s refl i b w q in
      let k : LoopThread F = record h { exiting = x; owner = joining true; system = s } in
      let (m, g) = gets_out n k p refl e f in (m, over k u, g, rw j refl, refl)

  -- `quit` of another thread, where the flag was not set.
  abbrev asked_to : System F → System F
  asked_to s = record s { loop = set_quit s.loop; wakers = suc s.wakers }

  -- Where the loop has begun and no other thread is about to wake it, the destructor returns: it asks
  -- the loop to quit, the thread comes to its end on its own, and it is joined.
  pub destructor_returns :
      {h : LoopThread F}
      → Runs quits h
      → h.owner ≡ idle
      → h.place ≡ running
      → has_begun h.system.phase ≡ true
      → h.system.wakers ≡ 0
      → (k : LoopThread F) × (owner_step (destroy h) ≡ some k)
        × (n : ℕ) × (u : LoopThread F) × (thread_steps quits n k ≡ some u)
        × (owner_step u ≡ some (record u { joined = true; owner = destroyed }))
        × (u.place ≡ gone)
  unfolding owner_step
  destructor_returns {h} r o p b w = by_test h.system.loop.quit_ refl
    where
      k : KeepsAt running h.owner h
      k = subst (λ x. KeepsAt x h.owner h) p (Runs-Keeps quits r)

      running_on : running ≡ gone → ⊥
      running_on e = cc

      not_joined : (c : Bool) → h.joined ≡ c → h.joined ≡ false
      not_joined true e = absurd (running_on (k.was_joined e))
      not_joined false e = e

      asked :
          (q : Bool)
          → h.system.loop.quit_ ≡ q
          → owner_step (destroy h)
            ≡ owner_step (record h {
              exiting = true;
              system = if q then h.system else (asked_to h.system);
              owner = quitting (not q);
            })
      asked q e = rw (k.was_started, k.loop_published, e) refl

      kept : h.system.loop.quit_ ≡ false → Inv (asked_to h.system)
      kept e =
          subst Inv (ap (λ c. if c then h.system else asked_to h.system) e)
            (ask_to_quit-Inv h.system k.loop_kept)

      by_test :
          (q : Bool)
          → h.system.loop.quit_ ≡ q
          → (k : LoopThread F) × (owner_step (destroy h) ≡ some k)
            × (n : ℕ) × (u : LoopThread F) × (thread_steps quits n k ≡ some u)
            × (owner_step u ≡ some (record u { joined = true; owner = destroyed }))
            × (u.place ≡ gone)
      by_test true e =
          let k' : LoopThread F = record h { exiting = true; owner = joining true } in
          let (n, u, g, j, o) =
            woken_up h true h.system p (not_joined h.joined refl) k.loop_kept b w e in
          (k', asked true e, n, u, g, j, o)
      by_test false e =
          let s : System F = wake ((asked_to h.system).wakers - 1) (asked_to h.system) in
          let i : Inv s = wake-Inv ((asked_to h.system).wakers - 1) (asked_to h.system) (kept e) in
          let (n, u, g, j, o) =
            woken_up h true s p (not_joined h.joined refl) i b (omega (arith, w)) refl in
          (
            record h { exiting = true; owner = joining true; system = s },
            asked false e,
            n,
            u,
            g,
            j,
            o,
          )
