-- ===== src/EventLoop/Quit.antt =====
-- `quit` and the beginning of `loop`.
use clear_moon.Prelude.{
  ℕ, suc, ◌≡◌, ◌≢◌, refl, sym, subst, Bool, true, false, not, ◌||◌, List, [], ◌∷◌, Option, none,
  some, ltb, if◌then◌else◌,
}
use clear_moon.EventLoop.{handle_weakup, set_quit}
use clear_moon.EventLoop.System.{
  Phase, before, testing, polling, handling, swapping, draining, finished, System, start_draining,
  call_next, advance_in, advance, wake, give, ask_to_quit,
}

-- In the loop, and not on the way out.
abbrev goes_on : Phase → Bool
goes_on (swapping last) = not last
goes_on (draining last) = not last
goes_on finished = false
goes_on _ = true

abbrev not_quitting : Phase → Bool → Bool
not_quitting before q = true
not_quitting _ q = not q

module _ {F : Type 0} where
  -- The loop's thread, and other threads that give functions and wake the loop, but do not ask it to
  -- quit; neither do the functions and the callbacks of events.
  pub data Unasked (s : System F) : System F → Type 0 where
    stays : Unasked s s
    goes :
        {t u : System F} (ready : Bool)
        → Unasked s t
        → advance (λ _. false) (record { ready = ready; event_quits = false }) t ≡ some u
        → Unasked s u
    is_given : {t : System F} (f : F) → Unasked s t → Unasked s (give f t)
    is_woken : {t : System F} (k : ℕ) → Unasked s t → t.wakers ≡ suc k → Unasked s (wake k t)

  abbrev Goes : System F → Type 0
  Goes s = (goes_on s.phase ≡ true) × (not_quitting s.phase s.loop.quit_ ≡ true)

  abbrev GoesOf : Option (System F) → Type 0
  GoesOf none = Unit
  GoesOf (some u) = Goes u

  choose-Goes : (b : Bool) (x : System F) → Goes x → GoesOf (if b then some x else none)
  choose-Goes true x g = g
  choose-Goes false x g = tt

  start_draining-Goes :
      (last : Bool) (s : System F)
      → goes_on (swapping last) ≡ true
      → not s.loop.quit_ ≡ true
      → GoesOf (start_draining last s)
  start_draining-Goes last s g n = by_test s.loop.calling_pending refl
    where
      by_test : (b : Bool) → s.loop.calling_pending ≡ b → GoesOf (start_draining last s)
      by_test true e = rw e tt
      by_test false e = rw e (g, n)

  call_next-Goes :
      (last : Bool) (l : List F) (s : System F)
      → s.phase ≡ draining last
      → goes_on (draining last) ≡ true
      → not s.loop.quit_ ≡ true
      → Goes (call_next (λ _. false) last l s)
  call_next-Goes false [] s e g n = (refl, n)
  call_next-Goes true [] s e g n = cc
  call_next-Goes last (f ∷ rest) s e g n =
      subst (λ p. (goes_on p ≡ true) × (not_quitting p s.loop.quit_ ≡ true)) (sym e) (g, n)

  advance_in-Goes :
      (p : Phase) (ready : Bool) (s : System F)
      → s.phase ≡ p
      → goes_on p ≡ true
      → not_quitting p s.loop.quit_ ≡ true
      → GoesOf (advance_in (λ _. false) p (record { ready = ready; event_quits = false }) s)
  advance_in-Goes before ready s e g n = (refl, refl)
  advance_in-Goes testing ready s e g n = by_test s.loop.quit_ refl
    where
      by_test :
          (b : Bool)
          → s.loop.quit_ ≡ b
          → Goes (record s { phase = if b then swapping true else polling })
      by_test true q = absurd cc
      by_test false q = (refl, n)
  advance_in-Goes polling ready s e g n = choose-Goes (ltb 0 s.loop.counter || ready) _ (refl, n)
  advance_in-Goes (handling woken) ready s e g n = by_test woken
    where
      by_test :
          (b : Bool)
          → Goes (record s {
            loop = record (if b then handle_weakup s.loop else s.loop) { event_handling = false };
            phase = swapping false;
          })
      by_test true = (refl, n)
      by_test false = (refl, n)
  advance_in-Goes (swapping last) ready s e g n = start_draining-Goes last s g n
  advance_in-Goes (draining last) ready s e g n = call_next-Goes last s.running s e g n
  advance_in-Goes finished ready s e g n = cc

  advance-Goes :
      (ready : Bool) (s : System F)
      → Goes s
      → GoesOf (advance (λ _. false) (record { ready = ready; event_quits = false }) s)
  unfolding advance
  advance-Goes ready s g = advance_in-Goes s.phase ready s refl (g.0) (g.1)

  Unasked-Goes : {s u : System F} → Goes s → Unasked s u → Goes u
  Unasked-Goes g stays = g
  Unasked-Goes g (goes {t} ready r e) = subst GoesOf e (advance-Goes ready t (Unasked-Goes g r))
  Unasked-Goes g (is_given f r) = Unasked-Goes g r
  Unasked-Goes g (is_woken k r e) = Unasked-Goes g r

  -- A `quit` of another thread that comes before `loop` has begun is forgotten: however the loop runs
  -- from there, with functions and wake-ups that other threads give it, it does not come to its end
  -- unless it is asked once more.
  pub early_quit_is_lost :
      (s : System F) {u : System F}
      → s.phase ≡ before
      → Unasked (ask_to_quit s) u
      → u.phase ≢ finished
  early_quit_is_lost s p r e = absurd (ends e (Unasked-Goes (first s.loop.quit_) r).0)
    where
      ends : {q : Phase} → q ≡ finished → goes_on q ≡ true → ⊥
      ends e g = cc

      first :
          (b : Bool)
          → Goes (if b then s else record s { loop = set_quit s.loop; wakers = suc s.wakers })
      first true = rw p (refl, refl)
      first false = rw p (refl, refl)
