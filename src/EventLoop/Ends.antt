-- ===== src/EventLoop/Ends.antt =====
-- A loop that is asked to quit ends.
use clear_moon.Prelude.{
  ℕ, suc, ◌<◌, ◌≡◌, refl, ap, ◌∙◌, Bool, true, false, List, [], ◌∷◌, some, ◌>>=◌, arith,
  if◌then◌else◌,
}
use clear_moon.EventLoop.{EventLoop, handle_weakup, set_quit}
use clear_moon.EventLoop.System.{
  Phase, before, testing, polling, handling, swapping, draining, finished, System, no_events,
  quit_if, stop_draining, call_next, advance, advance_times, Reach, start,
}
use clear_moon.EventLoop.Heard.{InvAt, Reach-Inv, start-Inv}
use clear_moon.EventLoop.Wakes.{advance-at, wakes_up}

-- In `loop`.
abbrev pub has_begun : Phase → Bool
has_begun before = false
has_begun _ = true

module _ {F : Type 0} (quits : F → Bool) where
  -- Left alone, the thread of the loop gets out of it.
  abbrev Ends : System F → Type 0
  Ends s = (n : ℕ) × (u : System F) × (advance_times quits n s ≡ some u) × (u.phase ≡ finished)

  one_step_more :
      (s : System F) {t : System F} → advance quits no_events s ≡ some t → Ends t → Ends s
  unfolding advance_times
  one_step_more s e (n, u, g, p) = (suc n, u, ap (λ o. o >>= advance_times quits n) e ∙ g, p)

  quit_if-quit_ : (b : Bool) (l : EventLoop F) → l.quit_ ≡ true → (quit_if b l).quit_ ≡ true
  quit_if-quit_ false l q = q
  quit_if-quit_ true l q = by_test l.quit_ q
    where
      by_test : (b : Bool) → l.quit_ ≡ true → (if b then l else set_quit l).quit_ ≡ true
      by_test true q = q
      by_test false q = refl

  drains_at :
      (last : Bool) (l : List F) (s : System F)
      → s.phase ≡ draining last
      → s.running ≡ l
      → advance quits no_events s ≡ some (call_next quits last l s)
  drains_at last l s p e =
      advance-at quits (draining last) s p ∙ ap (λ l. some (call_next quits last l s)) e

  drains_out : (l : List F) (s : System F) → s.phase ≡ draining true → s.running ≡ l → Ends s
  unfolding advance_times
  drains_out [] s p e =
      one_step_more s (drains_at true [] s p e) (0, stop_draining true s, refl, refl)
  drains_out (f ∷ rest) s p e =
      one_step_more s (drains_at true (f ∷ rest) s p e)
        (drains_out rest (call_next quits true (f ∷ rest) s) p refl)

  from_last_swap :
      (s : System F) → s.phase ≡ swapping true → s.loop.calling_pending ≡ false → Ends s
  from_last_swap s p c =
      let l : EventLoop F = record s.loop { calling_pending = true; pending = [] } in
      let t : System F = record s { loop = l; phase = draining true; running = s.loop.pending } in
      one_step_more s (advance-at quits (swapping true) s p ∙ rw c refl)
        (drains_out s.loop.pending t refl refl)

  from_testing :
      (s : System F)
      → s.phase ≡ testing
      → s.loop.quit_ ≡ true
      → s.loop.calling_pending ≡ false
      → Ends s
  from_testing s p q c =
      let t : System F = record s { phase = swapping true } in
      one_step_more s (advance-at quits testing s p ∙ rw q refl) (from_last_swap t refl c)

  from_draining :
      (l : List F) (s : System F)
      → s.phase ≡ draining false
      → s.running ≡ l
      → s.loop.quit_ ≡ true
      → Ends s
  from_draining [] s p e q =
      one_step_more s (drains_at false [] s p e) (from_testing (stop_draining false s) refl q refl)
  from_draining (f ∷ rest) s p e q = one_step_more s (drains_at false (f ∷ rest) s p e) (
      from_draining rest (call_next quits false (f ∷ rest) s) p refl
        (quit_if-quit_ (quits f) s.loop q))

  from_swap :
      (s : System F)
      → s.phase ≡ swapping false
      → s.loop.quit_ ≡ true
      → s.loop.calling_pending ≡ false
      → Ends s
  from_swap s p q c =
      let l : EventLoop F = record s.loop { calling_pending = true; pending = [] } in
      let t : System F = record s { loop = l; phase = draining false; running = s.loop.pending } in
      one_step_more s (advance-at quits (swapping false) s p ∙ rw c refl)
        (from_draining s.loop.pending t refl refl q)

  from_handling :
      (woken : Bool) (s : System F)
      → s.phase ≡ handling woken
      → s.loop.quit_ ≡ true
      → s.loop.calling_pending ≡ false
      → Ends s
  from_handling woken s p q c =
      one_step_more s (advance-at quits (handling woken) s p) (by_test woken)
    where
      by_test :
          (b : Bool)
          → Ends (record s {
            loop = record (if b then handle_weakup s.loop else s.loop) { event_handling = false };
            phase = swapping false;
          })
      by_test true = from_swap _ refl q c
      by_test false = from_swap _ refl q c

  from_polling :
      (s : System F)
      → s.phase ≡ polling
      → 0 < s.loop.counter
      → s.loop.quit_ ≡ true
      → s.loop.calling_pending ≡ false
      → Ends s
  from_polling s p h q c =
      let l : EventLoop F = record s.loop { event_handling = true } in
      let t : System F = record s { loop = l; phase = handling true } in
      one_step_more s (wakes_up quits s p h) (from_handling true t refl q c)

  pub stops_at :
      (p : Phase) (s : System F)
      → s.phase ≡ p
      → InvAt p s
      → has_begun p ≡ true
      → s.wakers ≡ 0
      → s.loop.quit_ ≡ true
      → Ends s
  unfolding advance_times
  stops_at before s p i b w q = cc
  stops_at testing s p i b w q = from_testing s p q i.flag
  stops_at polling s p i b w q = from_polling s p (omega (arith, i.quit_heard refl q, w)) q i.flag
  stops_at (handling woken) s p i b w q = from_handling woken s p q i.flag
  stops_at (swapping false) s p i b w q = from_swap s p q i.flag
  stops_at (swapping true) s p i b w q = from_last_swap s p i.flag
  stops_at (draining false) s p i b w q = from_draining s.running s p refl q
  stops_at (draining true) s p i b w q = drains_out s.running s p refl
  stops_at finished s p i b w q = (0, s, refl, p)

  -- A loop that is asked to quit while it is in `loop` gets out of it: from any state in which the flag
  -- is set and no thread is about to wake the loop, its own thread comes to the end, whatever it still
  -- has to call, and also where it was waiting in `poll`.
  pub quit_is_obeyed :
      {s : System F}
      → Reach quits start s
      → has_begun s.phase ≡ true
      → s.wakers ≡ 0
      → s.loop.quit_ ≡ true
      → (n : ℕ) × (u : System F) × (advance_times quits n s ≡ some u) × (u.phase ≡ finished)
  quit_is_obeyed {s} r b w q = stops_at s.phase s refl (Reach-Inv quits start-Inv r) b w q
