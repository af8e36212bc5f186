-- ===== src/LoopThread/Owned.antt =====
-- The owner touches the loop only while it is there.
use clear_moon.Prelude.{
  ℕ, ◌≡◌, refl, sym, ◌∙◌, subst, Bool, true, false, Option, none, some, ◌>>=◌, if◌then◌else◌,
}
use clear_moon.EventLoop.System.{
  Phase, before, testing, polling, handling, swapping, draining, finished, System, Events, advance,
  give, wake,
}
use clear_moon.EventLoop.Heard.{InvOf, advance-Inv, give-Inv, wake-Inv}
use clear_moon.LoopThread.{
  Place, unborn, preparing, running, leaving, gone, idle, joining, LoopThread, holds_lock, is_alive,
  owner_step, with_system, loop_in, thread_step_in, thread_step, Runs, born, starts, joins,
  destroys, owner_moves, thread_moves, is_given, is_woken,
}
use clear_moon.LoopThread.Kept.{
  is_published, is_born, is_destroyed, KeepsAt, Keeps, KeepsOf, create-Keeps, start-Keeps,
  turns-Keeps, system-KeepsAt, destroy-Keeps, owner_step_in-Keeps,
}

published_alive : (p : Place) → is_published p ≡ true → is_alive p ≡ true
published_alive unborn e = cc
published_alive preparing e = cc
published_alive running e = refl
published_alive leaving e = refl
published_alive gone e = cc

alive_born : (p : Place) → is_alive p ≡ true → is_born p ≡ true
alive_born unborn e = cc
alive_born preparing e = refl
alive_born running e = refl
alive_born leaving e = refl
alive_born gone e = cc

module _ {F : Type 0} where
  module _ (quits : F → Bool) where
    with-KeepsOf :
        (p : Place) (h : LoopThread F) (r : Option (System F))
        → h.place ≡ p
        → is_born p ≡ true
        → InvOf r
        → KeepsAt p h.owner h
        → KeepsOf (r >>= λ s. some (with_system h s))
    with-KeepsOf p h none e b i k = tt
    with-KeepsOf p h (some s) e b i k =
        subst (λ x. KeepsAt x h.owner (with_system h s)) (sym e)
          (system-KeepsAt p h.owner h s i b k)

    goes_on-Keeps :
        (ev : Events) (h : LoopThread F)
        → h.place ≡ running
        → KeepsAt running h.owner h
        → KeepsOf (advance quits ev h.system >>= λ s. some (with_system h s))
    goes_on-Keeps ev h e k =
        with-KeepsOf running h (advance quits ev h.system) e refl
          (advance-Inv quits ev h.system k.loop_kept) k

    loop_in-Keeps :
        (p : Phase) (ev : Events) (h : LoopThread F)
        → h.place ≡ running
        → KeepsAt running h.owner h
        → KeepsOf (loop_in quits p ev h)
    loop_in-Keeps finished ev h e k = record {
      loop_kept = k.loop_kept;
      unborn_starts = λ u. cc;
      loop_published = k.loop_published;
      lock_kept = λ _. refl;
      was_started = k.was_started;
      was_joined = λ j. absurd (runs_on (k.was_joined j));
      at_end = λ j. absurd (runs_on (k.at_end j));
    }
      where
        runs_on : running ≡ gone → ⊥
        runs_on r = cc
    loop_in-Keeps before ev h e k = goes_on-Keeps ev h e k
    loop_in-Keeps testing ev h e k = goes_on-Keeps ev h e k
    loop_in-Keeps polling ev h e k = goes_on-Keeps ev h e k
    loop_in-Keeps (handling w) ev h e k = goes_on-Keeps ev h e k
    loop_in-Keeps (swapping w) ev h e k = goes_on-Keeps ev h e k
    loop_in-Keeps (draining w) ev h e k = goes_on-Keeps ev h e k

    publishes-Keeps :
        (h : LoopThread F)
        → h.place ≡ preparing
        → KeepsAt preparing h.owner h
        → Keeps (record h { published = true; place = running })
    publishes-Keeps h e k = record {
      loop_kept = k.loop_kept;
      unborn_starts = λ u. cc;
      loop_published = refl;
      lock_kept = λ _. refl;
      was_started = k.was_started;
      was_joined = λ j. absurd (not_over (k.was_joined j));
      at_end = λ j. absurd (not_over (k.at_end j));
    }
      where
        not_over : preparing ≡ gone → ⊥
        not_over r = cc

    leaves-Keeps :
        (h : LoopThread F)
        → holds_lock h.owner ≡ false
        → KeepsAt leaving h.owner h
        → Keeps (record h { published = false; place = gone })
    leaves-Keeps h l k = record {
      loop_kept = k.loop_kept;
      unborn_starts = λ u. cc;
      loop_published = refl;
      lock_kept = λ m. cc;
      was_started = k.was_started;
      was_joined = λ _. refl;
      at_end = λ _. refl;
    }

    choose-Keeps :
        (b : Bool) (h : LoopThread F) → (b ≡ false → Keeps h) → KeepsOf (if b then none else some h)
    choose-Keeps true h k = tt
    choose-Keeps false h k = k refl

    thread_step_in-Keeps :
        (p : Place) (ev : Events) (h : LoopThread F)
        → h.place ≡ p
        → KeepsAt p h.owner h
        → KeepsOf (thread_step_in quits p ev h)
    thread_step_in-Keeps unborn ev h e k = tt
    thread_step_in-Keeps preparing ev h e k =
        choose-Keeps (holds_lock h.owner) (record h { published = true; place = running })
          (λ _. publishes-Keeps h e k)
    thread_step_in-Keeps running ev h e k = loop_in-Keeps h.system.phase ev h e k
    thread_step_in-Keeps leaving ev h e k =
        choose-Keeps (holds_lock h.owner) (record h { published = false; place = gone })
          (λ l. leaves-Keeps h l k)
    thread_step_in-Keeps gone ev h e k = tt

    woken-Keeps :
        (k : ℕ) (p : Place) (h : LoopThread F)
        → KeepsAt p h.owner h
        → KeepsAt p h.owner (with_system h (wake k h.system))
    woken-Keeps k p h i = record {
      loop_kept = wake-Inv k h.system i.loop_kept;
      unborn_starts = i.unborn_starts;
      loop_published = i.loop_published;
      lock_kept = i.lock_kept;
      was_started = i.was_started;
      was_joined = i.was_joined;
      at_end = i.at_end;
    }

    -- The owner is idle.
    at_rest : (h : LoopThread F) → h.owner ≡ idle → Keeps h → KeepsAt h.place idle h
    at_rest h e k = subst (λ o. KeepsAt h.place o h) e k

    pub Runs-Keeps : {h : LoopThread F} → Runs quits h → Keeps h
    unfolding owner_step thread_step
    Runs-Keeps (born b) = create-Keeps b
    Runs-Keeps (starts {h} r e s) =
        subst KeepsOf s (start-Keeps h.place h (at_rest h e (Runs-Keeps r)))
    Runs-Keeps (joins {h} r e) =
        turns-Keeps h.place idle (joining false) h.exiting h refl refl (at_rest h e (Runs-Keeps r))
    Runs-Keeps (destroys {h} r e) = destroy-Keeps h (at_rest h e (Runs-Keeps r))
    Runs-Keeps (owner_moves {h} r e) =
        subst KeepsOf e (owner_step_in-Keeps h.owner h (Runs-Keeps r))
    Runs-Keeps (thread_moves {h} ev r e) =
        subst KeepsOf e (thread_step_in-Keeps h.place ev h refl (Runs-Keeps r))
    Runs-Keeps (is_given {h} f r e) =
        system-KeepsAt h.place h.owner h (give f h.system)
          (give-Inv f h.system (Runs-Keeps r).loop_kept) (alive_born h.place e) (Runs-Keeps r)
    Runs-Keeps (is_woken {h} k r e) = woken-Keeps k h.place h (Runs-Keeps r)

  -- In every order of what the owner, the thread of the loop and other threads do: the loop is there
  -- whenever its address is published, so where `start` returns it, and while the destructor is in its
  -- `quit`; and where the destructor is over, the thread is over, too.
  pub owner_finds_the_loop :
      (quits : F → Bool) {h : LoopThread F}
      → Runs quits h
      → (h.published ≡ true → is_alive h.place ≡ true)
        × (holds_lock h.owner ≡ true → is_alive h.place ≡ true)
        × (is_destroyed h.owner ≡ true → h.place ≡ gone)
  owner_finds_the_loop quits {h} r =
      let k = Runs-Keeps quits r in
      (
        λ e. published_alive h.place (sym k.loop_published ∙ e),
        λ e. published_alive h.place (k.lock_kept e),
        k.at_end,
      )
