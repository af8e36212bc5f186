-- ===== src/LoopThread/Kept.antt =====
-- What holds of the loop, its thread and its owner together, and what the owner does keeps it.
use clear_moon.Prelude.{
  ◌-◌, ◌≡◌, refl, sym, ◌∙◌, subst, Bool, true, false, not, Option, none, some, if◌then◌else◌,
}
use clear_moon.EventLoop.System.{before, System, quit_if, wake, ask_to_quit}
use clear_moon.EventLoop.Heard.{InvAt, Inv, start-Inv, wake-Inv, ask_to_quit-Inv, quit_if-InvAt}
use clear_moon.LoopThread.{
  Place, unborn, preparing, running, leaving, gone, Owner, idle, waiting, quitting, joining,
  destroyed, thrown, LoopThread, holds_lock, create, start, destroy, after_join, join_at,
  owner_step_in, with_system,
}

-- Behind the publishing of the loop, and in front of its end.
abbrev pub is_published : Place → Bool
is_published running = true
is_published leaving = true
is_published _ = false

abbrev pub is_born : Place → Bool
is_born unborn = false
is_born _ = true

abbrev pub is_destroyed : Owner → Bool
is_destroyed destroyed = true
is_destroyed _ = false

pub was_born : (p : Place) → is_published p ≡ true → is_born p ≡ true
was_born unborn e = cc
was_born preparing e = refl
was_born running e = refl
was_born leaving e = refl
was_born gone e = refl

pub born_or_not : (b : Bool) → b ≡ true → b ≡ false → ⊥
born_or_not b e f = cc

module _ {F : Type 0} where
  -- At a place and an owner.
  pub record KeepsAt (p : Place) (o : Owner) (h : LoopThread F) : Type 0 where
    pub loop_kept : Inv h.system
    pub unborn_starts : is_born p ≡ false → h.system.phase ≡ before
    pub loop_published : h.published ≡ is_published p
    pub lock_kept : holds_lock o ≡ true → is_published p ≡ true
    pub was_started : h.started ≡ is_born p
    pub was_joined : h.joined ≡ true → p ≡ gone
    pub at_end : is_destroyed o ≡ true → p ≡ gone

  abbrev pub Keeps : LoopThread F → Type 0
  Keeps h = KeepsAt h.place h.owner h

  abbrev pub KeepsOf : Option (LoopThread F) → Type 0
  KeepsOf none = Unit
  KeepsOf (some h) = Keeps h

  pub create-Keeps : (b : Bool) → Keeps (create b)
  create-Keeps b = record {
    loop_kept = start-Inv;
    unborn_starts = λ e. refl;
    loop_published = refl;
    lock_kept = λ e. cc;
    was_started = refl;
    was_joined = λ e. cc;
    at_end = λ e. cc;
  }

  pub start-Keeps : (p : Place) (h : LoopThread F) → KeepsAt p idle h → KeepsOf (start h)
  start-Keeps unborn h k =
      let b : h.system.phase ≡ before = k.unborn_starts refl in
      let s : System F = record h.system { loop = quit_if h.callback_quits h.system.loop } in
      let i : InvAt before s =
        quit_if-InvAt before h.callback_quits h.system refl
          (subst (λ x. InvAt x h.system) b k.loop_kept) in
      rw k.was_started (record {
        loop_kept = subst (λ x. InvAt x s) (sym b) i;
        unborn_starts = λ e. cc;
        loop_published = k.loop_published;
        lock_kept = λ e. cc;
        was_started = refl;
        was_joined = λ e. absurd (born_twice (k.was_joined e));
        at_end = λ e. cc;
      })
    where
      born_twice : unborn ≡ gone → ⊥
      born_twice e = cc
  start-Keeps preparing h k = rw k.was_started tt
  start-Keeps running h k = rw k.was_started tt
  start-Keeps leaving h k = rw k.was_started tt
  start-Keeps gone h k = rw k.was_started tt

  -- The owner turns to what neither holds the lock nor is the end.
  pub turns-Keeps :
      (p : Place) (o o' : Owner) (x : Bool) (h : LoopThread F)
      → holds_lock o' ≡ false
      → is_destroyed o' ≡ false
      → KeepsAt p o h
      → KeepsAt p o' (record h { exiting = x; owner = o' })
  turns-Keeps p o o' x h l d k = record {
    loop_kept = k.loop_kept;
    unborn_starts = k.unborn_starts;
    loop_published = k.loop_published;
    lock_kept = λ e. cc;
    was_started = k.was_started;
    was_joined = k.was_joined;
    at_end = λ e. cc;
  }

  pub system-KeepsAt :
      (p : Place) (o : Owner) (h : LoopThread F) (s : System F)
      → Inv s
      → is_born p ≡ true
      → KeepsAt p o h
      → KeepsAt p o (with_system h s)
  system-KeepsAt p o h s i b k = record {
    loop_kept = i;
    unborn_starts = λ e. cc;
    loop_published = k.loop_published;
    lock_kept = k.lock_kept;
    was_started = k.was_started;
    was_joined = k.was_joined;
    at_end = k.at_end;
  }

  pub destroy-Keeps : (h : LoopThread F) → KeepsAt h.place idle h → Keeps (destroy h)
  destroy-Keeps h k = by_tests h.started h.published refl
    where
      joins_at_once : Keeps (record h { exiting = true; owner = joining true })
      joins_at_once = turns-Keeps h.place idle (joining true) true h refl refl k

      by_tests :
          (a b : Bool)
          → h.published ≡ b
          → Keeps (
              if a
              then if b
                then record h {
                  exiting = true;
                  system = ask_to_quit h.system;
                  owner = quitting (not h.system.loop.quit_);
                }
                else record h { exiting = true; owner = joining true }
              else record h { exiting = true; owner = joining true })
      by_tests false b e = joins_at_once
      by_tests true false e = joins_at_once
      by_tests true true e =
          let p : is_published h.place ≡ true = sym k.loop_published ∙ e in
          record {
            loop_kept = ask_to_quit-Inv h.system k.loop_kept;
            unborn_starts = λ u. absurd (born_or_not (is_born h.place) (was_born h.place p) u);
            loop_published = k.loop_published;
            lock_kept = λ _. p;
            was_started = k.was_started;
            was_joined = k.was_joined;
            at_end = λ l. cc;
          }

  joined-Keeps :
      (p : Place) (d : Bool) (h : LoopThread F)
      → h.joined ≡ true
      → KeepsAt p (joining d) h
      → KeepsAt p (after_join d) (record h { owner = after_join d })
  joined-Keeps p d h e k = record {
    loop_kept = k.loop_kept;
    unborn_starts = k.unborn_starts;
    loop_published = k.loop_published;
    lock_kept = λ l. absurd (no_lock d l);
    was_started = k.was_started;
    was_joined = k.was_joined;
    at_end = λ _. k.was_joined e;
  }
    where
      no_lock : (d : Bool) → holds_lock (after_join d) ≡ true → ⊥
      no_lock true l = cc
      no_lock false l = cc

  join_at-Keeps :
      (p : Place) (d : Bool) (h : LoopThread F)
      → h.place ≡ p
      → KeepsAt p (joining d) h
      → KeepsOf (join_at p d h)
  join_at-Keeps unborn d h e k =
      subst (λ x. KeepsAt x thrown (record h { owner = thrown })) (sym e)
        (turns-Keeps unborn (joining d) thrown h.exiting h refl refl k)
  join_at-Keeps preparing d h e k = tt
  join_at-Keeps running d h e k = tt
  join_at-Keeps leaving d h e k = tt
  join_at-Keeps gone d h e k =
      subst (λ x. KeepsAt x (after_join d) (record h { joined = true; owner = after_join d }))
        (sym e)
        (joined-Keeps gone d (record h { joined = true }) refl
          record {
            loop_kept = k.loop_kept;
            unborn_starts = k.unborn_starts;
            loop_published = k.loop_published;
            lock_kept = λ l. cc;
            was_started = k.was_started;
            was_joined = λ _. refl;
            at_end = λ l. cc;
          })

  pub owner_step_in-Keeps :
      (o : Owner) (h : LoopThread F) → KeepsAt h.place o h → KeepsOf (owner_step_in o h)
  owner_step_in-Keeps idle h k = tt
  owner_step_in-Keeps waiting h k = by_test h.published
    where
      by_test : (b : Bool) → KeepsOf (if b then some (record h { owner = idle }) else none)
      by_test true = turns-Keeps h.place waiting idle h.exiting h refl refl k
      by_test false = tt
  owner_step_in-Keeps (quitting true) h k =
      let s : System F = wake (h.system.wakers - 1) h.system in
      turns-Keeps h.place (quitting true) (joining true) h.exiting (with_system h s) refl refl (
        system-KeepsAt h.place (quitting true) h s
          (wake-Inv (h.system.wakers - 1) h.system k.loop_kept)
          (was_born h.place (k.lock_kept refl)) k)
  owner_step_in-Keeps (quitting false) h k =
      turns-Keeps h.place (quitting false) (joining true) h.exiting h refl refl k
  owner_step_in-Keeps (joining d) h k = by_test h.joined refl
    where
      by_test :
          (b : Bool)
          → h.joined ≡ b
          → KeepsOf (if b then some (record h { owner = after_join d }) else join_at h.place d h)
      by_test true e = joined-Keeps h.place d h e k
      by_test false e = join_at-Keeps h.place d h refl k
  owner_step_in-Keeps destroyed h k = tt
  owner_step_in-Keeps thrown h k = tt
