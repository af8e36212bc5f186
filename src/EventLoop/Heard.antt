-- ===== src/EventLoop/Heard.antt =====
-- No function that is left to the loop is lost, run twice or out of turn, and the loop wakes for it.
use clear_moon.Prelude.{
  ℕ, suc, ◌+◌, ◌<◌, ◌≡◌, refl, sym, ap, ◌∙◌, subst, Bool, true, false, ◌||◌, List, [], ◌∷◌, ◌++◌,
  Option, none, some, arith, length, ltb, append_assoc, append-nil, if◌then◌else◌,
}
use clear_moon.EventLoop.{EventLoop, weakup, handle_weakup, set_quit}
use clear_moon.EventLoop.System.{
  Phase, before, testing, polling, handling, swapping, draining, finished, System, Events, quit_if,
  call_next, advance_in, advance, give, wake, ask_to_quit, Reach, here, loops, gives, wakes, asks,
  start,
}

-- Between the reading of the eventfd and the swap the loop is going to look anyway.
abbrev pub is_looking : Phase → Bool
is_looking (handling _) = true
is_looking (swapping _) = true
is_looking _ = false

abbrev pub is_draining : Phase → Bool
is_draining (draining _) = true
is_draining _ = false

abbrev pub is_polling : Phase → Bool
is_polling polling = true
is_polling _ = false

module _ {F : Type 0} where
  -- A wake-up that is written or about to be.
  abbrev pub signals : System F → ℕ
  signals s = s.loop.counter + s.wakers

  pub record InvAt (p : Phase) (s : System F) : Type 0 where
    pub in_turn : s.ran ++ (s.running ++ s.loop.pending) ≡ s.given
    pub heard : is_looking p ≡ false → 0 < length s.loop.pending → 0 < signals s
    pub quit_heard : is_polling p ≡ true → s.loop.quit_ ≡ true → 0 < signals s
    pub flag : s.loop.calling_pending ≡ is_draining p
    pub idle : is_draining p ≡ false → s.running ≡ []

  abbrev pub Inv : System F → Type 0
  Inv s = InvAt s.phase s

  abbrev pub InvOf : Option (System F) → Type 0
  InvOf none = Unit
  InvOf (some u) = Inv u

  no_pending : (l : List F) → l ≡ [] → 0 < length l → ⊥
  no_pending l e h = omega (arith, ap length e)

  -- `quit`, in the loop's thread, changes nothing else.
  pub quit_if-InvAt :
      (p : Phase) (call : Bool) (s : System F)
      → is_polling p ≡ false
      → InvAt p s
      → InvAt p (record s { loop = quit_if call s.loop })
  quit_if-InvAt p call s n i = by_tests call s.loop.quit_
    where
      by_tests :
          (a b : Bool)
          → InvAt p
              (record s { loop = if a then (if b then s.loop else set_quit s.loop) else s.loop })
      by_tests false b = i
      by_tests true true = i
      by_tests true false = record {
        in_turn = i.in_turn;
        heard = i.heard;
        quit_heard = λ h. cc;
        flag = i.flag;
        idle = i.idle;
      }

  module _ (quits : F → Bool) where
    call_next-Inv :
        (last : Bool) (l : List F) (s : System F)
        → s.phase ≡ draining last
        → s.running ≡ l
        → InvAt (draining last) s
        → Inv (call_next quits last l s)
    call_next-Inv false [] s p e i = record {
      in_turn = i.in_turn;
      heard = i.heard;
      quit_heard = λ h. cc;
      flag = refl;
      idle = λ _. e;
    }
    call_next-Inv true [] s p e i = record {
      in_turn = i.in_turn;
      heard = i.heard;
      quit_heard = λ h. cc;
      flag = refl;
      idle = λ _. e;
    }
    call_next-Inv last (f ∷ rest) s p e i =
        let moved : (s.ran ++ (f ∷ [])) ++ (rest ++ s.loop.pending) ≡ s.given =
          append_assoc s.ran (f ∷ []) (rest ++ s.loop.pending)
          ∙ ap (λ l. s.ran ++ (l ++ s.loop.pending)) (sym e)
          ∙ i.in_turn in
        let u : System F = record s { running = rest; ran = s.ran ++ (f ∷ []) } in
        let k : InvAt (draining last) u = record {
          in_turn = moved;
          heard = i.heard;
          quit_heard = λ h. cc;
          flag = i.flag;
          idle = λ h. cc;
        } in
        subst (λ x. InvAt x (record u { loop = quit_if (quits f) u.loop })) (sym p)
          (quit_if-InvAt (draining last) (quits f) u refl k)

    advance_in-Inv :
        (p : Phase) (ev : Events) (s : System F)
        → s.phase ≡ p
        → InvAt p s
        → InvOf (advance_in quits p ev s)
    advance_in-Inv before ev s p i = record {
      in_turn = i.in_turn;
      heard = i.heard;
      quit_heard = λ h. cc;
      flag = i.flag;
      idle = i.idle;
    }
    advance_in-Inv testing ev s p i = by_test s.loop.quit_ refl
      where
        by_test :
            (b : Bool)
            → s.loop.quit_ ≡ b
            → Inv (record s { phase = if b then swapping true else polling })
        by_test true e = record {
          in_turn = i.in_turn;
          heard = λ h. cc;
          quit_heard = λ h. cc;
          flag = i.flag;
          idle = i.idle;
        }
        by_test false e = record {
          in_turn = i.in_turn;
          heard = i.heard;
          quit_heard = λ h q. cc;
          flag = i.flag;
          idle = i.idle;
        }
    advance_in-Inv polling ev s p i = by_test (ltb 0 s.loop.counter || ev.ready)
      where
        by_test :
            (b : Bool)
            → InvOf (
                if b
                then some (record s {
                  loop = record s.loop { event_handling = true };
                  phase = handling (ltb 0 s.loop.counter);
                })
                else none)
        by_test false = tt
        by_test true = record {
          in_turn = i.in_turn;
          heard = λ h. cc;
          quit_heard = λ h. cc;
          flag = i.flag;
          idle = i.idle;
        }
    advance_in-Inv (handling woken) ev s p i =
        let k =
          quit_if-InvAt (handling woken) ev.event_quits
            (record s { loop = if woken then handle_weakup s.loop else s.loop }) refl
            (read woken) in
        record {
          in_turn = k.in_turn;
          heard = λ h. cc;
          quit_heard = λ h. cc;
          flag = k.flag;
          idle = k.idle;
        }
      where
        read :
            (b : Bool)
            → InvAt
                (handling woken)
                (record s { loop = if b then handle_weakup s.loop else s.loop })
        read false = i
        read true = record {
          in_turn = i.in_turn;
          heard = λ h. cc;
          quit_heard = λ h. cc;
          flag = i.flag;
          idle = i.idle;
        }
    advance_in-Inv (swapping last) ev s p i =
        let turn : s.ran ++ (s.loop.pending ++ []) ≡ s.given =
          ap (λ l. s.ran ++ l) (append-nil s.loop.pending)
          ∙ ap (λ l. s.ran ++ (l ++ s.loop.pending)) (sym (i.idle refl))
          ∙ i.in_turn in
        rw i.flag (record {
          in_turn = turn;
          heard = λ h k. absurd (omega arith);
          quit_heard = λ h. cc;
          flag = refl;
          idle = λ h. cc;
        })
    advance_in-Inv (draining last) ev s p i = call_next-Inv last s.running s p refl i
    advance_in-Inv finished ev s p i = tt

    pub advance-Inv : (ev : Events) (s : System F) → Inv s → InvOf (advance quits ev s)
    unfolding advance
    advance-Inv ev s i = advance_in-Inv s.phase ev s refl i

  pub give-Inv : (f : F) (s : System F) → Inv s → Inv (give f s)
  give-Inv f s i = record {
    in_turn =
        ap (λ l. s.ran ++ l) (sym (append_assoc s.running s.loop.pending (f ∷ [])))
        ∙ sym (append_assoc s.ran (s.running ++ s.loop.pending) (f ∷ []))
        ∙ ap (λ l. l ++ (f ∷ [])) i.in_turn;
    heard = λ h k. omega arith;
    quit_heard = λ h k. omega arith;
    flag = i.flag;
    idle = i.idle;
  }

  weakup-pos : (l : EventLoop F) → 0 < (weakup l).counter
  weakup-pos l = ground arith

  pub wake-Inv : (k : ℕ) (s : System F) → Inv s → Inv (wake k s)
  wake-Inv k s i = record {
    in_turn = i.in_turn;
    heard = λ h j. omega (arith, weakup-pos s.loop);
    quit_heard = λ h j. omega (arith, weakup-pos s.loop);
    flag = i.flag;
    idle = i.idle;
  }

  pub ask_to_quit-Inv : (s : System F) → Inv s → Inv (ask_to_quit s)
  ask_to_quit-Inv s i = by_test s.loop.quit_
    where
      by_test :
          (b : Bool)
          → Inv (if b then s else record s { loop = set_quit s.loop; wakers = suc s.wakers })
      by_test true = i
      by_test false = record {
        in_turn = i.in_turn;
        heard = λ h j. omega arith;
        quit_heard = λ h j. omega arith;
        flag = i.flag;
        idle = i.idle;
      }

  pub start-Inv : Inv start
  start-Inv = record {
    in_turn = refl;
    heard = λ h k. absurd (omega arith);
    quit_heard = λ h. cc;
    flag = refl;
    idle = λ h. refl;
  }

  pub Reach-Inv : (quits : F → Bool) {s u : System F} → Inv s → Reach quits s u → Inv u
  Reach-Inv quits i here = i
  Reach-Inv quits i (loops {t} ev r e) =
      subst InvOf e (advance-Inv quits ev t (Reach-Inv quits i r))
  Reach-Inv quits i (gives {t} f r) = give-Inv f t (Reach-Inv quits i r)
  Reach-Inv quits i (wakes {t} k r e) = wake-Inv k t (Reach-Inv quits i r)
  Reach-Inv quits i (asks {t} r) = ask_to_quit-Inv t (Reach-Inv quits i r)

  -- In every order of what the threads do, from a loop that has not begun: the functions that were
  -- called, those that are being called and those that wait are the functions that were given, in turn;
  -- and while the loop is in `poll`, or about to go there, and a function waits, the eventfd is readable
  -- or a thread is about to make it so.
  pub no_function_is_lost :
      (quits : F → Bool) {s : System F}
      → Reach quits start s
      → (s.ran ++ (s.running ++ s.loop.pending) ≡ s.given)
        × (is_looking s.phase ≡ false → 0 < length s.loop.pending → 0 < signals s)
  no_function_is_lost quits r = let i = Reach-Inv quits start-Inv r in (i.in_turn, i.heard)
