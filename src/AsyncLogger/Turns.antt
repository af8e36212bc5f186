-- ===== src/AsyncLogger/Turns.antt =====
-- A turn of the thread behind keeps what is logged in order.
use clear_moon.Prelude.{
  ◌≡◌, Bool, true, false, not, ◌||◌, [], ◌∷◌, ◌++◌, Option, none, some, ◌>>=◌, ltb, if◌then◌else◌,
  refl, sym, ap, ◌∙◌, subst,
}
use clear_moon.Buffer.{Buffer, readable_bytes}
use clear_moon.Buffer.Contents.{contents}
use clear_moon.AsyncLogger.{
  Back, unborn, testing, locked, pushed, replaced, swapped, ended, writing, AsyncLogger, is_empty,
  push, replace, exchange, refill_next, is_outside, take_over, take_over_from, back_step_in,
}
use clear_moon.AsyncLogger.Fresh.{joined, joined-Fresh}
use clear_moon.AsyncLogger.Kept.{KeptAt, HasFresh}
use clear_moon.AsyncLogger.Moves.{
  InvAt, Inv, InvOf, moves-Kept, swap-Inv, write_one-Kept, recycle-Kept,
}

take_over-Kept :
    (c : Buffer) (l : AsyncLogger) → l.back ≡ locked → KeptAt locked c l → InvOf (take_over l)
take_over-Kept c l p k =
    subst (λ o. InvOf (o >>= λ c. some (take_over_from c l))) (sym k.current)
      (by_tests (not (is_empty l.buffers) || ltb 0 (readable_bytes c)) (not l.running))
  where
    no_a : (o : Option Buffer) → HasFresh o → o ≡ none → ⊥
    no_a none f e = f
    no_a (some a) f e = cc

    by_tests :
        (a b : Bool)
        → InvOf (
            some (
              if a
              then push c l
              else if b
              then record l { back = ended }
              else record l { back = writing l.buffers_to_write }))
    by_tests true b = (c, l, k, refl)
    by_tests false true = (c, moves-Kept locked ended c l refl refl (λ _. refl) (λ u. cc) k)
    by_tests false false = (
      c,
      record {
        in_order =
            ap (λ x. l.written ++ (x ++ (joined l.buffers ++ contents c)))
              (joined-Fresh l.buffers_to_write (k.used refl).0)
            ∙ k.in_order;
        current = k.current;
        current_valid = k.current_valid;
        front_valid = k.front_valid;
        rest_valid = k.back_valid;
        back_valid = k.back_valid;
        spare = k.spare;
        used = λ u. cc;
        some_left = λ u n. absurd (no_a l.buff_a (k.used refl).1 n);
      },
    )

back_step_in-Kept :
    (p : Back) (c : Buffer) (l : AsyncLogger)
    → l.back ≡ p
    → is_outside p ≡ true
    → KeptAt p c l
    → InvOf (back_step_in p l)
back_step_in-Kept unborn c l e o k = tt
back_step_in-Kept testing c l e o k = by_test l.running
  where
    by_test : (b : Bool) → Inv (record l { back = if b then locked else ended })
    by_test true = (c, moves-Kept testing locked c l refl refl (λ _. refl) (λ u. cc) k)
    by_test false = (c, moves-Kept testing ended c l refl refl (λ _. refl) (λ u. cc) k)
back_step_in-Kept locked c l e o k = by_test (not l.running || not (is_empty l.buffers))
  where
    by_test : (b : Bool) → InvOf (if b then take_over l else none)
    by_test true = take_over-Kept c l e k
    by_test false = tt
back_step_in-Kept (writing []) c l e o k =
    let (m, g, n) = recycle-Kept c l k in subst InvOf (sym g) n
back_step_in-Kept (writing (b ∷ rest)) c l e o k = write_one-Kept b rest c l k
back_step_in-Kept ended c l e o k = tt
back_step_in-Kept pushed c l e o k = absurd (cc)
back_step_in-Kept replaced c l e o k = absurd (cc)
back_step_in-Kept swapped c l e o k = absurd (cc)

pub back_step_in-Inv :
    (p : Back) (l : AsyncLogger) → l.back ≡ p → InvAt p l → InvOf (back_step_in p l)
back_step_in-Inv pushed l e (c, m, k, g) = (c, m, k, ap replace g)
back_step_in-Inv replaced l e (c, m, k, g) = (c, m, k, ap exchange g)
back_step_in-Inv swapped l e (c, m, k, g) =
    subst (λ x. Inv (refill_next x)) (sym g) (swap-Inv c m k)
back_step_in-Inv unborn l e (c, k) = back_step_in-Kept unborn c l e refl k
back_step_in-Inv testing l e (c, k) = back_step_in-Kept testing c l e refl k
back_step_in-Inv locked l e (c, k) = back_step_in-Kept locked c l e refl k
back_step_in-Inv ended l e (c, k) = back_step_in-Kept ended c l e refl k
back_step_in-Inv (writing bs) l e (c, k) = back_step_in-Kept (writing bs) c l e refl k
