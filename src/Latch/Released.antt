-- ===== src/Latch/Released.antt =====
-- Who waits is released by the last count.
use clear_moon.Prelude.{ℕ, zero, suc, ◌≡◌, ◌<◌, refl, ap, Bool, true, false, if◌then◌else◌, arith}
use clear_moon.Latch.{
  ℤ, pos, negsuc, one_less, is_positive, is_zero, CountDownLatch, wait_on, wait, count_down, Run,
  begins, waits, waits_again, counts,
}

-- The count of a latch of `n` that was counted down `k` times.
abbrev pub left_of : ℤ → ℕ → ℤ
left_of i zero = i
left_of i (suc k) = one_less (left_of i k)

pub record Released (start : ℤ) (n : ℕ) (l : CountDownLatch) : Type 0 where
  pub exact : l.count ≡ left_of start n
  pub asleep : 0 < l.sleepers → is_positive l.count ≡ true

wait-Released :
    (start : ℤ) (n : ℕ) (l : CountDownLatch)
    → l.count ≡ left_of start n
    → (0 < l.sleepers → is_positive l.count ≡ true)
    → Released start n (wait l).1
unfolding wait
wait-Released start n l e s = by_test (is_positive l.count) refl
  where
    by_test : (b : Bool) → is_positive l.count ≡ b → Released start n (wait_on b l).1
    by_test true p = record { exact = e; asleep = λ _. p }
    by_test false p = record { exact = e; asleep = s }

still_positive :
    (i : ℤ) → is_positive i ≡ true → is_zero (one_less i) ≡ false → is_positive (one_less i) ≡ true
still_positive (pos zero) p z = cc
still_positive (pos (suc zero)) p z = cc
still_positive (pos (suc (suc n))) p z = refl
still_positive (negsuc n) p z = cc

count_down-Released :
    (start : ℤ) (n : ℕ) (l : CountDownLatch)
    → Released start n l
    → Released start (suc n) (count_down l)
unfolding count_down
count_down-Released start n l r = by_test (is_zero (one_less l.count)) refl
  where
    by_test :
        (b : Bool)
        → is_zero (one_less l.count) ≡ b
        → Released start (suc n) (
            if b
            then record { count = one_less l.count; sleepers = 0 }
            else record l { count = one_less l.count })
    by_test true z = record { exact = ap one_less r.exact; asleep = λ h. absurd (omega arith) }
    by_test false z = record {
      exact = ap one_less r.exact;
      asleep = λ h. still_positive l.count (r.asleep h) z;
    }

-- In every order of waiting, waking and counting: the count is what it began with, less one for each
-- time that it was counted down, and a thread sleeps only while it is above 0: the count that takes it to
-- 0 leaves no one asleep.
pub no_one_sleeps_on : {start : ℤ} {n : ℕ} {l : CountDownLatch} → Run start n l → Released start n l
no_one_sleeps_on begins = record { exact = refl; asleep = λ h. absurd (omega arith) }
no_one_sleeps_on (waits {n} {l} r) =
    let k = no_one_sleeps_on r in wait-Released _ n l k.exact k.asleep
no_one_sleeps_on (waits_again {n} {l} k e r) =
    let i = no_one_sleeps_on r in
    wait-Released _ n (record l { sleepers = k }) i.exact (λ h. i.asleep (omega (arith, e)))
no_one_sleeps_on (counts {n} {l} r) = count_down-Released _ n l (no_one_sleeps_on r)
