-- ===== src/Tcp/Retransmit/Backoff.antt =====
-- How long a message waits before it is sent again.
use clear_moon.Prelude.{
  ℕ, zero, suc, ◌*◌, ◌/◌, ◌^◌, ◌≤◌, ◌≡◌, sym, ap, ◌∙◌, min, inl, inr, arith, ltb, ltb→lt,
  Bool-cases,
}
use native.Mathlib.Nat.{pow-succ', mul_assoc}
use clear_moon.Tcp.Retransmit.{double_up, backoff_cap, caculate_backoff_jitter}

double-pow : (c n : ℕ) → c * 2 ^ suc n ≡ c * 2 * 2 ^ n
double-pow c n = ap (λ x. c * x) (pow-succ' 2 n) ∙ sym (mul_assoc c 2 (2 ^ n))

le-pow : (n limit : ℕ) → limit ≤ limit * 2 ^ n
le-pow zero limit = omega arith
le-pow (suc n) limit = omega (arith, le-pow n (limit * 2), double-pow limit n)

min-past : (m x : ℕ) → m ≤ x → min m m ≡ min x m
min-past m x h = ground arith

double_up-min : (n limit m : ℕ) → min (double_up n limit m) m ≡ min (limit * 2 ^ n) m
unfolding double_up
double_up-min zero limit m = ap (λ x. min x m) (omega arith)
double_up-min (suc n) limit m = elim (Bool-cases (ltb (m / 2) limit)) [
  | inl e ↦ rw e (
      min-past m (limit * 2 ^ suc n)
        (omega (arith, ltb→lt _ _ e, le-pow n (limit * 2), double-pow limit n)))
  | inr e ↦ rw e (double_up-min n (limit * 2) m ∙ ap (λ x. min x m) (sym (double-pow limit n)))
]

-- The bound on the waiting doubles with each retry, up to the maximum.
pub backoff_cap-eq-min :
    (base retries max_delay : ℕ)
    → backoff_cap base retries max_delay ≡ min (base * 2 ^ retries) max_delay
unfolding backoff_cap
backoff_cap-eq-min base retries max_delay = double_up-min retries base max_delay

-- The wait before a message is sent again is at most the maximal delay, whatever the retries, and at
-- most the base delay doubled with each retry, where the distribution gives a number in its range.
pub caculate_backoff_jitter-le :
    (draw : ℕ → ℕ) (base retries max_delay : ℕ)
    → ((limit : ℕ) → draw limit ≤ limit)
    → (caculate_backoff_jitter draw base retries max_delay ≤ max_delay)
      × (caculate_backoff_jitter draw base retries max_delay ≤ base * 2 ^ retries)
caculate_backoff_jitter-le draw base retries max_delay h =
    let bound = h (backoff_cap base retries max_delay) in
    let e = backoff_cap-eq-min base retries max_delay in (ground arith, ground arith)
