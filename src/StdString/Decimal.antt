-- ===== src/StdString/Decimal.antt =====
-- Decimal numbers are read back by `stoul`.
use clear_moon.Prelude.{
  ℕ, zero, suc, ◌+◌, ◌-◌, ◌*◌, ◌/◌, ◌%◌, ◌^◌, ◌<◌, ◌≤◌, ◌≡◌, refl, sym, ◌∙◌, ap, [], ◌∷◌, some,
  arith, Bytes, ltb, Bool-cases, inl, inr, ltb→lt,
}
use clear_moon.StdString.{decimal_loop, decimal, digits_value, stoul}

-- The loop's result: its digits, a digit first, and their value in front of any rest.
record Reads (n : ℕ) (acc : Bytes) (out : Bytes) : Type 0 where
  head : ℕ
  tail : Bytes
  shape : out ≡ head ∷ tail
  digit : (b'0' ≤ head) × (head ≤ b'9')
  value : digits_value 0 out ≡ digits_value n acc

-- One digit of a number.
digits_value-digit :
    (k d n : ℕ) (acc : Bytes)
    → d < 10
    → k * 10 + d ≡ n
    → digits_value k ((b'0' + d) ∷ acc) ≡ digits_value n acc
unfolding digits_value
digits_value-digit k d n acc h e =
    let same : k * 10 + (b'0' + d - b'0') ≡ n = omega arith in
    ground (arith, ap (λ t. digits_value t acc) same)

decimal_loop-Reads : (f n : ℕ) (acc : Bytes) → n < f → Reads n acc (decimal_loop f n acc)
unfolding decimal_loop
decimal_loop-Reads zero n acc h = absurd (omega arith)
decimal_loop-Reads (suc f) n acc h = elim (Bool-cases (ltb n 10)) [
  | inl last ↦ rw last (record {
    head = b'0' + n % 10;
    tail = acc;
    shape = refl;
    digit = omega arith;
    value = digits_value-digit 0 (n % 10) n acc (omega arith) (omega (arith, ltb→lt _ _ last));
  })
  | inr more ↦
      let r = decimal_loop-Reads f (n / 10) ((b'0' + n % 10) ∷ acc) (ground arith) in
      rw more (record {
        head = r.head;
        tail = r.tail;
        shape = r.shape;
        digit = r.digit;
        value = r.value ∙ digits_value-digit (n / 10) (n % 10) n acc (omega arith) (omega arith);
      })
]

stoul-digits : (s : Bytes) (n : ℕ) → Reads n [] s → n < 2 ^ 64 → stoul s ≡ some n
unfolding stoul
stoul-digits s n r h = rw r.shape (ground (arith, value))
  where
    value : digits_value 0 (r.head ∷ r.tail) ≡ n
    value = ap (digits_value 0) (sym r.shape) ∙ r.value ∙ unfold digits_value in refl

pub stoul-decimal : (n : ℕ) → n < 2 ^ 64 → stoul (decimal n) ≡ some n
unfolding decimal
stoul-decimal n h = stoul-digits (decimal n) n (decimal_loop-Reads (suc n) n [] (omega arith)) h
