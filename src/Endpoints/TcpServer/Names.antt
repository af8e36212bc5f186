-- ===== src/Endpoints/TcpServer/Names.antt =====
-- Names, and the table of connections by name.
use clear_moon.Prelude.{
  ℕ, zero, suc, ◌+◌, ◌^◌, ◌<◌, ◌≡◌, ◌≢◌, refl, sym, ap, ◌∙◌, inl, inr, Bool, true, false, ◌&&◌,
  List, [], ◌∷◌, Option, none, some, Bytes, length, ltb, lt→ltb, ◌==◌, ==_iff, if◌then◌else◌, arith,
  Bool-cases,
}
use clear_moon.OrdMap.{
  OrdMap, find, assign, erase, bytes_key, equal, equal_iff, find-assign, find-erase,
}
use clear_moon.StdString.{decimal, stoul}
use clear_moon.StdString.Decimal.{stoul-decimal}
use clear_moon.LoopPool.{LoopPool, get_next_loop, nth, wrap}
use clear_moon.Endpoints.TcpServer.{Conn, TcpServer, name_of}

name_of-injective : (m n : ℕ) → m < 2 ^ 64 → n < 2 ^ 64 → name_of m ≡ name_of n → m ≡ n
name_of-injective m n h k e =
    let d : decimal m ≡ decimal n = cc in
    let p : some m ≡ some n = sym (stoul-decimal m h) ∙ ap stoul d ∙ stoul-decimal n k in cc

names_differ : (m n : ℕ) → m < 2 ^ 64 → n < 2 ^ 64 → m ≢ n → equal (name_of m) (name_of n) ≡ false
names_differ m n h k e = elim (Bool-cases (equal (name_of m) (name_of n))) [
  | inl f ↦ absurd (e (name_of-injective m n h k ((equal_iff (name_of m) (name_of n)).0 f)))
  | inr f ↦ f
]

names_agree : (n : ℕ) → equal (name_of n) (name_of n) ≡ true
names_agree n = (equal_iff (name_of n) (name_of n)).1 refl

abbrev pub one_if : Bool → ℕ
one_if true = 1
one_if false = 0

-- Whether a number was given to a connection, where `next` is the next.
abbrev pub in_use : ℕ → ℕ → ℕ
in_use n next = one_if (ltb 0 n && ltb n next)

pub in_use-suc : (n next : ℕ) → 0 < next → in_use n (suc next) ≡ one_if (next == n) + in_use n next
in_use-suc n next h = ground (arith, ==_iff next n)

pub nothing_yet : (n : ℕ) → 0 ≡ in_use n 1
nothing_yet n = ground arith

pub in_use-next : (n next : ℕ) → (next == n) ≡ true → in_use n next ≡ 0
in_use-next n next h = ground (arith, ==_iff next n)

wrap-lt : (n i : ℕ) → 0 < n → wrap n i < n
wrap-lt n i h = ground arith

pub given : (x y c u v : ℕ) → x ≡ 1 → y + c ≡ u → u ≡ 0 → v ≡ 1 + u → x + c ≡ v
given x y c u v a b d e = omega arith

pub left_as_is : (x y c u v : ℕ) → x ≡ y → y + c ≡ u → v ≡ 0 + u → x + c ≡ v
left_as_is x y c u v a b e = omega arith

pub taken : (x y z c u : ℕ) → x ≡ 0 → y ≡ 1 → z ≡ 1 → y + c ≡ u → x + (z + c) ≡ u
taken x y z c u a b d e = omega arith

pub not_taken : (x y z c u : ℕ) → x ≡ y → z ≡ 0 → y + c ≡ u → x + (z + c) ≡ u
not_taken x y z c u a d e = omega arith

module _ {L : Type 0} where
  unfoldable pub count : ℕ → List (Conn L) → ℕ
  count n [] = 0
  count n (c ∷ l) = one_if (c.number == n) + count n l

  abbrev pub is_held : Option (Conn L) → ℕ
  is_held none = 0
  is_held (some c) = 1

  -- How often the table holds the connection of a number.
  abbrev pub held : ℕ → OrdMap Bytes (Conn L) → ℕ
  held n m = is_held (find (name_of n) m)

  -- What holds of the number `n`.
  pub record CountsAt (n : ℕ) (s : TcpServer L) : Type 0 where
    pub once : count n s.established ≡ in_use n s.next_conn_id
    pub kept : held n s.connections + count n s.destroyed ≡ in_use n s.next_conn_id

  pub record Serves (s : TcpServer L) : Type 0 where
    pub counts : (n : ℕ) → n < 2 ^ 64 → CountsAt n s
    pub has_loops : 0 < length s.event_thread_pool.loops
    pub from_one : 0 < s.next_conn_id

  nth-lt : (i : ℕ) (l : List L) → i < length l → (x : L) × (nth i l ≡ some x)
  nth-lt i [] h = absurd (omega arith)
  nth-lt zero (x ∷ l) h = (x, refl)
  nth-lt (suc i) (x ∷ l) h = nth-lt i l (omega arith)

  pub get_next_loop-loops :
      (p : LoopPool L)
      → 0 < length p.loops
      → (l : L) × (q : LoopPool L) × (get_next_loop p ≡ some (l, q)) × (q.loops ≡ p.loops)
  unfolding get_next_loop
  get_next_loop-loops p h =
      let (l, e) =
        nth-lt (wrap (length p.loops) p.next_idx) p.loops (wrap-lt (length p.loops) p.next_idx h) in
      (
        l,
        record p { next_idx = suc (wrap (length p.loops) p.next_idx) },
        rw (lt→ltb 0 (length p.loops) h, e) refl,
        refl,
      )

  pub held-assign :
      (k n : ℕ) (c : Conn L) (m : OrdMap Bytes (Conn L))
      → k < 2 ^ 64
      → n < 2 ^ 64
      → held n (assign (name_of k) c m) ≡ (if k == n then 1 else held n m)
  held-assign k n c m h j =
      ap is_held (find-assign (name_of k) (name_of n) c m) ∙ by_test (k == n) refl
    where
      by_test :
          (b : Bool)
          → (k == n) ≡ b
          → is_held (if equal (name_of k) (name_of n) then some c else find (name_of n) m)
            ≡ (if b then 1 else held n m)
      by_test true e =
          ap (λ b. is_held (if b then some c else find (name_of n) m))
            (ap (λ x. equal (name_of k) (name_of x)) (sym ((==_iff k n).0 e)) ∙ names_agree k)
      by_test false e =
          ap (λ b. is_held (if b then some c else find (name_of n) m))
            (names_differ k n h j (ground (arith, ==_iff k n, e)))

  pub held-erase :
      (k n : ℕ) (m : OrdMap Bytes (Conn L))
      → k < 2 ^ 64
      → n < 2 ^ 64
      → held n (erase (name_of k) m) ≡ (if k == n then 0 else held n m)
  held-erase k n m h j = ap is_held (find-erase (name_of k) (name_of n) m) ∙ by_test (k == n) refl
    where
      by_test :
          (b : Bool)
          → (k == n) ≡ b
          → is_held (if equal (name_of k) (name_of n) then none else find (name_of n) m)
            ≡ (if b then 0 else held n m)
      by_test true e =
          ap (λ b. is_held (if b then none else find (name_of n) m))
            (ap (λ x. equal (name_of k) (name_of x)) (sym ((==_iff k n).0 e)) ∙ names_agree k)
      by_test false e =
          ap (λ b. is_held (if b then none else find (name_of n) m))
            (names_differ k n h j (ground (arith, ==_iff k n, e)))
