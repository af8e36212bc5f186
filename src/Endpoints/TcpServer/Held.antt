-- ===== src/Endpoints/TcpServer/Held.antt =====
-- The connections of a server.
use clear_moon.Prelude.{
  ℕ, suc, ◌+◌, ◌^◌, ◌<◌, ◌≤◌, ◌≡◌, refl, sym, ap, ◌∙◌, subst, Bool, true, false, List, [], ◌∷◌,
  Option, none, some, ◌>>=◌, length, lt→ltb, ◌==◌, ==_iff, if◌then◌else◌, arith,
}
use clear_moon.OrdMap.{find, assign, erase, bytes_key}
use clear_moon.LoopPool.{LoopPool}
use clear_moon.Endpoints.Acceptor.{Acceptor}
use clear_moon.Endpoints.TcpServer.{
  Conn, TcpServer, create, name_of, int_end, new_connection, removed_where,
  remove_connection_in_loop, ServerOp, arrives, leaves, serve,
}
use clear_moon.Endpoints.TcpServer.Names.{
  one_if, in_use, in_use-suc, nothing_yet, in_use-next, given, left_as_is, taken, not_taken, count,
  is_held, held, Serves, get_next_loop-loops, held-assign, held-erase,
}

module _ {L : Type 0} where
  new_connection-Serves :
      (s : TcpServer L)
      → Serves s
      → s.next_conn_id < int_end
      → (r : TcpServer L) × (new_connection s ≡ some r)
        × Serves r
        × (r.next_conn_id ≡ suc s.next_conn_id)
  unfolding new_connection count
  new_connection-Serves s v h =
      let (l, q, e, f) = get_next_loop-loops s.event_thread_pool v.has_loops in
      let c : Conn L = record { number = s.next_conn_id; io_loop = l } in
      (
        record s {
          event_thread_pool = q;
          next_conn_id = suc s.next_conn_id;
          connections = assign (name_of s.next_conn_id) c s.connections;
          established = c ∷ s.established;
        },
        rw (e, lt→ltb s.next_conn_id int_end h) refl,
        record {
          counts = λ n k. record {
            once =
                ap (λ z. one_if (s.next_conn_id == n) + z) (v.counts n k).once
                ∙ sym (in_use-suc n s.next_conn_id v.from_one);
            kept = number_kept n k c;
          };
          has_loops = subst (λ x. 0 < length x) (sym f) v.has_loops;
          from_one = omega arith;
        },
        refl,
      )
    where
      number_kept :
          (n : ℕ)
          → n < 2 ^ 64
          → (c : Conn L)
          → held n (assign (name_of s.next_conn_id) c s.connections) + count n s.destroyed
            ≡ in_use n (suc s.next_conn_id)
      number_kept n k c = by_test (s.next_conn_id == n) refl
        where
          next : ℕ
          next = s.next_conn_id

          small : next < 2 ^ 64
          small = omega (arith, h)

          by_test :
              (b : Bool)
              → (next == n) ≡ b
              → held n (assign (name_of next) c s.connections) + count n s.destroyed
                ≡ in_use n (suc next)
          by_test true e =
              given _ (held n s.connections) (count n s.destroyed) (in_use n next) _
                (held-assign next n c s.connections small k
                  ∙ ap (λ b. if b then 1 else held n s.connections) e)
                (v.counts n k).kept (in_use-next n next e)
                (in_use-suc n next v.from_one ∙ ap (λ b. one_if b + in_use n next) e)
          by_test false e =
              left_as_is _ (held n s.connections) (count n s.destroyed) (in_use n next) _
                (held-assign next n c s.connections small k
                  ∙ ap (λ b. if b then 1 else held n s.connections) e)
                (v.counts n k).kept
                (in_use-suc n next v.from_one ∙ ap (λ b. one_if b + in_use n next) e)

  remove_connection_in_loop-Serves :
      (c : Conn L) (s : TcpServer L)
      → c.number < 2 ^ 64
      → Serves s
      → Serves (remove_connection_in_loop c s)
  unfolding remove_connection_in_loop count
  remove_connection_in_loop-Serves c s h v = by_cases (find (name_of c.number) s.connections) refl
    where
      number_kept :
          (d : Conn L)
          → find (name_of c.number) s.connections ≡ some d
          → (n : ℕ) → n < 2 ^ 64
          → (b : Bool) → (c.number == n) ≡ b
          → held n (erase (name_of c.number) s.connections)
              + (one_if (c.number == n) + count n s.destroyed)
            ≡ in_use n s.next_conn_id
      number_kept d e n k true f =
          taken _ (held n s.connections) _ (count n s.destroyed) _
            (held-erase c.number n s.connections h k
              ∙ ap (λ b. if b then 0 else held n s.connections) f)
            (ap (λ x. held x s.connections) (sym ((==_iff c.number n).0 f)) ∙ ap is_held e)
            (ap one_if f) (v.counts n k).kept
      number_kept d e n k false f =
          not_taken _ (held n s.connections) _ (count n s.destroyed) _
            (held-erase c.number n s.connections h k
              ∙ ap (λ b. if b then 0 else held n s.connections) f)
            (ap one_if f) (v.counts n k).kept

      by_cases :
          (o : Option (Conn L))
          → find (name_of c.number) s.connections ≡ o
          → Serves (removed_where o c s)
      by_cases none e = v
      by_cases (some d) e = record {
        counts = λ n k. record {
          once = (v.counts n k).once;
          kept = number_kept d e n k (c.number == n) refl;
        };
        has_loops = v.has_loops;
        from_one = v.from_one;
      }

  pub create-Serves :
      (pool : LoopPool L) (a : Acceptor) → 0 < length pool.loops → Serves (create pool a)
  unfolding count
  create-Serves pool a h = record {
    counts = λ n k. record { once = nothing_yet n; kept = nothing_yet n };
    has_loops = h;
    from_one = omega arith;
  }

  -- The numbers of connections that leave are those of an `int`.
  abbrev pub AreInts : List (ServerOp L) → Type 0
  AreInts [] = Unit
  AreInts (arrives ∷ os) = AreInts os
  AreInts (leaves c ∷ os) = (c.number < 2 ^ 31) × AreInts os

  abbrev pub arrivals : List (ServerOp L) → ℕ
  arrivals [] = 0
  arrivals (arrives ∷ os) = suc (arrivals os)
  arrivals (leaves c ∷ os) = arrivals os

  remove_connection_in_loop-next :
      (c : Conn L) (s : TcpServer L) → (remove_connection_in_loop c s).next_conn_id ≡ s.next_conn_id
  unfolding remove_connection_in_loop
  remove_connection_in_loop-next c s = by_cases (find (name_of c.number) s.connections)
    where
      by_cases : (o : Option (Conn L)) → (removed_where o c s).next_conn_id ≡ s.next_conn_id
      by_cases none = refl
      by_cases (some d) = refl

  -- However connections arrive and leave, in whatever order and however often one leaves, as long as
  -- their numbers do not run out: each is accepted, under a number of its own, and is established once;
  -- and from there it is in the table and not yet destroyed, or it is destroyed, once, and not in it.
  pub serve-Serves :
      (os : List (ServerOp L)) (s : TcpServer L)
      → AreInts os
      → s.next_conn_id + arrivals os ≤ int_end
      → Serves s
      → (r : TcpServer L) × (serve os s ≡ some r)
        × Serves r
        × (r.next_conn_id ≡ s.next_conn_id + arrivals os)
  unfolding serve
  serve-Serves [] s a h v = (s, refl, v, omega arith)
  serve-Serves (arrives ∷ os) s a h v =
      let (m, e, w, n) = new_connection-Serves s v (omega arith) in
      let (r, f, x, k) = serve-Serves os m a (omega (arith, n)) w in
      (r, ap (λ o. o >>= serve os) e ∙ f, x, omega (arith, n, k))
  serve-Serves (leaves c ∷ os) s (i, a) h v =
      let n = remove_connection_in_loop-next c s in
      let (r, f, x, k) =
        serve-Serves os (remove_connection_in_loop c s) a (omega (arith, n))
          (remove_connection_in_loop-Serves c s (omega (arith, i)) v) in
      (r, f, x, k ∙ ap (λ x. x + arrivals os) n)
