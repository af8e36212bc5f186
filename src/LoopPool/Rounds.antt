-- ===== src/LoopPool/Rounds.antt =====
-- The loops take turns.
use clear_moon.Prelude.{
  ℕ, zero, suc, ◌+◌, ◌<◌, ◌≡◌, refl, sym, ap, ◌∙◌, ◌⊎◌, inl, inr, true, List, [], ◌∷◌, ◌++◌, some,
  arith, length, ltb, lt→ltb, length-append, append_assoc, append-nil,
}
use clear_moon.LoopPool.{
  LoopPool, nth, start_from, start, wrap, get_next_loop, next_loops, number_of_threads, create,
}

inside : (n i : ℕ) → i < n → wrap n i ≡ i
inside n i h = ground arith

module _ {L : Type 0} where
  nth-append :
      (front : List L) (l : L) (rest : List L) → nth (length front) (front ++ (l ∷ rest)) ≡ some l
  nth-append [] l rest = refl
  nth-append (x ∷ front) l rest = nth-append front l rest

  get_next_loop-at :
      (front : List L) (l : L) (rest : List L) (p : LoopPool L)
      → p.loops ≡ front ++ (l ∷ rest)
      → wrap (length p.loops) p.next_idx ≡ length front
      → get_next_loop p ≡ some (l, record p { next_idx = suc (length front) })
  unfolding get_next_loop
  get_next_loop-at front l rest p e w =
      let n : length p.loops ≡ length front + suc (length rest) =
        ap length e ∙ length-append front (l ∷ rest) in
      let some_ : ltb 0 (length p.loops) ≡ true = lt→ltb 0 (length p.loops) (omega arith) in
      let here : nth (length front) p.loops ≡ some l =
        ap (nth (length front)) e ∙ nth-append front l rest in
      rw (some_, w, here) refl

  -- The rest of a round.
  next_loops-rest :
      (front rest : List L) (p : LoopPool L)
      → p.loops ≡ front ++ rest
      → p.next_idx ≡ length front
      → next_loops (length rest) p ≡ some (rest, record p { next_idx = length p.loops })
  unfolding next_loops
  next_loops-rest front [] p e i =
      let n : p.next_idx ≡ length p.loops = i ∙ sym (ap length (e ∙ append-nil front)) in
      ap (λ k. some ([], record p { next_idx = k })) n
  next_loops-rest front (l ∷ rest) p e i =
      let n : length p.loops ≡ length front + suc (length rest) =
        ap length e ∙ length-append front (l ∷ rest) in
      let first : get_next_loop p ≡ some (l, record p { next_idx = suc (length front) }) =
        get_next_loop-at front l rest p e
          (inside (length p.loops) p.next_idx (omega (arith, i, n)) ∙ i) in
      let others : next_loops (length rest) (record p { next_idx = suc (length front) })
          ≡ some (rest, record p { next_idx = length p.loops }) =
        next_loops-rest (front ++ (l ∷ [])) rest (record p { next_idx = suc (length front) })
          (e ∙ sym (append_assoc front (l ∷ []) rest))
          (omega (arith, length-append front (l ∷ []))) in
      rw (first, others) refl

  next_loops-start :
      (l : L) (rest : List L) (p : LoopPool L)
      → p.loops ≡ l ∷ rest
      → wrap (length p.loops) p.next_idx ≡ 0
      → next_loops (length (l ∷ rest)) p ≡ some (l ∷ rest, record p { next_idx = length p.loops })
  unfolding next_loops
  next_loops-start l rest p e w =
      let first : get_next_loop p ≡ some (l, record p { next_idx = 1 }) =
        get_next_loop-at [] l rest p e w in
      let others : next_loops (length rest) (record p { next_idx = 1 })
          ≡ some (rest, record p { next_idx = length p.loops }) =
        next_loops-rest (l ∷ []) rest (record p { next_idx = 1 }) e refl in
      rw (first, others) refl

  -- A pool that has loops and is at the end of a round, or at its first, gives each loop once in the next
  -- round, in the order in which the threads were started, and is at the end of a round again.
  pub next_loops-round :
      (p : LoopPool L)
      → 0 < length p.loops
      → (p.next_idx ≡ 0) ⊎ (p.next_idx ≡ length p.loops)
      → next_loops (length p.loops) p ≡ some (p.loops, record p { next_idx = length p.loops })
  next_loops-round p h i = by_loops p.loops p refl h (to_first i)
    where
      to_first :
          (p.next_idx ≡ 0) ⊎ (p.next_idx ≡ length p.loops) → wrap (length p.loops) p.next_idx ≡ 0
      to_first (inl e) = ground arith
      to_first (inr e) = ground arith

      by_loops :
          (loops : List L) (p : LoopPool L)
          → p.loops ≡ loops
          → 0 < length loops
          → wrap (length p.loops) p.next_idx ≡ 0
          → next_loops (length loops) p ≡ some (loops, record p { next_idx = length p.loops })
      by_loops [] p e h w = absurd (omega arith)
      by_loops (l ∷ rest) p e h w = next_loops-start l rest p e w

  start_from-loops :
      (start_thread : ℕ → L) (i n : ℕ) (p : LoopPool L)
      → (length (start_from start_thread i n p).loops ≡ length p.loops + n)
        × ((start_from start_thread i n p).cur_num ≡ p.cur_num + n)
        × ((start_from start_thread i n p).next_idx ≡ p.next_idx)
  unfolding start_from
  start_from-loops start_thread i zero p = (omega arith, omega arith, refl)
  start_from-loops start_thread i (suc n) p =
      let q : LoopPool L = record p {
        loops = p.loops ++ (start_thread i ∷ []);
        cur_num = suc p.cur_num;
      } in
      let (a, b, c) = start_from-loops start_thread (suc i) n q in
      (omega (arith, a, length-append p.loops (start_thread i ∷ [])), omega (arith, b), c)

  -- A new pool that is started has a loop for each of its threads, at least one, whatever number is asked
  -- for and whatever the machine says, and is at its first loop; to start it again changes nothing.
  pub start-create :
      (start_thread : ℕ → L) (hardware max_num : ℕ)
      → (0 < length (start start_thread (create hardware max_num)).loops)
        × (length (start start_thread (create hardware max_num)).loops
            ≡ number_of_threads hardware max_num)
        × ((start start_thread (create hardware max_num)).next_idx ≡ 0)
        × (start start_thread (start start_thread (create hardware max_num))
            ≡ start start_thread (create hardware max_num))
  unfolding start
  start-create start_thread hardware max_num =
      let (a, b, c) =
        start_from-loops start_thread 0 (number_of_threads hardware max_num)
          (create hardware max_num) in
      (omega (arith, a, some_thread hardware max_num), omega (arith, a), c, refl)
    where
      some_thread : (h m : ℕ) → 0 < number_of_threads h m
      some_thread h m = ground arith
