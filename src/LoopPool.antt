-- ===== src/LoopPool.antt =====
-- net/EventLoopThreadPool.h and EventLoopThreadPool.cc: the loops that a server gives its connections to,
-- in turn. A loop is a value of any type; which one a thread starts with is an argument.
pub mod Rounds
pub mod Tests
use clear_moon.Prelude.{
  ℕ, zero, suc, ◌+◌, Bool, true, false, not, List, [], ◌∷◌, ◌++◌, Option, none, some, ◌>>=◌, ◌>>◌,
  assert, length, leb, ltb, if◌then◌else◌,
}

pub record LoopPool (L : Type 0) : Type 0 where
  pub loops : List L
  pub cur_num : ℕ
  pub thread_num : ℕ
  pub next_idx : ℕ
  pub started : Bool

-- `hardware` is `hardware_concurrency()`, which may be 0.
abbrev pub number_of_threads : ℕ → ℕ → ℕ
number_of_threads hardware max_num =
    let n = if ltb 0 max_num then max_num else hardware in if ltb 0 n then n else 1

abbrev pub nth : {A : Type 0} → ℕ → List A → Option A
nth n [] = none
nth zero (x ∷ xs) = some x
nth (suc n) (x ∷ xs) = nth n xs

-- The index goes back to the first.
abbrev pub wrap : ℕ → ℕ → ℕ
wrap n i = if leb n i then 0 else i

module _ {L : Type 0} where
  abbrev pub create : ℕ → ℕ → LoopPool L
  create hardware max_num = record {
    loops = [];
    cur_num = 0;
    thread_num = number_of_threads hardware max_num;
    next_idx = 0;
    started = false;
  }

  -- The loop over `i`, for the threads from `i` on; `start_thread` gives the loop of a thread.
  unfoldable pub start_from : (ℕ → L) → ℕ → ℕ → LoopPool L → LoopPool L
  start_from start_thread i zero p = p
  start_from start_thread i (suc n) p =
      start_from start_thread (suc i) n
        (record p { loops = p.loops ++ (start_thread i ∷ []); cur_num = suc p.cur_num })

  unfoldable pub start : (ℕ → L) → LoopPool L → LoopPool L
  unfolding start_from
  start start_thread p =
      if p.started then p else record (start_from start_thread 0 p.thread_num p) { started = true }

  unfoldable pub get_next_loop : LoopPool L → Option (L × LoopPool L)
  get_next_loop p = do
    assert (ltb 0 (length p.loops))
    l ← nth (wrap (length p.loops) p.next_idx) p.loops
    some (l, record p { next_idx = suc (wrap (length p.loops) p.next_idx) })

  -- Loops for `n` connections, one behind the other.
  unfoldable pub next_loops : ℕ → LoopPool L → Option (List L × LoopPool L)
  unfolding get_next_loop
  next_loops zero p = some ([], p)
  next_loops (suc n) p = do
    (l, p') ← get_next_loop p
    (ls, p'') ← next_loops n p'
    some (l ∷ ls, p'')
