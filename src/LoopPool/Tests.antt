-- ===== src/LoopPool/Tests.antt =====
-- A pool of three loops.
use clear_moon.Prelude.{ℕ, ◌≡◌, refl, inr, true, [], ◌∷◌, some, arith}
use clear_moon.LoopPool.{LoopPool, next_loops}
use clear_moon.LoopPool.Rounds.{next_loops-round}

abbrev three : LoopPool ℕ
three = record {
  loops = 10 ∷ 20 ∷ 30 ∷ [];
  cur_num = 3;
  thread_num = 3;
  next_idx = 3;
  started = true;
}

next_loops-round_example : next_loops 3 three ≡ some (10 ∷ 20 ∷ 30 ∷ [], three)
next_loops-round_example = next_loops-round three (omega arith) (inr refl)
