-- ===== src/BlockQueue/Tests.antt =====
-- A queue for one task.
use clear_moon.Prelude.{ℕ, ◌≡◌, [], ◌∷◌, ◌++◌, arith}
use clear_moon.BlockQueue.{BlockQueue, create, get_task, add_task}
use clear_moon.BlockQueue.Wakeups.{Run, begins, gets, adds, Awake, no_wakeup_is_lost}

-- A thread waits for a task, another gives two, of which the second has to wait, and the first is taken.
abbrev after_four : BlockQueue ℕ
after_four = (get_task (add_task 8 (add_task 7 (get_task (create 1)).1).1).1).1

two_givers : Run 1 (7 ∷ []) (7 ∷ []) after_four
unfolding create get_task add_task
two_givers = gets (adds 8 (adds 7 (gets begins)))

no_wakeup_is_lost_example : Awake after_four × ((7 ∷ []) ++ after_four.task_queue ≡ 7 ∷ [])
no_wakeup_is_lost_example = no_wakeup_is_lost (omega arith) two_givers
