-- ===== src/BlockQueue.antt =====
-- base/BlockQueue.h and BlockQueue.cc: a queue of tasks between threads. What a thread does under the
-- lock, up to where it leaves the lock or sleeps, is one function; `takers` and `givers` count the
-- threads that sleep on `emptyCond_` and on `fullCond_`. A thread that wakes, notified or not, tries
-- again from the test of its loop.
pub mod Wakeups
pub mod Tests
use clear_moon.Prelude.{
  ℕ, suc, ◌+◌, ◌-◌, ◌%◌, ◌^◌, Bool, true, false, not, ◌&&◌, ◌||◌, List, [], ◌∷◌, ◌++◌, length, leb,
  ltb, ◌==◌, if◌then◌else◌,
}

pub record BlockQueue (A : Type 0) : Type 0 where
  pub max_size : ℕ
  pub task_queue : List A
  pub stopped : Bool
  pub takers : ℕ
  pub givers : ℕ

-- What a thread gets: it sleeps, it gets an empty task, or it gets a task.
pub data Got (A : Type 0) : Type 0 where
  sleeps ends : Got A
  got : A → Got A

pub data Gave : Type 0 where
  waits refused gave : Gave

-- `maxSize_ - 1` wraps where the size is 0.
abbrev pub one_below : ℕ → ℕ
one_below n = (n + (2 ^ 64 - 1)) % 2 ^ 64

module _ {A : Type 0} where
  unfoldable pub create : ℕ → BlockQueue A
  create n = record { max_size = n; task_queue = []; stopped = false; takers = 0; givers = 0 }

  -- `notifyAll`, where the test holds.
  abbrev pub notify_full : Bool → BlockQueue A → BlockQueue A
  notify_full true q = record q { givers = 0 }
  notify_full false q = q

  abbrev pub notify_empty : Bool → BlockQueue A → BlockQueue A
  notify_empty true q = record q { takers = 0 }
  notify_empty false q = q

  abbrev pub is_empty : List A → Bool
  is_empty [] = true
  is_empty (_ ∷ _) = false

  abbrev pub take_from : List A → BlockQueue A → Got A × BlockQueue A
  take_from [] q = if q.stopped then (ends, q) else (sleeps, record q { takers = suc q.takers })
  take_from (x ∷ rest) q =
      (got x, notify_full (length rest == one_below q.max_size) (record q { task_queue = rest }))

  unfoldable pub get_task : BlockQueue A → Got A × BlockQueue A
  get_task q = take_from q.task_queue q

  unfoldable pub add_task : A → BlockQueue A → Gave × BlockQueue A
  add_task x q =
      if leb q.max_size (length q.task_queue) && not q.stopped
      then (waits, record q { givers = suc q.givers })
      else if q.stopped
      then (refused, q)
      else (
        gave,
        notify_empty (is_empty q.task_queue) (record q { task_queue = q.task_queue ++ (x ∷ []) }),
      )

  unfoldable pub set_max_size : ℕ → BlockQueue A → BlockQueue A
  set_max_size n q = notify_full (ltb (length q.task_queue) n) (record q { max_size = n })

  unfoldable pub stop : BlockQueue A → BlockQueue A
  stop q = record q { stopped = true; takers = 0; givers = 0 }

  abbrev pub taken_by : Got A → List A
  taken_by (got x) = x ∷ []
  taken_by _ = []

  abbrev pub given_by : Gave → A → List A
  given_by gave x = x ∷ []
  given_by _ x = []
