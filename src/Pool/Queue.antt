-- ===== src/Pool/Queue.antt =====
-- The queue of the worker pool, with the documented behaviour of pond: `Submit` puts a task behind those
-- that wait, `WaitingTasks` counts them, and a free worker takes the oldest one.
use eth_tracker.Prelude.{ℕ, ◌≡◌, List, [], ◌∷◌, ◌++◌, length}
use eth_tracker.Processor.{Processor, process_block}
use eth_tracker.Pool.{Pool}

-- The program has no call `waiting`, by which the others are described; `begin` is the step of a worker
-- that takes a task.
pub record Queue (S : Type 0) : Type 0 where
  pub pool : Pool S
  pub waiting : S → List ℕ
  pub begin : S → S
  pub waiting-push : (n : ℕ) (s : S) → waiting (pool.push n s) ≡ waiting s ++ n ∷ []
  pub size_lem : (s : S) → pool.size s ≡ length (waiting s)
  pub waiting-begin : (n : ℕ) (ns : List ℕ) (s : S) → waiting s ≡ n ∷ ns → waiting (begin s) ≡ ns

-- The task that `Push` submits. An error of the processing is only logged.
unfoldable pub task : {S V : Type 0} → Processor S V → ℕ → S → S
task p block s = (process_block p block s).1
