-- ===== src/Pool.antt =====
-- internal/pool/pool.go: the worker pool as its callers see it. `Push` hands a block to the pool and
-- returns nothing; the pool of pond that stands behind it is not part of the program.
pub mod Queue
use eth_tracker.Prelude.{ℕ}

pub record Pool (S : Type 0) : Type 0 where
  pub push : ℕ → S → S
  pub size : S → ℕ
