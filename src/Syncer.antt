-- ===== src/Syncer.antt =====
-- internal/syncer: the bounds that `New` sets (syncer.go), and the queueing of a new block
-- (realtime.go). When a subscription is renewed is up to a loop of go-ethereum.
pub mod Bounds
pub mod Realtime
pub mod Renewal
use eth_tracker.Prelude.{ℕ, suc, ℤ, pos, Bool, true, false, ◌==◌, nat_eq, if◌then◌else◌}
use eth_tracker.Result.{Result, ok}
use eth_tracker.Exec.{Exec, pure, lift, ◌>>=◌, ◌>>◌}
use eth_tracker.Chain.{Chain}
use eth_tracker.Db.{Db}
use eth_tracker.Pool.{Pool}

-- `latest` is `Stats.SetLatestBlock`, and `dial` the outcome of `ethclient.Dial`.
pub record Syncer (S V : Type 0) : Type 0 where
  pub db : Db S V
  pub chain : Chain S
  pub pool : Pool S
  pub latest : ℕ → S → S
  pub dial : Result (Unit {0})

-- The lower bound of a new store; the start block of the configuration is an int64, and
-- defaultStartBlock is 0.
abbrev pub first_lower_bound : ℤ → ℕ → ℕ
first_lower_bound (pos (suc n)) latest_block = suc n
first_lower_bound _ latest_block = latest_block

module _ {S V : Type 0} (sy : Syncer S V) where
  unfoldable pub set_latest_block : ℕ → Exec S (Unit {0})
  set_latest_block n s = (ok tt, sy.latest n s)

  unfoldable pub push : ℕ → Exec S (Unit {0})
  push n s = (ok tt, sy.pool.push n s)

  -- if lowerBound == 0 { ... }
  unfoldable pub init_lower_bound : ℤ → ℕ → ℕ → Exec S (Unit {0})
  init_lower_bound start_block latest_block lower_bound =
      if lower_bound == 0
      then sy.db.set_lower_bound (first_lower_bound start_block latest_block)
      else pure tt

  unfoldable pub new_syncer : ℤ → Exec S (Unit {0})
  unfolding set_latest_block init_lower_bound
  new_syncer start_block = do
    latest_block ← sy.chain.get_latest_block
    lower_bound ← sy.db.get_lower_bound
    init_lower_bound start_block latest_block lower_bound
    sy.db.set_upper_bound latest_block
    set_latest_block latest_block
    lift sy.dial

  unfoldable pub queue_realtime_block : ℕ → Exec S (Unit {0})
  unfolding push set_latest_block
  queue_realtime_block block_number = do
    push block_number
    set_latest_block block_number
    sy.db.set_upper_bound block_number
