-- ===== src/Backfill.antt =====
-- internal/backfill/backfill.go: one run of the backfill, and its reaction to a tick.
pub mod Push
pub mod Run
pub mod Keeps
pub mod Loop
use Prim.Native.String.{String}
use eth_tracker.Prelude.{
  ℕ, zero, suc, ◌+◌, ◌-◌, ◌%◌, Bool, true, false, ◌&&◌, List, [], ◌∷◌, length, ltb, leb, ◌==◌,
  nat_eq, if◌then◌else◌,
}
use eth_tracker.Result.{Result, ok, err, diverges}
use eth_tracker.Exec.{Exec, pure, lift, ◌>>=◌, ◌>>◌, or_wrap}
use eth_tracker.Db.{Db}
use eth_tracker.Db.Bytes.{u64_mod}
use eth_tracker.Db.Bitset.{BitSets}
use eth_tracker.Pool.{Pool}

-- idleCheckInterval and busyCheckInterval
pub data Interval : Type 0 where
  idle busy : Interval

abbrev pub min_queue_size_for_idle_check : ℕ
min_queue_size_for_idle_check = 1

-- `reset` is the call of the same name of the ticker. `NewTicker` and `make` take no negative size, so
-- the batch size is a natural number.
pub record Backfill (S V : Type 0) : Type 0 where
  pub batch_size : ℕ
  pub db : Db S V
  pub bits : BitSets V
  pub pool : Pool S
  pub reset : Interval → S → S

-- if skipLatest && upper > lower { upper-- }
abbrev pub last_checked : Bool → ℕ → ℕ → ℕ
last_checked skip_latest lower upper = if skip_latest && ltb lower upper then upper - 1 else upper

module _ {S V : Type 0} (bf : Backfill S V) where
  open bf use {batch_size, db, bits, pool, reset}

  -- The inner loop over the buffer; its result is the number of the blocks pushed so far.
  unfoldable pub push_buffer : List ℕ → ℕ → Exec S ℕ
  push_buffer [] pushed s = (ok pushed, s)
  push_buffer (block ∷ buffer) pushed s =
      let rest = push_buffer buffer (pushed + 1) (pool.push block s) in
      if leb batch_size pushed then (ok pushed, s) else rest

  -- The outer loop; `j` is the index that `NextSetMany` returned with the buffer.
  unfoldable pub push_batches : V → ℕ → ℕ → List ℕ → ℕ → Exec S ℕ
  unfolding ◌>>=◌
  push_batches missing zero j buffer pushed = lift diverges
  push_batches missing (suc fuel) j buffer pushed =
      if ltb 0 (length buffer) && ltb pushed batch_size
      then (do
        pushed' ← push_buffer buffer pushed
        if ltb pushed' batch_size
            then (let (j', buffer') = bits.next_set_many missing ((j + 1) % u64_mod) batch_size in
                push_batches missing fuel j' buffer' pushed')
            else pure pushed')
      else pure pushed

  -- Each round pushes a block at least, so these rounds are enough.
  abbrev pub rounds : ℕ
  rounds = suc (suc batch_size)

  unfoldable pub reset_ticker : Interval → Exec S (Unit {0})
  reset_ticker interval s = (ok tt, reset interval s)

  -- From the count of the missing blocks on.
  unfoldable pub push_missing : V → Exec S (Unit {0})
  unfolding reset_ticker ◌>>=◌
  push_missing missing = if bits.count missing == 0 then pure tt else (do
    let (j, buffer) = bits.next_set_many missing 0 batch_size
    push_batches missing rounds j buffer 0
    reset_ticker (if ltb batch_size (bits.count missing) then busy else idle))

  unfoldable pub run : Bool → Exec S (Unit {0})
  unfolding ◌>>=◌
  run skip_latest = do
    lower ← or_wrap "failed to get lower bound" db.get_lower_bound
    latest ← or_wrap "failed to get upper bound" db.get_upper_bound
    let upper = last_checked skip_latest lower latest
    if ltb upper lower then pure tt else (do
      missing ←
          or_wrap "failed to get missing blocks bitset" (db.get_missing_values_bit_set lower upper)
      push_missing missing)

  -- What `Start` does on a tick: a run if the queue is short. The result is only logged.
  unfoldable pub tick : S → S
  tick s = if leb (pool.size s) min_queue_size_for_idle_check then (run true s).1 else s
