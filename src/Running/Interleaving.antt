-- ===== src/Running/Interleaving.antt =====
-- The workers of the pool side by side: internal/processor/processor.go, `ProcessBlock`, call by call.
pub mod Alone
pub mod Marks
use Prim.Native.String.{◌++◌ as join}
use eth_tracker.Prelude.{ℕ, ◌≡◌, ◌<◌, List, [], ◌∷◌, ◌++◌, Option, none, some}
use eth_tracker.Prelude.Text.{decimal}
use eth_tracker.Result.{Result, ok, err, panic, diverges}
use eth_tracker.Exec.{Exec, pure, ◌>>=◌, ◌>>◌, or_wrap, or_wrap_unless_canceled}
use eth_tracker.Eth.{Block, Receipt}
use eth_tracker.Db.Bytes.{u64_mod}
use eth_tracker.Processor.{Processor, process_receipt_of}
use eth_tracker.Backfill.{tick}
use eth_tracker.Syncer.{queue_realtime_block}
use eth_tracker.Running.{Tracker, block_processor, chain_syncer, backfill}

-- How far a worker is with its block: before the fetch of the block, before that of the receipts, or in
-- the loop, with the time of the block and the receipts that are left.
pub data Work : Type 0 where
  fetching : Work
  fetched : Block → Work
  looping : ℕ → List Receipt → Work

-- A worker's block and how far it is.
abbrev pub Task : Type 0
Task = ℕ × Work

-- Up to the next call that others can come between; `none` if the block is marked and all is done.
unfoldable pub advance : {S V : Type 0} → Processor S V → ℕ → Work → Exec S (Option Work)
advance p n fetching = do
  block ← or_wrap_unless_canceled (join "failed to fetch block " (decimal n)) (p.chain.get_block n)
  pure (some (fetched block))
advance p n (fetched block) = do
  receipts ←
      or_wrap_unless_canceled (join "failed to fetch receipts for block " (decimal n))
        (p.chain.get_receipts block.number)
  pure (some (looping block.time receipts))
advance p n (looping time (receipt ∷ receipts)) = do
  process_receipt_of p n time receipt
  pure (some (looping time receipts))
advance p n (looping time []) = do
  or_wrap (join "failed to persist block " (decimal n)) (p.db.set_value n)
  pure none

-- The block, if it is done.
abbrev pub finished : ℕ → Result (Option Work) → List ℕ
finished n (ok none) = n ∷ []
finished n (ok (some w)) = []
finished n (err e) = []
finished n panic = []
finished n diverges = []

-- What is left of the worker's task. An error ends it, and is only logged.
abbrev pub continued : ℕ → Result (Option Work) → List Task
continued n (ok none) = []
continued n (ok (some w)) = (n, w) ∷ []
continued n (err e) = []
continued n panic = []
continued n diverges = []

module _ {S B V : Type 0} (t : Tracker S B V) where
  -- What happens while workers are in the midst of blocks, with the blocks that it completes: as in
  -- `Step`, but a worker takes the oldest task and then, whenever it is its turn, goes on to its next
  -- call.
  pub data Move (s : S) : List Task → List ℕ → S → List Task → Type 0 where
    announced :
        {ts : List Task} (n : ℕ)
        → n < u64_mod
        → Move s ts [] (queue_realtime_block (chain_syncer t) n s).1 ts
    ticked : {ts : List Task} → Move s ts [] (tick (backfill t) s) ts
    began :
        {ts : List Task} (n : ℕ) (ns : List ℕ)
        → t.queue.waiting s ≡ n ∷ ns
        → n < u64_mod
        → Move s ts [] (t.queue.begin s) ((n, fetching) ∷ ts)
    advanced :
        (n : ℕ) (w : Work) (before after : List Task)
        → n < u64_mod
        → Move s
            (before ++ (n, w) ∷ after)
            (finished n (advance (block_processor t) n w s).0)
            (advance (block_processor t) n w s).1
            (before ++ continued n (advance (block_processor t) n w s).0 ++ after)

  -- Any number of moves, in any order.
  pub data Moves : S → List Task → List ℕ → S → List Task → Type 0 where
    stays : {s : S} {ts : List Task} → Moves s ts [] s ts
    goes :
        {s mid s' : S} {ts us ts' : List Task} {now later : List ℕ}
        → Move s ts now mid us
        → Moves mid us later s' ts'
        → Moves s ts (now ++ later) s' ts'
