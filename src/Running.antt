-- ===== src/Running.antt =====
-- The service after its start: cmd/service/main.go puts the parts together, and then the syncer, the
-- backfill and the workers of the pool run side by side.
pub mod Marks
pub mod Tasks
pub mod Rounds
pub mod Start
pub mod SetUp
pub mod Returned
pub mod Configured
pub mod Reopened
pub mod Serving
pub mod Interleaving
pub mod Shutdown
pub mod Stopping
use eth_tracker.Prelude.{ℕ, ◌≡◌, ◌<◌, List, [], ◌∷◌, ◌++◌, Option, true}
use eth_tracker.Result.{Result, ok, err, panic, diverges}
use eth_tracker.Exec.Lens.{Lens}
use eth_tracker.Eth.{Eth}
use eth_tracker.Cache.{Cache}
use eth_tracker.Chain.{Chain}
use eth_tracker.Db.Bytes.{u64_mod}
use eth_tracker.Db.Bitset.{BitSets}
use eth_tracker.Db.Bolt.{Bolt, bolt_db}
use eth_tracker.Router.{Callback}
use eth_tracker.Service.Routes.{bootstrap_event_router}
use eth_tracker.Processor.{Processor, process_block}
use eth_tracker.Pool.Queue.{Queue}
use eth_tracker.Backfill.{Backfill, Interval, tick}
use eth_tracker.Syncer.{Syncer, queue_realtime_block}

-- What the parts of the service are made of: the block store, the cache, the clients of the chain and
-- the stream, the pool, and the settings.
pub record Tracker (S B V : Type 0) : Type 0 where
  pub store : Lens S (Option B)
  pub bolt : Bolt B
  pub bits : BitSets V
  pub eth : Eth
  pub cache : Cache S
  pub chain : Chain S
  pub callback : Callback S
  pub queue : Queue S
  pub latest : ℕ → S → S
  pub reset : Interval → S → S
  pub dial : Result (Unit {0})
  pub batch_size : ℕ

module _ {S B V : Type 0} (t : Tracker S B V) where
  abbrev pub block_processor : Processor S V
  block_processor = record {
    eth = t.eth;
    cache = t.cache;
    chain = t.chain;
    db = bolt_db t.bolt t.store t.bits;
    router = bootstrap_event_router t.eth t.cache t.callback;
  }

  abbrev pub chain_syncer : Syncer S V
  chain_syncer = record {
    db = bolt_db t.bolt t.store t.bits;
    chain = t.chain;
    pool = t.queue.pool;
    latest = t.latest;
    dial = t.dial;
  }

  abbrev pub backfill : Backfill S V
  backfill = record {
    batch_size = t.batch_size;
    db = bolt_db t.bolt t.store t.bits;
    bits = t.bits;
    pool = t.queue.pool;
    reset = t.reset;
  }

  -- The blocks that a task has processed without an error.
  abbrev pub processed : ℕ → Result (Unit {0}) → List ℕ
  processed n (ok tt) = n ∷ []
  processed n (err e) = []
  processed n panic = []
  processed n diverges = []

  -- What happens while the service runs, with the blocks that were processed without an error: a new
  -- block is queued, the ticker of the backfill fires, or a worker takes the oldest task and
  -- completes it. Block numbers are uint64.
  pub data Step (s : S) : List ℕ → S → Type 0 where
    announced : (n : ℕ) → n < u64_mod → Step s [] (queue_realtime_block chain_syncer n s).1
    ticked : Step s [] (tick backfill s)
    worked :
        (n : ℕ) (ns : List ℕ)
        → t.queue.waiting s ≡ n ∷ ns
        → n < u64_mod
        → Step s
            (processed n (process_block block_processor n (t.queue.begin s)).0)
            (process_block block_processor n (t.queue.begin s)).1

  -- Any number of steps, in any order.
  pub data Steps : S → List ℕ → S → Type 0 where
    stays : {s : S} → Steps s [] s
    goes :
        {s mid s' : S} {now later : List ℕ}
        → Step s now mid
        → Steps mid later s'
        → Steps s (now ++ later) s'
