-- ===== src/Tests/Running.antt =====
-- The theorems on the running service, applied to a chain whose blocks have no receipts.
use eth_tracker.Prelude.{
  ℕ, zero, suc, ◌≤◌, ◌≡◌, refl, ap, Bool, true, not, ◌&&◌, List, [], ◌∷◌, some, contains, leb,
  nat_eq, arith,
}
use eth_tracker.Result.{ok}
use eth_tracker.Exec.{pure, lift, ◌>>=◌, or_wrap, or_wrap_unless_canceled, for_each}
use eth_tracker.Exec.Lens.{zoom}
use eth_tracker.Db.Bytes.{marshal_uint64, put_be}
use eth_tracker.Db.Bolt.{set_value, set_uint64_as_key, update}
use eth_tracker.Db.Missing.{has_block}
use eth_tracker.Pool.Queue.{Queue}
use eth_tracker.Processor.{process_block, process_receipts}
use eth_tracker.Backfill.{last_checked}
use eth_tracker.Running.{Tracker, block_processor}
use eth_tracker.Running.Marks.{StoreApart}
use eth_tracker.Running.Tasks.{QueueApart}
use eth_tracker.Running.Rounds.{rounds, IsIdle, has_block-rounds}
use eth_tracker.Tests.BitLists.{bit_lists}
use eth_tracker.Tests.Buckets.{Bucket, buckets, two_blocks, is_bytes-put_be}
use eth_tracker.Tests.World.{
  World, store, cache, callback, eth, chain_with, world-Leaves, pool, reset, latest, world,
}

abbrev pub rest_of : List ℕ → List ℕ
rest_of [] = []
rest_of (n ∷ ns) = ns

abbrev pub queue : Queue World
queue = record {
  pool = pool;
  waiting = λ w. w.pushed;
  begin = λ w. record w { pushed = rest_of w.pushed };
  waiting-push = λ n w. refl;
  size_lem = λ w. refl;
  waiting-begin = λ n ns w h. ap rest_of h;
}

abbrev pub tracker : Tracker World Bucket (List Bool)
tracker = record {
  store = store;
  bolt = buckets;
  bits = bit_lists;
  eth = eth;
  cache = cache;
  chain = chain_with [];
  callback = callback;
  queue = queue;
  latest = latest;
  reset = reset;
  dial = ok tt;
  batch_size = 2;
}

succeeds :
    (n : ℕ) (w : World) (b : Bucket)
    → w.blocks ≡ some b
    → (process_block (block_processor tracker) n w).0 ≡ ok tt
unfolding process_block process_receipts for_each or_wrap or_wrap_unless_canceled ◌>>=◌ pure lift
    zoom set_value set_uint64_as_key update marshal_uint64
succeeds n w b held = rw held (rw (is_bytes-put_be 8 n) refl)

pub world-StoreApart : StoreApart tracker
world-StoreApart = record {
  clients = λ b. world-Leaves [] (λ w. w.blocks ≡ b) (λ a w h. h) (λ es w h. h);
  pushes = λ n w. refl;
  begins = λ w. refl;
  resets = λ i w. refl;
  statistics = λ n w. refl;
}

pub world-QueueApart : QueueApart tracker
world-QueueApart = record {
  clients = λ ns. world-Leaves [] (λ w. w.pushed ≡ ns) (λ a w h. h) (λ es w h. h);
  stores = λ x w. refl;
  resets = λ i w. refl;
}

-- Block 7 waits.
abbrev pub one_waits : World
one_waits = record (world two_blocks) { pushed = 7 ∷ [] }

exact_two :
    (v : ℕ)
    → contains (5 ∷ 6 ∷ 7 ∷ 8 ∷ []) v
      ≡ ((leb 4 v && leb v (last_checked true 4 9)) && not (has_block buckets two_blocks v))
unfolding marshal_uint64 put_be
exact_two zero = refl
exact_two (suc zero) = refl
exact_two (suc (suc zero)) = refl
exact_two (suc (suc (suc zero))) = refl
exact_two (suc (suc (suc (suc zero)))) = refl
exact_two (suc (suc (suc (suc (suc zero))))) = refl
exact_two (suc (suc (suc (suc (suc (suc zero)))))) = refl
exact_two (suc (suc (suc (suc (suc (suc (suc zero))))))) = refl
exact_two (suc (suc (suc (suc (suc (suc (suc (suc zero)))))))) = refl
exact_two (suc (suc (suc (suc (suc (suc (suc (suc (suc v))))))))) = ground arith

-- With batches of two, the blocks 5 to 8 are marked after two rounds.
has_block-rounds_example :
    (b' : Bucket) × IsIdle tracker 4 9 b' (rounds tracker 2 (world two_blocks))
    × ((v : ℕ) → 4 ≤ v → v ≤ last_checked true 4 9 → has_block buckets b' v ≡ true)
unfolding marshal_uint64 put_be
has_block-rounds_example =
    has_block-rounds tracker world-StoreApart world-QueueApart (λ b. refl) 4 9 (omega arith)
      (omega arith) succeeds 2 two_blocks (world two_blocks) (5 ∷ 6 ∷ 7 ∷ 8 ∷ [])
      (refl, refl, refl, refl)
      (
        (
          (omega arith, (omega arith, (omega arith, tt))),
          ((omega arith, (omega arith, tt)), ((omega arith, tt), (tt, tt))),
        ),
        exact_two,
      )
      (omega arith)
