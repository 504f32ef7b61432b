-- ===== src/Tests/Blocks.antt =====
-- The theorems on the marking of a block, applied to a block with one transfer.
use eth_tracker.Prelude.{
  ◌∷◌, ℕ, ◌<◌, ◌≡◌, ◌≢◌, refl, ap, Bool, ◌||◌, List, [], none, some, arith, ◌==◌, nat_eq,
}
use eth_tracker.Prelude.Text.{decimal, decimal_fuel}
use eth_tracker.Result.{Result, ok}
use eth_tracker.Exec.{pure, lift, ◌>>=◌, or_wrap, or_wrap_unless_canceled, for_each}
use eth_tracker.Exec.Lens.{zoom}
use eth_tracker.Cache.MapCache.{exists, exists_network, any_tracked}
use eth_tracker.Router.{log_route, process_log}
use eth_tracker.Handler.{check_within_network, log_event}
use eth_tracker.Handler.Transfer.{handle_token_transfer_log}
use eth_tracker.Db.Bytes.{u64_mod, marshal_uint64, put_be}
use eth_tracker.Db.Bolt.{set_value, set_uint64_as_key, update}
use eth_tracker.Db.Missing.{has_block}
use eth_tracker.Processor.{
  process_log_of, process_successful_receipt, process_receipt, process_receipt_of, process_receipts,
  process_block, Processor,
}
use eth_tracker.Service.Routes.{bootstrap_event_router}
use eth_tracker.Processor.Marks.{
  LeavesStore, over_store, process_block-marked, process_block-unmarked,
}
use eth_tracker.Tests.BitLists.{bit_lists}
use eth_tracker.Tests.Buckets.{Bucket, buckets}
use eth_tracker.Tests.World.{
  World, store, cache, callback, eth, chain, world, world-Leaves, transfer_receipt,
}

world-LeavesStore : LeavesStore store cache chain callback
world-LeavesStore b =
    world-Leaves (transfer_receipt ∷ []) (λ w. w.blocks ≡ b) (λ a w h. h) (λ es w h. h)

-- The processor of the tests.
abbrev p : Processor World (List Bool)
p = over_store store buckets bit_lists eth cache chain callback

after_ok : (process_block p 9 (world [])).0 ≡ ok tt
unfolding process_block process_receipts process_receipt_of process_receipt
    process_successful_receipt process_log_of process_log log_route bootstrap_event_router
    handle_token_transfer_log check_within_network log_event decimal decimal_fuel or_wrap
    or_wrap_unless_canceled for_each pure lift ◌>>=◌ zoom exists exists_network any_tracked
    set_value set_uint64_as_key update marshal_uint64 put_be
after_ok = refl

process_block-marked_example :
    ((process_receipts p 9 (world [])).0 ≡ ok tt)
    × (b : Bucket) × (b' : Bucket) × (some [] ≡ some b)
    × ((process_block p 9 (world [])).1.blocks ≡ some b')
    × ((w : ℕ) → w < u64_mod → has_block buckets b' w ≡ (9 == w || has_block buckets b w))
process_block-marked_example =
    process_block-marked store buckets bit_lists eth cache chain callback 9 (world [])
      (process_block p 9 (world [])).1 world-LeavesStore (omega arith)
      (ap (λ (r : Result (Unit {0})). (r, (process_block p 9 (world [])).1)) after_ok)

-- A store whose bucket was never created: the write fails.
abbrev no_bucket : World
no_bucket = record (world []) { blocks = none }

fails : (process_block p 9 no_bucket).0 ≢ ok tt
unfolding process_block process_receipts process_receipt_of process_receipt
    process_successful_receipt process_log_of process_log log_route bootstrap_event_router
    handle_token_transfer_log check_within_network log_event decimal decimal_fuel or_wrap
    or_wrap_unless_canceled for_each pure lift ◌>>=◌ zoom exists exists_network any_tracked
    set_value set_uint64_as_key update marshal_uint64 put_be
fails h = cc h

process_block-unmarked_example : (process_block p 9 no_bucket).1.blocks ≡ none
process_block-unmarked_example =
    process_block-unmarked store buckets bit_lists eth cache chain callback 9 no_bucket
      world-LeavesStore fails
