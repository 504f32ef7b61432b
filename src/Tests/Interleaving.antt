-- ===== src/Tests/Interleaving.antt =====
-- The theorems on workers side by side, applied to two workers on the blocks 7 and 8.
use eth_tracker.Prelude.{ℕ, ◌<◌, ◌≡◌, refl, ◌||◌, [], ◌∷◌, some, contains, nat_eq, arith}
use eth_tracker.Exec.{pure, lift, ◌>>=◌, or_wrap, or_wrap_unless_canceled}
use eth_tracker.Exec.Lens.{zoom}
use eth_tracker.Db.Bytes.{u64_mod, marshal_uint64, put_be}
use eth_tracker.Db.Bolt.{lower_bound_key, set_value, set_uint64_as_key, update}
use eth_tracker.Db.Missing.{has_block}
use eth_tracker.Running.{block_processor}
use eth_tracker.Running.Interleaving.{
  fetching, fetched, looping, advance, began, advanced, Moves, stays, goes,
}
use eth_tracker.Running.Interleaving.Marks.{Moves-Marked}
use eth_tracker.Tests.Buckets.{Bucket, buckets, two_blocks}
use eth_tracker.Tests.Running.{tracker, world-StoreApart}
use eth_tracker.Tests.World.{World, world, block_of}

-- The blocks 7 and 8 wait.
abbrev two_wait : World
two_wait = record (world two_blocks) { pushed = 7 ∷ 8 ∷ [] }

abbrev both_taken : World
both_taken = record (world two_blocks) { pushed = [] }

abbrev persisted_7 : World
persisted_7 = (advance (block_processor tracker) 7 (looping 60 []) both_taken).1

-- The second worker starts and fetches its block between the calls of the first.
side_by_side : Moves tracker two_wait [] (7 ∷ []) persisted_7 ((8, fetched (block_of 8)) ∷ [])
unfolding advance or_wrap or_wrap_unless_canceled ◌>>=◌ pure lift zoom set_value set_uint64_as_key
    update marshal_uint64 put_be
side_by_side = goes (began 7 (8 ∷ []) refl (omega arith)) (
    goes (began 8 [] refl (omega arith)) (
      goes (advanced 7 fetching ((8, fetching) ∷ []) [] (omega arith)) (
        goes (advanced 8 fetching [] ((7, fetched (block_of 7)) ∷ []) (omega arith)) (
          goes (advanced 7 (fetched (block_of 7)) ((8, fetched (block_of 8)) ∷ []) [] (omega arith))
            (goes (advanced 7 (looping 60 []) ((8, fetched (block_of 8)) ∷ []) [] (omega arith))
              stays)))))

Moves-Marked_example :
    (b' : Bucket) × (persisted_7.blocks ≡ some b')
    × ((w : ℕ)
        → w < u64_mod
        → has_block buckets b' w ≡ (contains (7 ∷ []) w || has_block buckets two_blocks w))
    × (buckets.get b' lower_bound_key ≡ buckets.get two_blocks lower_bound_key)
Moves-Marked_example =
    Moves-Marked tracker world-StoreApart two_wait persisted_7 [] ((8, fetched (block_of 8)) ∷ [])
      (7 ∷ []) two_blocks side_by_side refl
