-- ===== src/Tests/Stores.antt =====
-- The theorems on the block store, applied to small stores.
use eth_tracker.Prelude.{
  ℕ, ◌-◌, ◌<◌, ◌≤◌, ◌≡◌, refl, Bool, true, false, not, ◌&&◌, List, [], ◌∷◌, some, length, take,
  contains, arith, leb, ltb, ◌==◌, nat_eq, if◌then◌else◌,
}
use eth_tracker.Result.{ok, panic}
use eth_tracker.Db.Bytes.{
  u64_mod, marshal_uint64, unmarshal_uint64, put_be, get_be, bytes_le,
  unmarshal_uint64-marshal_uint64, bytes_le-marshal_uint64,
}
use eth_tracker.Db.Bitset.{IsIncreasing}
use eth_tracker.Db.Bolt.{
  lower_bound_key, upper_bound_key, get_missing_values_bit_set, update, get_lower_bound, get, view,
  delete_key, delete_found, cleanup,
}
use eth_tracker.Db.Missing.{has_block, get_missing-exact, get_missing-last}
use eth_tracker.Db.Cleanup.{cleanup-keeps, cleanup-removes}
use eth_tracker.Exec.{◌>>=◌, lift, pure}
use eth_tracker.Backfill.{idle, busy, run, last_checked}
use eth_tracker.Backfill.Run.{over_bolt, run-exact}
use eth_tracker.Backfill.Push.{push_all}
use eth_tracker.Tests.BitLists.{bit_lists}
use eth_tracker.Tests.Buckets.{Bucket, buckets, keys_from-IsAscending, nine, four, two_blocks}
use eth_tracker.Tests.World.{store, pool, reset, world}

unmarshal_uint64-marshal_uint64_example : unmarshal_uint64 (marshal_uint64 258) ≡ ok 258
unmarshal_uint64-marshal_uint64_example = unmarshal_uint64-marshal_uint64 258 (omega arith)

bytes_le-marshal_uint64_example : bytes_le (marshal_uint64 258) (marshal_uint64 1000) ≡ leb 258 1000
bytes_le-marshal_uint64_example = bytes_le-marshal_uint64 258 1000 (omega arith) (omega arith)

get_missing-last_example :
    get_missing_values_bit_set buckets bit_lists 4 (u64_mod - 1) (some two_blocks)
    ≡ (panic, some two_blocks)
get_missing-last_example = get_missing-last buckets bit_lists two_blocks 4 refl (omega arith)

get_missing-exact_example :
    (missing : List Bool) × (get_missing_values_bit_set buckets bit_lists 4 9 (some two_blocks)
      ≡ (ok missing, some two_blocks))
    × ((v : ℕ)
        → bit_lists.test missing v ≡ ((leb 4 v && leb v 9) && not (has_block buckets two_blocks v)))
get_missing-exact_example =
    get_missing-exact buckets bit_lists two_blocks 4 9 refl (omega arith) (omega arith)

abbrev six : List ℕ
six = 0 ∷ 0 ∷ 0 ∷ 0 ∷ 0 ∷ 0 ∷ 0 ∷ 6 ∷ []

-- The lower bound has moved past the block 4.
abbrev moved : Bucket
moved = (lower_bound_key, six) ∷ (upper_bound_key, nine) ∷ (nine, []) ∷ (four, []) ∷ []

abbrev cleaned : Bucket
cleaned = (lower_bound_key, six) ∷ (upper_bound_key, nine) ∷ (nine, []) ∷ []

cleanup-keeps_example :
    (b : Bucket) × (b' : Bucket) × (some moved ≡ some b)
    × (some cleaned ≡ some b')
    × ((w : ℕ) → 6 ≤ w → w < u64_mod → has_block buckets b' w ≡ has_block buckets b w)
    × (buckets.get b' lower_bound_key ≡ buckets.get b lower_bound_key)
    × (buckets.get b' upper_bound_key ≡ buckets.get b upper_bound_key)
unfolding cleanup get_lower_bound get view update delete_found delete_key marshal_uint64
    unmarshal_uint64 put_be get_be bytes_le ◌>>=◌ lift pure
cleanup-keeps_example =
    cleanup-keeps buckets (some moved) (some cleaned) 6 refl (omega arith) (omega arith) refl

cleanup-removes_example : has_block buckets cleaned 4 ≡ false
unfolding cleanup get_lower_bound get view update delete_found delete_key marshal_uint64
    unmarshal_uint64 put_be get_be bytes_le ◌>>=◌ lift pure
cleanup-removes_example =
    cleanup-removes buckets moved cleaned 6 4 refl (keys_from-IsAscending [] moved) refl
      (omega arith) (omega arith) refl

run-exact_example :
    (missing : List ℕ) × IsIncreasing missing
    × ((v : ℕ)
        → contains missing v
          ≡ ((leb 4 v && leb v (last_checked true 4 9)) && not (has_block buckets two_blocks v)))
    × (run (over_bolt store buckets bit_lists pool reset 3) true (world two_blocks) ≡ (
      ok tt,
      (if length missing == 0
          then world two_blocks
          else reset
              (if ltb 3 (length missing) then busy else idle)
              (push_all pool (take 3 missing) (world two_blocks))),
    ))
unfolding marshal_uint64 put_be
run-exact_example =
    run-exact store buckets bit_lists pool reset 3 true 4 9 two_blocks (world two_blocks) refl refl
      refl refl (omega arith) (omega arith)
