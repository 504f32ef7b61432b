-- ===== src/Tests/Stopping.antt =====
-- The theorem on the shutdown, applied to a waiting block and an open connection.
use eth_tracker.Prelude.{ℕ, ◌<◌, ◌≤◌, ◌≡◌, refl, true, false, [], ◌∷◌, some, nat_eq, arith}
use eth_tracker.Db.Bytes.{u64_mod, marshal_uint64, put_be}
use eth_tracker.Db.Bolt.{lower_bound_key}
use eth_tracker.Db.Missing.{has_block}
use eth_tracker.Running.Stopping.{stop_service, ConnectionApart, stop_service-keeps}
use eth_tracker.Running.Tasks.{complete}
use eth_tracker.Tests.Buckets.{Bucket, buckets, two_blocks}
use eth_tracker.Tests.Connecting.{nats, connections}
use eth_tracker.Tests.Running.{tracker, one_waits, world-StoreApart, world-QueueApart}
use eth_tracker.Tests.World.{World, world-Leaves}

world-ConnectionApart : ConnectionApart tracker nats connections
world-ConnectionApart = record {
  clients = λ c b. world-Leaves [] (λ w. connections.is_open w c ≡ b) (λ a w h. h) (λ es w h. h);
  stores = λ x c w. refl;
  begins = λ c w. refl;
  closes = λ c w. refl;
}

abbrev waits_open : World
waits_open = record one_waits { connected = 3 ∷ [] }

stop_service-keeps_example :
    (connections.is_open (complete tracker (7 ∷ []) waits_open) 3
      ≡ connections.is_open waits_open 3)
    × (connections.is_open (stop_service tracker nats (some 3) waits_open) 3 ≡ false)
    × (b' : Bucket) × ((stop_service tracker nats (some 3) waits_open).blocks ≡ some b')
    × ((w : ℕ)
        → 4 ≤ w
        → w < u64_mod
        → has_block buckets two_blocks w ≡ true
        → has_block buckets b' w ≡ true)
    × (buckets.get b' lower_bound_key ≡ some (marshal_uint64 4))
unfolding marshal_uint64 put_be
stop_service-keeps_example =
    stop_service-keeps tracker nats connections world-ConnectionApart world-StoreApart
      world-QueueApart 3 two_blocks waits_open 4 (λ x. refl) refl refl (omega arith) (omega arith)
      (omega arith, tt)
