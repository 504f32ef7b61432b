-- ===== src/Tests/Serving.antt =====
-- The theorem on the first run, applied to a file that marks two of the blocks 4 to 9.
use eth_tracker.Prelude.{
  ℕ, ◌≡◌, refl, ap, not, ◌&&◌, List, [], ◌++◌, some, is_some, contains, leb, take, nat_eq, arith,
}
use eth_tracker.Result.{Result}
use eth_tracker.Db.Bytes.{marshal_uint64, put_be}
use eth_tracker.Db.Bitset.{IsIncreasing}
use eth_tracker.Db.Open.{entry}
use eth_tracker.Running.SetUp.{Components}
use eth_tracker.Running.Serving.{with_batch_size, waiting-set_up}
use eth_tracker.Running.Start.{initial_run}
use eth_tracker.Tests.Buckets.{buckets, two_blocks}
use eth_tracker.Tests.Registry.{registry}
use eth_tracker.Tests.Running.{tracker, world-StoreApart, world-QueueApart}
use eth_tracker.Tests.SettingUp.{outside, ran, components, sets_up, world-MainLeaves}
use eth_tracker.Tests.Tracked.{tracked_map}
use eth_tracker.Tests.World.{World, addresses, world}

abbrev after_first_run : World
after_first_run = (initial_run (with_batch_size 2 tracker) registry ran.1).1

waiting-set_up_example :
    (missing : List ℕ) × IsIncreasing missing
    × ((v : ℕ)
        → contains missing v ≡ (
            (leb 4 v && leb v 9)
            && not (is_some (entry buckets (some two_blocks) (marshal_uint64 v)))))
    × (after_first_run.pushed ≡ [] ++ take 2 missing)
unfolding marshal_uint64 put_be initial_run
waiting-set_up_example =
    waiting-set_up tracker registry tracked_map addresses outside world-StoreApart world-QueueApart
      2 9 4 (world two_blocks) ran.1 after_first_run components
      (λ x. world-MainLeaves (λ w. w.blocks ≡ x) (λ m w h. h))
      (λ ns. world-MainLeaves (λ w. w.pushed ≡ ns) (λ m w h. h)) (λ m w. refl) (λ x. refl)
      (λ w. refl) refl (omega arith) (omega arith) (omega arith)
      (ap (λ (r : Result (Components ℕ)). (r, ran.1)) sets_up) refl refl
