-- ===== src/Tests/Reporting.antt =====
-- The theorems on the statistics and on renewed subscriptions, applied to the concrete state.
use eth_tracker.Prelude.{ℕ, ◌≡◌, refl, [], ◌∷◌, ◌++◌, none, some, pos}
use eth_tracker.Result.{ok, canceled}
use eth_tracker.Exec.{◌>>=◌}
use eth_tracker.Prelude.Text.{decimal}
use eth_tracker.Exec.Lens.{Lens, zoom}
use eth_tracker.Db.Bolt.{bolt_db}
use eth_tracker.Stats.{set_latest_block, api_stats_response}
use eth_tracker.Stats.Reports.{stats, syncer, api_stats_response-queue_realtime_block}
use eth_tracker.Syncer.{queue_realtime_block}
use eth_tracker.Syncer.Realtime.{sends, takes_header, sub_err, uint64s}
use eth_tracker.Syncer.Renewal.{Subscribed, connected, resubscribe, sent_in, waiting-resubscribe}
use eth_tracker.Running.{chain_syncer}
use eth_tracker.Tests.BitLists.{bit_lists}
use eth_tracker.Tests.Buckets.{buckets, two_blocks}
use eth_tracker.Tests.Running.{queue, tracker}
use eth_tracker.Tests.Tracked.{tracked_map}
use eth_tracker.Tests.World.{World, store, addresses, chain, world}

abbrev newest : Lens World ℕ
newest = record {
  get = λ w. w.newest;
  put = λ n w. record w { newest = n };
  get-put = λ n w. refl;
  put-get = λ w. refl;
}

abbrev queued : World
queued =
    (queue_realtime_block
      (syncer tracked_map addresses queue (λ w. pos 1) newest (bolt_db buckets store bit_lists)
        chain (ok tt))
      10 (world two_blocks)).1

api_stats_response-queue_realtime_block_example :
    api_stats_response (stats tracked_map addresses queue (λ w. pos 1) newest) queued ≡ (
      ok (record {
        latest_block = 10;
        pool_queue_size = 1;
        pool_active_workers = pos 1;
        cache_size = 2;
      }),
      queued,
    )
unfolding zoom queue_realtime_block set_latest_block decimal ◌>>=◌
api_stats_response-queue_realtime_block_example =
    api_stats_response-queue_realtime_block tracked_map addresses queue (λ w. pos 1) newest
      (bolt_db buckets store bit_lists) chain (ok tt) 10 (world two_blocks) (λ v x. refl)
      (λ v x. refl) (λ v x. refl)

-- A subscription to which three headers are sent, and which ends in an error before the third is
-- taken.
abbrev broken : Subscribed
broken =
    connected
      (sends 10 ∷ takes_header ∷ sends 12 ∷ sends 13 ∷ takes_header ∷ sub_err (some canceled) ∷ [])

waiting-resubscribe_example :
    (let (_, left, s') = resubscribe (chain_syncer tracker) none broken (world two_blocks) in
      s'.pushed ++ uint64s left)
    ≡ [] ++ uint64s (sent_in broken)
unfolding zoom
waiting-resubscribe_example =
    waiting-resubscribe (chain_syncer tracker) (λ w. w.pushed) (λ n s. refl) (λ n s. refl)
      (λ n s. refl) none broken (world two_blocks)
