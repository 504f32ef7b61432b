-- ===== src/Stats/Reports.antt =====
-- The reports follow the syncer.
use eth_tracker.Prelude.{ℕ, ℤ, ◌+◌, ◌≡◌, refl, sym, ap, ◌∙◌, List, [], ◌∷◌, ◌++◌, length, arith}
use eth_tracker.Result.{Result, ok}
use eth_tracker.Exec.{◌>>=◌}
use eth_tracker.Exec.Lens.{Lens}
use eth_tracker.Cache.MapCache.{XMap, map_cache, size}
use eth_tracker.Chain.{Chain}
use eth_tracker.Db.{Db}
use eth_tracker.Pool.Queue.{Queue}
use eth_tracker.Syncer.{Syncer, push, queue_realtime_block}
use eth_tracker.Syncer as Sy
use eth_tracker.Stats.{Stats, set_latest_block, get_latest_block, api_stats_response}

length-snoc : (ns : List ℕ) (n : ℕ) → length (ns ++ n ∷ []) ≡ length ns + 1
length-snoc [] n = refl
length-snoc (m ∷ ns) n = ground (arith, length-snoc ns n)

module _ {S M : Type 0} (xmap : XMap M) (addresses : Lens S M) (queue : Queue S)
    (active_workers : S → ℤ) (latest : Lens S ℕ) where
  abbrev pub stats : Stats S
  stats = record {
    cache = map_cache xmap addresses;
    pool = queue.pool;
    active_workers = active_workers;
    latest = latest;
  }

module _ {S V M : Type 0} (xmap : XMap M) (addresses : Lens S M) (queue : Queue S)
    (active_workers : S → ℤ) (latest : Lens S ℕ) (db : Db S V) (chain : Chain S)
    (dial : Result (Unit {0})) where
  -- The syncer over the same pool and the same counter as the statistics.
  abbrev pub syncer : Syncer S V
  syncer = record {
    db = db;
    chain = chain;
    pool = queue.pool;
    latest = set_latest_block (stats xmap addresses queue active_workers latest);
    dial = dial;
  }

  -- If the block store leaves the queue and the counter alone, and the counter is apart from the queue:
  -- after a new block was queued, whether storing the upper bound succeeded or not, the statistics
  -- report it as the latest block, one more waiting task than before, and the size of the cache.
  pub api_stats_response-queue_realtime_block :
      (n : ℕ) (s : S)
      → ((v : ℕ) (x : S) → queue.waiting (latest.put v x) ≡ queue.waiting x)
      → ((v : ℕ) (x : S) → queue.waiting (db.set_upper_bound v x).1 ≡ queue.waiting x)
      → ((v : ℕ) (x : S) → latest.get (db.set_upper_bound v x).1 ≡ latest.get x)
      → api_stats_response
          (stats xmap addresses queue active_workers latest)
          (queue_realtime_block syncer n s).1
        ≡ (
          ok (record {
            latest_block = n;
            pool_queue_size = queue.pool.size s + 1;
            pool_active_workers = active_workers (queue_realtime_block syncer n s).1;
            cache_size = xmap.size (addresses.get (queue_realtime_block syncer n s).1);
          }),
          (queue_realtime_block syncer n s).1,
        )
  unfolding api_stats_response size set_latest_block get_latest_block queue_realtime_block push
      Sy.set_latest_block ◌>>=◌
  api_stats_response-queue_realtime_block n s apart waits counts =
      let s1 : S = queue.pool.push n s in
      let s2 : S = latest.put n s1 in
      let newest : latest.get (db.set_upper_bound n s2).1 ≡ n = counts n s2 ∙ latest.get-put n s1 in
      let queued : queue.pool.size (db.set_upper_bound n s2).1 ≡ queue.pool.size s + 1 =
        queue.size_lem _
        ∙ ap length (waits n s2 ∙ apart n s1 ∙ queue.waiting-push n s)
        ∙ length-snoc (queue.waiting s) n
        ∙ ap (λ k. k + 1) (sym (queue.size_lem s)) in
      λ i. (
        ok (record {
          latest_block = newest i;
          pool_queue_size = queued i;
          pool_active_workers = active_workers (db.set_upper_bound n s2).1;
          cache_size = xmap.size (addresses.get (db.set_upper_bound n s2).1);
        }),
        (db.set_upper_bound n s2).1,
      )
