-- ===== src/Stats.antt =====
-- internal/stats/stats.go: what the service reports of itself.
pub mod Reports
use eth_tracker.Prelude.{ℕ, ℤ, String, List, [], ◌∷◌, ◌++◌}
use eth_tracker.Result.{Result, ok, err, panic, diverges}
use eth_tracker.Exec.{Exec, ◌>>=◌}
use eth_tracker.Exec.Lens.{Lens}
use eth_tracker.Cache.{Cache}
use eth_tracker.Pool.{Pool}

-- `active_workers` is the call of the pool, one call of pond; `latest` is where the state has the atomic
-- counter.
pub record Stats (S : Type 0) : Type 0 where
  pub cache : Cache S
  pub pool : Pool S
  pub active_workers : S → ℤ
  pub latest : Lens S ℕ

-- The map that `APIStatsResponse` makes, and the attributes that the printer logs.
pub record Report : Type 0 where
  pub latest_block : ℕ
  pub pool_queue_size : ℕ
  pub pool_active_workers : ℤ
  pub cache_size : ℕ

-- What the `select` of the printer meets next.
pub data Signal : Type 0 where
  stop fire : Signal

module _ {S : Type 0} (st : Stats S) where
  unfoldable pub set_latest_block : ℕ → S → S
  set_latest_block v s = st.latest.put v s

  unfoldable pub get_latest_block : S → ℕ
  get_latest_block s = st.latest.get s

  abbrev pub report : ℕ → S → Report
  unfolding get_latest_block
  report cache_size s = record {
    latest_block = get_latest_block s;
    pool_queue_size = st.pool.size s;
    pool_active_workers = st.active_workers s;
    cache_size = cache_size;
  }

  unfoldable pub api_stats_response : Exec S Report
  api_stats_response = do cache_size ← st.cache.size; λ s. (ok (report cache_size s), s)

  -- What a round of the printer logs; an error of the cache is logged instead.
  abbrev pub printed : Result ℕ → S → List Report
  printed (ok cache_size) s = report cache_size s ∷ []
  printed (err e) s = []
  printed panic s = []
  printed diverges s = []

  -- The lines that the printer logs before it is stopped.
  unfoldable pub start_stats_printer : List Signal → S → List Report × S
  start_stats_printer [] s = ([], s)
  start_stats_printer (stop ∷ later) s = ([], s)
  start_stats_printer (fire ∷ later) s =
      let (cache_size, s1) = st.cache.size s in
      let (lines, s') = start_stats_printer later s1 in (printed cache_size s1 ++ lines, s')
