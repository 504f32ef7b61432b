-- ===== src/Cache/Creation.antt =====
-- internal/cache/cache.go: `New`, which picks an implementation and fills it.
use eth_tracker.Prelude.{String, List, ◌==◌, string_eq, if◌then◌else◌}
use eth_tracker.Exec.{Exec, ◌>>◌}
use eth_tracker.Exec.Lens.{Lens}
use eth_tracker.Eth.{Eth}
use eth_tracker.Cache.MapCache.{XMap, map_cache, new_map_cache}
use eth_tracker.Cache.Bootstrap.{Registries, bootstrap_cache}

abbrev pub cache_type_internal : String
cache_type_internal = "internal"

abbrev pub cache_type_redis : String
cache_type_redis = "redis"

module _ {M S I : Type 0} (xmap : XMap M) (state : Lens S M) (eth : Eth) (g : Registries S I) where
  -- There is no cache on Redis yet, and any other name stands for the cache in memory too.
  unfoldable pub create_cache : String → Exec S (Unit {0})
  create_cache cache_type =
      if cache_type == cache_type_internal
      then new_map_cache xmap state
      else if cache_type == cache_type_redis
      then new_map_cache xmap state
      else new_map_cache xmap state

  unfoldable pub new_cache : String → List String → List String → List String → Exec S (Unit {0})
  new_cache cache_type registries watchlist blacklist = do
    create_cache cache_type
    bootstrap_cache eth (map_cache xmap state) g registries watchlist blacklist
