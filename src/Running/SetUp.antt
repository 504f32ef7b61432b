-- ===== src/Running/SetUp.antt =====
-- cmd/service/main.go: `main` up to the start of the routines.
use eth_tracker.Prelude.{ℕ, ℤ, String, ◌==◌, string_eq, if◌then◌else◌}
use eth_tracker.Exec.{Exec, pure, lift, ◌>>=◌, ◌>>◌, or_exit}
use eth_tracker.Exec.Lens.{Lens, zoom}
use eth_tracker.Cache.MapCache.{XMap}
use eth_tracker.Cache.Bootstrap.{Registries}
use eth_tracker.Cache.Creation.{cache_type_redis, new_cache}
use eth_tracker.Chain.Rpc.{new_rpc_fetcher}
use eth_tracker.Config.{Settings}
use eth_tracker.Db.Bolt.{Bolt}
use eth_tracker.Db.Open.{File, new_db}
use eth_tracker.Publisher.Connect.{Nats, hours, new_jet_stream_pub}
use eth_tracker.Syncer.{new_syncer}
use eth_tracker.Running.{Tracker, chain_syncer}
use eth_tracker.Running.Start.{pool_size}

-- What the process finds outside: its settings, the number of processors, the file of the block store,
-- the node of the chain and the server of the stream.
pub record Outside (S B C : Type 0) (bolt : Bolt B) : Type 0 where
  pub settings : Settings
  pub cpus : ℕ
  pub file : File bolt
  pub dial_options : String → Exec S (Unit {0})
  pub nats : Nats S C

-- What the routines of the service are started with.
pub record Components (C : Type 0) : Type 0 where
  pub jet_stream_pub : C
  pub worker_count : ℕ
  pub backfill_size : ℤ
  pub api_address : String

module _ {S B V I M C : Type 0} (t : Tracker S B V) (g : Registries S I) (xmap : XMap M)
    (addresses : Lens S M) (o : Outside S B C t.bolt) where
  open o use {settings, cpus, file, dial_options, nats}
  open settings use {string, strings, int, must_string, must_strings, must_int}

  unfoldable pub set_up_chain : Exec S (Unit {0})
  set_up_chain = do
    rpc_endpoint ← lift (must_string "chain.rpc_endpoint")
    chain_id ← lift (must_int "chain.chainid")
    or_exit (new_rpc_fetcher dial_options rpc_endpoint)

  unfoldable pub set_up_db : Exec S (Unit {0})
  set_up_db = do
    db_type ← lift (must_string "core.db_type")
    or_exit (zoom t.store (new_db t.bolt file db_type))

  -- With the Redis cache its address must be set.
  unfoldable pub set_up_cache : Exec S (Unit {0})
  set_up_cache = do
    registries ← lift (must_strings "bootstrap.ge_registry")
    cache_type ← lift (must_string "core.cache_type")
    redis_dsn ← if cache_type == cache_type_redis then lift (must_string "redis.dsn") else pure ""
    or_exit (
        new_cache xmap addresses t.eth g cache_type registries (strings "bootstrap.watchlist")
          (strings "bootstrap.blacklist"))

  unfoldable pub set_up_pub : Exec S C
  set_up_pub = do
    endpoint ← lift (must_string "jetstream.endpoint")
    persist_duration_hrs ← lift (must_int "jetstream.persist_duration_hrs")
    or_exit (new_jet_stream_pub nats endpoint (hours persist_duration_hrs))

  unfoldable pub set_up_syncer : Exec S (Unit {0})
  set_up_syncer = do
    ws_endpoint ← lift (must_string "chain.ws_endpoint")
    or_exit (new_syncer (chain_syncer t) (int "chain.start_block"))

  -- The options of the backfill and of the HTTP server, and the number of workers.
  unfoldable pub set_up_components : C → Exec S (Components C)
  set_up_components jet_stream_pub = do
    batch_size ← lift (must_int "core.batch_size")
    address ← lift (must_string "api.address")
    pure (record {
      jet_stream_pub = jet_stream_pub;
      worker_count = pool_size (int "core.pool_size") cpus;
      backfill_size = batch_size;
      api_address = address;
    })

  unfoldable pub set_up : Exec S (Components C)
  set_up = do
    set_up_chain
    set_up_db
    set_up_cache
    jet_stream_pub ← set_up_pub
    set_up_syncer
    set_up_components jet_stream_pub
