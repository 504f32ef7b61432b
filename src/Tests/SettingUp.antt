-- ===== src/Tests/SettingUp.antt =====
-- The theorems on the start of the process, applied to concrete settings and a store with two blocks.
use eth_tracker.Prelude.{
  some, is_some, nat_eq, ℕ, pos, ◌≡◌, refl, ap, not, ◌&&◌, ◌||◌, ◌==◌, string_eq, String, List, [],
  ◌∷◌, false, if◌then◌else◌,
}
use eth_tracker.Prelude.Text.{decimal}
use eth_tracker.Result.{Result, ok, panic}
use eth_tracker.Exec.{pure, lift, ◌>>=◌, or_wrap, or_exit, for_each}
use eth_tracker.Exec.Lens.{zoom}
use eth_tracker.Cache.MapCache.{add, remove, size, new_map_cache}
use eth_tracker.Cache.MapCache.Tracking.{has}
use eth_tracker.Cache.Bootstrap.{
  bootstrap_cache, bootstrap_registry, add_registry, apply_lists, add_entries, add_system_account,
  add_index, add_pools, each_address, each_batch, after_batch,
}
use eth_tracker.Cache.Bootstrap.Lists.{is_excluded, is_watched}
use eth_tracker.Cache.Creation.{new_cache, create_cache}
use eth_tracker.Chain.Rpc.{new_rpc_fetcher}
use eth_tracker.Config.{Settings, is_zero, is_empty}
use eth_tracker.Db.Bytes.{marshal_uint64, put_be, unmarshal_uint64, get_be}
use eth_tracker.Db.Bolt.{
  lower_bound_key, upper_bound_key, get_lower_bound, set_upper_bound, set_uint64, get, view, update,
}
use eth_tracker.Db.Open.{entry, new_db, new_bolt_db, create_bucket}
use eth_tracker.Publisher.Connect.{Nats, new_jet_stream_pub, closing}
use eth_tracker.Syncer.{first_lower_bound, new_syncer, init_lower_bound, set_latest_block}
use eth_tracker.Running.Configured.{PubLeaves, set_up-lists}
use eth_tracker.Running.Reopened.{MainLeaves, set_up-bounds}
use eth_tracker.Db.Missing.{has_block}
use eth_tracker.Eth.Abi.{Bytes}
use eth_tracker.Config.Required.{IsConfigured}
use eth_tracker.Running.SetUp.{
  Outside, Components, set_up, set_up_chain, set_up_db, set_up_cache, set_up_pub, set_up_syncer,
  set_up_components,
}
use eth_tracker.Tests.Buckets.{Bucket, buckets, two_blocks}
use eth_tracker.Tests.Opening.{file}
use eth_tracker.Tests.Registry.{registry, registry-ChainKeeps}
use eth_tracker.Tests.Running.{tracker}
use eth_tracker.Tests.Tracked.{Tracked, tracked_map}
use eth_tracker.Tests.World.{World, addresses, eth, world}

abbrev pub text_settings : String → String
text_settings key = if key == "core.cache_type" then "redis" else "set"

abbrev pub list_settings : String → List String
list_settings key =
    if key == "bootstrap.ge_registry"
    then "r" ∷ []
    else if key == "bootstrap.watchlist"
    then "25" ∷ []
    else "20" ∷ []

abbrev pub settings : Settings
settings = record {
  string = text_settings;
  strings = list_settings;
  int = λ key. pos 2;
  must_string = λ key. if text_settings key == "" then panic else ok (text_settings key);
  must_strings = λ key. if is_empty (list_settings key) then panic else ok (list_settings key);
  must_int = λ key. ok (pos 2);
  must_string_lem = λ key. refl;
  must_strings_lem = λ key. refl;
  must_int_lem = λ key. refl;
}

abbrev pub nats : Nats World ℕ
nats = record {
  connect = λ endpoint w. (ok 1, w);
  stream_context = λ c w. (ok tt, w);
  create_stream = λ c config w. (ok tt, w);
  close = λ c w. w;
}

nats-PubLeaves : {P : World → Type 0} → PubLeaves P nats
nats-PubLeaves = record {
  connects = λ endpoint. record { at = λ w h. h };
  contexts = λ c. record { at = λ w h. h };
  creates = λ c config. record { at = λ w h. h };
  closes = λ c w h. h;
}

abbrev pub outside : Outside World Bucket ℕ buckets
outside = record {
  settings = settings;
  cpus = 4;
  file = file;
  dial_options = λ endpoint w. (ok tt, w);
  nats = nats;
}

abbrev pub ran : Result (Components ℕ) × World
ran = set_up tracker registry tracked_map addresses outside (world two_blocks)

abbrev pub components : Components ℕ
components = record {
  jet_stream_pub = 1;
  worker_count = 2;
  backfill_size = pos 2;
  api_address = "set";
}

pub sets_up : ran.0 ≡ ok components
unfolding set_up set_up_chain set_up_db set_up_cache set_up_pub set_up_syncer set_up_components
    new_rpc_fetcher new_db new_bolt_db create_bucket new_cache create_cache new_map_cache
    new_jet_stream_pub closing bootstrap_cache bootstrap_registry add_registry apply_lists
    add_entries add_system_account add_index add_pools each_address each_batch after_batch or_exit
    or_wrap for_each pure lift ◌>>=◌ add remove size new_syncer init_lower_bound set_latest_block
    get_lower_bound set_upper_bound set_uint64 get view update marshal_uint64 unmarshal_uint64
    put_be get_be zoom decimal
sets_up = refl

pub world-MainLeaves :
    (P : World → Type 0)
    → ((m : Tracked) (w : World) → P w → P (record w { tracked = m }))
    → MainLeaves P tracker registry addresses outside
world-MainLeaves P maps = record {
  dials = λ endpoint. record { at = λ w h. h };
  maps = maps;
  registries = registry-ChainKeeps;
  publisher = nats-PubLeaves;
  newest = record { at = λ w h. h };
}

set_up-lists_example :
    (has tracked_map addresses ran.1 "25" ≡ (
      not (is_excluded tracked_map addresses eth registry ("20" ∷ []) "25")
      && (is_watched tracked_map addresses eth registry ("25" ∷ []) "25"
          || has tracked_map addresses ran.1 "25")))
    × (is_zero components.backfill_size ≡ false)
    × ((components.api_address == "") ≡ false)
    × IsConfigured settings
set_up-lists_example =
    set_up-lists tracker registry tracked_map addresses outside "25" (world two_blocks) ran.1
      components
      (λ m. record {
        stores = λ x w h. h;
        newest = record { at = λ w h. h };
        statistics = λ n w h. h;
        publisher = nats-PubLeaves;
      })
      (ap (λ (r : Result (Components ℕ)). (r, ran.1)) sets_up)

set_up-bounds_example :
    (n : ℕ) × (lower : ℕ) × (asked : World) × (b : Bucket) × (b' : Bucket)
    × ((tracker.chain.get_latest_block asked).0 ≡ ok n)
    × ((k : Bytes) → buckets.get b k ≡ entry buckets (some two_blocks) k)
    × (get_lower_bound buckets (some b) ≡ (ok lower, some b))
    × (ran.1.blocks ≡ some b')
    × (buckets.get b' upper_bound_key ≡ some (marshal_uint64 n))
    × (buckets.get b' lower_bound_key ≡ (
        if lower == 0
        then some (marshal_uint64 (first_lower_bound (pos 2) n))
        else entry buckets (some two_blocks) lower_bound_key))
    × ((w : ℕ)
        → has_block buckets b' w ≡ is_some (entry buckets (some two_blocks) (marshal_uint64 w)))
set_up-bounds_example =
    set_up-bounds tracker registry tracked_map addresses outside (world two_blocks) ran.1 components
      (λ x. world-MainLeaves (λ w. w.blocks ≡ x) (λ m w h. h)) (λ n w. refl)
      (ap (λ (r : Result (Components ℕ)). (r, ran.1)) sets_up)
