-- ===== src/Running/Returned.antt =====
-- cmd/service/main.go: what the part of `main` before its routines has done once it returns.
use eth_tracker.Prelude.{
  ◌≡◌, refl, sym, ap, ◌∙◌, Bool, true, false, ◌&&◌, ◌==◌, string_eq, String, if◌then◌else◌,
}
use eth_tracker.Result.{Result, ok, ok_injective}
use eth_tracker.Exec.{Exec, pure, lift, ◌>>=◌}
use eth_tracker.Exec.Inversion.{>>=-returns, or_exit-returns}
use eth_tracker.Exec.Lens.{Lens, zoom}
use eth_tracker.Cache.MapCache.{XMap}
use eth_tracker.Cache.Bootstrap.{Registries}
use eth_tracker.Cache.Creation.{cache_type_redis, new_cache}
use eth_tracker.Chain.Rpc.{new_rpc_fetcher}
use eth_tracker.Config.{is_zero, is_empty}
use eth_tracker.Config.Required.{
  IsConfigured, must_string-returns, must_strings-returns, must_int-returns,
}
use eth_tracker.Db.Open.{new_db}
use eth_tracker.Publisher.Connect.{hours, new_jet_stream_pub}
use eth_tracker.Syncer.{new_syncer}
use eth_tracker.Running.{Tracker, chain_syncer}
use eth_tracker.Running.SetUp.{
  Outside, Components, set_up, set_up_chain, set_up_db, set_up_cache, set_up_pub, set_up_syncer,
  set_up_components,
}

module _ {S B V I M C : Type 0} (t : Tracker S B V) (g : Registries S I) (xmap : XMap M)
    (addresses : Lens S M) (o : Outside S B C t.bolt) where
  open o use {settings, cpus, file, dial_options, nats}
  open settings use {string, strings, int}

  set_up_chain-returns :
      (s s' : S)
      → set_up_chain t g xmap addresses o s ≡ (ok tt, s')
      → ((string "chain.rpc_endpoint" == "") ≡ false)
        × (is_zero (int "chain.chainid") ≡ false)
        × (new_rpc_fetcher dial_options (string "chain.rpc_endpoint") s ≡ (ok tt, s'))
  unfolding set_up_chain
  set_up_chain-returns s s' h =
      let (endpoint, r1) = must_string-returns settings "chain.rpc_endpoint" s s' tt _ h in
      let (id, r2) = must_int-returns settings "chain.chainid" s s' tt _ r1 in
      (endpoint, id, or_exit-returns _ s s' tt r2)

  set_up_db-returns :
      (s s' : S)
      → set_up_db t g xmap addresses o s ≡ (ok tt, s')
      → ((string "core.db_type" == "") ≡ false)
        × (zoom t.store (new_db t.bolt file (string "core.db_type")) s ≡ (ok tt, s'))
  unfolding set_up_db
  set_up_db-returns s s' h =
      let (db_type, r) = must_string-returns settings "core.db_type" s s' tt _ h in
      (db_type, or_exit-returns _ s s' tt r)

  -- The address of Redis is asked for only if it is the cache.
  dsn-returns :
      (b : Bool) (f : String → Exec S (Unit {0})) (s s' : S)
      → ((if b then lift (settings.must_string "redis.dsn") else pure "") >>= f) s ≡ (ok tt, s')
      → ((b && string "redis.dsn" == "") ≡ false) × (dsn : String) × (f dsn s ≡ (ok tt, s'))
  unfolding pure ◌>>=◌
  dsn-returns true f s s' h =
      let (found, r) = must_string-returns settings "redis.dsn" s s' tt f h in (found, _, r)
  dsn-returns false f s s' h = (refl, _, h)

  set_up_cache-returns :
      (s s' : S)
      → set_up_cache t g xmap addresses o s ≡ (ok tt, s')
      → (is_empty (strings "bootstrap.ge_registry") ≡ false)
        × ((string "core.cache_type" == "") ≡ false)
        × ((string "core.cache_type" == cache_type_redis && string "redis.dsn" == "") ≡ false)
        × (new_cache xmap addresses t.eth g
              (string "core.cache_type")
              (strings "bootstrap.ge_registry")
              (strings "bootstrap.watchlist")
              (strings "bootstrap.blacklist")
              s
            ≡ (ok tt, s'))
  unfolding set_up_cache
  set_up_cache-returns s s' h =
      let (registries, r1) = must_strings-returns settings "bootstrap.ge_registry" s s' tt _ h in
      let (cache_type, r2) = must_string-returns settings "core.cache_type" s s' tt _ r1 in
      let (dsn, _, r3) = dsn-returns (string "core.cache_type" == cache_type_redis) _ s s' r2 in
      (registries, cache_type, dsn, or_exit-returns _ s s' tt r3)

  set_up_pub-returns :
      (s s' : S) (p : C)
      → set_up_pub t g xmap addresses o s ≡ (ok p, s')
      → ((string "jetstream.endpoint" == "") ≡ false)
        × (is_zero (int "jetstream.persist_duration_hrs") ≡ false)
        × (new_jet_stream_pub nats
              (string "jetstream.endpoint")
              (hours (int "jetstream.persist_duration_hrs"))
              s
            ≡ (ok p, s'))
  unfolding set_up_pub
  set_up_pub-returns s s' p h =
      let (endpoint, r1) = must_string-returns settings "jetstream.endpoint" s s' p _ h in
      let (kept, r2) = must_int-returns settings "jetstream.persist_duration_hrs" s s' p _ r1 in
      (endpoint, kept, or_exit-returns _ s s' p r2)

  set_up_syncer-returns :
      (s s' : S)
      → set_up_syncer t g xmap addresses o s ≡ (ok tt, s')
      → ((string "chain.ws_endpoint" == "") ≡ false)
        × (new_syncer (chain_syncer t) (int "chain.start_block") s ≡ (ok tt, s'))
  unfolding set_up_syncer
  set_up_syncer-returns s s' h =
      let (endpoint, r) = must_string-returns settings "chain.ws_endpoint" s s' tt _ h in
      (endpoint, or_exit-returns _ s s' tt r)

  set_up_components-returns :
      (p : C) (s s' : S) (c : Components C)
      → set_up_components t g xmap addresses o p s ≡ (ok c, s')
      → (is_zero (int "core.batch_size") ≡ false)
        × ((string "api.address" == "") ≡ false)
        × (c.jet_stream_pub ≡ p)
        × (c.backfill_size ≡ int "core.batch_size")
        × (c.api_address ≡ string "api.address")
        × (s ≡ s')
  unfolding set_up_components pure
  set_up_components-returns p s s' c h =
      let (size, r1) = must_int-returns settings "core.batch_size" s s' c _ h in
      let (address, r2) = must_string-returns settings "api.address" s s' c _ r1 in
      let made = ok_injective _ c (ap (λ (q : Result (Components C) × S). q.0) r2) in
      (
        size,
        address,
        ap (λ x. x.jet_stream_pub) (sym made),
        ap (λ x. x.backfill_size) (sym made),
        ap (λ x. x.api_address) (sym made),
        ap (λ (q : Result (Components C) × S). q.1) r2,
      )

  pub set_up-returns :
      (s s' : S) (c : Components C)
      → set_up t g xmap addresses o s ≡ (ok c, s')
      → IsConfigured settings
        × (c.backfill_size ≡ int "core.batch_size")
        × (c.api_address ≡ string "api.address")
        × (s1 : S) × (s2 : S) × (s3 : S) × (s4 : S) × (new_rpc_fetcher dial_options
              (string "chain.rpc_endpoint")
              s
            ≡ (ok tt, s1))
        × (zoom t.store (new_db t.bolt file (string "core.db_type")) s1 ≡ (ok tt, s2))
        × (new_cache xmap addresses t.eth g
              (string "core.cache_type")
              (strings "bootstrap.ge_registry")
              (strings "bootstrap.watchlist")
              (strings "bootstrap.blacklist")
              s2
            ≡ (ok tt, s3))
        × (new_jet_stream_pub nats
              (string "jetstream.endpoint")
              (hours (int "jetstream.persist_duration_hrs"))
              s3
            ≡ (ok c.jet_stream_pub, s4))
        × (new_syncer (chain_syncer t) (int "chain.start_block") s4 ≡ (ok tt, s'))
  unfolding set_up
  set_up-returns s s' c h =
      let (_, s1, chain, r1) = >>=-returns _ _ s s' c h in
      let (_, s2, db, r2) = >>=-returns _ _ s1 s' c r1 in
      let (_, s3, cache, r3) = >>=-returns _ _ s2 s' c r2 in
      let (p, s4, publisher, r4) = >>=-returns _ _ s3 s' c r3 in
      let (_, s5, syncer, r5) = >>=-returns _ _ s4 s' c r4 in
      let (rpc_endpoint, chain_id, dialled) = set_up_chain-returns s s1 chain in
      let (db_type, opened) = set_up_db-returns s1 s2 db in
      let (registries, cache_type, dsn, filled) = set_up_cache-returns s2 s3 cache in
      let (endpoint, kept, connected) = set_up_pub-returns s3 s4 p publisher in
      let (ws_endpoint, synced) = set_up_syncer-returns s4 s5 syncer in
      let (size, address, given, batch, served, same) = set_up_components-returns p s5 s' c r5 in
      (
        (
          (rpc_endpoint, (db_type, (cache_type, (endpoint, (ws_endpoint, (address, tt)))))),
          (chain_id, (kept, (size, tt))),
          registries,
          dsn,
        ),
        batch,
        served,
        s1,
        s2,
        s3,
        s4,
        dialled,
        opened,
        filled,
        connected ∙ ap (λ x. (ok x, s4)) (sym given),
        synced ∙ ap (λ x. (ok tt, x)) same,
      )
