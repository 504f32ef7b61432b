-- ===== src/Running/Configured.antt =====
-- cmd/service/main.go: what the settings bring about, once the service is set up.
use eth_tracker.Prelude.{
  ℕ, ℤ, nat_eq, ◌≡◌, refl, sym, ap, ◌∙◌, false, not, ◌&&◌, ◌||◌, ◌==◌, string_eq, String, List, [],
  ◌∷◌, Option, subst, is_some, arith,
}
use eth_tracker.Result.{Result, ok, ok_injective, err, panic, diverges}
use eth_tracker.Exec.{Exec, pure, lift}
use eth_tracker.Exec.Inversion.{>>=-returns, lift-returns, or_exit-returns}
use eth_tracker.Exec.Keeps.{Keeps, Keeps-bind, Keeps-if, Keeps-lift, Keeps-pure, keeps_rules}
use eth_tracker.Exec.Lens.{Lens, zoom}
use eth_tracker.Cache.MapCache.{XMap, map_cache}
use eth_tracker.Cache.MapCache.Tracking.{has}
use eth_tracker.Cache.Bootstrap.Keeps.{Keeps-or_exit}
use eth_tracker.Cache.Bootstrap.{Registries, bootstrap_cache}
use eth_tracker.Cache.Bootstrap.Lists.{is_excluded, is_watched, bootstrap_cache-lists}
use eth_tracker.Cache.Creation.{new_cache}
use eth_tracker.Config.{is_zero, is_empty, must_strings-found, must_int-found, must_string-found}
use eth_tracker.Publisher.Connect.{Nats, StreamConfig, close_after, closing, new_jet_stream_pub}
use eth_tracker.Syncer.{new_syncer, init_lower_bound, set_latest_block}
use eth_tracker.Running.{Tracker, chain_syncer}
use eth_tracker.Config.Required.{IsConfigured}
use eth_tracker.Running.Returned.{set_up-returns}
use eth_tracker.Running.SetUp.{
  Outside, Components, set_up, set_up_cache, set_up_pub, set_up_syncer, set_up_components,
}

-- What `P` says of the state is left alone by the calls of the NATS client.
pub record PubLeaves {S C : Type 0} (P : S → Type 0) (nats : Nats S C) : Type 0 where
  pub connects : (endpoint : String) → Keeps P (nats.connect endpoint)
  pub contexts : (c : C) → Keeps P (nats.stream_context c)
  pub creates : (c : C) (config : StreamConfig) → Keeps P (nats.create_stream c config)
  pub closes : (c : C) (s : S) → P s → P (nats.close c s)

-- What `P` says of the state is left alone by the publisher and the syncer while they are set up.
pub record SetUpLeaves {S B V C : Type 0} (P : S → Type 0) (t : Tracker S B V) (nats : Nats S C)
    : Type 0 where
  pub stores : (x : Option B) (s : S) → P s → P (t.store.put x s)
  pub newest : Keeps P t.chain.get_latest_block
  pub statistics : (n : ℕ) (s : S) → P s → P (t.latest n s)
  pub publisher : PubLeaves P nats

module _ {S B V I M C : Type 0} (t : Tracker S B V) (g : Registries S I) (xmap : XMap M)
    (addresses : Lens S M) (o : Outside S B C t.bolt) where
  open o use {settings, nats}

  module _ {P : S → Type 0} (l : SetUpLeaves P t nats) where
    pub zoom-Keeps : {A : Type 0} (m : Exec (Option B) A) → Keeps P (zoom t.store m)
    unfolding zoom
    zoom-Keeps m = record { at = λ s h. l.stores _ s h }

    latest-Keeps : (n : ℕ) → Keeps P (set_latest_block (chain_syncer t) n)
    unfolding set_latest_block
    latest-Keeps n = record { at = l.statistics n }

    new_syncer-Keeps : (start_block : ℤ) → Keeps P (new_syncer (chain_syncer t) start_block)
    unfolding new_syncer init_lower_bound
    new_syncer-Keeps start_block = Keeps-bind _ _ l.newest λ n.
        Keeps-bind _ _ (zoom-Keeps _) λ lower.
          Keeps-bind _ _ (Keeps-if (lower == 0) _ _ (zoom-Keeps _) (Keeps-pure tt)) λ _.
            Keeps-bind _ _ (zoom-Keeps _)
              λ _. Keeps-bind _ _ (latest-Keeps n) (λ _. Keeps-lift t.dial)

    pub syncer-Keeps : Keeps P (set_up_syncer t g xmap addresses o)
    unfolding set_up_syncer
    syncer-Keeps = search (keeps_rules, Keeps-or_exit, new_syncer-Keeps)

  module _ {P : S → Type 0} (l : PubLeaves P nats) where
    closed : (c : C) (r : Result (Unit {0})) (s : S) → P s → P (close_after nats c r s).1
    closed c (ok u) s h = h
    closed c (err e) s h = l.closes c s h
    closed c panic s h = h
    closed c diverges s h = h

    closing-Keeps : (c : C) (m : Exec S (Unit {0})) → Keeps P m → Keeps P (closing nats c m)
    unfolding closing
    closing-Keeps c m km = record { at = λ s h. closed c _ _ (km.at s h) }

    pub pub-Keeps : Keeps P (set_up_pub t g xmap addresses o)
    unfolding set_up_pub new_jet_stream_pub
    pub-Keeps =
        search (keeps_rules, Keeps-or_exit, closing-Keeps, l.connects, l.contexts, l.creates) depth
          12

  -- What the lists of the settings say of a key of the cache.
  abbrev IsListed : String → S → Type 0
  IsListed k s = has xmap addresses s k ≡ (
      not (is_excluded xmap addresses t.eth g (settings.strings "bootstrap.blacklist") k)
      && (is_watched xmap addresses t.eth g (settings.strings "bootstrap.watchlist") k
          || has xmap addresses s k))

  IsListed-same :
      (k : String) (s s' : S) → addresses.get s' ≡ addresses.get s → IsListed k s → IsListed k s'
  IsListed-same k s s' same h =
      let kept : has xmap addresses s' k ≡ has xmap addresses s k =
        ap (λ m. is_some (xmap.load m k)) same in
      ground (arith, kept, h)

  booted :
      (registries : List String) (k : String) (s s' : S)
      → is_empty registries ≡ false
      → bootstrap_cache t.eth
          (map_cache xmap addresses)
          g
          registries
          (settings.strings "bootstrap.watchlist")
          (settings.strings "bootstrap.blacklist")
          s
        ≡ (ok tt, s')
      → IsListed k s'
  booted [] k s s' filled h = cc filled
  booted (registry ∷ registries) k s s' filled h =
      bootstrap_cache-lists xmap addresses t.eth g registry registries _ _ k s s' h

  set_up_cache-lists :
      (k : String) (s s' : S) → set_up_cache t g xmap addresses o s ≡ (ok tt, s') → IsListed k s'
  unfolding set_up_cache new_cache
  set_up_cache-lists k s s' h =
      let (registries, s1, found, r1) = >>=-returns _ _ s s' tt h in
      let (cache_type, s2, _, r2) = >>=-returns _ _ s1 s' tt r1 in
      let (_, s3, _, r3) = >>=-returns _ _ s2 s' tt r2 in
      let (_, s4, _, boots) = >>=-returns _ _ s3 s' tt (or_exit-returns _ s3 s' tt r3) in
      booted registries k s4 s'
        (must_strings-found settings "bootstrap.ge_registry" registries
          (lift-returns _ s s1 registries found))
        boots

  pub set_up_components-set :
      (p : C) (c : Components C) (s s' : S)
      → set_up_components t g xmap addresses o p s ≡ (ok c, s')
      → (s' ≡ s) × (is_zero c.backfill_size ≡ false) × ((c.api_address == "") ≡ false)
  unfolding set_up_components pure lift
  set_up_components-set p c s s' h =
      let (batch_size, s1, size, r1) = >>=-returns _ _ s s' c h in
      let (address, s2, addressed, r2) = >>=-returns _ _ s1 s' c r1 in
      let made = ap (λ (q : Result (Components C) × S). q.0) r2 in
      (
        sym (
            ap (λ (q : Result ℤ × S). q.1) size
            ∙ ap (λ (q : Result String × S). q.1) addressed
            ∙ ap (λ (q : Result (Components C) × S). q.1) r2),
        subst (λ x. is_zero x.backfill_size ≡ false) (ok_injective _ c made)
            (must_int-found settings "core.batch_size" batch_size
              (lift-returns _ s s1 batch_size size)),
        subst (λ x. (x.api_address == "") ≡ false) (ok_injective _ c made)
            (must_string-found settings "api.address" address
              (lift-returns _ s1 s2 address addressed)),
      )

  -- If the calls of the publisher and of the syncer leave the cache alone, and the part of `main`
  -- before its routines start returns: a key of the black list and the zero address are not tracked,
  -- every other key of the watch list is tracked, the batch size of the backfill and the address of
  -- the HTTP server that the components get are set, and so is every other setting that must be there.
  pub set_up-lists :
      (k : String) (s s' : S) (c : Components C)
      → ((m : M) → SetUpLeaves (λ x. addresses.get x ≡ m) t nats)
      → set_up t g xmap addresses o s ≡ (ok c, s')
      → (has xmap addresses s' k ≡ (
          not (is_excluded xmap addresses t.eth g (settings.strings "bootstrap.blacklist") k)
          && (is_watched xmap addresses t.eth g (settings.strings "bootstrap.watchlist") k
              || has xmap addresses s' k)))
        × (is_zero c.backfill_size ≡ false)
        × ((c.api_address == "") ≡ false)
        × IsConfigured settings
  unfolding set_up
  set_up-lists k s s' c leaves h =
      let (_, s1, _, r1) = >>=-returns _ _ s s' c h in
      let (_, s2, _, r2) = >>=-returns _ _ s1 s' c r1 in
      let (_, s3, cached, r3) = >>=-returns _ _ s2 s' c r2 in
      let (p, s4, publisher, r4) = >>=-returns _ _ s3 s' c r3 in
      let (_, s5, synced, r5) = >>=-returns _ _ s4 s' c r4 in
      let (read, batch_size, address) = set_up_components-set p c s5 s' r5 in
      let l = leaves (addresses.get s3) in
      let published : addresses.get s4 ≡ addresses.get s3 =
        ap (λ (q : Result C × S). addresses.get q.1) (sym publisher)
        ∙ (pub-Keeps l.publisher).at s3 refl in
      let dialled : addresses.get s5 ≡ addresses.get s3 =
        ap (λ (q : Result (Unit {0}) × S). addresses.get q.1) (sym synced)
        ∙ (syncer-Keeps l).at s4 published in
      (
        IsListed-same k s3 s' (ap addresses.get read ∙ dialled) (set_up_cache-lists k s2 s3 cached),
        batch_size,
        address,
        (set_up-returns t g xmap addresses o s s' c h).0,
      )
