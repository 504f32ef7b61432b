-- ===== src/Running/Reopened.antt =====
-- cmd/service/main.go: the block store once the service is set up.
use eth_tracker.Prelude.{
  ℕ, ◌≡◌, refl, sym, ap, ◌∙◌, ◌==◌, nat_eq, string_eq, is_some, subst, some_injective, String, List,
  Option, some, if◌then◌else◌,
}
use eth_tracker.Result.{Result, ok}
use eth_tracker.Exec.{Exec, lift}
use eth_tracker.Exec.Inversion.{>>=-returns, or_exit-returns, zoom-returns}
use eth_tracker.Exec.Keeps.{Keeps, keeps_rules}
use eth_tracker.Exec.Lens.{Lens}
use eth_tracker.Eth.Abi.{Bytes}
use eth_tracker.Cache.MapCache.{XMap, map_cache, add, remove, size, new_map_cache}
use eth_tracker.Cache.Bootstrap.{Registries, bootstrap_cache}
use eth_tracker.Cache.Bootstrap.Keeps.{ChainKeeps, Keeps-or_exit, bootstrap_cache-Keeps}
use eth_tracker.Cache.Creation.{new_cache, create_cache}
use eth_tracker.Chain.Rpc.{new_rpc_fetcher}
use eth_tracker.Db.Bytes.{marshal_uint64}
use eth_tracker.Db.Bolt.{lower_bound_key, upper_bound_key, get_lower_bound}
use eth_tracker.Db.Missing.{has_block}
use eth_tracker.Db.Open.{entry, new_db, new_db-entry}
use eth_tracker.Syncer.{first_lower_bound, new_syncer}
use eth_tracker.Syncer.Bounds.{new_syncer-bounds}
use eth_tracker.Running.{Tracker, chain_syncer}
use eth_tracker.Running.Configured.{PubLeaves, pub-Keeps, set_up_components-set}
use eth_tracker.Running.SetUp.{
  Outside, Components, set_up, set_up_chain, set_up_db, set_up_cache, set_up_syncer,
}

-- What `P` says of the state is left alone by the client of the chain, the cache and the publisher
-- while they are set up.
pub record MainLeaves {S B V I M C : Type 0} (P : S → Type 0) (t : Tracker S B V)
    (g : Registries S I) (addresses : Lens S M) (o : Outside S B C t.bolt) : Type 0 where
  pub dials : (endpoint : String) → Keeps P (o.dial_options endpoint)
  pub maps : (m : M) (s : S) → P s → P (addresses.put m s)
  pub registries : ChainKeeps P g
  pub publisher : PubLeaves P o.nats
  pub newest : Keeps P t.chain.get_latest_block

module _ {S B V I M C : Type 0} (t : Tracker S B V) (g : Registries S I) (xmap : XMap M)
    (addresses : Lens S M) (o : Outside S B C t.bolt) where
  open o use {settings, file}
  open t use {store, bolt, bits, queue}

  module _ {P : S → Type 0} (l : MainLeaves P t g addresses o) where
    pub chain-Keeps : Keeps P (set_up_chain t g xmap addresses o)
    unfolding set_up_chain new_rpc_fetcher
    chain-Keeps = search (keeps_rules, Keeps-or_exit, l.dials) depth 9

    new_map-Keeps : Keeps P (new_map_cache xmap addresses)
    unfolding new_map_cache
    new_map-Keeps = record { at = λ s h. l.maps _ s h }

    add-Keeps : (key : String) → Keeps P (add xmap addresses key)
    unfolding add
    add-Keeps key = record { at = λ s h. l.maps _ s h }

    remove-Keeps : (key : String) → Keeps P (remove xmap addresses key)
    unfolding remove
    remove-Keeps key = record { at = λ s h. l.maps _ s h }

    size-Keeps : Keeps P (size xmap addresses)
    unfolding size
    size-Keeps = record { at = λ s h. h }

    filled-Keeps :
        (registries watchlist blacklist : List String)
        → Keeps P
            (bootstrap_cache t.eth (map_cache xmap addresses) g registries watchlist blacklist)
    filled-Keeps registries watchlist blacklist =
        bootstrap_cache-Keeps t.eth (map_cache xmap addresses) g l.registries add-Keeps remove-Keeps
          size-Keeps registries watchlist blacklist

    pub cache-Keeps : Keeps P (set_up_cache t g xmap addresses o)
    unfolding set_up_cache new_cache create_cache
    cache-Keeps = search (keeps_rules, Keeps-or_exit, new_map-Keeps, filled-Keeps) depth 14

  -- The bucket as it is opened: it has the entries that the file had.
  abbrev IsOpened : Option B → B → Type 0
  IsOpened before b = (k : _) → bolt.get b k ≡ entry bolt before k

  set_up_db-IsOpened :
      (s s' : S)
      → set_up_db t g xmap addresses o s ≡ (ok tt, s')
      → (b : B) × (store.get s' ≡ some b) × IsOpened (store.get s) b
  unfolding set_up_db lift
  set_up_db-IsOpened s s' h =
      let (db_type, s1, read, r1) = >>=-returns _ _ s s' tt h in
      let same : s ≡ s1 = ap (λ (p : Result String × S). p.1) read in
      let (b, held, entries) =
        new_db-entry bolt file db_type (store.get s1) (store.get s') (
          zoom-returns store (new_db bolt file db_type) s1 s' tt (or_exit-returns _ s1 s' tt r1)) in
      (b, held, λ k. entries k ∙ ap (λ x. entry bolt (store.get x) k) (sym same))

  -- A call that leaves alone what the store holds.
  abbrev kept :
      {A : Type 0} (m : Exec S A) (r : Result A) (s s' : S)
      → ((x : Option B) → Keeps (λ y. store.get y ≡ x) m)
      → m s ≡ (r, s')
      → store.get s' ≡ store.get s
  kept m r s s' keeps h =
      ap (λ (p : Result _ × S). store.get p.1) (sym h) ∙ (keeps (store.get s)).at s refl

  syncer_returns :
      (s s' : S)
      → set_up_syncer t g xmap addresses o s ≡ (ok tt, s')
      → new_syncer (chain_syncer t) (settings.int "chain.start_block") s ≡ (ok tt, s')
  unfolding set_up_syncer lift
  syncer_returns s s' h =
      let (endpoint, s1, read, r1) = >>=-returns _ _ s s' tt h in
      let same : s ≡ s1 = ap (λ (p : Result String × S). p.1) read in
      ap (new_syncer (chain_syncer t) (settings.int "chain.start_block")) same
      ∙ or_exit-returns _ s1 s' tt r1

  -- If only the block store's own calls write to it, and the part of `main` before its routines start
  -- returns: the store holds a bucket in which exactly the blocks are marked that were marked in the
  -- file before, the upper bound is a block that the chain has given as its latest, and the lower bound
  -- is that of the file or, if the file had none or 0, the start block of the settings if that is
  -- above 0, and otherwise the latest block.
  pub set_up-bounds :
      (s s' : S) (c : Components C)
      → ((x : Option B) → MainLeaves (λ y. store.get y ≡ x) t g addresses o)
      → ((n : ℕ) (x : S) → store.get (t.latest n x) ≡ store.get x)
      → set_up t g xmap addresses o s ≡ (ok c, s')
      → (n : ℕ) × (lower : ℕ) × (asked : S) × (b : B) × (b' : B) × ((t.chain.get_latest_block
            asked).0
          ≡ ok n)
        × ((k : Bytes) → bolt.get b k ≡ entry bolt (store.get s) k)
        × (get_lower_bound bolt (some b) ≡ (ok lower, some b))
        × (store.get s' ≡ some b')
        × (bolt.get b' upper_bound_key ≡ some (marshal_uint64 n))
        × (bolt.get b' lower_bound_key ≡ (
            if lower == 0
            then some (marshal_uint64 (first_lower_bound (settings.int "chain.start_block") n))
            else entry bolt (store.get s) lower_bound_key))
        × ((w : ℕ) → has_block bolt b' w ≡ is_some (entry bolt (store.get s) (marshal_uint64 w)))
  unfolding set_up
  set_up-bounds s s' c leaves statistics h =
      let (_, s1, dialled, r1) = >>=-returns _ _ s s' c h in
      let (_, s2, opened, r2) = >>=-returns _ _ s1 s' c r1 in
      let (_, s3, filled, r3) = >>=-returns _ _ s2 s' c r2 in
      let (p, s4, connected, r4) = >>=-returns _ _ s3 s' c r3 in
      let (_, s5, synced, r5) = >>=-returns _ _ s4 s' c r4 in
      let (read, _, _) = set_up_components-set t g xmap addresses o p c s5 s' r5 in
      let (b, held, entries) = set_up_db-IsOpened s1 s2 opened in
      let before : store.get s1 ≡ store.get s =
        kept _ _ s s1 (λ x. chain-Keeps (leaves x)) dialled in
      let held4 : store.get s4 ≡ some b =
        kept _ _ s3 s4 (λ x. pub-Keeps t g xmap addresses o (leaves x).publisher) connected
        ∙ kept _ _ s2 s3 (λ x. cache-Keeps (leaves x)) filled
        ∙ held in
      let (n, lower, b0, b', asked, lower_read, held0, held', upper, low, marks) =
        new_syncer-bounds store bolt bits t.chain queue.pool t.latest t.dial
          (settings.int "chain.start_block") s4 s5 (λ x. (leaves x).newest) statistics
          (syncer_returns s4 s5 synced) in
      let same : b0 ≡ b = some_injective b0 b (sym held0 ∙ held4) in
      let entries' : (k : Bytes) → bolt.get b k ≡ entry bolt (store.get s) k =
        λ k. entries k ∙ ap (λ x. entry bolt x k) before in
      (
        n,
        lower,
        s4,
        b,
        b',
        asked,
        entries',
        subst (λ x. get_lower_bound bolt x ≡ (ok lower, x)) held4 lower_read,
        ap store.get read ∙ held',
        upper,
        low
            ∙ ap
                (λ x.
                  if lower == 0
                  then some
                      (marshal_uint64 (first_lower_bound (settings.int "chain.start_block") n))
                  else x)
                (ap (λ x. bolt.get x lower_bound_key) same ∙ entries' lower_bound_key),
        λ w. marks w ∙ ap (λ x. has_block bolt x w) same ∙ ap is_some (entries' (marshal_uint64 w)),
      )
