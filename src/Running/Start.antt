-- ===== src/Running/Start.antt =====
-- cmd/service/main.go: the start of the service, up to the first run of the backfill.
use eth_tracker.Prelude.{
  ℤ, pos, ℕ, suc, ◌+◌, ◌*◌, ◌<◌, ◌≤◌, ◌≡◌, refl, sym, ap, ◌∙◌, subst, false, not, ◌&&◌, ◌==◌,
  String, List, ◌++◌, Option, some, some_injective, contains, leb, take, nat_eq, arith,
}
use eth_tracker.Result.{Result, ok, ok_injective}
use eth_tracker.Exec.{Exec, ◌>>◌, or_exit}
use eth_tracker.Exec.Inversion.{>>=-returns, or_exit-returns}
use eth_tracker.Exec.Keeps.{Keeps, Keeps-bind, Keeps-lift, Keeps-if, Keeps-pure}
use eth_tracker.Exec.Lens.{zoom}
use eth_tracker.Cache.{Cache}
use eth_tracker.Cache.Bootstrap.{Registries, bootstrap_cache}
use eth_tracker.Cache.Bootstrap.Keeps.{ChainKeeps, bootstrap_cache-Keeps}
use eth_tracker.Chain.{Chain}
use eth_tracker.Db.Bytes.{u64_mod, marshal_uint64}
use eth_tracker.Db.Bitset.{IsIncreasing}
use eth_tracker.Db.Bolt.{lower_bound_key, upper_bound_key}
use eth_tracker.Db.Missing.{has_block}
use eth_tracker.Db.Bounds.{SameMarks}
use eth_tracker.Db.Values.{get_lower_bound-read}
use eth_tracker.Syncer.{new_syncer, init_lower_bound, set_latest_block}
use eth_tracker.Syncer.Bounds.{new_syncer-bounds}
use eth_tracker.Backfill.{run}
use eth_tracker.Backfill.Run.{run-exact}
use eth_tracker.Running.{Tracker, chain_syncer, backfill}
use eth_tracker.Running.Marks.{StoreApart}
use eth_tracker.Running.Tasks.{QueueApart, waiting-run}

abbrev pub default_worker_pool_multiplier : ℕ
default_worker_pool_multiplier = 3

-- if poolSize <= 0 { poolSize = runtime.NumCPU() * defaultWorkerPoolMultiplier }
abbrev pub pool_size : ℤ → ℕ → ℕ
pool_size (pos (suc n)) cpus = suc n
pool_size _ cpus = cpus * default_worker_pool_multiplier

module _ {S B V I : Type 0} (t : Tracker S B V) (g : Registries S I) where
  -- The first run of the backfill takes in the latest block; its error is only logged.
  unfoldable pub initial_run : Exec S (Unit {0})
  initial_run s = (ok tt, (run (backfill t) false s).1)

  -- An error of the bootstrap or of the syncer ends the process.
  unfoldable pub start : List String → List String → List String → ℤ → Exec S (Unit {0})
  start registries watchlist blacklist start_block = do
    or_exit (bootstrap_cache t.eth t.cache g registries watchlist blacklist)
    or_exit (new_syncer (chain_syncer t) start_block)
    initial_run

-- What `P` says of the state is left alone by the calls that the start makes of the cache and the chain.
pub record StartLeaves {S I : Type 0} (P : S → Type 0) (cache : Cache S) (chain : Chain S)
    (g : Registries S I) : Type 0 where
  pub registries : ChainKeeps P g
  pub adds : (key : String) → Keeps P (cache.add key)
  pub removes : (key : String) → Keeps P (cache.remove key)
  pub sizes : Keeps P cache.size
  pub newest : Keeps P chain.get_latest_block

module _ {S B V I : Type 0} (t : Tracker S B V) (g : Registries S I) (apart : StoreApart t)
    (queue_apart : QueueApart t)
    (store_left : (o : Option B) → StartLeaves (λ x. t.store.get x ≡ o) t.cache t.chain g)
    (queue_left : (ns : List ℕ) → StartLeaves (λ x. t.queue.waiting x ≡ ns) t.cache t.chain g)
    (statistics : (n : ℕ) (x : S) → t.queue.waiting (t.latest n x) ≡ t.queue.waiting x) where
  open t use {store, bolt, bits, queue}

  bootstrap-leaves :
      {P : S → Type 0} (registries watchlist blacklist : List String)
      → StartLeaves P t.cache t.chain g
      → Keeps P (bootstrap_cache t.eth t.cache g registries watchlist blacklist)
  bootstrap-leaves registries watchlist blacklist l =
      bootstrap_cache-Keeps t.eth t.cache g l.registries l.adds l.removes l.sizes registries
        watchlist blacklist

  zoom-waiting :
      {A : Type 0} (ns : List ℕ) (m : Exec (Option B) A)
      → Keeps (λ x. queue.waiting x ≡ ns) (zoom store m)
  unfolding zoom
  zoom-waiting ns m = record { at = λ x h. queue_apart.stores _ x ∙ h }

  new_syncer-waiting :
      (ns : List ℕ) (start_block : ℤ)
      → Keeps (λ x. queue.waiting x ≡ ns) (new_syncer (chain_syncer t) start_block)
  unfolding new_syncer init_lower_bound set_latest_block
  new_syncer-waiting ns start_block = Keeps-bind _ _ (queue_left ns).newest λ n.
      Keeps-bind _ _ (zoom-waiting ns _) λ lower.
        Keeps-bind _ _ (Keeps-if (lower == 0) _ _ (zoom-waiting ns _) (Keeps-pure tt)) λ _.
          Keeps-bind _ _ (zoom-waiting ns _)
            λ _. Keeps-bind _ _ (record { at = λ x h. statistics n x ∙ h }) (λ _. Keeps-lift t.dial)

  booted :
      (registries watchlist blacklist : List String) (b : B) (s s1 : S)
      → store.get s ≡ some b
      → bootstrap_cache t.eth t.cache g registries watchlist blacklist s ≡ (ok tt, s1)
      → (store.get s1 ≡ some b) × (queue.waiting s1 ≡ queue.waiting s)
  booted registries watchlist blacklist b s s1 held h = (
    ap (λ (r : Result (Unit {0}) × S). store.get r.1) (sym h)
        ∙ (bootstrap-leaves registries watchlist blacklist (store_left (some b))).at s held,
    ap (λ (r : Result (Unit {0}) × S). queue.waiting r.1) (sym h)
        ∙ (bootstrap-leaves registries watchlist blacklist (queue_left (queue.waiting s))).at s
            refl,
  )

  -- The store after the syncer has started again.
  synced_store :
      (start_block : ℤ) (n lower : ℕ) (b : B) (s s' : S)
      → ((x : Option B) → bolt.begin x ≡ ok tt)
      → ((x : S) → (t.chain.get_latest_block x).0 ≡ ok n)
      → store.get s ≡ some b
      → bolt.get b lower_bound_key ≡ some (marshal_uint64 lower)
      → 0 < lower
      → lower < u64_mod
      → new_syncer (chain_syncer t) start_block s ≡ (ok tt, s')
      → (b' : B) × (store.get s' ≡ some b')
        × (bolt.get b' lower_bound_key ≡ some (marshal_uint64 lower))
        × (bolt.get b' upper_bound_key ≡ some (marshal_uint64 n))
        × SameMarks bolt b b'
  synced_store start_block n lower b s s' opens newest held low above small h =
      let (n', lower', b0, b', asked, read, held0, held', up, low', marks) =
        new_syncer-bounds store bolt bits t.chain queue.pool t.latest t.dial start_block s s'
          (λ o. (store_left o).newest) apart.statistics h in
      let same : b0 ≡ b = some_injective b0 b (sym held0 ∙ held) in
      let same_n : n' ≡ n = ok_injective n' n (sym asked ∙ newest s) in
      let same_lower : lower' ≡ lower = ok_injective lower' lower (
        ap (λ (r : Result ℕ × Option B). r.0)
          (sym read ∙ get_lower_bound-read bolt (store.get s) b lower held (opens _) low small)) in
      let is_set : (lower' == 0) ≡ false = ground arith in
      (
        b',
        held',
        (rw is_set at low') ∙ ap (λ x. bolt.get x lower_bound_key) same ∙ low,
        up ∙ ap (λ m. some (marshal_uint64 m)) same_n,
        subst (λ x. SameMarks bolt x b') same marks,
      )

  -- If only the block store's own calls write to it and only the calls of the pool to its queue, every
  -- transaction can be opened, the chain's latest block is `n`, and the store holds a lower bound
  -- above 0 and at most `n`, with `n` below the last uint64: a start of the service that returns has
  -- put behind the waiting tasks, in increasing order, the first batch of the blocks from the lower
  -- bound to `n` that are not marked as processed.
  pub waiting-start :
      (registries watchlist blacklist : List String) (start_block : ℤ) (n lower : ℕ) (b : B)
      (s s' : S)
      → ((x : Option B) → bolt.begin x ≡ ok tt)
      → ((x : S) → (t.chain.get_latest_block x).0 ≡ ok n)
      → store.get s ≡ some b
      → bolt.get b lower_bound_key ≡ some (marshal_uint64 lower)
      → 0 < lower
      → lower ≤ n
      → n + 1 < u64_mod
      → start t g registries watchlist blacklist start_block s ≡ (ok tt, s')
      → (missing : List ℕ) × IsIncreasing missing
        × ((v : ℕ) → contains missing v ≡ ((leb lower v && leb v n) && not (has_block bolt b v)))
        × (queue.waiting s' ≡ queue.waiting s ++ take t.batch_size missing)
  unfolding start initial_run
  waiting-start registries watchlist blacklist start_block n lower b s s' opens newest held low
        above le small h =
      let (_, s1, boot, r1) = >>=-returns _ _ s s' tt h in
      let (_, s2, synced, r2) = >>=-returns _ _ s1 s' tt r1 in
      let (store1, queue1) =
        booted registries watchlist blacklist b s s1 held (or_exit-returns _ s s1 tt boot) in
      let syncs = or_exit-returns _ s1 s2 tt synced in
      let (b2, held2, low2, up2, marks2) =
        synced_store start_block n lower b s1 s2 opens newest store1 low above (omega arith)
          syncs in
      let queue2 =
        ap (λ (r : Result (Unit {0}) × S). queue.waiting r.1) (sym syncs)
        ∙ (new_syncer-waiting (queue.waiting s) start_block).at s1 queue1 in
      let (missing, increasing, exact, ran) =
        run-exact store bolt bits queue.pool t.reset t.batch_size false lower n b2 s2 held2
          (opens (some b2)) low2 up2 le small in
      (
        missing,
        increasing,
        (λ v. exact v ∙ ap (λ m. (leb lower v && leb v n) && not m) (marks2 v)),
        waiting-run t apart queue_apart missing s2 s' (
              ap (λ (r : Result (Unit {0}) × S). r.1) (sym r2)
              ∙ ap (λ (r : Result (Unit {0}) × S). r.1) ran)
            ∙ ap (λ ns. ns ++ take t.batch_size missing) queue2,
      )
