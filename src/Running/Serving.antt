-- ===== src/Running/Serving.antt =====
-- cmd/service/main.go: from the file of the block store to the queue of the first run.
use eth_tracker.Prelude.{
  ℕ, pos, ◌<◌, ◌≤◌, ◌+◌, ◌≡◌, refl, sym, ap, ◌∙◌, false, not, ◌&&◌, ◌==◌, List, ◌++◌, Option, some,
  is_some, contains, leb, take, nat_eq, arith,
}
use eth_tracker.Result.{Result, ok, ok_injective}
use eth_tracker.Exec.Keeps.{Keeps, Keeps-bind, keeps_rules}
use eth_tracker.Exec.Lens.{Lens}
use eth_tracker.Cache.MapCache.{XMap}
use eth_tracker.Cache.Bootstrap.{Registries}
use eth_tracker.Cache.Bootstrap.Keeps.{Keeps-or_exit}
use eth_tracker.Db.Bytes.{u64_mod, marshal_uint64}
use eth_tracker.Db.Bitset.{IsIncreasing}
use eth_tracker.Db.Bolt.{lower_bound_key}
use eth_tracker.Db.Values.{get_lower_bound-read}
use eth_tracker.Db.Open.{entry}
use eth_tracker.Backfill.Run.{run-exact}
use eth_tracker.Running.{Tracker}
use eth_tracker.Running.Configured.{SetUpLeaves, zoom-Keeps, pub-Keeps, syncer-Keeps}
use eth_tracker.Running.Marks.{StoreApart}
use eth_tracker.Running.Reopened.{MainLeaves, chain-Keeps, cache-Keeps, set_up-bounds}
use eth_tracker.Running.SetUp.{Outside, Components, set_up, set_up_db, set_up_components}
use eth_tracker.Running.Start.{initial_run}
use eth_tracker.Running.Tasks.{QueueApart, waiting-run}

-- The backfill has the batch size of the settings.
abbrev pub with_batch_size : {S B V : Type 0} → ℕ → Tracker S B V → Tracker S B V
with_batch_size n t = record t { batch_size = n }

module _ {S B V I M C : Type 0} (t : Tracker S B V) (g : Registries S I) (xmap : XMap M)
    (addresses : Lens S M) (o : Outside S B C t.bolt) where
  open t use {store, bolt, bits, queue}

  module _ {P : S → Type 0} (l : MainLeaves P t g addresses o) (u : SetUpLeaves P t o.nats) where
    db-Keeps : Keeps P (set_up_db t g xmap addresses o)
    unfolding set_up_db
    db-Keeps = search (keeps_rules, Keeps-or_exit, zoom-Keeps t g xmap addresses o u)

    components-Keeps : (p : C) → Keeps P (set_up_components t g xmap addresses o p)
    unfolding set_up_components
    components-Keeps p = search keeps_rules

    set_up-Keeps : Keeps P (set_up t g xmap addresses o)
    unfolding set_up
    set_up-Keeps = Keeps-bind _ _ (chain-Keeps t g xmap addresses o l) λ _.
        Keeps-bind _ _ db-Keeps λ _. Keeps-bind _ _ (cache-Keeps t g xmap addresses o l) λ _.
          Keeps-bind _ _ (pub-Keeps t g xmap addresses o l.publisher)
            λ p. Keeps-bind _ _ (syncer-Keeps t g xmap addresses o u) (λ _. components-Keeps p)

  module _ (apart : StoreApart t) (queue_apart : QueueApart t) (batch : ℕ) where
    abbrev batched : Tracker S B V
    batched = with_batch_size batch t

    batched-StoreApart : StoreApart batched
    batched-StoreApart = record {
      clients = apart.clients;
      pushes = apart.pushes;
      begins = apart.begins;
      resets = apart.resets;
      statistics = apart.statistics;
    }

    batched-QueueApart : QueueApart batched
    batched-QueueApart = record {
      clients = queue_apart.clients;
      stores = queue_apart.stores;
      resets = queue_apart.resets;
    }

    -- If only the block store's own calls write to it and only the calls of the pool to its queue,
    -- every transaction can be opened, the chain's latest block is `n`, and the file of the block store
    -- has a lower bound above 0 and at most `n`, with `n` below the last uint64: once the part of
    -- `main` before its routines has returned with a batch size of `batch`, the first run of the
    -- backfill has put behind the waiting tasks, in increasing order, the first `batch` of the blocks
    -- from the lower bound to `n` that the file does not mark as processed.
    pub waiting-set_up :
        (n lower : ℕ) (s s1 s' : S) (c : Components C)
        → ((x : Option B) → MainLeaves (λ y. store.get y ≡ x) t g addresses o)
        → ((ns : List ℕ) → MainLeaves (λ y. queue.waiting y ≡ ns) t g addresses o)
        → ((m : ℕ) (x : S) → queue.waiting (t.latest m x) ≡ queue.waiting x)
        → ((x : Option B) → bolt.begin x ≡ ok tt)
        → ((x : S) → (t.chain.get_latest_block x).0 ≡ ok n)
        → entry bolt (store.get s) lower_bound_key ≡ some (marshal_uint64 lower)
        → 0 < lower
        → lower ≤ n
        → n + 1 < u64_mod
        → set_up t g xmap addresses o s ≡ (ok c, s1)
        → c.backfill_size ≡ pos batch
        → initial_run (with_batch_size batch t) g s1 ≡ (ok tt, s')
        → (missing : List ℕ) × IsIncreasing missing
          × ((v : ℕ)
              → contains missing v ≡ (
                  (leb lower v && leb v n)
                  && not (is_some (entry bolt (store.get s) (marshal_uint64 v)))))
          × (queue.waiting s' ≡ queue.waiting s ++ take batch missing)
    unfolding initial_run
    waiting-set_up n lower s s1 s' c store_left queue_left statistics opens newest low above le
          small ready size ran =
        let (n1, lower1, asked, b, b', latest, entries, read, held, upper, bound, marks) =
          set_up-bounds t g xmap addresses o s s1 c store_left apart.statistics ready in
        let same_n : n1 ≡ n = ok_injective n1 n (sym latest ∙ newest asked) in
        let same_lower : lower1 ≡ lower = ok_injective lower1 lower (
          ap (λ (r : Result ℕ × Option B). r.0)
            (sym read
              ∙ get_lower_bound-read bolt (some b) b lower refl (opens _)
                  (entries lower_bound_key ∙ low) (omega arith))) in
        let is_set : (lower1 == 0) ≡ false = ground arith in
        let (missing, increasing, exact, first) =
          run-exact store bolt bits queue.pool t.reset batch false lower n b' s1 held
            (opens (some b')) ((rw is_set at bound) ∙ low)
            (upper ∙ ap (λ m. some (marshal_uint64 m)) same_n) le small in
        let unmoved : queue.waiting s1 ≡ queue.waiting s =
          ap (λ (r : Result (Components C) × S). queue.waiting r.1) (sym ready)
          ∙ (set_up-Keeps (queue_left (queue.waiting s)) (record {
            stores = λ x y h. queue_apart.stores x y ∙ h;
            newest = (queue_left (queue.waiting s)).newest;
            statistics = λ m y h. statistics m y ∙ h;
            publisher = (queue_left (queue.waiting s)).publisher;
          })).at
              s refl in
        (
          missing,
          increasing,
          (λ v. exact v ∙ ap (λ m. (leb lower v && leb v n) && not m) (marks v)),
          waiting-run batched batched-StoreApart batched-QueueApart missing s1 s' (
                ap (λ (r : Result (Unit {0}) × S). r.1) (sym ran)
                ∙ ap (λ (r : Result (Unit {0}) × S). r.1) first)
              ∙ ap (λ ns. ns ++ take batch missing) unmoved,
        )
