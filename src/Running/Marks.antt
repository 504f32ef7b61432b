-- ===== src/Running/Marks.antt =====
-- Which blocks are marked after any number of steps.
use eth_tracker.Prelude.{
  ℕ, ◌<◌, ◌≡◌, ◌≢◌, refl, sym, ap, ◌∙◌, ◌||◌, ◌==◌, List, [], some, inl, inr, ◌⊎◌, contains,
  contains-append, some_injective, nat_eq, arith,
}
use eth_tracker.Result.{Result, ok, err, panic, diverges}
use eth_tracker.Exec.{◌>>=◌}
use eth_tracker.Exec.Lens.{zoom}
use eth_tracker.Db.Bytes.{u64_mod, marshal_uint64}
use eth_tracker.Db.Bolt.{lower_bound_key, upper_bound_key, set_upper_bound, set_uint64}
use eth_tracker.Db.Reads.{get_lower_bound-Keeps, get_upper_bound-Keeps, get_missing-Keeps}
use eth_tracker.Db.Missing.{has_block}
use eth_tracker.Db.Values.{set_value-exact, update-rolls_back}
use eth_tracker.Processor.{process_block}
use eth_tracker.Processor.Marks.{LeavesStore, process_block-stores, process_block-unmarked}
use eth_tracker.Backfill.{Interval, tick}
use eth_tracker.Backfill.Keeps.{tick-Keeps}
use eth_tracker.Syncer.{queue_realtime_block, set_latest_block, push}
use eth_tracker.Syncer.Bounds.{queue_realtime_block-bounds}
use eth_tracker.Running.{
  Tracker, block_processor, chain_syncer, backfill, processed, Step, announced, ticked, worked,
  Steps, stays, goes,
}

-- Only the block store's own calls write to it.
pub record StoreApart {S B V : Type 0} (t : Tracker S B V) : Type 0 where
  pub clients : LeavesStore t.store t.cache t.chain t.callback
  pub pushes : (n : ℕ) (s : S) → t.store.get (t.queue.pool.push n s) ≡ t.store.get s
  pub begins : (s : S) → t.store.get (t.queue.begin s) ≡ t.store.get s
  pub resets : (i : Interval) (s : S) → t.store.get (t.reset i s) ≡ t.store.get s
  pub statistics : (n : ℕ) (s : S) → t.store.get (t.latest n s) ≡ t.store.get s

pub ok_or_not : (r : Result (Unit {0})) → (r ≡ ok tt) ⊎ (r ≢ ok tt)
ok_or_not (ok tt) = inl refl
ok_or_not (err e) = inr (λ h. cc h)
ok_or_not panic = inr (λ h. cc h)
ok_or_not diverges = inr (λ h. cc h)

module _ {S B V : Type 0} (t : Tracker S B V) (apart : StoreApart t) where
  open t use {store, bolt, bits, queue}

  pub ticked-store : (s : S) → store.get (tick (backfill t) s) ≡ store.get s
  ticked-store s =
      tick-Keeps {P = λ x. store.get x ≡ store.get s} (backfill t)
        (record {
          lowers = get_lower_bound-Keeps store bolt bits;
          uppers = get_upper_bound-Keeps store bolt bits;
          missing = get_missing-Keeps store bolt bits;
          pushes = λ n x h. apart.pushes n x ∙ h;
          resets = λ i x h. apart.resets i x ∙ h;
        })
        s refl

  -- The store holds a bucket in which exactly the blocks of `done` are newly marked, and the lower
  -- bound is as it was.
  abbrev pub Marked : List ℕ → B → S → Type 0
  Marked done b s' =
      (b' : B) × (store.get s' ≡ some b')
      × ((w : ℕ) → w < u64_mod → has_block bolt b' w ≡ (contains done w || has_block bolt b w))
      × (bolt.get b' lower_bound_key ≡ bolt.get b lower_bound_key)

  pub unmoved :
      (b : B) (s s' : S) → store.get s ≡ some b → store.get s' ≡ store.get s → Marked [] b s'
  unmoved b s s' held same = (b, same ∙ held, (λ w fits. refl), refl)

  queueing_fails :
      (n : ℕ) (s : S)
      → (queue_realtime_block (chain_syncer t) n s).0 ≢ ok tt
      → store.get (queue_realtime_block (chain_syncer t) n s).1 ≡ store.get s
  unfolding queue_realtime_block push set_latest_block ◌>>=◌ zoom set_upper_bound set_uint64
  queueing_fails n s failed =
      store.get-put _ _
      ∙ update-rolls_back bolt (λ b. bolt.put b upper_bound_key (marshal_uint64 n)) _ failed
      ∙ apart.statistics n (queue.pool.push n s)
      ∙ apart.pushes n s

  pub announced-Marked :
      (n : ℕ) (b : B) (s : S)
      → store.get s ≡ some b
      → Marked [] b (queue_realtime_block (chain_syncer t) n s).1
  announced-Marked n b s held =
      let s' : S = (queue_realtime_block (chain_syncer t) n s).1 in
      elim (ok_or_not (queue_realtime_block (chain_syncer t) n s).0) [
        | inl fine ↦
            let (b0, b', from, to, upper, lower, marks) =
              queue_realtime_block-bounds store bolt bits t.chain queue.pool t.latest t.dial n s s'
                apart.statistics apart.pushes (ap (λ (r : Result (Unit {0})). (r, s')) fine) in
            let same : b0 ≡ b = some_injective b0 b (sym from ∙ held) in
            (
              b',
              to,
              (λ w fits. marks w ∙ ap (λ x. has_block bolt x w) same),
              lower ∙ ap (λ x. bolt.get x lower_bound_key) same,
            )
        | inr failed ↦ unmoved b s s' held (queueing_fails n s failed)
      ]

  failed :
      (n : ℕ) (s : S)
      → (process_block (block_processor t) n s).0 ≢ ok tt
      → store.get (process_block (block_processor t) n s).1 ≡ store.get s
  failed n s h =
      process_block-unmarked store bolt bits t.eth t.cache t.chain t.callback n s apart.clients h

  -- Processing a block without an error marks it, and changes nothing else in the store.
  pub process_block-exact :
      (n : ℕ) (b : B) (s : S)
      → n < u64_mod
      → store.get s ≡ some b
      → (process_block (block_processor t) n s).0 ≡ ok tt
      → (b' : B) × (store.get (process_block (block_processor t) n s).1 ≡ some b')
        × ((w : ℕ) → w < u64_mod → has_block bolt b' w ≡ (n == w || has_block bolt b w))
        × (bolt.get b' lower_bound_key ≡ bolt.get b lower_bound_key)
        × (bolt.get b' upper_bound_key ≡ bolt.get b upper_bound_key)
  process_block-exact n b s small held e =
      let s' : S = (process_block (block_processor t) n s).1 in
      let (all, stored) =
        process_block-stores store bolt bits t.eth t.cache t.chain t.callback n s s' apart.clients
          (ap (λ (x : Result (Unit {0})). (x, s')) e) in
      let (b0, b', from, to, marks, lower, upper) = set_value-exact bolt _ _ n stored small in
      let same : b0 ≡ b = some_injective b0 b (sym from ∙ held) in
      (
        b',
        to,
        (λ w fits. marks w fits ∙ ap (λ x. n == w || has_block bolt x w) same),
        lower ∙ ap (λ x. bolt.get x lower_bound_key) same,
        upper ∙ ap (λ x. bolt.get x upper_bound_key) same,
      )

  worked-Marked :
      (n : ℕ) (b : B) (s : S) (r : Result (Unit {0}))
      → n < u64_mod
      → store.get s ≡ some b
      → (process_block (block_processor t) n s).0 ≡ r
      → Marked (processed t n r) b (process_block (block_processor t) n s).1
  worked-Marked n b s (ok tt) small held e =
      let (b', to, marks, lower, upper) = process_block-exact n b s small held e in
      (b', to, (λ w fits. ground (arith, marks w fits)), lower)
  worked-Marked n b s (err x) small held e = unmoved b s _ held (failed n s (λ h. cc (h, e)))
  worked-Marked n b s panic small held e = unmoved b s _ held (failed n s (λ h. cc (h, e)))
  worked-Marked n b s diverges small held e = unmoved b s _ held (failed n s (λ h. cc (h, e)))

  Step-Marked :
      (s s' : S) (done : List ℕ) (b : B)
      → Step t s done s'
      → store.get s ≡ some b
      → Marked done b s'
  Step-Marked s s' done b (announced n small) held = announced-Marked n b s held
  Step-Marked s s' done b ticked held = unmoved b s _ held (ticked-store s)
  Step-Marked s s' done b (worked n ns waits small) held =
      worked-Marked n b (queue.begin s) _ small (apart.begins s ∙ held) refl

  -- While the service runs, and only the block store's own calls write to it: after any number of
  -- steps of the syncer, the backfill and the workers, in any order, exactly those blocks are marked
  -- that were marked before or were processed without an error in one of the steps; the lower bound
  -- is as it was.
  pub Steps-Marked :
      (s s' : S) (done : List ℕ) (b : B)
      → Steps t s done s'
      → store.get s ≡ some b
      → (b' : B) × (store.get s' ≡ some b')
        × ((w : ℕ) → w < u64_mod → has_block bolt b' w ≡ (contains done w || has_block bolt b w))
        × (bolt.get b' lower_bound_key ≡ bolt.get b lower_bound_key)
  Steps-Marked s s' done b stays held = (b, held, (λ w fits. refl), refl)
  Steps-Marked s s' done b (goes {mid = mid} {now = now} {later = later} step steps) held =
      let (b1, held1, marks1, lower1) = Step-Marked s mid now b step held in
      let (b', held', marks, lower) = Steps-Marked mid s' later b1 steps held1 in
      (
        b',
        held',
        (λ w fits. ground (arith, marks w fits, marks1 w fits, contains-append now later w)),
        lower ∙ lower1,
      )
