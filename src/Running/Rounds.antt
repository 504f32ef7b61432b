-- ===== src/Running/Rounds.antt =====
-- The backfill catches up: rounds of a tick followed by the tasks that it queued mark every block.
use eth_tracker.Prelude.{
  ℕ, zero, suc, ◌<◌, ◌≤◌, ◌+◌, ◌*◌, ◌≡◌, refl, sym, ap, ◌∙◌, subst, true, not, ◌&&◌, ◌||◌, List, [],
  ◌∷◌, ◌++◌, some, inl, inr, All, Bool-cases, contains, leb, leb→le, length, take, drop, nat_eq,
  arith,
}
use eth_tracker.Result.{Result, ok}
use eth_tracker.Db.Bytes.{u64_mod, marshal_uint64}
use eth_tracker.Db.Bitset.{IsIncreasing}
use eth_tracker.Db.Increasing.{increasing_unique, drop-IsIncreasing, contains-drop, length-drop}
use eth_tracker.Db.Bolt.{lower_bound_key, upper_bound_key}
use eth_tracker.Db.Missing.{has_block}
use eth_tracker.Processor.{process_block}
use eth_tracker.Backfill.{last_checked, run, tick}
use eth_tracker.Backfill.Push.{All-take}
use eth_tracker.Backfill.Run.{run-exact, All-of_contains}
use eth_tracker.Running.{Tracker, block_processor, backfill}
use eth_tracker.Running.Marks.{StoreApart, ticked-store}
use eth_tracker.Running.Tasks.{QueueApart, complete, complete-exact, waiting-run}

module _ {S B V : Type 0} (t : Tracker S B V) where
  -- A tick of the backfill, after which the workers complete what waits.
  unfoldable pub round : S → S
  round s = complete t (t.queue.waiting (tick (backfill t) s)) (tick (backfill t) s)

  unfoldable pub rounds : ℕ → S → S
  rounds zero s = s
  rounds (suc k) s = rounds k (round s)

  -- The list has exactly the blocks of the range that the bucket does not mark.
  abbrev pub IsMissing : ℕ → ℕ → B → List ℕ → Type 0
  IsMissing lower upper b missing =
      IsIncreasing missing
      × ((v : ℕ)
          → contains missing v ≡ (
              (leb lower v && leb v (last_checked true lower upper)) && not (has_block t.bolt b v)))

  -- The store holds the bucket, with these bounds, and no task waits.
  abbrev pub IsIdle : ℕ → ℕ → B → S → Type 0
  IsIdle lower upper b s =
      (t.store.get s ≡ some b)
      × (t.bolt.get b lower_bound_key ≡ some (marshal_uint64 lower))
      × (t.bolt.get b upper_bound_key ≡ some (marshal_uint64 upper))
      × (t.queue.waiting s ≡ [])

module _ {S B V : Type 0} (t : Tracker S B V) (apart : StoreApart t)
    (queue_apart : QueueApart t) where
  open t use {store, bolt, bits, queue}

  module _ (opens : (b : B) → bolt.begin (some b) ≡ ok tt) (lower upper : ℕ)
      (ordered : lower ≤ upper) (small : upper + 1 < u64_mod) where
    -- A tick of an idle service queues the first missing blocks.
    tick-waiting :
        (b : B) (s : S) (missing : List ℕ)
        → IsIdle t lower upper b s
        → IsMissing t lower upper b missing
        → queue.waiting (tick (backfill t) s) ≡ take t.batch_size missing
    unfolding tick
    tick-waiting b s missing (held, low, up, empty) (increasing, exact) =
        let (found, found_increasing, found_exact, ran) =
          run-exact store bolt bits queue.pool t.reset t.batch_size true lower upper b s held
            (opens b) low up ordered small in
        let same : found ≡ missing =
          increasing_unique found missing found_increasing increasing
            (λ v. found_exact v ∙ sym (exact v)) in
        rw (queue.size_lem s, empty)
          (subst (λ ms. queue.waiting (run (backfill t) true s).1 ≡ take t.batch_size ms) same
            (waiting-run t apart queue_apart found s _ (ap (λ (r : Result (Unit {0}) × S). r.1) ran)
              ∙ ap (λ ns. ns ++ take t.batch_size found) empty))

    module _
        (succeeds : (n : ℕ) (x : S) (b : B)
          → store.get x ≡ some b
          → (process_block (block_processor t) n x).0 ≡ ok tt) where
      left_over :
          (missing queued : List ℕ) (b b' : B) (v : ℕ)
          → queued ≡ take t.batch_size missing
          → IsIncreasing missing
          → contains missing v
            ≡ ((leb lower v && leb v (last_checked true lower upper)) && not (has_block bolt b v))
          → (v < u64_mod → has_block bolt b' v ≡ (contains queued v || has_block bolt b v))
          → contains (drop t.batch_size missing) v
            ≡ ((leb lower v && leb v (last_checked true lower upper)) && not (has_block bolt b' v))
      left_over missing queued b b' v first increasing exact marks =
          let within : last_checked true lower upper ≤ upper = ground arith in
          elim (Bool-cases (leb v (last_checked true lower upper))) [
            | inl before ↦
                let fits : v < u64_mod =
                  omega (arith, leb→le v (last_checked true lower upper) before) in
                ground (
                  arith,
                  contains-drop t.batch_size v missing increasing,
                  marks fits,
                  ap (λ ns. contains ns v) first,
                )
            | inr beyond ↦ ground (arith, contains-drop t.batch_size v missing increasing)
          ]

      -- After a round the service is idle again, without the first missing blocks.
      round-IsMissing :
          (b : B) (s : S) (missing : List ℕ)
          → IsIdle t lower upper b s
          → IsMissing t lower upper b missing
          → (b' : B) × IsIdle t lower upper b' (round t s)
            × IsMissing t lower upper b' (drop t.batch_size missing)
      unfolding round
      round-IsMissing b s missing (held, low, up, empty) (increasing, exact) =
          let s1 : S = tick (backfill t) s in
          let queued : queue.waiting s1 ≡ take t.batch_size missing =
            tick-waiting b s missing (held, low, up, empty) (increasing, exact) in
          let within : last_checked true lower upper ≤ upper = ground arith in
          let fits : All (λ n. n < u64_mod) missing =
            All-of_contains _ missing
              λ v there. let le : v ≤ upper = ground (arith, exact v) in omega arith in
          let (b', held', marks, low', up', empty') =
            complete-exact t apart queue_apart succeeds (queue.waiting s1) b s1
              (ticked-store t apart s ∙ held) refl
              (subst (All (λ n. n < u64_mod)) (sym queued)
                (All-take _ t.batch_size missing fits)) in
          (
            b',
            (held', low' ∙ low, up' ∙ up, empty'),
            (
              drop-IsIncreasing t.batch_size missing increasing,
              (λ v.
                  left_over missing (queue.waiting s1) b b' v queued increasing (exact v)
                    (marks v)),
            ),
          )

      -- If only the block store's own calls write to it and only the calls of the pool to its
      -- queue, every transaction can be opened, every block is processed without an error from each
      -- state whose store holds a bucket, and the store holds a lower bound at most the upper one,
      -- that below the last uint64, then from a state in which no task waits: `k` rounds of a tick
      -- and of the tasks that then wait, with `k` times the batch size at least the number of
      -- missing blocks, mark every block between the bounds, the upper one left out if they differ.
      -- The bounds are then as they were, and no task waits.
      pub has_block-rounds :
          (k : ℕ) (b : B) (s : S) (missing : List ℕ)
          → IsIdle t lower upper b s
          → IsMissing t lower upper b missing
          → length missing ≤ k * t.batch_size
          → (b' : B) × IsIdle t lower upper b' (rounds t k s)
            × ((v : ℕ) → lower ≤ v → v ≤ last_checked true lower upper → has_block bolt b' v ≡ true)
      unfolding rounds
      has_block-rounds zero b s [] is_idle missing few =
          (b, is_idle, λ v from to. ground (arith, missing.1 v))
      has_block-rounds zero b s (x ∷ xs) is_idle missing few = absurd (omega arith)
      has_block-rounds (suc k) b s missing is_idle is_missing few =
          let (b', idle', missing') = round-IsMissing b s missing is_idle is_missing in
          has_block-rounds k b' (round t s) (drop t.batch_size missing) idle' missing'
            (omega (arith, length-drop t.batch_size missing))
