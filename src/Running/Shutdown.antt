-- ===== src/Running/Shutdown.antt =====
-- cmd/service/main.go: the graceful shutdown. The worker pool is stopped after its tasks are completed,
-- then the block store is cleaned up; an error of that is only logged.
use eth_tracker.Prelude.{
  ℕ, ◌<◌, ◌≤◌, ◌≡◌, refl, sym, ap, ◌∙◌, true, List, [], ◌∷◌, ◌++◌, Option, some, some_injective,
  inl, inr, All, nat_eq, arith,
}
use eth_tracker.Result.{Result, ok}
use eth_tracker.Exec.Lens.{zoom}
use eth_tracker.Db.Bytes.{u64_mod, marshal_uint64}
use eth_tracker.Db.Bolt.{lower_bound_key, cleanup}
use eth_tracker.Db.Missing.{has_block}
use eth_tracker.Db.Values.{get_lower_bound-read}
use eth_tracker.Db.Cleanup.{cleanup-keeps, cleanup-rolls_back}
use eth_tracker.Processor.{process_block}
use eth_tracker.Pool.Queue.{task}
use eth_tracker.Running.{Tracker, block_processor, processed, Steps, worked, stays, goes}
use eth_tracker.Running.Marks.{StoreApart, Steps-Marked, ok_or_not}
use eth_tracker.Running.Tasks.{QueueApart, complete, task-waiting}

module _ {S B V : Type 0} (t : Tracker S B V) where
  unfoldable pub shut_down : S → S
  shut_down s = (zoom t.store (cleanup t.bolt) (complete t (t.queue.waiting s) s)).1

module _ {S B V : Type 0} (t : Tracker S B V) (apart : StoreApart t)
    (queue_apart : QueueApart t) where
  open t use {store, bolt, queue}

  -- Completing the waiting tasks is a sequence of steps of the workers.
  pub complete-Steps :
      (ns : List ℕ) (s : S)
      → queue.waiting s ≡ ns
      → All (λ n. n < u64_mod) ns
      → (done : List ℕ) × Steps t s done (complete t ns s)
  unfolding complete task
  complete-Steps [] s waits small = ([], stays)
  complete-Steps (n ∷ ns) s waits small =
      let s1 : S = queue.begin s in
      let (later, steps) =
        complete-Steps ns _
          (task-waiting t apart queue_apart n s1 ∙ queue.waiting-begin n ns s waits) small.1 in
      (
        processed t n (process_block (block_processor t) n s1).0 ++ later,
        goes (worked n ns waits small.0) steps,
      )

  -- The bucket after a cleanup, whether it returned or failed.
  pub cleaned :
      (s : Option B) (b : B) (lower : ℕ)
      → s ≡ some b
      → bolt.begin s ≡ ok tt
      → bolt.get b lower_bound_key ≡ some (marshal_uint64 lower)
      → 0 < lower
      → lower < u64_mod
      → (b' : B) × ((cleanup bolt s).1 ≡ some b')
        × ((w : ℕ) → lower ≤ w → w < u64_mod → has_block bolt b' w ≡ has_block bolt b w)
        × (bolt.get b' lower_bound_key ≡ bolt.get b lower_bound_key)
  cleaned s b lower held opens low above small =
      let read = get_lower_bound-read bolt s b lower held opens low small in
      elim (ok_or_not (cleanup bolt s).0) [
        | inl fine ↦
            let (b0, b', from, to, marks, lower_kept, upper_kept) =
              cleanup-keeps bolt s (cleanup bolt s).1 lower read above small
                (ap (λ (r : Result (Unit {0})). (r, (cleanup bolt s).1)) fine) in
            let same : b0 ≡ b = some_injective b0 b (sym from ∙ held) in
            (
              b',
              to,
              (λ w past fits. marks w past fits ∙ ap (λ x. has_block bolt x w) same),
              lower_kept ∙ ap (λ x. bolt.get x lower_bound_key) same,
            )
        | inr failed ↦ (
          b,
          cleanup-rolls_back bolt s lower read above failed ∙ held,
          (λ w past fits. refl),
          refl,
        )
      ]

  -- If only the block store's own calls write to it and only the calls of the pool to its queue, every
  -- transaction can be opened, the waiting tasks are uint64 and the lower bound is above 0 and below
  -- 2^64: the shutdown keeps the mark of each block from the lower bound on that has one, and the
  -- lower bound.
  pub shut_down-keeps :
      (b : B) (s : S) (lower : ℕ)
      → ((x : Option B) → bolt.begin x ≡ ok tt)
      → store.get s ≡ some b
      → bolt.get b lower_bound_key ≡ some (marshal_uint64 lower)
      → 0 < lower
      → lower < u64_mod
      → All (λ n. n < u64_mod) (queue.waiting s)
      → (b' : B) × (store.get (shut_down t s) ≡ some b')
        × ((w : ℕ)
            → lower ≤ w
            → w < u64_mod
            → has_block bolt b w ≡ true
            → has_block bolt b' w ≡ true)
        × (bolt.get b' lower_bound_key ≡ some (marshal_uint64 lower))
  unfolding shut_down zoom
  shut_down-keeps b s lower opens held low above small fits =
      let (done, steps) = complete-Steps (queue.waiting s) s refl fits in
      let (b1, held1, marks1, low1) = Steps-Marked t apart s _ done b steps held in
      let (b', held', marks, low') = cleaned _ b1 lower held1 (opens _) (low1 ∙ low) above small in
      (
        b',
        store.get-put _ _ ∙ held',
        (λ w past small_w there. ground (arith, marks w past small_w, marks1 w small_w)),
        low' ∙ low1 ∙ low,
      )
