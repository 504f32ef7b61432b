-- ===== src/Running/Tasks.antt =====
-- What the workers of the pool and a run of the backfill do to the queue.
use eth_tracker.Prelude.{
  ℕ, ◌<◌, ◌≡◌, refl, sym, ap, ◌∙◌, false, ◌||◌, ◌==◌, List, [], ◌∷◌, ◌++◌, append-nil, append_assoc,
  Option, some, All, contains, ltb, length, take, nat_eq, arith, if◌then◌else◌,
}
use eth_tracker.Result.{ok}
use eth_tracker.Exec.Lens.{zoom}
use eth_tracker.Db.Bytes.{u64_mod}
use eth_tracker.Db.Bolt.{lower_bound_key, upper_bound_key}
use eth_tracker.Db.Missing.{has_block}
use eth_tracker.Processor.{process_block}
use eth_tracker.Processor.Marks.{Leaves, process_block-Keeps}
use eth_tracker.Pool.Queue.{Queue, task}
use eth_tracker.Backfill.{Interval, idle, busy}
use eth_tracker.Backfill.Push.{push_all, take-nil}
use eth_tracker.Running.{Tracker, block_processor}
use eth_tracker.Running.Marks.{StoreApart, process_block-exact}

-- Only the calls of the pool write to its queue.
pub record QueueApart {S B V : Type 0} (t : Tracker S B V) : Type 0 where
  pub clients : (ns : List ℕ) → Leaves (λ s. t.queue.waiting s ≡ ns) t.cache t.chain t.callback
  pub stores : (x : Option B) (s : S) → t.queue.waiting (t.store.put x s) ≡ t.queue.waiting s
  pub resets : (i : Interval) (s : S) → t.queue.waiting (t.reset i s) ≡ t.queue.waiting s

module _ {S B V : Type 0} (t : Tracker S B V) where
  -- Workers complete the waiting tasks, in order.
  unfoldable pub complete : List ℕ → S → S
  complete [] s = s
  complete (n ∷ ns) s = complete ns (task (block_processor t) n (t.queue.begin s))

waiting-push_all :
    {S : Type 0} (q : Queue S) (ns : List ℕ) (s : S)
    → q.waiting (push_all q.pool ns s) ≡ q.waiting s ++ ns
waiting-push_all q [] s = sym (append-nil _)
waiting-push_all q (n ∷ ns) s =
    waiting-push_all q ns (q.pool.push n s)
    ∙ ap (λ xs. xs ++ ns) (q.waiting-push n s)
    ∙ append_assoc (q.waiting s) (n ∷ []) ns

module _ {S B V : Type 0} (t : Tracker S B V) (apart : StoreApart t)
    (queue_apart : QueueApart t) where
  open t use {store, bolt, bits, queue}

  -- A run has put the first missing blocks behind those that waited.
  pub waiting-run :
      (missing : List ℕ) (s s' : S)
      → s' ≡ (
          if length missing == 0
          then s
          else t.reset
              (if ltb t.batch_size (length missing) then busy else idle)
              (push_all queue.pool (take t.batch_size missing) s))
      → queue.waiting s' ≡ queue.waiting s ++ take t.batch_size missing
  waiting-run [] s s' e =
      ap queue.waiting e
      ∙ sym (append-nil _)
      ∙ ap (λ ns. queue.waiting s ++ ns) (sym (take-nil t.batch_size))
  waiting-run (x ∷ xs) s s' e =
      let some_missing : (length (x ∷ xs) == 0) ≡ false = ground arith in
      ap queue.waiting (rw some_missing at e)
      ∙ queue_apart.resets _ _
      ∙ waiting-push_all queue (take t.batch_size (x ∷ xs)) s

  pub task-waiting :
      (n : ℕ) (s : S) → queue.waiting (process_block (block_processor t) n s).1 ≡ queue.waiting s
  unfolding zoom
  task-waiting n s =
      (process_block-Keeps store bolt bits t.eth t.cache t.chain t.callback
          {P = λ x. queue.waiting x ≡ queue.waiting s} n (queue_apart.clients (queue.waiting s))
          (record { at = λ x h. queue_apart.stores _ x ∙ h })).at
        s refl

  module _
      (succeeds : (n : ℕ) (x : S) (b : B)
        → store.get x ≡ some b
        → (process_block (block_processor t) n x).0 ≡ ok tt) where
    pub complete-exact :
        (ns : List ℕ) (b : B) (s : S)
        → store.get s ≡ some b
        → queue.waiting s ≡ ns
        → All (λ n. n < u64_mod) ns
        → (b' : B) × (store.get (complete t ns s) ≡ some b')
          × ((w : ℕ) → w < u64_mod → has_block bolt b' w ≡ (contains ns w || has_block bolt b w))
          × (bolt.get b' lower_bound_key ≡ bolt.get b lower_bound_key)
          × (bolt.get b' upper_bound_key ≡ bolt.get b upper_bound_key)
          × (queue.waiting (complete t ns s) ≡ [])
    unfolding complete task
    complete-exact [] b s held waits small = (b, held, (λ w fits. refl), refl, refl, waits)
    complete-exact (n ∷ ns) b s held waits small =
        let s1 : S = queue.begin s in
        let held1 : store.get s1 ≡ some b = apart.begins s ∙ held in
        let (b1, held2, marks1, lower1, upper1) =
          process_block-exact t apart n b s1 small.0 held1 (succeeds n s1 b held1) in
        let (b', held', marks, lower, upper, empty) =
          complete-exact ns b1 _ held2 (task-waiting n s1 ∙ queue.waiting-begin n ns s waits)
            small.1 in
        (
          b',
          held',
          (λ w fits. ground (arith, marks w fits, marks1 w fits)),
          lower ∙ lower1,
          upper ∙ upper1,
          empty,
        )
