-- ===== src/Running/Stopping.antt =====
-- cmd/service/main.go: the order of the graceful shutdown.
use eth_tracker.Prelude.{
  ℕ, ◌<◌, ◌≤◌, ◌≡◌, refl, ◌∙◌, Bool, true, false, List, [], ◌∷◌, Option, some, All, Eq, ==_refl,
  nat_eq, arith,
}
use eth_tracker.Result.{ok}
use eth_tracker.Exec.Lens.{zoom}
use eth_tracker.Db.Bytes.{u64_mod, marshal_uint64}
use eth_tracker.Db.Bolt.{lower_bound_key, cleanup}
use eth_tracker.Db.Missing.{has_block}
use eth_tracker.Processor.Marks.{Leaves, process_block-Keeps}
use eth_tracker.Pool.Queue.{task}
use eth_tracker.Publisher.Connect.{Nats, close_pub}
use eth_tracker.Publisher.Connections.{Connections}
use eth_tracker.Running.{Tracker, block_processor}
use eth_tracker.Running.Marks.{StoreApart, Steps-Marked}
use eth_tracker.Running.Tasks.{QueueApart, complete}
use eth_tracker.Running.Shutdown.{complete-Steps, cleaned}

-- The worker pool is stopped once its tasks are completed, then the publisher is closed, and then the
-- block store is cleaned up.
unfoldable pub stop_service : {S B V C : Type 0} → Tracker S B V → Nats S C → Option C → S → S
stop_service t nats conn s =
    (zoom t.store (cleanup t.bolt) (close_pub nats conn (complete t (t.queue.waiting s) s))).1

-- Only `Connect` and `Close` change which connections are open, and they leave the block store alone.
pub record ConnectionApart {S B V C : Type 0} ⦃e : Eq C⦄ (t : Tracker S B V) (nats : Nats S C)
    (d : Connections nats) : Type 0 where
  pub clients : (c : C) (b : Bool) → Leaves (λ s. d.is_open s c ≡ b) t.cache t.chain t.callback
  pub stores : (x : Option B) (c : C) (s : S) → d.is_open (t.store.put x s) c ≡ d.is_open s c
  pub begins : (c : C) (s : S) → d.is_open (t.queue.begin s) c ≡ d.is_open s c
  pub closes : (c : C) (s : S) → t.store.get (nats.close c s) ≡ t.store.get s

module _ {S B V C : Type 0} ⦃e : Eq C⦄ (t : Tracker S B V) (nats : Nats S C) (d : Connections nats)
    (conn_apart : ConnectionApart t nats d) where
  open t use {store, bolt, bits, queue}

  task-open : (c : C) (n : ℕ) (s : S) → d.is_open (task (block_processor t) n s) c ≡ d.is_open s c
  unfolding task zoom
  task-open c n s =
      (process_block-Keeps store bolt bits t.eth t.cache t.chain t.callback
          {P = λ x. d.is_open x c ≡ d.is_open s c} n (conn_apart.clients c (d.is_open s c))
          (record { at = λ x h. conn_apart.stores _ c x ∙ h })).at
        s refl

  complete-open : (c : C) (ns : List ℕ) (s : S) → d.is_open (complete t ns s) c ≡ d.is_open s c
  unfolding complete
  complete-open c [] s = refl
  complete-open c (n ∷ ns) s =
      complete-open c ns _ ∙ task-open c n (queue.begin s) ∙ conn_apart.begins c s

  module _ (apart : StoreApart t) (queue_apart : QueueApart t) where
    -- If only the block store's own calls write to it, only the calls of the pool to its queue and only
    -- those of the NATS client open and close connections, every transaction can be opened, the
    -- waiting tasks are uint64 and the lower bound is above 0 and below 2^64: completing the waiting
    -- tasks leaves the connection of the publisher as it was, and the shutdown leaves it closed; the
    -- shutdown keeps the lower bound and the mark of each block from the lower bound on that has one.
    pub stop_service-keeps :
        (c : C) (b : B) (s : S) (lower : ℕ)
        → ((x : Option B) → bolt.begin x ≡ ok tt)
        → store.get s ≡ some b
        → bolt.get b lower_bound_key ≡ some (marshal_uint64 lower)
        → 0 < lower
        → lower < u64_mod
        → All (λ n. n < u64_mod) (queue.waiting s)
        → (d.is_open (complete t (queue.waiting s) s) c ≡ d.is_open s c)
          × (d.is_open (stop_service t nats (some c) s) c ≡ false)
          × (b' : B) × (store.get (stop_service t nats (some c) s) ≡ some b')
          × ((w : ℕ)
              → lower ≤ w
              → w < u64_mod
              → has_block bolt b w ≡ true
              → has_block bolt b' w ≡ true)
          × (bolt.get b' lower_bound_key ≡ some (marshal_uint64 lower))
    unfolding stop_service zoom
    stop_service-keeps c b s lower opens held low above small fits =
        let (done, steps) = complete-Steps t apart queue_apart (queue.waiting s) s refl fits in
        let (b1, held1, marks1, low1) = Steps-Marked t apart s _ done b steps held in
        let s1 : S = complete t (queue.waiting s) s in
        let (b', held', marks, low') =
          cleaned t apart queue_apart _ b1 lower (conn_apart.closes c s1 ∙ held1) (opens _)
            (low1 ∙ low) above small in
        (
          complete-open c (queue.waiting s) s,
          conn_apart.stores _ c _ ∙ d.close-closes c c s1 ∙ ground (arith, ==_refl c),
          b',
          store.get-put _ _ ∙ held',
          (λ w past small_w there. ground (arith, marks w past small_w, marks1 w small_w)),
          low' ∙ low1 ∙ low,
        )
