-- ===== src/Syncer/Renewal.antt =====
-- internal/syncer/realtime.go: subscribing, and subscribing again after a subscription has failed.
use eth_tracker.Prelude.{ℕ, ◌≡◌, refl, List, [], ◌∷◌, ◌++◌, Option, some}
use eth_tracker.Result.{Error}
use eth_tracker.Syncer.{Syncer}
use eth_tracker.Syncer.Realtime.{
  Received, Ending, returned, receive_realtime_blocks, sent_blocks, uint64s,
  waiting-receive_realtime_blocks,
}

-- What comes of `SubscribeNewHead`: an error, or a subscription with what happens while its loop runs.
pub data Subscribed : Type 0 where
  failed : Error → Subscribed
  connected : List Received → Subscribed

module _ {S V : Type 0} (sy : Syncer S V) where
  -- `receiveRealtimeBlocks`, and the loop of the subscription that it returns: its channel is new, and
  -- what is left in it at the end is lost.
  unfoldable pub receive : Subscribed → S → Ending × List ℕ × S
  receive (failed e) s = (returned (some e), [], s)
  receive (connected received) s = receive_realtime_blocks sy [] received s

  -- The function that `resubscribeFn` returns; the error of the last try is only logged.
  unfoldable pub resubscribe : Option Error → Subscribed → S → Ending × List ℕ × S
  resubscribe e subscribed s = receive subscribed s

-- The blocks whose headers are sent in the subscription.
abbrev pub sent_in : Subscribed → List ℕ
sent_in (failed e) = []
sent_in (connected received) = sent_blocks received

module _ {S V : Type 0} (sy : Syncer S V) (waiting : S → List ℕ)
    (pushes : (n : ℕ) (s : S) → waiting (sy.pool.push n s) ≡ waiting s ++ n ∷ [])
    (statistics : (n : ℕ) (s : S) → waiting (sy.latest n s) ≡ waiting s)
    (bounds : (n : ℕ) (s : S) → waiting (sy.db.set_upper_bound n s).1 ≡ waiting s) where
  -- If the statistics and the block store do not write to the queue, and a push puts the block behind
  -- those that wait: the headers sent in a subscription, by the lowest 64 bits of their numbers and in
  -- the order in which they are sent, are first those of the blocks that were put behind the waiting
  -- ones, whether storing the upper bound succeeded or not, and then those that nobody has taken when
  -- the loop ends. A try to subscribe that fails queues nothing.
  pub waiting-resubscribe :
      (e : Option Error) (subscribed : Subscribed) (s : S)
      → (let (_, left, s') = resubscribe sy e subscribed s in waiting s' ++ uint64s left)
        ≡ waiting s ++ uint64s (sent_in subscribed)
  unfolding resubscribe receive
  waiting-resubscribe e (failed x) s = refl
  waiting-resubscribe e (connected received) s =
      waiting-receive_realtime_blocks sy waiting pushes statistics bounds [] received s
