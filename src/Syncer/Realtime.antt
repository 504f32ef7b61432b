-- ===== src/Syncer/Realtime.antt =====
-- internal/syncer/realtime.go: the loop of a subscription to new blocks.
use eth_tracker.Prelude.{
  ℕ, ◌%◌, ◌≡◌, refl, sym, ap, ◌∙◌, List, [], ◌∷◌, ◌++◌, map, append-nil, append_assoc, Option, none,
}
use eth_tracker.Result.{Error}
use eth_tracker.Exec.{◌>>=◌}
use eth_tracker.Db.Bytes.{u64_mod}
use eth_tracker.Syncer.{Syncer, push, set_latest_block, queue_realtime_block}

-- What happens while the loop runs: the client sends the header of a block, or the `select` picks a
-- case, which is a header of the channel, the end by the service, or what the channel of the errors
-- has, nil included.
pub data Received : Type 0 where
  sends : ℕ → Received
  takes_header : Received
  quit : Received
  sub_err : Option Error → Received

-- How the loop ends: it returns nil or an error, or still waits.
pub data Ending : Type 0 where
  returned : Option Error → Ending
  waits : Ending

module _ {S V : Type 0} (sy : Syncer S V) where
  -- The case of a header. `Uint64` keeps the lowest 64 bits, and an error of the queueing is logged.
  unfoldable pub receive_head : ℕ → S → S
  receive_head number s = (queue_realtime_block sy (number % u64_mod) s).1

  -- The oldest header that was sent and is not taken; without one the case is not ready.
  unfoldable pub take_header : List ℕ → S → List ℕ × S
  take_header [] s = ([], s)
  take_header (number ∷ pending) s = (pending, receive_head number s)

  -- The `select` picks any case that is ready, so the loop may end while headers are `pending`: in the
  -- buffer of the channel, or still with the client, which waits for room in it.
  unfoldable pub receive_realtime_blocks : List ℕ → List Received → S → Ending × List ℕ × S
  receive_realtime_blocks pending [] s = (waits, pending, s)
  receive_realtime_blocks pending (sends number ∷ later) s =
      receive_realtime_blocks (pending ++ number ∷ []) later s
  receive_realtime_blocks pending (takes_header ∷ later) s =
      let (rest, s') = take_header pending s in receive_realtime_blocks rest later s'
  receive_realtime_blocks pending (quit ∷ later) s = (returned none, pending, s)
  receive_realtime_blocks pending (sub_err e ∷ later) s = (returned e, pending, s)

-- The blocks whose headers are sent before the loop ends.
abbrev pub sent_blocks : List Received → List ℕ
sent_blocks [] = []
sent_blocks (sends number ∷ later) = number ∷ sent_blocks later
sent_blocks (takes_header ∷ later) = sent_blocks later
sent_blocks (quit ∷ later) = []
sent_blocks (sub_err e ∷ later) = []

-- The numbers as they are queued.
abbrev pub uint64s : List ℕ → List ℕ
uint64s ns = map (λ n. n % u64_mod) ns

module _ {S V : Type 0} (sy : Syncer S V) (waiting : S → List ℕ)
    (pushes : (n : ℕ) (s : S) → waiting (sy.pool.push n s) ≡ waiting s ++ n ∷ [])
    (statistics : (n : ℕ) (s : S) → waiting (sy.latest n s) ≡ waiting s)
    (bounds : (n : ℕ) (s : S) → waiting (sy.db.set_upper_bound n s).1 ≡ waiting s) where
  receive_head-waiting :
      (number : ℕ) (s : S)
      → waiting (receive_head sy number s) ≡ waiting s ++ (number % u64_mod) ∷ []
  unfolding receive_head queue_realtime_block push set_latest_block ◌>>=◌
  receive_head-waiting number s =
      bounds (number % u64_mod) _ ∙ statistics (number % u64_mod) _ ∙ pushes (number % u64_mod) s

  -- Taking a header moves it from the pending ones to the queue.
  take_header-waiting :
      (pending : List ℕ) (s : S) (sent : List ℕ)
      → waiting (take_header sy pending s).1 ++ uint64s ((take_header sy pending s).0 ++ sent)
        ≡ waiting s ++ uint64s (pending ++ sent)
  unfolding take_header
  take_header-waiting [] s sent = refl
  take_header-waiting (number ∷ pending) s sent =
      ap (λ ns. ns ++ uint64s (pending ++ sent)) (receive_head-waiting number s)
      ∙ append_assoc (waiting s) ((number % u64_mod) ∷ []) (uint64s (pending ++ sent))

  -- The blocks that wait in the queue and the headers that are left are those from before, and the
  -- headers sent, in this order.
  pub waiting-receive_realtime_blocks :
      (pending : List ℕ) (received : List Received) (s : S)
      → (let (_, left, s') = receive_realtime_blocks sy pending received s in
          waiting s' ++ uint64s left)
        ≡ waiting s ++ uint64s (pending ++ sent_blocks received)
  unfolding receive_realtime_blocks
  waiting-receive_realtime_blocks pending [] s =
      ap (λ ns. waiting s ++ uint64s ns) (sym (append-nil pending))
  waiting-receive_realtime_blocks pending (sends number ∷ later) s =
      waiting-receive_realtime_blocks (pending ++ number ∷ []) later s
      ∙ ap (λ ns. waiting s ++ uint64s ns) (append_assoc pending (number ∷ []) (sent_blocks later))
  waiting-receive_realtime_blocks pending (takes_header ∷ later) s =
      waiting-receive_realtime_blocks _ later _ ∙ take_header-waiting pending s (sent_blocks later)
  waiting-receive_realtime_blocks pending (quit ∷ later) s =
      ap (λ ns. waiting s ++ uint64s ns) (sym (append-nil pending))
  waiting-receive_realtime_blocks pending (sub_err e ∷ later) s =
      ap (λ ns. waiting s ++ uint64s ns) (sym (append-nil pending))
