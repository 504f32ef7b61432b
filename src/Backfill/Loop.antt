-- ===== src/Backfill/Loop.antt =====
-- internal/backfill/backfill.go: the loop of `Start`.
use eth_tracker.Prelude.{Bool, true, false, List, [], ◌∷◌}
use eth_tracker.Backfill.{Backfill, tick}

-- What the `select` of the loop meets next: the end, or a tick.
pub data Signal : Type 0 where
  stop fire : Signal

module _ {S V : Type 0} (bf : Backfill S V) where
  -- Whether the loop has returned, and the state.
  unfoldable pub start : List Signal → S → Bool × S
  start [] s = (false, s)
  start (stop ∷ later) s = (true, s)
  start (fire ∷ later) s = start later (tick bf s)
