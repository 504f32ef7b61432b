-- ===== src/Backfill/Run.antt =====
-- A run of the backfill over the block store.
use eth_tracker.Prelude.{
  ℕ, ◌+◌, ◌<◌, ◌≤◌, ◌≡◌, refl, sym, ◌∙◌, Bool, true, not, ◌&&◌, List, [], ◌∷◌, length, take, All,
  ltb, leb, ◌==◌, inl, inr, Bool-cases, nat_eq, ==_refl, if◌then◌else◌, arith, contains, Option,
  none, some,
}
use eth_tracker.Result.{ok, panic}
use eth_tracker.Exec.{or_wrap, pure}
use eth_tracker.Exec.Lens.{Lens, zoom_read}
use eth_tracker.Db.Bytes.{u64_mod, marshal_uint64}
use eth_tracker.Db.Bitset.{BitSets, IsIncreasing}
use eth_tracker.Db.Bolt.{
  Bolt, bolt_db, lower_bound_key, upper_bound_key, get_missing_values_bit_set, get_lower_bound,
  get_upper_bound,
}
use eth_tracker.Db.Missing.{has_block, get_missing-exact}
use eth_tracker.Db.Values.{get_lower_bound-read, get_upper_bound-read, get_upper_bound-unset}
use eth_tracker.Pool.{Pool}
use eth_tracker.Backfill.{Backfill, Interval, idle, busy, push_missing, last_checked, run}
use eth_tracker.Backfill.Push.{push_all, push_missing_lem}

pub All-of_contains :
    (P : ℕ → Type 0) (xs : List ℕ) → ((v : ℕ) → contains xs v ≡ true → P v) → All P xs
All-of_contains P [] h = tt
All-of_contains P (x ∷ xs) h =
    (h x (rw (==_refl x)), All-of_contains P xs (λ v there. h v (ground arith)))

module _ {S V : Type 0} (bf : Backfill S V) where
  run_missing :
      (skip_latest : Bool) (lower upper : ℕ) (missing : V) (s : S)
      → bf.db.get_lower_bound s ≡ (ok lower, s)
      → bf.db.get_upper_bound s ≡ (ok upper, s)
      → lower ≤ last_checked skip_latest lower upper
      → bf.db.get_missing_values_bit_set lower (last_checked skip_latest lower upper) s
        ≡ (ok missing, s)
      → run bf skip_latest s ≡ push_missing bf missing s
  unfolding run or_wrap
  run_missing skip_latest lower upper missing s el eu le em =
      rw (el, eu)
        (elim (Bool-cases (ltb (last_checked skip_latest lower upper) lower)) [
          | inl below ↦ absurd (ground arith)
          | inr not_below ↦ rw (not_below, em)
        ])

  -- With no block between the bounds the run does nothing.
  run_nothing :
      (skip_latest : Bool) (lower upper : ℕ) (s : S)
      → bf.db.get_lower_bound s ≡ (ok lower, s)
      → bf.db.get_upper_bound s ≡ (ok upper, s)
      → upper < lower
      → run bf skip_latest s ≡ (ok tt, s)
  unfolding run or_wrap pure
  run_nothing skip_latest lower upper s el eu below = rw (el, eu) (ground arith)

-- The members of a bitset of blocks up to `upper`, with room above them.
members_small :
    {V : Type 0} (bits : BitSets V) (missing : V) (upper : ℕ)
    → upper + 1 < u64_mod
    → ((v : ℕ) → bits.test missing v ≡ true → v ≤ upper)
    → All (λ m. m + 1 < u64_mod) (bits.members missing)
members_small bits missing upper small h = All-of_contains _ (bits.members missing) λ v there.
    let le : v ≤ upper = h v (sym (bits.contains-members missing v) ∙ there) in omega arith

module _ {S B V : Type 0} (store : Lens S (Option B)) (bolt : Bolt B) (bits : BitSets V)
    (pool : Pool S) (reset : Interval → S → S) (batch_size : ℕ) where
  abbrev pub over_bolt : Backfill S V
  over_bolt = record {
    batch_size = batch_size;
    db = bolt_db bolt store bits;
    bits = bits;
    pool = pool;
    reset = reset;
  }

  -- Over a block store that opens and holds both bounds, with the lower one at most the upper one
  -- and the upper one below the last uint64: a run returns. It pushes to the pool, in increasing
  -- order and nothing else, the first `batch_size` of the blocks that are not marked as processed
  -- and lie between the bounds, the upper one left out if the latest block is skipped and the bounds
  -- differ. It then switches the ticker to the busy interval if more blocks are missing than that,
  -- and to the idle one otherwise. If none is missing it changes nothing.
  pub run-exact :
      (skip_latest : Bool) (lower upper : ℕ) (b : B) (s : S)
      → store.get s ≡ some b
      → bolt.begin (some b) ≡ ok tt
      → bolt.get b lower_bound_key ≡ some (marshal_uint64 lower)
      → bolt.get b upper_bound_key ≡ some (marshal_uint64 upper)
      → lower ≤ upper
      → upper + 1 < u64_mod
      → (missing : List ℕ) × IsIncreasing missing
        × ((v : ℕ)
            → contains missing v ≡ (
                (leb lower v && leb v (last_checked skip_latest lower upper))
                && not (has_block bolt b v)))
        × (run over_bolt skip_latest s ≡ (
          ok tt,
          (if length missing == 0
              then s
              else reset
                  (if ltb batch_size (length missing) then busy else idle)
                  (push_all pool (take batch_size missing) s)),
        ))
  run-exact skip_latest lower upper b s held opens el eu le small =
      let last : ℕ = last_checked skip_latest lower upper in
      let bounds : (lower ≤ last) × (last ≤ upper) = (ground arith, ground arith) in
      let (found, e, exact) =
        get_missing-exact bolt bits b lower last opens bounds.0 (omega arith) in
      (
        bits.members found,
        bits.members-IsIncreasing found,
        (λ v. bits.contains-members found v ∙ exact v),
        run_missing over_bolt skip_latest lower upper found s
              (zoom_read store (get_lower_bound bolt) (ok lower) s
                (rw held (get_lower_bound-read bolt (some b) b lower refl opens el (omega arith))))
              (zoom_read store (get_upper_bound bolt) (ok upper) s
                (rw held (get_upper_bound-read bolt (some b) b upper refl opens eu (omega arith))))
              bounds.0
              (zoom_read store (get_missing_values_bit_set bolt bits lower last) (ok found) s
                (rw held e))
            ∙ push_missing_lem over_bolt found s
                (members_small bits found last (omega arith) (λ v h. ground (arith, exact v))),
      )

  -- Over a block store that opens and holds a lower bound below 2^64 but no upper bound, a run panics,
  -- and has changed nothing.
  pub run-unset :
      (skip_latest : Bool) (lower : ℕ) (b : B) (s : S)
      → store.get s ≡ some b
      → bolt.begin (some b) ≡ ok tt
      → bolt.get b lower_bound_key ≡ some (marshal_uint64 lower)
      → bolt.get b upper_bound_key ≡ none
      → lower < u64_mod
      → run over_bolt skip_latest s ≡ (panic, s)
  unfolding run or_wrap
  run-unset skip_latest lower b s held opens low unset small =
      let lower_read =
        zoom_read store (get_lower_bound bolt) (ok lower) s
          (rw held (get_lower_bound-read bolt (some b) b lower refl opens low small)) in
      let upper_read =
        zoom_read store (get_upper_bound bolt) panic s
          (rw held (get_upper_bound-unset bolt (some b) b refl opens unset)) in
      rw (lower_read, upper_read) refl
