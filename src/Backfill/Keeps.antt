-- ===== src/Backfill/Keeps.antt =====
-- A run of the backfill changes the state by calls of the pool, the ticker and the block store only.
use eth_tracker.Prelude.{
  ℕ, zero, suc, ◌+◌, List, [], ◌∷◌, Bool, true, Bool-cases, inl, inr, leb, nat_eq,
}
use eth_tracker.Result.{diverges}
use eth_tracker.Exec.Keeps.{Keeps, keeps_rules, Keeps-lift}
use eth_tracker.Backfill.{
  Backfill, Interval, push_buffer, push_batches, push_missing, reset_ticker, run, tick,
  min_queue_size_for_idle_check,
}

-- What `P` says of the state is left alone by the parts that the backfill calls.
pub record LeavesParts {S V : Type 0} (P : S → Type 0) (bf : Backfill S V) : Type 0 where
  pub lowers : Keeps P bf.db.get_lower_bound
  pub uppers : Keeps P bf.db.get_upper_bound
  pub missing : (lower upper : ℕ) → Keeps P (bf.db.get_missing_values_bit_set lower upper)
  pub pushes : (n : ℕ) (s : S) → P s → P (bf.pool.push n s)
  pub resets : (i : Interval) (s : S) → P s → P (bf.reset i s)

module _ {S V : Type 0} {P : S → Type 0} (bf : Backfill S V) (k : LeavesParts P bf) where
  push_buffer-Keeps : (buffer : List ℕ) (pushed : ℕ) → Keeps P (push_buffer bf buffer pushed)
  unfolding push_buffer
  push_buffer-Keeps [] pushed = record { at = λ s h. h }
  push_buffer-Keeps (block ∷ buffer) pushed = record {
    at = λ s h. elim (Bool-cases (leb bf.batch_size pushed)) [
      | inl full ↦ rw full h
      | inr short ↦ rw short ((push_buffer-Keeps buffer (pushed + 1)).at _ (k.pushes block s h))
    ];
  }

  push_batches-Keeps :
      (found : V) (fuel j : ℕ) (buffer : List ℕ) (pushed : ℕ)
      → Keeps P (push_batches bf found fuel j buffer pushed)
  unfolding push_batches
  push_batches-Keeps found zero j buffer pushed = Keeps-lift diverges
  push_batches-Keeps found (suc fuel) j buffer pushed =
      search (keeps_rules, push_buffer-Keeps, push_batches-Keeps found fuel)

  reset_ticker-Keeps : (i : Interval) → Keeps P (reset_ticker bf i)
  unfolding reset_ticker
  reset_ticker-Keeps i = record { at = k.resets i }

  push_missing-Keeps : (found : V) → Keeps P (push_missing bf found)
  unfolding push_missing
  push_missing-Keeps found = search (keeps_rules, push_batches-Keeps, reset_ticker-Keeps)

  lowers-Keeps : Keeps P bf.db.get_lower_bound
  lowers-Keeps = k.lowers

  uppers-Keeps : Keeps P bf.db.get_upper_bound
  uppers-Keeps = k.uppers

  pub run-Keeps : (skip_latest : Bool) → Keeps P (run bf skip_latest)
  unfolding run
  run-Keeps skip_latest =
      search (keeps_rules, lowers-Keeps, uppers-Keeps, k.missing, push_missing-Keeps) depth 9

  -- A tick, whether it runs the backfill or not.
  pub tick-Keeps : (s : S) → P s → P (tick bf s)
  unfolding tick
  tick-Keeps s h = elim (Bool-cases (leb (bf.pool.size s) min_queue_size_for_idle_check)) [
    | inl idle ↦ rw idle ((run-Keeps true).at s h)
    | inr busy ↦ rw busy h
  ]
