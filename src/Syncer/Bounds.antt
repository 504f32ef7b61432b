-- ===== src/Syncer/Bounds.antt =====
-- The bounds after the syncer has started, and after a new block was queued.
use eth_tracker.Prelude.{
  ℤ, ℕ, ◌≡◌, refl, sym, ap, ◌∙◌, subst, Option, some, some_injective, inl, inr, Bool-cases, ◌==◌,
  nat_eq, if◌then◌else◌,
}
use eth_tracker.Result.{Result, ok}
use eth_tracker.Exec.{pure, lift, ◌>>=◌, ◌>>◌}
use eth_tracker.Exec.Inversion.{>>=-returns, zoom-returns}
use eth_tracker.Exec.Keeps.{Keeps, Keeps-bind, Keeps-lift}
use eth_tracker.Exec.Lens.{Lens}
use eth_tracker.Chain.{Chain}
use eth_tracker.Db.Bytes.{marshal_uint64}
use eth_tracker.Db.Bitset.{BitSets}
use eth_tracker.Db.Bolt.{
  Bolt, bolt_db, get, view, number_or_zero, lower_bound_key, upper_bound_key, get_lower_bound,
  set_lower_bound, set_upper_bound,
}
use eth_tracker.Db.Bounds.{SameMarks, set_lower_bound-exact, set_upper_bound-exact}
use eth_tracker.Pool.{Pool}
use eth_tracker.Syncer.{
  Syncer, first_lower_bound, set_latest_block, push, init_lower_bound, new_syncer,
  queue_realtime_block,
}

module _ {S B V : Type 0} (store : Lens S (Option B)) (bolt : Bolt B) (bits : BitSets V)
    (chain : Chain S) (pool : Pool S) (latest : ℕ → S → S) (dial : Result (Unit {0})) where
  -- The syncer over the block store.
  abbrev pub syncer : Syncer S V
  syncer = record {
    db = bolt_db bolt store bits;
    chain = chain;
    pool = pool;
    latest = latest;
    dial = dial;
  }

  -- If the pool and the statistics do not write to the block store, and queueing a new block returns
  -- without an error, then the upper bound is that block, and the lower bound and the marks are as they
  -- were.
  pub queue_realtime_block-bounds :
      (n : ℕ) (s s' : S)
      → ((m : ℕ) (x : S) → store.get (latest m x) ≡ store.get x)
      → ((m : ℕ) (x : S) → store.get (pool.push m x) ≡ store.get x)
      → queue_realtime_block syncer n s ≡ (ok tt, s')
      → (b : B) × (b' : B) × (store.get s ≡ some b)
        × (store.get s' ≡ some b')
        × (bolt.get b' upper_bound_key ≡ some (marshal_uint64 n))
        × (bolt.get b' lower_bound_key ≡ bolt.get b lower_bound_key)
        × SameMarks bolt b b'
  unfolding queue_realtime_block push set_latest_block ◌>>=◌
  queue_realtime_block-bounds n s s' stats_apart pool_apart h =
      let (b, b', from, to, upper, lower, marks) =
        set_upper_bound-exact bolt _ _ n (zoom-returns store (set_upper_bound bolt n) _ s' tt h) in
      (b, b', sym (stats_apart n (pool.push n s) ∙ pool_apart n s) ∙ from, to, upper, lower, marks)

  reads_lower : (x : Option B) → Keeps (λ y. y ≡ x) (get_lower_bound bolt)
  unfolding get_lower_bound get view
  reads_lower x = Keeps-bind _ _ (record { at = λ s h. h }) (λ v. Keeps-lift (number_or_zero v))

  init_lower_bound-exact :
      (start : ℤ) (n lower : ℕ) (s s' : S) (b' : B)
      → init_lower_bound syncer start n lower s ≡ (ok tt, s')
      → store.get s' ≡ some b'
      → (b : B) × (store.get s ≡ some b)
        × (bolt.get b' lower_bound_key ≡ (
            if lower == 0
            then some (marshal_uint64 (first_lower_bound start n))
            else bolt.get b lower_bound_key))
        × SameMarks bolt b b'
  unfolding init_lower_bound pure
  init_lower_bound-exact start n lower s s' b' h held = elim (Bool-cases (lower == 0)) [
    | inl unset ↦
        let (b, b1, from, to, set, upper, marks) =
          set_lower_bound-exact bolt _ _ (first_lower_bound start n) (
            zoom-returns store (set_lower_bound bolt (first_lower_bound start n)) s s' tt
              (rw unset at h)) in
        let same : b1 ≡ b' = some_injective b1 b' (sym to ∙ held) in
        (b, from, rw (unset, ← same) set, subst (SameMarks bolt b) same marks)
    | inr is_set ↦ (
      b',
      ap (λ (p : Result (Unit {0}) × S). store.get p.1) (rw is_set at h) ∙ held,
      rw is_set refl,
      λ w. refl,
    )
  ]

  ends_in :
      (n : ℕ) (s s' : S)
      → ((m : ℕ) (x : S) → store.get (latest m x) ≡ store.get x)
      → (set_latest_block syncer n >> lift dial) s ≡ (ok tt, s')
      → store.get s' ≡ store.get s
  unfolding set_latest_block lift ◌>>=◌
  ends_in n s s' stats_apart h =
      ap (λ (p : Result (Unit {0}) × S). store.get p.1) (sym h) ∙ stats_apart n s

  -- If asking the chain for its latest block and the statistics do not write to the block store, and
  -- the start of the syncer returns without an error, then: it has read the latest block and the lower
  -- bound; the upper bound is the latest block; the lower bound is as it was, or, if it was not set or
  -- 0, the configured start block if that is above 0, and the latest block otherwise; and the marks are
  -- as they were.
  pub new_syncer-bounds :
      (start : ℤ) (s s' : S)
      → ((b : Option B) → Keeps (λ x. store.get x ≡ b) chain.get_latest_block)
      → ((m : ℕ) (x : S) → store.get (latest m x) ≡ store.get x)
      → new_syncer syncer start s ≡ (ok tt, s')
      → (n : ℕ) × (lower : ℕ) × (b : B) × (b' : B) × ((chain.get_latest_block s).0 ≡ ok n)
        × (get_lower_bound bolt (store.get s) ≡ (ok lower, store.get s))
        × (store.get s ≡ some b)
        × (store.get s' ≡ some b')
        × (bolt.get b' upper_bound_key ≡ some (marshal_uint64 n))
        × (bolt.get b' lower_bound_key ≡ (
            if lower == 0
            then some (marshal_uint64 (first_lower_bound start n))
            else bolt.get b lower_bound_key))
        × SameMarks bolt b b'
  unfolding new_syncer
  new_syncer-bounds start s s' chain_apart stats_apart h =
      let (n, s1, e1, r1) = >>=-returns _ _ s s' tt h in
      let (lower, s2, e2, r2) = >>=-returns _ _ s1 s' tt r1 in
      let (_, s3, e3, r3) = >>=-returns _ _ s2 s' tt r2 in
      let (_, s4, e4, r4) = >>=-returns _ _ s3 s' tt r3 in
      let read : get_lower_bound bolt (store.get s1) ≡ (ok lower, store.get s2) =
        zoom-returns store (get_lower_bound bolt) s1 s2 lower e2 in
      let same1 : store.get s1 ≡ store.get s =
        ap (λ (p : Result ℕ × S). store.get p.1) (sym e1) ∙ (chain_apart (store.get s)).at s refl in
      let same2 : store.get s2 ≡ store.get s1 =
        ap (λ (p : Result ℕ × Option B). p.1) (sym read)
        ∙ (reads_lower (store.get s1)).at (store.get s1) refl in
      let (b1, b', from1, to1, upper, kept, marks1) =
        set_upper_bound-exact bolt _ _ n
          (zoom-returns store (set_upper_bound bolt n) s3 s4 tt e4) in
      let (b, from, set, marks) = init_lower_bound-exact start n lower s2 s3 b1 e3 from1 in
      (
        n,
        lower,
        b,
        b',
        ap (λ (p : Result ℕ × S). p.0) e1,
        rw (← same1) (read ∙ ap (λ (x : Option B). (ok lower, x)) same2),
        sym (same2 ∙ same1) ∙ from,
        ends_in n s4 s' stats_apart r4 ∙ to1,
        upper,
        kept ∙ set,
        λ w. marks1 w ∙ marks w,
      )
