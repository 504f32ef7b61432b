-- ===== src/Db/Bounds.antt =====
-- Storing a bound changes that bound and nothing else.
use eth_tracker.Prelude.{
  ℕ, ◌≡◌, refl, ap, ◌∙◌, Option, some, arith, ◌==◌, bytes_eq, is_some, if◌then◌else◌,
}
use eth_tracker.Result.{ok}
use eth_tracker.Eth.Abi.{Bytes}
use eth_tracker.Db.Bytes.{marshal_uint64}
use eth_tracker.Db.Bolt.{
  Bolt, lower_bound_key, upper_bound_key, set_uint64, set_lower_bound, set_upper_bound,
}
use eth_tracker.Db.Missing.{has_block}
use eth_tracker.Db.Values.{update-ok}
use eth_tracker.Db.Keys.{other_length-ne}

module _ {B : Type 0} (bolt : Bolt B) where
  -- The buckets mark the same blocks.
  abbrev pub SameMarks : B → B → Type 0
  SameMarks b b' = (w : ℕ) → has_block bolt b' w ≡ has_block bolt b w

  set_uint64-put :
      (s s' : Option B) (k : Bytes) (v : ℕ)
      → set_uint64 bolt k v s ≡ (ok tt, s')
      → (b : B) × (b' : B) × (s ≡ some b)
        × (s' ≡ some b')
        × ((j : Bytes) → bolt.get b' j ≡ (if k == j then some (marshal_uint64 v) else bolt.get b j))
  unfolding set_uint64
  set_uint64-put s s' k v h =
      let (b, b', from, e, to) = update-ok bolt _ s s' h in
      (b, b', from, to, bolt.get-put b k (marshal_uint64 v) b' e)

  pub set_lower_bound-exact :
      (s s' : Option B) (v : ℕ)
      → set_lower_bound bolt v s ≡ (ok tt, s')
      → (b : B) × (b' : B) × (s ≡ some b)
        × (s' ≡ some b')
        × (bolt.get b' lower_bound_key ≡ some (marshal_uint64 v))
        × (bolt.get b' upper_bound_key ≡ bolt.get b upper_bound_key)
        × SameMarks b b'
  unfolding set_lower_bound
  set_lower_bound-exact s s' v h =
      let (b, b', from, to, read) = set_uint64-put s s' lower_bound_key v h in
      (
        b,
        b',
        from,
        to,
        read lower_bound_key,
        read upper_bound_key,
        λ w.
            ap is_some
              (read (marshal_uint64 w) ∙ rw (other_length-ne lower_bound_key w (omega arith)) refl),
      )

  pub set_upper_bound-exact :
      (s s' : Option B) (v : ℕ)
      → set_upper_bound bolt v s ≡ (ok tt, s')
      → (b : B) × (b' : B) × (s ≡ some b)
        × (s' ≡ some b')
        × (bolt.get b' upper_bound_key ≡ some (marshal_uint64 v))
        × (bolt.get b' lower_bound_key ≡ bolt.get b lower_bound_key)
        × SameMarks b b'
  unfolding set_upper_bound
  set_upper_bound-exact s s' v h =
      let (b, b', from, to, read) = set_uint64-put s s' upper_bound_key v h in
      (
        b,
        b',
        from,
        to,
        read upper_bound_key,
        read lower_bound_key,
        λ w.
            ap is_some
              (read (marshal_uint64 w) ∙ rw (other_length-ne upper_bound_key w (omega arith)) refl),
      )
