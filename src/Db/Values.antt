-- ===== src/Db/Values.antt =====
-- Storing blocks and bounds: what each write changes, and what it leaves alone.
use eth_tracker.Prelude.{
  ℕ, ◌<◌, ◌≡◌, ◌≢◌, refl, ap, ◌∙◌, ◌||◌, [], arith, Option, none, some, ◌==◌, bytes_eq, nat_eq,
  is_some,
}
use eth_tracker.Result.{Result, ok, err, panic, diverges, >>=-eq-ok}
use eth_tracker.Db.Bytes.{
  u64_mod, marshal_uint64, unmarshal_uint64, unmarshal_uint64-marshal_uint64,
}
use eth_tracker.Db.Bolt.{
  Bolt, lower_bound_key, upper_bound_key, bucket_of, finish, update, set_value, set_lower_bound,
  get_lower_bound, get_upper_bound,
}
use eth_tracker.Db.Missing.{has_block}
use eth_tracker.Db.Keys.{marshal_uint64-==, other_length-ne, marshal_uint64-ne}

pub finish-ok :
    {B : Type 0} (s s' : Option B) (r : Result B)
    → finish s r ≡ (ok tt, s')
    → (b : B) × (r ≡ ok b) × (s' ≡ some b)
finish-ok s s' (ok b) h = (b, refl, ground arith)
finish-ok s s' (err e) h = ground arith
finish-ok s s' panic h = ground arith
finish-ok s s' diverges h = ground arith

finish-rolls_back :
    {B : Type 0} (s : Option B) (r : Result B) → (finish s r).0 ≢ ok tt → (finish s r).1 ≡ s
finish-rolls_back s (ok b) h = absurd (h refl)
finish-rolls_back s (err e) h = refl
finish-rolls_back s panic h = refl
finish-rolls_back s diverges h = refl

bucket_of-ok : {B : Type 0} (s : Option B) {b : B} → bucket_of s ≡ ok b → s ≡ some b
bucket_of-ok none h = cc
bucket_of-ok (some b) h = ground arith

module _ {B : Type 0} (bolt : Bolt B) where
  -- A transaction that returns without an error has run its closure on the bucket, and the store
  -- holds the result.
  pub update-ok :
      (f : B → Result B) (s s' : Option B)
      → update bolt f s ≡ (ok tt, s')
      → (b : B) × (b' : B) × (s ≡ some b) × (f b ≡ ok b') × (s' ≡ some b')
  unfolding update
  update-ok f s s' h =
      let (b2, e2, held) = finish-ok s s' _ h in
      let (u, e3, rest) = >>=-eq-ok (bolt.begin s) _ e2 in
      let (b, e4, rest') = >>=-eq-ok (bucket_of s) _ rest in
      let (b', e5, rest'') = >>=-eq-ok (f b) _ rest' in
      let (u', e6, last) = >>=-eq-ok (bolt.commit b') _ rest'' in
      (b, b', bucket_of-ok s e4, e5, held ∙ ground arith)

  -- A transaction that does not return without an error leaves the store as it was.
  pub update-rolls_back :
      (f : B → Result B) (s : Option B) → (update bolt f s).0 ≢ ok tt → (update bolt f s).1 ≡ s
  unfolding update
  update-rolls_back f s h = finish-rolls_back s _ h

  pub get_lower_bound-read :
      (s : Option B) (b : B) (v : ℕ)
      → s ≡ some b
      → bolt.begin s ≡ ok tt
      → bolt.get b lower_bound_key ≡ some (marshal_uint64 v)
      → v < u64_mod
      → get_lower_bound bolt s ≡ (ok v, s)
  unfolding get_lower_bound
  get_lower_bound-read s b v held opens found small =
      rw (opens) (rw held (rw (found, unmarshal_uint64-marshal_uint64 v small)))

  pub get_upper_bound-read :
      (s : Option B) (b : B) (v : ℕ)
      → s ≡ some b
      → bolt.begin s ≡ ok tt
      → bolt.get b upper_bound_key ≡ some (marshal_uint64 v)
      → v < u64_mod
      → get_upper_bound bolt s ≡ (ok v, s)
  unfolding get_upper_bound
  get_upper_bound-read s b v held opens found small =
      rw (opens) (rw held (rw (found, unmarshal_uint64-marshal_uint64 v small)))

  -- An upper bound that was never stored is the nil slice, whose first eight bytes are read.
  pub get_upper_bound-unset :
      (s : Option B) (b : B)
      → s ≡ some b
      → bolt.begin s ≡ ok tt
      → bolt.get b upper_bound_key ≡ none
      → get_upper_bound bolt s ≡ (panic, s)
  unfolding get_upper_bound unmarshal_uint64
  get_upper_bound-unset s b held opens unset = rw opens (rw held (rw unset refl))

  -- If storing a block below 2^64 returns without an error, that block is marked as processed, every
  -- other block is marked exactly if it was, and both bounds stay as they were.
  pub set_value-exact :
      (s s' : Option B) (v : ℕ)
      → set_value bolt v s ≡ (ok tt, s')
      → v < u64_mod
      → (b : B) × (b' : B) × (s ≡ some b)
        × (s' ≡ some b')
        × ((w : ℕ) → w < u64_mod → has_block bolt b' w ≡ (v == w || has_block bolt b w))
        × (bolt.get b' lower_bound_key ≡ bolt.get b lower_bound_key)
        × (bolt.get b' upper_bound_key ≡ bolt.get b upper_bound_key)
  unfolding set_value
  set_value-exact s s' v h small =
      let (b, b', from, e, to) = update-ok _ s s' h in
      let read = bolt.get-put b (marshal_uint64 v) [] b' e in
      (
        b,
        b',
        from,
        to,
        (λ w fits. ground (arith, read (marshal_uint64 w), marshal_uint64-== v w small fits)),
        read lower_bound_key ∙ rw (marshal_uint64-ne lower_bound_key v (omega arith)),
        read upper_bound_key ∙ rw (marshal_uint64-ne upper_bound_key v (omega arith)),
      )

  -- If storing a lower bound below 2^64 returns without an error, and the next transaction opens,
  -- reading the bound returns it; no block and no upper bound has changed.
  pub get_lower_bound-set_lower_bound :
      (s s' : Option B) (v : ℕ)
      → set_lower_bound bolt v s ≡ (ok tt, s')
      → bolt.begin s' ≡ ok tt
      → v < u64_mod
      → (b : B) × (b' : B) × (s ≡ some b)
        × (s' ≡ some b')
        × (get_lower_bound bolt s' ≡ (ok v, s'))
        × ((w : ℕ) → has_block bolt b' w ≡ has_block bolt b w)
        × (bolt.get b' upper_bound_key ≡ bolt.get b upper_bound_key)
  unfolding set_lower_bound
  get_lower_bound-set_lower_bound s s' v h opens small =
      let (b, b', from, e, to) = update-ok _ s s' h in
      let read = bolt.get-put b lower_bound_key (marshal_uint64 v) b' e in
      (
        b,
        b',
        from,
        to,
        get_lower_bound-read s' b' v to opens (read lower_bound_key) small,
        (λ w.
            ap is_some
              (read (marshal_uint64 w) ∙ rw (other_length-ne lower_bound_key w (omega arith)))),
        read upper_bound_key,
      )

  pub set_value-rolls_back :
      (v : ℕ) (s : Option B) → (set_value bolt v s).0 ≢ ok tt → (set_value bolt v s).1 ≡ s
  unfolding set_value
  set_value-rolls_back v s h = update-rolls_back _ s h
