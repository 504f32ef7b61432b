-- ===== src/Db/Cleanup.antt =====
-- `Cleanup` removes blocks below the lower bound, and nothing else.
use eth_tracker.Prelude.{
  ℕ, ◌-◌, ◌<◌, ◌≤◌, ◌≡◌, ◌≢◌, ap, sym, ◌∙◌, true, false, ◌&&◌, List, [], ◌∷◌, length, arith, Option,
  none, some, ◌⊎◌, inl, inr, Bool-cases, ◌==◌, bytes_eq, nat_eq, is_some, contains, if◌then◌else◌,
  bytes_beq_iff,
}
use eth_tracker.Result.{ok, >>=-eq-ok, ok_injective}
use eth_tracker.Eth.Abi.{Bytes}
use eth_tracker.Db.Bytes.{
  u64_mod, marshal_uint64, bytes_le, length-marshal_uint64, bytes_le-marshal_uint64,
}
use eth_tracker.Db.Bolt.{
  Bolt, IsAscending, lower_bound_key, upper_bound_key, delete_key, delete_found, get_lower_bound,
  cleanup,
}
use eth_tracker.Db.Missing.{has_block, within_bound}
use eth_tracker.Db.Values.{update-ok, update-rolls_back}
use eth_tracker.Db.Keys.{contains-past}

module _ {B : Type 0} (bolt : Bolt B) where
  delete_key-get :
      (k : Bytes) (b b' : B) (j : Bytes)
      → delete_key bolt k b ≡ ok b'
      → bolt.get b' j ≡ (if length k == 8 && k == j then none else bolt.get b j)
  unfolding delete_key
  delete_key-get k b b' j e = elim (Bool-cases (length k == 8)) [
    | inl eight ↦ rw eight (bolt.get-delete b k b' (rw eight at e) j)
    | inr other ↦ rw other (ap (λ (x : B). bolt.get x j) (sym (ok_injective b b' (rw other at e))))
  ]

  -- A key stays if it is no block number, or is past the target.
  abbrev Stays : Bytes → Bytes → Type 0
  Stays target j = (length j ≢ 8) ⊎ (bytes_le j target ≡ false)

  kept_by_one :
      (k target j : Bytes)
      → bytes_le k target ≡ true
      → Stays target j
      → (length k == 8 && k == j) ≡ false
  kept_by_one k target j within stays = ground (arith, bytes_beq_iff k j)

  delete_found-Stays :
      (target : Bytes) (ks : List Bytes) (b b' : B) (j : Bytes)
      → delete_found bolt target ks b ≡ ok b'
      → Stays target j
      → bolt.get b' j ≡ bolt.get b j
  unfolding delete_found
  delete_found-Stays target [] b b' j e stays =
      ap (λ (x : B). bolt.get x j) (sym (ok_injective b b' e))
  delete_found-Stays target (k ∷ ks) b b' j e stays = elim (Bool-cases (bytes_le k target)) [
    | inl within ↦
        let (b1, e1, e2) = >>=-eq-ok (delete_key bolt k b) _ (rw within at e) in
        delete_found-Stays target ks b1 b' j e2 stays
        ∙ delete_key-get k b b1 j e1
        ∙ rw (kept_by_one k target j within stays)
    | inr past ↦ ap (λ (x : B). bolt.get x j) (sym (ok_injective b b' (rw past at e)))
  ]

  delete_found-none :
      (target : Bytes) (ks : List Bytes) (b b' : B) (j : Bytes)
      → delete_found bolt target ks b ≡ ok b'
      → bolt.get b j ≡ none
      → bolt.get b' j ≡ none
  unfolding delete_found
  delete_found-none target [] b b' j e gone =
      ap (λ (x : B). bolt.get x j) (sym (ok_injective b b' e)) ∙ gone
  delete_found-none target (k ∷ ks) b b' j e gone = elim (Bool-cases (bytes_le k target)) [
    | inl within ↦
        let (b1, e1, e2) = >>=-eq-ok (delete_key bolt k b) _ (rw within at e) in
        delete_found-none target ks b1 b' j e2 (ground (arith, delete_key-get k b b1 j e1))
    | inr past ↦ ap (λ (x : B). bolt.get x j) (sym (ok_injective b b' (rw past at e))) ∙ gone
  ]

  -- A block number up to the target that an ascending walk visits is removed.
  delete_found-removes :
      (target : Bytes) (ks : List Bytes) (b b' : B) (j : Bytes)
      → delete_found bolt target ks b ≡ ok b'
      → IsAscending ks
      → contains ks j ≡ true
      → length j ≡ 8
      → bytes_le j target ≡ true
      → bolt.get b' j ≡ none
  unfolding delete_found
  delete_found-removes target [] b b' j e asc there eight below = cc
  delete_found-removes target (k ∷ ks) b b' j e asc there eight below =
      elim (Bool-cases (bytes_le k target)) [
        | inl within ↦
            let (b1, e1, e2) = >>=-eq-ok (delete_key bolt k b) _ (rw within at e) in
            elim (Bool-cases (k == j)) [
              | inl same ↦
                  delete_found-none target ks b1 b' j e2
                    (delete_key-get k b b1 j e1 ∙ ground (arith, bytes_beq_iff k j))
              | inr differ ↦
                  delete_found-removes target ks b1 b' j e2 asc.1 (rw differ at there) eight below
            ]
        | inr past ↦ cc (contains-past target k ks j asc past below)
      ]

  -- What a cleanup that returned has done, at the lower bound that it read.
  cleanup-ok :
      (s s' : Option B) (lower : ℕ)
      → get_lower_bound bolt s ≡ (ok lower, s)
      → (lower == 0) ≡ false
      → cleanup bolt s ≡ (ok tt, s')
      → (b : B) × (b' : B) × (s ≡ some b)
        × (delete_found bolt (marshal_uint64 (lower - 1)) (bolt.walk b) b ≡ ok b')
        × (s' ≡ some b')
  unfolding cleanup
  cleanup-ok s s' lower read pos h =
      update-ok bolt (λ b. delete_found bolt (marshal_uint64 (lower - 1)) (bolt.walk b) b) s s'
        (rw (read, pos) at h)

  -- A cleanup that reads a lower bound above 0 and does not return without an error leaves the store
  -- as it was.
  pub cleanup-rolls_back :
      (s : Option B) (lower : ℕ)
      → get_lower_bound bolt s ≡ (ok lower, s)
      → 0 < lower
      → (cleanup bolt s).0 ≢ ok tt
      → (cleanup bolt s).1 ≡ s
  unfolding cleanup
  cleanup-rolls_back s lower read above failed =
      let is_set : (lower == 0) ≡ false = ground arith in
      rw (read, is_set) (update-rolls_back bolt _ s (rw (read, is_set) at failed))

  -- A cleanup that reads a lower bound above 0 and below 2^64, and returns without an error, keeps
  -- every block from the lower bound on, and both bounds, whatever keys its cursor returns while it
  -- deletes.
  pub cleanup-keeps :
      (s s' : Option B) (lower : ℕ)
      → get_lower_bound bolt s ≡ (ok lower, s)
      → 0 < lower
      → lower < u64_mod
      → cleanup bolt s ≡ (ok tt, s')
      → (b : B) × (b' : B) × (s ≡ some b)
        × (s' ≡ some b')
        × ((w : ℕ) → lower ≤ w → w < u64_mod → has_block bolt b' w ≡ has_block bolt b w)
        × (bolt.get b' lower_bound_key ≡ bolt.get b lower_bound_key)
        × (bolt.get b' upper_bound_key ≡ bolt.get b upper_bound_key)
  cleanup-keeps s s' lower read pos small h =
      let (b, b', from, e, to) = cleanup-ok s s' lower read (ground arith) h in
      (
        b,
        b',
        from,
        to,
        (λ w past fits. ap is_some (
            delete_found-Stays (marshal_uint64 (lower - 1)) (bolt.walk b) b b' (marshal_uint64 w) e
              (inr (bytes_le-marshal_uint64 w (lower - 1) fits (omega arith) ∙ ground arith)))),
        delete_found-Stays (marshal_uint64 (lower - 1)) (bolt.walk b) b b' lower_bound_key e
            (inl (omega arith)),
        delete_found-Stays (marshal_uint64 (lower - 1)) (bolt.walk b) b b' upper_bound_key e
            (inl (omega arith)),
      )

  -- If a cleanup reads a lower bound below 2^64 and returns without an error, and the keys that its
  -- cursor returns while it deletes are in order: no block below the lower bound is left whose key the
  -- cursor returns.
  pub cleanup-removes :
      (b b' : B) (lower w : ℕ)
      → get_lower_bound bolt (some b) ≡ (ok lower, some b)
      → IsAscending (bolt.walk b)
      → contains (bolt.walk b) (marshal_uint64 w) ≡ true
      → lower < u64_mod
      → w < lower
      → cleanup bolt (some b) ≡ (ok tt, some b')
      → has_block bolt b' w ≡ false
  cleanup-removes b b' lower w read asc there small below h =
      let (b0, b1, from, e, to) = cleanup-ok (some b) (some b') lower read (ground arith) h in
      let t : Bytes = marshal_uint64 (lower - 1) in
      let deleted : delete_found bolt t (bolt.walk b) b ≡ ok b' = cc in
      ap is_some (
        delete_found-removes t (bolt.walk b) b b' (marshal_uint64 w) deleted asc there
          (length-marshal_uint64 w) (within_bound w (lower - 1) (omega arith) (omega arith)))
