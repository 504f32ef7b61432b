-- ===== src/Db/Missing.antt =====
-- `GetMissingValuesBitSet` finds exactly the blocks of the range that the bucket does not have.
use eth_tracker.Prelude.{
  ℕ, zero, suc, ◌+◌, ◌-◌, ◌%◌, ◌<◌, ◌≤◌, ◌≡◌, refl, ap, sym, ◌∙◌, Bool, true, false, not, ◌&&◌,
  List, [], ◌∷◌, some, All, length, arith, leb, ltb, leb→le, le→leb, inl, inr, Bool-cases, ◌==◌,
  bytes_eq, nat_eq, contains, is_some, if◌then◌else◌, nat_beq_iff,
}
use eth_tracker.Result.{ok, panic}
use eth_tracker.Eth.Abi.{Bytes}
use eth_tracker.Db.Bytes.{
  u64_mod, marshal_uint64, bytes_le, IsByte, key_number, unmarshal_uint64-key_number,
  marshal_uint64-key_number, bytes_le-marshal_uint64,
}
use eth_tracker.Db.Bitset.{BitSets}
use eth_tracker.Db.Bolt.{
  IsAscending, Bolt, set_bit, set_range, loop_fuel, clear_key, clear_found,
  get_missing_values_bit_set,
}
use eth_tracker.Db.Keys.{contains-past, marshal_uint64-==, other_length-ne}

pub within_bound :
    (v bound : ℕ)
    → v ≤ bound
    → bound < u64_mod
    → bytes_le (marshal_uint64 v) (marshal_uint64 bound) ≡ true
within_bound v bound h small =
    bytes_le-marshal_uint64 v bound (omega arith) small ∙ le→leb v bound h

key-eq-number :
    (k : Bytes) (v : ℕ)
    → All IsByte k
    → length k ≡ 8
    → v < u64_mod
    → (k == marshal_uint64 v) ≡ (key_number k == v)
key-eq-number k v bytes eight small =
    let (written, fits) = marshal_uint64-key_number k bytes eight in
    ap (λ (j : Bytes). j == marshal_uint64 v) (sym written)
    ∙ marshal_uint64-== (key_number k) v fits small

module _ {V : Type 0} (bits : BitSets V) where
  set_range-more :
      (fuel i upper : ℕ) (s : V)
      → leb i upper ≡ true
      → ltb i (u64_mod - 1) ≡ true
      → set_range bits (suc fuel) i upper s ≡ set_range bits fuel (i + 1) upper (bits.set s i)
  unfolding set_range set_bit
  set_range-more fuel i upper s more fits =
      let next : (i + 1) % u64_mod ≡ i + 1 = ground arith in
      rw (more, fits) (ap (λ (j : ℕ). set_range bits fuel j upper (bits.set s i)) next)

  set_range-done :
      (fuel i upper : ℕ) (s : V) → leb i upper ≡ false → set_range bits (suc fuel) i upper s ≡ ok s
  unfolding set_range
  set_range-done fuel i upper s done = rw done

  -- With enough rounds the loop ends, and it has set the range and nothing else.
  set_range_lem :
      (fuel i upper : ℕ) (s : V)
      → upper + 1 < u64_mod
      → i ≤ upper + 1
      → upper + 1 < i + fuel
      → (s' : V) × (set_range bits fuel i upper s ≡ ok s')
        × ((v : ℕ) → bits.test s' v ≡ (if leb i v && leb v upper then true else bits.test s v))
  set_range_lem zero i upper s small le enough = absurd (omega arith)
  set_range_lem (suc fuel) i upper s small le enough = elim (Bool-cases (leb i upper)) [
    | inl more ↦
        let (s', e, t) =
          set_range_lem fuel (i + 1) upper (bits.set s i) small (ground arith) (omega arith) in
        (
          s',
          set_range-more fuel i upper s more (ground arith) ∙ e,
          λ v. ground (arith, t v, bits.test-set s i v),
        )
    | inr done ↦ (s, set_range-done fuel i upper s done, λ v. ground arith)
  ]

  set_range-past :
      (fuel i : ℕ) (s : V) → i ≡ u64_mod - 1 → set_range bits (suc fuel) i (u64_mod - 1) s ≡ panic
  unfolding set_range set_bit
  set_range-past fuel i s e = ground (arith, e)

  -- Up to the largest uint64, the loop comes to the call of `Set` with it, and panics.
  set_range-panics :
      (fuel i : ℕ) (s : V)
      → i < u64_mod
      → u64_mod ≤ i + fuel
      → set_range bits fuel i (u64_mod - 1) s ≡ panic
  set_range-panics zero i s h enough = absurd (omega arith)
  set_range-panics (suc fuel) i s h enough = elim (Bool-cases (ltb i (u64_mod - 1))) [
    | inl fits ↦
        set_range-more fuel i (u64_mod - 1) s (ground arith) fits
        ∙ set_range-panics fuel (i + 1) (bits.set s i) (ground arith) (omega arith)
    | inr last ↦ set_range-past fuel i s (ground arith)
  ]

  clear_key_lem :
      (k : Bytes) (s : V)
      → All IsByte k
      → (s' : V) × (clear_key bits k s ≡ ok s')
        × ((v : ℕ)
            → v < u64_mod
            → bits.test s' v ≡ (if k == marshal_uint64 v then false else bits.test s v))
        × ((v : ℕ) → bits.test s v ≡ false → bits.test s' v ≡ false)
  unfolding clear_key
  clear_key_lem k s bytes = elim (Bool-cases (length k == 8)) [
    | inl eight ↦
        let n : ℕ = key_number k in
        (
          bits.clear s n,
          rw (eight, unmarshal_uint64-key_number k ((nat_beq_iff _ 8).0 eight)),
          (λ v small.
              rw (key-eq-number k v bytes ((nat_beq_iff _ 8).0 eight) small)
                (bits.test-clear s n v)),
          λ v h. ground (arith, bits.test-clear s n v),
        )
    | inr other ↦ (s, rw other, (λ v _. rw (other_length-ne k v (λ e. ground arith))), λ v h. h)
  ]

  clear_found_lem :
      (bound : ℕ) (ks : List Bytes) (s : V)
      → bound < u64_mod
      → All (All IsByte) ks
      → IsAscending ks
      → (s' : V) × (clear_found bits (marshal_uint64 bound) ks s ≡ ok s')
        × ((v : ℕ)
            → v ≤ bound
            → bits.test s' v ≡ (if contains ks (marshal_uint64 v) then false else bits.test s v))
        × ((v : ℕ) → bits.test s v ≡ false → bits.test s' v ≡ false)
  unfolding clear_found
  clear_found_lem bound [] s small bytes asc = (s, refl, (λ v _. refl), λ v h. h)
  clear_found_lem bound (k ∷ ks) s small bytes asc =
      elim (Bool-cases (bytes_le k (marshal_uint64 bound))) [
        | inl within ↦
            let (s1, e1, t1, m1) = clear_key_lem k s bytes.0 in
            let (s2, e2, t2, m2) = clear_found_lem bound ks s1 small bytes.1 asc.1 in
            (s2, rw (within, e1) e2, (λ v h. ground (arith, t1 v, t2 v h)), λ v h. m2 v (m1 v h))
        | inr past ↦ (
          s,
          rw past,
          (λ v h.
              rw
                (contains-past (marshal_uint64 bound) k ks (marshal_uint64 v) asc past
                  (within_bound v bound h small))
                refl),
          λ v h. h,
        )
      ]

-- Whether the block `v` is marked as processed.
abbrev pub has_block : {B : Type 0} → Bolt B → B → ℕ → Bool
has_block bolt b v = is_some (bolt.get b (marshal_uint64 v))

module _ {B V : Type 0} (bolt : Bolt B) (bits : BitSets V) where
  -- If the lower bound is at most the upper one, the upper one is below the last uint64, and the
  -- transaction opens: the call returns a bitset, it leaves the store alone, and it finds a block
  -- missing exactly if the block lies between the bounds and is not marked as processed.
  pub get_missing-exact :
      (b : B) (lower upper : ℕ)
      → bolt.begin (some b) ≡ ok tt
      → lower ≤ upper
      → upper + 1 < u64_mod
      → (missing : V) × (get_missing_values_bit_set bolt bits lower upper (some b)
          ≡ (ok missing, some b))
        × ((v : ℕ)
            → bits.test missing v ≡ ((leb lower v && leb v upper) && not (has_block bolt b v)))
  unfolding get_missing_values_bit_set
  get_missing-exact b lower upper opens le small =
      let (s1, e1, t1) =
        set_range_lem bits loop_fuel lower upper bits.empty small (omega arith)
          (unfold loop_fuel in omega arith) in
      let (s2, e2, t2, m2) =
        clear_found_lem bits upper (bolt.seek b (marshal_uint64 lower)) s1 (omega arith)
          (bolt.seek_bytes b (marshal_uint64 lower))
          (bolt.seek-IsAscending b (marshal_uint64 lower)) in
      (
        s2,
        rw (opens, e1, e2),
        λ v. elim (Bool-cases (leb v upper)) [
          | inl within ↦ ground (
            arith,
            t1 v,
            t2 v (leb→le v upper within),
            bits.test-empty v,
            bolt.contains-seek b (marshal_uint64 lower) (marshal_uint64 v),
            bytes_le-marshal_uint64 lower v (omega arith) (ground arith),
          )
          | inr beyond ↦ ground (arith, t1 v, m2 v, bits.test-empty v)
        ],
      )

  -- If the lower bound is a uint64, the upper one is the largest uint64, and the transaction opens:
  -- the call panics, since the loop over the range comes to set the bit of the upper bound, whose
  -- number is the capacity of a bitset. It leaves the store alone.
  pub get_missing-last :
      (b : B) (lower : ℕ)
      → bolt.begin (some b) ≡ ok tt
      → lower < u64_mod
      → get_missing_values_bit_set bolt bits lower (u64_mod - 1) (some b) ≡ (panic, some b)
  unfolding get_missing_values_bit_set
  get_missing-last b lower opens h =
      let panics =
        set_range-panics bits loop_fuel lower bits.empty h (unfold loop_fuel in omega arith) in
      rw (opens, panics)
