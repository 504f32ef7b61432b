-- ===== src/Db/Keys.antt =====
-- The order of the keys of the block store, and which keys can be equal.
use eth_tracker.Prelude.{
  ℕ, ◌<◌, ◌≡◌, ◌≢◌, refl, ap, sym, ◌∙◌, subst, true, false, List, [], ◌∷◌, All, length, arith, inl,
  inr, Bool-cases, ◌==◌, bytes_eq, nat_eq, bytes_beq_iff, contains,
}
use eth_tracker.Eth.Abi.{Bytes}
use eth_tracker.Db.Bytes.{
  u64_mod, marshal_uint64, unmarshal_uint64, bytes_le, unmarshal_uint64-marshal_uint64,
  length-marshal_uint64,
}
use eth_tracker.Db.Bolt.{IsAscending}

pub bytes_le_refl : (xs : Bytes) → bytes_le xs xs ≡ true
unfolding bytes_le
bytes_le_refl [] = refl
bytes_le_refl (x ∷ xs) = ground (arith, bytes_le_refl xs)

pub bytes_le_trans :
    (xs ys zs : Bytes) → bytes_le xs ys ≡ true → bytes_le ys zs ≡ true → bytes_le xs zs ≡ true
unfolding bytes_le
bytes_le_trans [] ys zs p q = refl
bytes_le_trans (x ∷ xs) [] zs p q = cc
bytes_le_trans (x ∷ xs) (y ∷ ys) [] p q = cc
bytes_le_trans (x ∷ xs) (y ∷ ys) (z ∷ zs) p q = ground (arith, bytes_le_trans xs ys zs)

pub marshal_uint64_injective :
    (v w : ℕ) → v < u64_mod → w < u64_mod → marshal_uint64 v ≡ marshal_uint64 w → v ≡ w
marshal_uint64_injective v w hv hw e = cc (
  unmarshal_uint64-marshal_uint64 v hv,
  unmarshal_uint64-marshal_uint64 w hw,
  ap unmarshal_uint64 e,
)

-- The keys of two blocks are the same key exactly if the blocks are the same.
pub marshal_uint64-== :
    (v w : ℕ) → v < u64_mod → w < u64_mod → (marshal_uint64 v == marshal_uint64 w) ≡ (v == w)
marshal_uint64-== v w hv hw = ground (
  arith,
  bytes_beq_iff (marshal_uint64 v) (marshal_uint64 w),
  marshal_uint64_injective v w hv hw,
  ap marshal_uint64 {x = v} {y = w},
)

-- A key of another length than eight is no key of a block.
pub other_length-ne : (k : Bytes) (v : ℕ) → length k ≢ 8 → (k == marshal_uint64 v) ≡ false
other_length-ne k v ne = elim (Bool-cases (k == marshal_uint64 v)) [
  | inl same ↦
      absurd
        (ne (ap length ((bytes_beq_iff k (marshal_uint64 v)).0 same) ∙ length-marshal_uint64 v))
  | inr differ ↦ differ
]

pub All-contains :
    (P : Bytes → Type 0) (ks : List Bytes) (j : Bytes) → All P ks → contains ks j ≡ true → P j
All-contains P [] j h c = cc
All-contains P (k ∷ ks) j h c = elim (Bool-cases (k == j)) [
  | inl same ↦ subst P ((bytes_beq_iff k j).0 same) h.0
  | inr differ ↦ All-contains P ks j h.1 (rw differ at c)
]

-- Past the bound, an ascending list has no key up to the bound.
pub contains-past :
    (bound k : Bytes) (ks : List Bytes) (j : Bytes)
    → IsAscending (k ∷ ks)
    → bytes_le k bound ≡ false
    → bytes_le j bound ≡ true
    → contains (k ∷ ks) j ≡ false
contains-past bound k ks j asc past within = elim (Bool-cases (contains (k ∷ ks) j)) [
  | inl there ↦
      let above : bytes_le k j ≡ true =
        All-contains (λ i. bytes_le k i ≡ true) (k ∷ ks) j (bytes_le_refl k, asc.0) there in
      cc (bytes_le_trans k j bound above within)
  | inr not_there ↦ not_there
]

pub marshal_uint64-ne : (k : Bytes) (v : ℕ) → length k ≢ 8 → (marshal_uint64 v == k) ≡ false
marshal_uint64-ne k v ne = elim (Bool-cases (marshal_uint64 v == k)) [
  | inl same ↦
      absurd (
        ne
          (ap length (sym ((bytes_beq_iff (marshal_uint64 v) k).0 same)) ∙ length-marshal_uint64 v))
  | inr differ ↦ differ
]
