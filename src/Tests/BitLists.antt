-- ===== src/Tests/BitLists.antt =====
-- Bitsets as lists of bits.
use eth_tracker.Prelude.{
  ℕ, zero, suc, ◌+◌, ◌≤◌, ◌<◌, ◌≡◌, refl, ◌∙◌, Bool, true, false, List, [], ◌∷◌, All, All-map,
  length, take, arith, ◌==◌, nat_eq, contains, if◌then◌else◌,
}
use eth_tracker.Db.Bitset.{BitSets, IsIncreasing, drop_below, last_or_zero}

abbrev test : List Bool → ℕ → Bool
test [] i = false
test (b ∷ bs) zero = b
test (b ∷ bs) (suc i) = test bs i

abbrev set : List Bool → ℕ → List Bool
set [] zero = true ∷ []
set [] (suc i) = false ∷ set [] i
set (b ∷ bs) zero = true ∷ bs
set (b ∷ bs) (suc i) = b ∷ set bs i

abbrev clear : List Bool → ℕ → List Bool
clear [] i = []
clear (b ∷ bs) zero = false ∷ bs
clear (b ∷ bs) (suc i) = b ∷ clear bs i

-- The set bits of a list whose first bit has the number `n`.
abbrev members_from : ℕ → List Bool → List ℕ
members_from n [] = []
members_from n (true ∷ bs) = n ∷ members_from (suc n) bs
members_from n (false ∷ bs) = members_from (suc n) bs

pub test-set_lem :
    (b : List Bool) (i j : ℕ) → test (set b i) j ≡ (if i == j then true else test b j)
test-set_lem [] zero zero = refl
test-set_lem [] zero (suc j) = ground arith
test-set_lem [] (suc i) zero = ground arith
test-set_lem [] (suc i) (suc j) = test-set_lem [] i j ∙ ground arith
test-set_lem (b ∷ bs) zero zero = refl
test-set_lem (b ∷ bs) zero (suc j) = ground arith
test-set_lem (b ∷ bs) (suc i) zero = ground arith
test-set_lem (b ∷ bs) (suc i) (suc j) = test-set_lem bs i j ∙ ground arith

pub test-clear_lem :
    (b : List Bool) (i j : ℕ) → test (clear b i) j ≡ (if i == j then false else test b j)
test-clear_lem [] i j = ground arith
test-clear_lem (b ∷ bs) zero zero = refl
test-clear_lem (b ∷ bs) zero (suc j) = ground arith
test-clear_lem (b ∷ bs) (suc i) zero = ground arith
test-clear_lem (b ∷ bs) (suc i) (suc j) = test-clear_lem bs i j ∙ ground arith

members_from-above : (n : ℕ) (bs : List Bool) → All (λ m. n ≤ m) (members_from n bs)
members_from-above n [] = tt
members_from-above n (true ∷ bs) =
    (omega arith, All-map _ _ _ (λ m h. omega arith) (members_from-above (suc n) bs))
members_from-above n (false ∷ bs) =
    All-map _ _ _ (λ m h. omega arith) (members_from-above (suc n) bs)

pub members_from-IsIncreasing : (n : ℕ) (bs : List Bool) → IsIncreasing (members_from n bs)
members_from-IsIncreasing n [] = tt
members_from-IsIncreasing n (true ∷ bs) = (
  All-map _ _ _ (λ m h. omega arith) (members_from-above (suc n) bs),
  members_from-IsIncreasing (suc n) bs,
)
members_from-IsIncreasing n (false ∷ bs) = members_from-IsIncreasing (suc n) bs

not_below : (n i : ℕ) (ms : List ℕ) → i < n → All (λ m. n ≤ m) ms → contains ms i ≡ false
not_below n i [] h all = refl
not_below n i (m ∷ ms) h all = ground (arith, not_below n i ms h all.1)

contains-members_from :
    (n i : ℕ) (bs : List Bool) → contains (members_from n bs) (n + i) ≡ test bs i
contains-members_from n i [] = refl
contains-members_from n zero (true ∷ bs) = ground arith
contains-members_from n zero (false ∷ bs) =
    not_below (suc n) (n + 0) (members_from (suc n) bs) (omega arith)
      (members_from-above (suc n) bs)
contains-members_from n (suc i) (true ∷ bs) = ground (arith, contains-members_from (suc n) i bs)
contains-members_from n (suc i) (false ∷ bs) = ground (arith, contains-members_from (suc n) i bs)

pub contains-members_lem : (bs : List Bool) (i : ℕ) → contains (members_from 0 bs) i ≡ test bs i
contains-members_lem bs i = ground (arith, contains-members_from 0 i bs)

abbrev pub bit_lists : BitSets (List Bool)
bit_lists = record {
  empty = [];
  set = set;
  clear = clear;
  test = test;
  members = members_from 0;
  count = λ b. length (members_from 0 b);
  next_set_many = λ b i capacity.
      let found = take capacity (drop_below i (members_from 0 b)) in (last_or_zero found, found);
  test-empty = λ i. refl;
  test-set = test-set_lem;
  test-clear = test-clear_lem;
  members-IsIncreasing = members_from-IsIncreasing 0;
  contains-members = contains-members_lem;
  count_lem = λ b. refl;
  next_set_many_lem = λ b i capacity. refl;
}
