-- ===== src/Db/Bitset.antt =====
-- The bitset package, with the documented behaviour of the calls that the service makes.
use eth_tracker.Prelude.{
  ℕ, ◌≡◌, ◌<◌, Bool, true, false, List, [], ◌∷◌, length, take, All, ltb, ◌==◌, nat_eq, contains,
  if◌then◌else◌,
}

-- Each number is below those after it.
abbrev pub IsIncreasing : List ℕ → Type 0
IsIncreasing [] = Unit
IsIncreasing (x ∷ xs) = All (λ y. x < y) xs × IsIncreasing xs

-- The numbers of an increasing list from `i` on.
abbrev pub drop_below : ℕ → List ℕ → List ℕ
drop_below i [] = []
drop_below i (x ∷ xs) = let rest = drop_below i xs in if ltb x i then rest else x ∷ xs

-- The last number, or 0 if there is none.
abbrev pub last_or_zero : List ℕ → ℕ
last_or_zero [] = 0
last_or_zero (x ∷ []) = x
last_or_zero (x ∷ y ∷ xs) = last_or_zero (y ∷ xs)

-- `members` is the increasing list of the set bits, by which `Count` and `NextSetMany` are described;
-- the program has no such call. `set` is `Set` below the capacity; at the capacity `Set` panics, which
-- Db/Bolt.set_bit has.
pub record BitSets (V : Type 0) : Type 0 where
  pub empty : V
  pub set : V → ℕ → V
  pub clear : V → ℕ → V
  pub test : V → ℕ → Bool
  pub members : V → List ℕ
  pub count : V → ℕ
  pub next_set_many : V → ℕ → ℕ → ℕ × List ℕ
  pub test-empty : (i : ℕ) → test empty i ≡ false
  pub test-set : (b : V) (i j : ℕ) → test (set b i) j ≡ (if i == j then true else test b j)
  pub test-clear : (b : V) (i j : ℕ) → test (clear b i) j ≡ (if i == j then false else test b j)
  pub members-IsIncreasing : (b : V) → IsIncreasing (members b)
  pub contains-members : (b : V) (i : ℕ) → contains (members b) i ≡ test b i
  pub count_lem : (b : V) → count b ≡ length (members b)
  pub next_set_many_lem :
      (b : V) (i capacity : ℕ)
      → next_set_many b i capacity ≡ (
        last_or_zero (take capacity (drop_below i (members b))),
        take capacity (drop_below i (members b)),
      )
