-- ===== src/Db/Increasing.antt =====
-- Increasing lists of block numbers: one for each set, and what is left of one after its first items.
use eth_tracker.Prelude.{
  ℕ, zero, suc, ◌<◌, ◌≤◌, ◌≡◌, refl, sym, ◌∙◌, true, false, not, ◌&&◌, List, [], ◌∷◌, take, drop,
  All, contains, ◌==◌, nat_eq, ==_refl, ltb, arith, inl, inr, Bool-cases, length, ◌-◌,
}
use eth_tracker.Db.Bitset.{IsIncreasing}

-- A number up to the lower bound of a list is not in it.
contains-below : (x v : ℕ) (xs : List ℕ) → All (λ y. x < y) xs → v ≤ x → contains xs v ≡ false
contains-below x v [] above le = refl
contains-below x v (y ∷ xs) above le = ground (arith, contains-below x v xs above.1 le, above.0)

-- The head is the least number of the list.
head-least : (x y : ℕ) (ys : List ℕ) → IsIncreasing (y ∷ ys) → contains (y ∷ ys) x ≡ true → y ≤ x
head-least x y ys q there = ground (arith, λ (le : x ≤ y). contains-below y x ys q.0 le)

pub increasing_unique :
    (xs ys : List ℕ)
    → IsIncreasing xs
    → IsIncreasing ys
    → ((v : ℕ) → contains xs v ≡ contains ys v)
    → xs ≡ ys
increasing_unique [] [] p q e = refl
increasing_unique [] (y ∷ ys) p q e = absurd (ground (arith, e y))
increasing_unique (x ∷ xs) [] p q e = absurd (ground (arith, e x))
increasing_unique (x ∷ xs) (y ∷ ys) p q e =
    let heads : x ≡ y = omega (
      arith,
      head-least x y ys q (sym (e x) ∙ rw (==_refl x)),
      head-least y x xs p (e y ∙ rw (==_refl y)),
    ) in
    let tails : xs ≡ ys = increasing_unique xs ys p.1 q.1 λ v. elim (Bool-cases (ltb x v)) [
      | inl past ↦ ground (arith, e v)
      | inr before ↦
          contains-below x v xs p.0 (ground arith) ∙ sym (contains-below y v ys q.0 (ground arith))
    ] in
    λ i. heads i ∷ tails i

pub drop-IsIncreasing : (k : ℕ) (xs : List ℕ) → IsIncreasing xs → IsIncreasing (drop k xs)
drop-IsIncreasing zero xs p = p
drop-IsIncreasing (suc k) [] p = tt
drop-IsIncreasing (suc k) (x ∷ xs) p = drop-IsIncreasing k xs p.1

pub length-drop : (k : ℕ) (xs : List ℕ) → length (drop k xs) ≡ length xs - k
length-drop zero xs = omega arith
length-drop (suc k) [] = omega arith
length-drop (suc k) (x ∷ xs) = omega (arith, length-drop k xs)

All-drop : (P : ℕ → Type 0) (k : ℕ) (xs : List ℕ) → All P xs → All P (drop k xs)
All-drop P zero xs h = h
All-drop P (suc k) [] h = tt
All-drop P (suc k) (x ∷ xs) h = All-drop P k xs h.1

-- The items after the first `k` are those that are not among the first `k`.
pub contains-drop :
    (k v : ℕ) (xs : List ℕ)
    → IsIncreasing xs
    → contains (drop k xs) v ≡ (contains xs v && not (contains (take k xs) v))
contains-drop zero v xs p = ground arith
contains-drop (suc k) v [] p = refl
contains-drop (suc k) v (x ∷ xs) p = elim (Bool-cases (x == v)) [
  | inl same ↦
      contains-below x v (drop k xs) (All-drop (λ y. x < y) k xs p.0) (ground arith) ∙ ground arith
  | inr other ↦ ground (arith, contains-drop k v xs p.1)
]
