-- ===== src/Prelude/Codes.antt =====
-- Texts as lists of code points; numbers in decimal are told apart by their digits.
use Prim.Native.Char.{code}
use Prim.Native.Nat.{ℕ, zero, suc, ◌+◌, ◌-◌, ◌*◌, ◌/◌, ◌%◌, ◌≤◌, ◌<◌}
use Prim.Native.String.{String, ◌++◌ as join}
use mathlib.Core.Path.{◌≡◌, refl, ap, sym, ◌∙◌, subst}
use mathlib.Core.List.{List, [], ◌∷◌, ◌++◌}
use mathlib.Core.Logic.{inl, inr, ◌≢◌}
use native.Mathlib.Omega.{arith}
use text.Mathlib.TextEquality.{Char-path}
use text.Mathlib.TextLemmas.{nil-append, cons-append}
use eth_tracker.Prelude.Tests.{ltb, Bool-cases}
use eth_tracker.Prelude.Lists.{All, All-append}
use eth_tracker.Prelude.Text.{digit, decimal_fuel, decimal}

abbrev pub codes : String → List ℕ
codes String.[] = []
codes (String.◌∷◌ c s) = code c ∷ codes s

pub codes-append : (s t : String) → codes (join s t) ≡ codes s ++ codes t
codes-append String.[] t = ap codes (nil-append t)
codes-append (String.◌∷◌ c s) t =
    ap codes (cons-append c s t) ∙ ap (λ cs. code c ∷ cs) (codes-append s t)

pub codes_injective : (s t : String) → codes s ≡ codes t → s ≡ t
codes_injective String.[] String.[] e = refl
codes_injective String.[] (String.◌∷◌ d t) e = cc
codes_injective (String.◌∷◌ c s) String.[] e = cc
codes_injective (String.◌∷◌ c s) (String.◌∷◌ d t) e =
    let first : c ≡ d = Char-path c d (cc e) in
    let rest : s ≡ t = codes_injective s t (cc e) in λ i. String.◌∷◌ (first i) (rest i)

-- A decimal digit of ASCII.
abbrev pub IsDigit : ℕ → Type 0
IsDigit c = (48 ≤ c) × (c < 58)

abbrev value_from : ℕ → List ℕ → ℕ
value_from acc [] = acc
value_from acc (c ∷ cs) = value_from (acc * 10 + (c - 48)) cs

value_from-append :
    (acc : ℕ) (cs ds : List ℕ) → value_from acc (cs ++ ds) ≡ value_from (value_from acc cs) ds
value_from-append acc [] ds = refl
value_from-append acc (c ∷ cs) ds = value_from-append (acc * 10 + (c - 48)) cs ds

codes-digit : (d : ℕ) → d < 10 → codes (digit d) ≡ (48 + d) ∷ []
codes-digit zero h = refl
codes-digit (suc zero) h = refl
codes-digit (suc (suc zero)) h = refl
codes-digit (suc (suc (suc zero))) h = refl
codes-digit (suc (suc (suc (suc zero)))) h = refl
codes-digit (suc (suc (suc (suc (suc zero))))) h = refl
codes-digit (suc (suc (suc (suc (suc (suc zero)))))) h = refl
codes-digit (suc (suc (suc (suc (suc (suc (suc zero))))))) h = refl
codes-digit (suc (suc (suc (suc (suc (suc (suc (suc zero)))))))) h = refl
codes-digit (suc (suc (suc (suc (suc (suc (suc (suc (suc zero))))))))) h = refl
codes-digit (suc (suc (suc (suc (suc (suc (suc (suc (suc (suc d)))))))))) h = absurd (omega arith)

-- The digits of a number that has enough fuel.
decimal_fuel-codes :
    (fuel n : ℕ)
    → n ≤ fuel
    → All IsDigit (codes (decimal_fuel fuel n)) × (value_from 0 (codes (decimal_fuel fuel n)) ≡ n)
unfolding decimal_fuel
decimal_fuel-codes zero n h =
    rw (codes-digit n (omega arith)) (((omega arith, omega arith), tt), omega arith)
decimal_fuel-codes (suc fuel) n h = elim (Bool-cases (ltb n 10)) [
  | inl small ↦
      rw (small, codes-digit n (ground arith)) (((omega arith, ground arith), tt), omega arith)
  | inr big ↦
      let (all, value) = decimal_fuel-codes fuel (n / 10) (omega arith) in
      rw
        (
          big,
          codes-append (decimal_fuel fuel (n / 10)) (digit (n % 10)),
          codes-digit (n % 10) (omega arith),
        )
        (
          All-append IsDigit _ _ all ((omega arith, omega arith), tt),
          value_from-append 0 (codes (decimal_fuel fuel (n / 10))) ((48 + n % 10) ∷ [])
              ∙ rw value (omega arith),
        )
]

pub decimal-digits : (n : ℕ) → All IsDigit (codes (decimal n))
unfolding decimal
decimal-digits n = (decimal_fuel-codes n n (omega arith)).0

-- Different numbers are printed differently.
pub decimal_injective : (m n : ℕ) → codes (decimal m) ≡ codes (decimal n) → m ≡ n
unfolding decimal
decimal_injective m n e =
    sym (decimal_fuel-codes m m (omega arith)).1
    ∙ ap (value_from 0) e
    ∙ (decimal_fuel-codes n n (omega arith)).1

no_mark : (c : ℕ) (xs ys : List ℕ) → All (λ y. y ≢ c) (xs ++ (c ∷ ys)) → ⊥
no_mark c [] ys h = h.0 refl
no_mark c (x ∷ xs) ys h = no_mark c xs ys h.1

-- Lists that are split at the same mark, which the second parts do not have, are split alike.
pub split_alike :
    (c : ℕ) (xs xs' ys ys' : List ℕ)
    → All (λ y. y ≢ c) ys
    → All (λ y. y ≢ c) ys'
    → (xs ++ (c ∷ ys)) ≡ (xs' ++ (c ∷ ys'))
    → (xs ≡ xs') × (ys ≡ ys')
split_alike c [] [] ys ys' h h' e = (refl, cc e)
split_alike c [] (x ∷ xs') ys ys' h h' e =
    let tail : ys ≡ xs' ++ (c ∷ ys') = cc e in
    absurd (no_mark c xs' ys' (subst (All (λ y. y ≢ c)) tail h))
split_alike c (x ∷ xs) [] ys ys' h h' e =
    let tail : ys' ≡ xs ++ (c ∷ ys) = cc e in
    absurd (no_mark c xs ys (subst (All (λ y. y ≢ c)) tail h'))
split_alike c (x ∷ xs) (x' ∷ xs') ys ys' h h' e =
    let (same, rest) = split_alike c xs xs' ys ys' h h' (cc e) in (cc (e, same), rest)
