-- ===== src/Config/Env/Values.antt =====
-- The values that variables of the environment set.
use eth_tracker.Prelude.{
  ℕ, ◌≡◌, refl, sym, ap, ◌∙◌, false, Bool-cases, inl, inr, List, [], ◌∷◌, ◌++◌, All, contains,
  length, true, ◌<◌, ◌==◌, nat_eq, arith,
}
use eth_tracker.Prelude.Split.{onto_first}
use eth_tracker.Config.Env.{Text, env_separator, split, EnvValue, single, array, env_value}

-- strings.Join(parts, " ")
abbrev pub join : List Text → Text
join [] = []
join (part ∷ []) = part
join (part ∷ other ∷ parts) = part ++ env_separator ∷ join (other ∷ parts)

abbrev pub IsPart : Text → Type 0
IsPart part = contains part env_separator ≡ false

join-onto_first : (c : ℕ) (parts : List Text) → join (onto_first c parts) ≡ c ∷ join parts
join-onto_first c [] = refl
join-onto_first c (part ∷ []) = refl
join-onto_first c (part ∷ other ∷ parts) = refl

join-onto_first-cons :
    (c : ℕ) (parts : List Text)
    → join ([] ∷ onto_first c parts) ≡ env_separator ∷ join (onto_first c parts)
join-onto_first-cons c [] = refl
join-onto_first-cons c (part ∷ parts) = refl

-- A text has at least one part.
join-split-cons : (cs : Text) → join ([] ∷ split cs) ≡ env_separator ∷ join (split cs)
join-split-cons [] = refl
join-split-cons (c ∷ cs) = elim (Bool-cases (c == env_separator)) [
  | inl space ↦ rw space refl
  | inr other ↦ rw other (join-onto_first-cons c (split cs))
]

join-split : (cs : Text) → join (split cs) ≡ cs
join-split [] = refl
join-split (c ∷ cs) = elim (Bool-cases (c == env_separator)) [
  | inl space ↦
      let same : c ≡ env_separator = (nat_eq.beq_iff c env_separator).0 space in
      rw space (
        join-split-cons cs
        ∙ ap (λ xs. env_separator ∷ xs) (join-split cs)
        ∙ ap (λ x. x ∷ cs) (sym same))
  | inr other ↦ rw other (join-onto_first c (split cs) ∙ ap (λ xs. c ∷ xs) (join-split cs))
]

All-onto_first :
    (c : ℕ) (parts : List Text)
    → (c == env_separator) ≡ false
    → All IsPart parts
    → All IsPart (onto_first c parts)
All-onto_first c [] other h = (ground arith, tt)
All-onto_first c (part ∷ parts) other h = (ground (arith, h.0), h.1)

All-split : (cs : Text) → All IsPart (split cs)
All-split [] = (refl, tt)
All-split (c ∷ cs) = elim (Bool-cases (c == env_separator)) [
  | inl space ↦ rw space (refl, All-split cs)
  | inr other ↦ rw other (All-onto_first c (split cs) other (All-split cs))
]

length-onto_first :
    (c : ℕ) (parts : List Text) → 0 < length parts → length (onto_first c parts) ≡ length parts
length-onto_first c [] filled = absurd (omega arith)
length-onto_first c (part ∷ parts) filled = refl

length-split-positive : (cs : Text) → 0 < length (split cs)
length-split-positive [] = omega arith
length-split-positive (c ∷ cs) = elim (Bool-cases (c == env_separator)) [
  | inl space ↦ rw space (omega arith)
  | inr other ↦
      let filled = length-split-positive cs in
      rw (other, length-onto_first c (split cs) filled) filled
]

length-split-spaced : (cs : Text) → contains cs env_separator ≡ true → 1 < length (split cs)
length-split-spaced [] h = cc h
length-split-spaced (c ∷ cs) h = elim (Bool-cases (c == env_separator)) [
  | inl space ↦ rw space (let filled = length-split-positive cs in omega arith)
  | inr other ↦
      rw (other, length-onto_first c (split cs) (length-split-positive cs))
        (length-split-spaced cs (rw other at h))
]

-- What is set for `v`: `v` itself, which has no space then, or an array of two values or more without
-- a space, which spaces join to `v`.
abbrev pub IsValue : Text → EnvValue → Type 0
IsValue v (single u) = (u ≡ v) × (contains v env_separator ≡ false)
IsValue v (array parts) = (join parts ≡ v) × All IsPart parts × (1 < length parts)

-- A variable whose value has no space sets the value itself. Any other one sets an array of two values
-- or more: none of them has a space, and joined by spaces they make up the value of the variable.
pub env_value-IsValue : (v : Text) → IsValue v (env_value v)
env_value-IsValue v = elim (Bool-cases (contains v env_separator)) [
  | inl spaced ↦ rw spaced (join-split v, All-split v, length-split-spaced v spaced)
  | inr whole ↦ rw whole (refl, whole)
]
