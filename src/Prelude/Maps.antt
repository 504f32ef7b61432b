-- ===== src/Prelude/Maps.antt =====
-- Go's built-in `map[K]V`, as an association list in which an assignment replaces the entry.
use mathlib.Core.Path.{◌≡◌, refl, subst}
use mathlib.Core.Logic.{inl, inr}
use mathlib.Core.Option.{Option, none, some}
use mathlib.Core.List.{List, [], ◌∷◌}
use native.Mathlib.Omega.{arith}
use eth_tracker.Prelude.Tests.{Eq, ◌==◌, if◌then◌else◌, Bool-cases}
use eth_tracker.Prelude.Lists.{All}

abbrev pub Map : Type 0 → Type 0 → Type 0
Map K V = List (K × V)

module _ {K V : Type 0} ⦃e : Eq K⦄ where
  -- v, ok := entries[key]
  abbrev pub lookup : K → Map K V → Option V
  lookup key ((held, value) ∷ entries) =
      let later = lookup key entries in if held == key then some value else later
  lookup key [] = none

  -- entries[key] = value
  abbrev pub insert : K → V → Map K V → Map K V
  insert key value ((held, old) ∷ entries) =
      let later = insert key value entries in
      if held == key then (key, value) ∷ entries else (held, old) ∷ later
  insert key value [] = (key, value) ∷ []

  pub lookup-insert :
      (key other : K) (value : V) (entries : Map K V)
      → lookup other (insert key value entries)
        ≡ (if key == other then some value else lookup other entries)
  lookup-insert key other value ((held, old) ∷ entries) = ground (
    arith,
    lookup-insert key other value entries,
    e.beq_iff held other,
    e.beq_iff held key,
    e.beq_iff key other,
  )
  lookup-insert key other value [] = refl

  module _ (P : K × V → Type 0) where
    pub All-insert : (k : K) (v : V) (m : Map K V) → P (k, v) → All P m → All P (insert k v m)
    All-insert k v [] p h = (p, tt)
    All-insert k v ((j, w) ∷ m) p h = elim (Bool-cases (j == k)) [
      | inl e ↦ rw e (p, h.1)
      | inr ne ↦ rw ne (h.0, All-insert k v m p h.1)
    ]

    -- What holds of every entry holds of the entry that a lookup finds.
    pub All-lookup : (k : K) (v : V) (m : Map K V) → All P m → lookup k m ≡ some v → P (k, v)
    All-lookup k v [] h found = cc
    All-lookup k v ((j, w) ∷ m) h found = elim (Bool-cases (j == k)) [
      | inl same ↦ subst P (ground (arith, e.beq_iff j k)) h.0
      | inr ne ↦ All-lookup k v m h.1 (rw ne at found)
    ]
