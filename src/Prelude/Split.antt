-- ===== src/Prelude/Split.antt =====
-- Texts cut at each occurrence of a character.
use Prim.Native.Nat.{ℕ}
use mathlib.Core.List.{List, [], ◌∷◌}
use eth_tracker.Prelude.Tests.{◌==◌, nat_eq, if◌then◌else◌}

-- A character in front of the first part.
abbrev pub onto_first : ℕ → List (List ℕ) → List (List ℕ)
onto_first c [] = (c ∷ []) ∷ []
onto_first c (part ∷ parts) = (c ∷ part) ∷ parts

abbrev pub split_on : ℕ → List ℕ → List (List ℕ)
split_on separator [] = [] ∷ []
split_on separator (c ∷ cs) =
    let parts = split_on separator cs in if c == separator then [] ∷ parts else onto_first c parts
