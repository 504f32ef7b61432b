-- ===== src/Tests/Tracked.antt =====
-- The concurrent map of the cache as an association list in which the first entry of a key counts.
use eth_tracker.Prelude.{
  ℕ, ◌+◌, ◌≡◌, refl, Bool, [], ◌∷◌, none, String, arith, ◌==◌, string_eq, is_some, if◌then◌else◌,
}
use eth_tracker.Prelude.Maps.{Map, lookup}
use eth_tracker.Cache.MapCache.{XMap}

abbrev pub Tracked : Type 0
Tracked = Map String Bool

abbrev delete : Tracked → String → Tracked
delete [] k = []
delete ((j, v) ∷ m) k = let rest = delete m k in if j == k then rest else (j, v) ∷ rest

-- The number of the different keys.
abbrev size : Tracked → ℕ
size [] = 0
size ((j, v) ∷ m) = let rest = size m in if is_some (lookup j m) then rest else rest + 1

pub load-delete_lem :
    (m : Tracked) (k j : String) → lookup j (delete m k) ≡ (if k == j then none else lookup j m)
load-delete_lem [] k j = ground arith
load-delete_lem ((i, v) ∷ m) k j = ground (
  arith,
  string_eq.beq_iff i k,
  string_eq.beq_iff k j,
  string_eq.beq_iff i j,
  load-delete_lem m k j,
)

pub size-delete_lem :
    (m : Tracked) (k : String)
    → (if is_some (lookup k m) then size (delete m k) + 1 else size (delete m k)) ≡ size m
size-delete_lem [] k = refl
size-delete_lem ((j, v) ∷ m) k = ground (
  arith,
  string_eq.beq_iff j k,
  string_eq.beq_iff k j,
  size-delete_lem m k,
  load-delete_lem m k j,
)

abbrev pub tracked_map : XMap Tracked
tracked_map = record {
  empty = [];
  load = λ m k. lookup k m;
  store = λ m k v. (k, v) ∷ m;
  delete = delete;
  size = size;
  load-empty = λ k. refl;
  size-empty = refl;
  load-store = λ m k j v. refl;
  load-delete = load-delete_lem;
  size-store = λ m k v. refl;
  size-delete = size-delete_lem;
}
