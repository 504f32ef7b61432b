-- ===== src/Cache/MapCache.antt =====
-- internal/cache/xmap.go: the cache in memory, over the concurrent map of xsync.
pub mod Tracking
use Prim.Native.String.{String}
use eth_tracker.Prelude.{
  ℕ, ◌+◌, ◌≡◌, Bool, true, false, List, [], ◌∷◌, Option, none, some, is_some, ◌==◌, string_eq,
  if◌then◌else◌,
}
use eth_tracker.Result.{ok}
use eth_tracker.Exec.{Exec}
use eth_tracker.Exec.Lens.{Lens}
use eth_tracker.Cache.{Cache}

-- `xsync.MapOf[string, bool]` with the documented behaviour of its calls.
pub record XMap (M : Type 0) : Type 0 where
  pub empty : M
  pub load : M → String → Option Bool
  pub store : M → String → Bool → M
  pub delete : M → String → M
  pub size : M → ℕ
  pub load-empty : (k : String) → load empty k ≡ none
  pub size-empty : size empty ≡ 0
  pub load-store :
      (m : M) (k j : String) (v : Bool)
      → load (store m k v) j ≡ (if k == j then some v else load m j)
  pub load-delete :
      (m : M) (k j : String) → load (delete m k) j ≡ (if k == j then none else load m j)
  pub size-store :
      (m : M) (k : String) (v : Bool)
      → size (store m k v) ≡ (if is_some (load m k) then size m else size m + 1)
  pub size-delete :
      (m : M) (k : String)
      → (if is_some (load m k) then size (delete m k) + 1 else size (delete m k)) ≡ size m

module _ {M : Type 0} (xmap : XMap M) where
  -- The loop of `ExistsNetwork` over its addresses.
  unfoldable pub any_tracked : List String → M → Bool
  any_tracked [] m = false
  any_tracked (addr ∷ addresses) m =
      let rest = any_tracked addresses m in if is_some (xmap.load m addr) then true else rest

  module _ {S : Type 0} (state : Lens S M) where
    -- The cache starts over a new map.
    unfoldable pub new_map_cache : Exec S (Unit {0})
    new_map_cache s = (ok tt, state.put xmap.empty s)

    unfoldable pub add : String → Exec S (Unit {0})
    add key s = (ok tt, state.put (xmap.store (state.get s) key true) s)

    unfoldable pub remove : String → Exec S (Unit {0})
    remove key s = (ok tt, state.put (xmap.delete (state.get s) key) s)

    unfoldable pub exists : String → Exec S Bool
    exists key s = (ok (is_some (xmap.load (state.get s) key)), s)

    unfoldable pub exists_network : String → List String → Exec S Bool
    exists_network token addresses s =
        if is_some (xmap.load (state.get s) token)
        then (ok (any_tracked addresses (state.get s)), s)
        else (ok false, s)

    unfoldable pub size : Exec S ℕ
    size s = (ok (xmap.size (state.get s)), s)

    abbrev pub map_cache : Cache S
    map_cache = record {
      add = add;
      remove = remove;
      exists = exists;
      exists_network = exists_network;
      size = size;
    }
