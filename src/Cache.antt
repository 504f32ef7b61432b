-- ===== src/Cache.antt =====
-- internal/cache/cache.go: the interface `Cache`, as calls on the state of the service.
pub mod MapCache
pub mod Bootstrap
pub mod Creation
use Prim.Native.String.{String}
use eth_tracker.Prelude.{ℕ, Bool, List}
use eth_tracker.Exec.{Exec}

pub record Cache (S : Type 0) : Type 0 where
  pub add : String → Exec S (Unit {0})
  pub remove : String → Exec S (Unit {0})
  pub exists : String → Exec S Bool
  pub exists_network : String → List String → Exec S Bool
  pub size : Exec S ℕ
