-- ===== src/Handler/Keeps.antt =====
-- What the handlers leave alone, if the cache and the callback do.
pub mod Logs
pub mod Calls
use eth_tracker.Prelude.{ℕ, String, List}
use eth_tracker.Exec.Keeps.{Keeps}
use eth_tracker.Event.{Event}
use eth_tracker.Cache.{Cache}
use eth_tracker.Router.{Callback}

-- What `P` says of the state is left alone by the calls of the cache and by the callback.
pub record LeftAlone {S : Type 0} (P : S → Type 0) (cache : Cache S) (c : Callback S) : Type 0 where
  pub adds : (k : String) → Keeps P (cache.add k)
  pub removes : (k : String) → Keeps P (cache.remove k)
  pub lookups : (k : String) → Keeps P (cache.exists k)
  pub networks : (k : String) (ks : List String) → Keeps P (cache.exists_network k ks)
  pub callbacks : (e : Event) → Keeps P (c e)
