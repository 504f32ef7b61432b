-- ===== src/Db.antt =====
-- db/db.go: the interface `DB`, as calls on the state of the service. `V` is the type of bitsets.
pub mod Bytes
pub mod Bitset
pub mod Bolt
pub mod Keys
pub mod Missing
pub mod Values
pub mod Reads
pub mod Open
pub mod Increasing
pub mod Cleanup
pub mod Bounds
use eth_tracker.Prelude.{ℕ}
use eth_tracker.Exec.{Exec}

pub record Db (S V : Type 0) : Type 0 where
  pub get_lower_bound : Exec S ℕ
  pub set_lower_bound : ℕ → Exec S (Unit {0})
  pub get_upper_bound : Exec S ℕ
  pub set_upper_bound : ℕ → Exec S (Unit {0})
  pub set_value : ℕ → Exec S (Unit {0})
  pub get_missing_values_bit_set : ℕ → ℕ → Exec S V
  pub cleanup : Exec S (Unit {0})
