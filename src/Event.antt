-- ===== src/Event.antt =====
-- pkg/event/event.go: the event that is published.
pub mod Json
use Prim.Native.String.{String}
use eth_tracker.Prelude.{ℕ, Bool, List}
use eth_tracker.Eth.Abi.{Address}

-- The values that the handlers put into the payload, a `map[string]any`.
pub data Value : Type 0 where
  text : String → Value
  flag : Bool → Value
  raw_address : Address → Value

pub record Event : Type 0 where
  pub block : ℕ
  pub contract_address : String
  pub success : Bool
  pub timestamp : ℕ
  pub tx_hash : String
  pub tx_type : String
  pub payload : List (String × Value)
  pub index : ℕ
