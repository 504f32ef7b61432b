-- ===== src/Handler.antt =====
-- internal/handler: one function for each kind of log, of input data of a reverted transaction, and
-- for contract creations. This file has what the handlers share (handler.go, within_network.go); the
-- handlers stand in the children, a few files of the package to a child.
pub mod Layouts
pub mod Contract
pub mod Emits
pub mod Keeps
pub mod Ends
pub mod Filter
pub mod Transfer
pub mod Token
pub mod Index
pub mod Pool
pub mod Quoter
pub mod Account
pub mod Faucet
use Prim.Native.String.{String, len, slice}
use eth_tracker.Prelude.{ℕ, Bool, true, false, List, [], ◌∷◌, ltb, if◌then◌else◌}
use eth_tracker.Prelude.Text.{decimal}
use eth_tracker.Result.{Result, ok, panic}
use eth_tracker.Exec.{Exec}
use eth_tracker.Eth.{Eth}
use eth_tracker.Eth.Abi.{Address}
use eth_tracker.Event.{Event, Value, text}
use eth_tracker.Cache.{Cache}
use eth_tracker.Router.{LogPayload, InputDataPayload}

pub record HandlerContainer (S : Type 0) : Type 0 where
  pub cache : Cache S

unfoldable pub check_within_network :
    {S : Type 0} → HandlerContainer S → String → String → String → Exec S Bool
check_within_network hc contract_address from to =
    hc.cache.exists_network contract_address (from ∷ to ∷ [])

-- The event of a log: the same fields in every log handler.
unfoldable pub log_event : Eth → LogPayload → String → List (String × Value) → Event
log_event eth lp tx_type payload = record {
  index = lp.log.index;
  block = lp.log.block_number;
  contract_address = eth.address_hex lp.log.address;
  success = true;
  timestamp = lp.timestamp;
  tx_hash = eth.hash_hex lp.log.tx_hash;
  tx_type = tx_type;
  payload = payload;
}

-- The event of a reverted call: the same fields in every input data handler.
unfoldable pub input_data_event : InputDataPayload → String → List (String × Value) → Event
input_data_event idp tx_type payload = record {
  index = 0;
  block = idp.block;
  contract_address = idp.contract_address;
  success = false;
  timestamp = idp.timestamp;
  tx_hash = idp.tx_hash;
  tx_type = tx_type;
  payload = payload;
}

-- idp.InputData[:8], which panics on a shorter text.
unfoldable pub selector : InputDataPayload → Result String
selector idp = if ltb (len idp.input_data) 8 then panic else ok (slice idp.input_data 0 8)

-- address.Hex() as a payload value
abbrev pub hex_value : Eth → Address → Value
hex_value eth a = text (eth.address_hex a)

-- value.String() of a `big.Int` as a payload value
abbrev pub number_value : ℕ → Value
number_value n = text (decimal n)
