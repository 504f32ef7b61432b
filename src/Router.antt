-- ===== src/Router.antt =====
-- pkg/router/router.go: the tables of handlers, and the dispatch of logs, input data and contract
-- creations to them.
pub mod Dispatch
use Prim.Native.String.{String, len, slice}
use eth_tracker.Prelude.{
  ℕ, Bool, List, [], ◌∷◌, Option, none, some, ltb, if◌then◌else◌, nat_eq, string_eq,
}
use eth_tracker.Prelude.Maps.{Map, lookup, insert}
use eth_tracker.Exec.{Exec, pure}
use eth_tracker.Eth.Abi.{Hash, Log}
use eth_tracker.Event.{Event}

-- The length of a function selector in hexadecimal characters.
abbrev pub function_selector_length : ℕ
function_selector_length = 8

abbrev pub Callback : Type 0 → Type 0
Callback S = Event → Exec S (Unit {0})

pub record LogPayload : Type 0 where
  pub log : Log
  pub timestamp : ℕ

pub record InputDataPayload : Type 0 where
  pub from : String
  pub input_data : String
  pub block : ℕ
  pub contract_address : String
  pub timestamp : ℕ
  pub tx_hash : String

pub record ContractCreationPayload : Type 0 where
  pub from : String
  pub contract_address : String
  pub block : ℕ
  pub timestamp : ℕ
  pub tx_hash : String
  pub success : Bool

abbrev pub LogHandlerFunc : Type 0 → Type 0
LogHandlerFunc S = LogPayload → Callback S → Exec S (Unit {0})

abbrev pub InputDataHandlerFunc : Type 0 → Type 0
InputDataHandlerFunc S = InputDataPayload → Callback S → Exec S (Unit {0})

abbrev pub ContractCreationHandlerFunc : Type 0 → Type 0
ContractCreationHandlerFunc S = ContractCreationPayload → Callback S → Exec S (Unit {0})

pub record LogRouteEntry (S : Type 0) : Type 0 where
  pub signature : Hash
  pub handler_func : LogHandlerFunc S

pub record InputDataEntry (S : Type 0) : Type 0 where
  pub signature : String
  pub handler_func : InputDataHandlerFunc S

pub record Router (S : Type 0) : Type 0 where
  pub callback_fn : Callback S
  pub log_handlers : Map Hash (LogRouteEntry S)
  pub input_data_handlers : Map String (InputDataEntry S)
  pub contract_creation_handler : Option (ContractCreationHandlerFunc S)

module _ {S : Type 0} where
  unfoldable pub new : Callback S → Router S
  new callback_fn = record {
    callback_fn = callback_fn;
    log_handlers = [];
    input_data_handlers = [];
    contract_creation_handler = none;
  }

  unfoldable pub register_log_route : Hash → LogHandlerFunc S → Router S → Router S
  register_log_route signature handler_func r = record r {
    log_handlers =
        insert signature (record { signature = signature; handler_func = handler_func })
          r.log_handlers;
  }

  unfoldable pub register_input_data_route : String → InputDataHandlerFunc S → Router S → Router S
  register_input_data_route signature handler_func r = record r {
    input_data_handlers =
        insert signature (record { signature = signature; handler_func = handler_func })
          r.input_data_handlers;
  }

  unfoldable pub register_contract_creation_handler :
      ContractCreationHandlerFunc S → Router S → Router S
  register_contract_creation_handler handler_func r = record r {
    contract_creation_handler = some handler_func;
  }

  -- The handler of the first topic, if there is one.
  unfoldable pub log_route : List Hash → Router S → Option (LogRouteEntry S)
  log_route [] r = none
  log_route (topic ∷ _) r = lookup topic r.log_handlers

  unfoldable pub process_log : Router S → LogPayload → Exec S (Unit {0})
  unfolding log_route
  process_log r payload = elim (log_route payload.log.topics r) [
    | none ↦ pure tt
    | some entry ↦ entry.handler_func payload r.callback_fn
  ]

  unfoldable pub process_input_data : Router S → InputDataPayload → Exec S (Unit {0})
  process_input_data r payload =
      if ltb (len payload.input_data) function_selector_length
      then pure tt
      else elim (lookup (slice payload.input_data 0 function_selector_length)
          r.input_data_handlers) [
            | none ↦ pure tt
            | some entry ↦ entry.handler_func payload r.callback_fn
          ]

  unfoldable pub process_contract_creation : Router S → ContractCreationPayload → Exec S (Unit {0})
  process_contract_creation r payload = elim r.contract_creation_handler [
    | none ↦ pure tt
    | some handler ↦ handler payload r.callback_fn
  ]
