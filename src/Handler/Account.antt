-- ===== src/Handler/Account.antt =====
-- internal/handler: custodial_registration.go, ownership.go, seal.go and contract_creation.go
use eth_tracker.Prelude.{[], ◌∷◌, string_eq}
use eth_tracker.Exec.{lift, ◌>>=◌, ◌>>◌}
use eth_tracker.Eth.{Eth}
use eth_tracker.Eth.Abi.{Signature, indexed, plain, address, uint256, bool}
use eth_tracker.Event.{text, flag}
use eth_tracker.Router.{LogHandlerFunc, InputDataHandlerFunc, ContractCreationHandlerFunc}
use eth_tracker.Handler.{HandlerContainer, log_event, input_data_event, hex_value, number_value}

abbrev custodial_registration_event : Signature
custodial_registration_event = record { name = "NewRegistration"; inputs = indexed address ∷ [] }

abbrev custodial_registration_sig : Signature
custodial_registration_sig = record { name = "register"; inputs = plain address ∷ [] }

abbrev ownership_event : Signature
ownership_event = record {
  name = "OwnershipTransferred";
  inputs = indexed address ∷ indexed address ∷ [];
}

abbrev ownership_to_sig : Signature
ownership_to_sig = record { name = "transferOwnership"; inputs = plain address ∷ [] }

abbrev seal_event : Signature
seal_event = record { name = "SealStateChange"; inputs = indexed bool ∷ plain uint256 ∷ [] }

abbrev seal_to_sig : Signature
seal_to_sig = record { name = "seal"; inputs = plain uint256 ∷ [] }

module _ {S : Type 0} where
  unfoldable pub handle_custodial_registration_log : Eth → LogHandlerFunc S
  handle_custodial_registration_log eth lp c = do
    args ← lift (eth.decode_event custodial_registration_event lp.log)
    c (log_event eth lp "CUSTODIAL_REGISTRATION" (("account", hex_value eth args.0) ∷ []))

  unfoldable pub handle_custodial_registration_input_data : Eth → InputDataHandlerFunc S
  handle_custodial_registration_input_data eth idp c = do
    input ← lift (eth.hex_bytes idp.input_data)
    args ← lift (eth.decode_func custodial_registration_sig input)
    c (input_data_event idp "CUSTODIAL_REGISTRATION" (("account", hex_value eth args.0) ∷ []))

  unfoldable pub handle_ownership_log : Eth → LogHandlerFunc S
  handle_ownership_log eth lp c = do
    args ← lift (eth.decode_event ownership_event lp.log)
    c (
        log_event eth lp "OWNERSHIP_TRANSFERRED"
          (("previousOwner", hex_value eth args.0) ∷ ("newOwner", hex_value eth args.1.0) ∷ []))

  unfoldable pub handle_ownership_input_data : Eth → InputDataHandlerFunc S
  handle_ownership_input_data eth idp c = do
    input ← lift (eth.hex_bytes idp.input_data)
    args ← lift (eth.decode_func ownership_to_sig input)
    c (
        input_data_event idp "OWNERSHIP_TRANSFERRED"
          (("previousOwner", text idp.from) ∷ ("newOwner", hex_value eth args.0) ∷ []))

  unfoldable pub handle_seal_state_change_log : Eth → LogHandlerFunc S
  handle_seal_state_change_log eth lp c = do
    args ← lift (eth.decode_event seal_event lp.log)
    c (
        log_event eth lp "SEAL_STATE_CHANGE"
          (("final", flag args.0) ∷ ("sealState", number_value args.1.0) ∷ []))

  unfoldable pub handle_seal_state_change_input_data : Eth → InputDataHandlerFunc S
  handle_seal_state_change_input_data eth idp c = do
    input ← lift (eth.hex_bytes idp.input_data)
    args ← lift (eth.decode_func seal_to_sig input)
    c (input_data_event idp "SEAL_STATE_CHANGE" (("sealState", number_value args.0) ∷ []))

  -- The new contract is tracked from now on, also if its creation was reverted.
  unfoldable pub handle_contract_creation : HandlerContainer S → ContractCreationHandlerFunc S
  handle_contract_creation hc ccp c = do
    hc.cache.add ccp.contract_address
    c (record {
      index = 0;
      block = ccp.block;
      contract_address = ccp.contract_address;
      success = ccp.success;
      timestamp = ccp.timestamp;
      tx_hash = ccp.tx_hash;
      tx_type = "CONTRACT_CREATION";
      payload = ("from", text ccp.from) ∷ [];
    })
