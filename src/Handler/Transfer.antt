-- ===== src/Handler/Transfer.antt =====
-- internal/handler/token_transfer.go
use eth_tracker.Prelude.{[], ◌∷◌, string_eq, if◌then◌else◌, ◌==◌}
use eth_tracker.Exec.{lift, pure, ◌>>=◌}
use eth_tracker.Eth.{Eth}
use eth_tracker.Eth.Abi.{Signature, indexed, plain, address, uint256}
use eth_tracker.Event.{text}
use eth_tracker.Router.{LogHandlerFunc, InputDataHandlerFunc}
use eth_tracker.Handler.{
  HandlerContainer, check_within_network, log_event, input_data_event, selector, hex_value,
  number_value,
}

abbrev pub token_transfer_event : Signature
token_transfer_event = record {
  name = "Transfer";
  inputs = indexed address ∷ indexed address ∷ plain uint256 ∷ [];
}

abbrev token_transfer_from_event : Signature
token_transfer_from_event = record {
  name = "TransferFrom";
  inputs = indexed address ∷ indexed address ∷ indexed address ∷ plain uint256 ∷ [];
}

abbrev token_transfer_sig : Signature
token_transfer_sig = record { name = "transfer"; inputs = plain address ∷ plain uint256 ∷ [] }

abbrev token_transfer_from_sig : Signature
token_transfer_from_sig = record {
  name = "transferFrom";
  inputs = plain address ∷ plain address ∷ plain uint256 ∷ [];
}

module _ {S : Type 0} where
  unfoldable pub handle_token_transfer_log : Eth → HandlerContainer S → LogHandlerFunc S
  handle_token_transfer_log eth hc lp c = do
    args ← lift (eth.decode_event token_transfer_event lp.log)
    let from = args.0
    let to = args.1.0
    let value = args.1.1.0
    proceed ←
        check_within_network hc (eth.address_hex lp.log.address) (eth.address_hex from)
          (eth.address_hex to)
    if proceed
        then c (
            log_event eth lp "TOKEN_TRANSFER" (
              ("from", hex_value eth from)
              ∷ ("to", hex_value eth to)
              ∷ ("value", number_value value)
              ∷ []))
        else pure tt

  -- case "a9059cbb"
  unfoldable pub transfer_call : Eth → HandlerContainer S → InputDataHandlerFunc S
  transfer_call eth hc idp c = do
    input ← lift (eth.hex_bytes idp.input_data)
    args ← lift (eth.decode_func token_transfer_sig input)
    let to = args.0
    let value = args.1.0
    proceed ← check_within_network hc idp.contract_address idp.from (eth.address_hex to)
    if proceed
        then c (
            input_data_event idp "TOKEN_TRANSFER" (
              ("from", text idp.from)
              ∷ ("to", hex_value eth to)
              ∷ ("value", number_value value)
              ∷ []))
        else pure tt

  -- case "23b872dd"
  unfoldable pub transfer_from_call : Eth → HandlerContainer S → InputDataHandlerFunc S
  transfer_from_call eth hc idp c = do
    input ← lift (eth.hex_bytes idp.input_data)
    args ← lift (eth.decode_func token_transfer_from_sig input)
    let from = args.0
    let to = args.1.0
    let value = args.1.1.0
    proceed ←
        check_within_network hc idp.contract_address (eth.address_hex from) (eth.address_hex to)
    if proceed
        then c (
            input_data_event idp "TOKEN_TRANSFER" (
              ("from", hex_value eth from)
              ∷ ("to", hex_value eth to)
              ∷ ("value", number_value value)
              ∷ []))
        else pure tt

  unfoldable pub handle_token_transfer_input_data :
      Eth → HandlerContainer S → InputDataHandlerFunc S
  handle_token_transfer_input_data eth hc idp c = do
    sel ← lift (selector idp)
    if sel == "a9059cbb"
        then transfer_call eth hc idp c
        else if sel == "23b872dd"
        then transfer_from_call eth hc idp c
        else pure tt

  unfoldable pub handle_token_transfer_from_log : Eth → HandlerContainer S → LogHandlerFunc S
  handle_token_transfer_from_log eth hc lp c = do
    args ← lift (eth.decode_event token_transfer_from_event lp.log)
    let from = args.0
    let to = args.1.0
    let spender = args.1.1.0
    let value = args.1.1.1.0
    proceed ←
        check_within_network hc (eth.address_hex lp.log.address) (eth.address_hex from)
          (eth.address_hex to)
    if proceed
        then c (
            log_event eth lp "TOKEN_TRANSFER" (
              ("from", hex_value eth from)
              ∷ ("to", hex_value eth to)
              ∷ ("spender", hex_value eth spender)
              ∷ ("value", number_value value)
              ∷ []))
        else pure tt
