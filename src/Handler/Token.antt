-- ===== src/Handler/Token.antt =====
-- internal/handler: token_approve.go, token_mint.go and token_burn.go
use eth_tracker.Prelude.{[], ◌∷◌, string_eq, if◌then◌else◌}
use eth_tracker.Exec.{lift, pure, ◌>>=◌}
use eth_tracker.Eth.{Eth}
use eth_tracker.Eth.Abi.{Signature, indexed, plain, address, uint256}
use eth_tracker.Event.{text}
use eth_tracker.Router.{LogHandlerFunc, InputDataHandlerFunc}
use eth_tracker.Handler.{
  HandlerContainer, check_within_network, log_event, input_data_event, hex_value, number_value,
}

abbrev token_approve_event : Signature
token_approve_event = record {
  name = "Approval";
  inputs = indexed address ∷ indexed address ∷ plain uint256 ∷ [];
}

abbrev token_approve_to_sig : Signature
token_approve_to_sig = record { name = "approve"; inputs = plain address ∷ plain uint256 ∷ [] }

abbrev token_mint_event : Signature
token_mint_event = record {
  name = "Mint";
  inputs = indexed address ∷ indexed address ∷ plain uint256 ∷ [];
}

abbrev token_mint_to_sig : Signature
token_mint_to_sig = record { name = "mintTo"; inputs = plain address ∷ plain uint256 ∷ [] }

abbrev token_burn_event : Signature
token_burn_event = record { name = "Burn"; inputs = indexed address ∷ plain uint256 ∷ [] }

abbrev token_burn_to_sig : Signature
token_burn_to_sig = record { name = "burn"; inputs = plain uint256 ∷ [] }

module _ {S : Type 0} where
  unfoldable pub handle_token_approve_log : Eth → HandlerContainer S → LogHandlerFunc S
  handle_token_approve_log eth hc lp c = do
    args ← lift (eth.decode_event token_approve_event lp.log)
    let owner = args.0
    let spender = args.1.0
    let value = args.1.1.0
    proceed ←
        check_within_network hc (eth.address_hex lp.log.address) (eth.address_hex owner)
          (eth.address_hex spender)
    if proceed
        then c (
            log_event eth lp "TOKEN_APPROVE" (
              ("owner", hex_value eth owner)
              ∷ ("spender", hex_value eth spender)
              ∷ ("value", number_value value)
              ∷ []))
        else pure tt

  unfoldable pub handle_token_approve_input_data : Eth → HandlerContainer S → InputDataHandlerFunc S
  handle_token_approve_input_data eth hc idp c = do
    input ← lift (eth.hex_bytes idp.input_data)
    args ← lift (eth.decode_func token_approve_to_sig input)
    let spender = args.0
    let value = args.1.0
    proceed ← check_within_network hc idp.contract_address idp.from (eth.address_hex spender)
    if proceed
        then c (
            input_data_event idp "TOKEN_APPROVE" (
              ("owner", text idp.from)
              ∷ ("spender", hex_value eth spender)
              ∷ ("value", number_value value)
              ∷ []))
        else pure tt

  unfoldable pub handle_token_mint_log : Eth → LogHandlerFunc S
  handle_token_mint_log eth lp c = do
    args ← lift (eth.decode_event token_mint_event lp.log)
    c (
        log_event eth lp "TOKEN_MINT" (
          ("tokenMinter", hex_value eth args.0)
          ∷ ("to", hex_value eth args.1.0)
          ∷ ("value", number_value args.1.1.0)
          ∷ []))

  unfoldable pub handle_token_mint_input_data : Eth → InputDataHandlerFunc S
  handle_token_mint_input_data eth idp c = do
    input ← lift (eth.hex_bytes idp.input_data)
    args ← lift (eth.decode_func token_mint_to_sig input)
    c (
        input_data_event idp "TOKEN_MINT" (
          ("tokenMinter", text idp.from)
          ∷ ("to", hex_value eth args.0)
          ∷ ("value", number_value args.1.0)
          ∷ []))

  unfoldable pub handle_token_burn_log : Eth → LogHandlerFunc S
  handle_token_burn_log eth lp c = do
    args ← lift (eth.decode_event token_burn_event lp.log)
    c (
        log_event eth lp "TOKEN_BURN"
          (("tokenBurner", hex_value eth args.0) ∷ ("value", number_value args.1.0) ∷ []))

  unfoldable pub handle_token_burn_input_data : Eth → InputDataHandlerFunc S
  handle_token_burn_input_data eth idp c = do
    input ← lift (eth.hex_bytes idp.input_data)
    args ← lift (eth.decode_func token_burn_to_sig input)
    c (
        input_data_event idp "TOKEN_BURN"
          (("tokenBurner", text idp.from) ∷ ("value", number_value args.0) ∷ []))
