-- ===== src/Handler/Pool.antt =====
-- internal/handler: pool_deposit.go and pool_swap.go
use eth_tracker.Prelude.{[], ◌∷◌, string_eq}
use eth_tracker.Exec.{lift, ◌>>=◌}
use eth_tracker.Eth.{Eth}
use eth_tracker.Eth.Abi.{Signature, indexed, plain, address, uint256}
use eth_tracker.Event.{text}
use eth_tracker.Router.{LogHandlerFunc, InputDataHandlerFunc}
use eth_tracker.Handler.{log_event, input_data_event, hex_value, number_value}

abbrev pool_deposit_event : Signature
pool_deposit_event = record {
  name = "Deposit";
  inputs = indexed address ∷ indexed address ∷ plain uint256 ∷ [];
}

abbrev pool_deposit_sig : Signature
pool_deposit_sig = record { name = "deposit"; inputs = plain address ∷ plain uint256 ∷ [] }

abbrev pool_swap_event : Signature
pool_swap_event = record {
  name = "Swap";
  inputs =
      indexed address
      ∷ indexed address
      ∷ plain address
      ∷ plain uint256
      ∷ plain uint256
      ∷ plain uint256
      ∷ [];
}

abbrev pool_swap_sig : Signature
pool_swap_sig = record {
  name = "withdraw";
  inputs = plain address ∷ plain address ∷ plain uint256 ∷ [];
}

module _ {S : Type 0} where
  unfoldable pub handle_pool_deposit_log : Eth → LogHandlerFunc S
  handle_pool_deposit_log eth lp c = do
    args ← lift (eth.decode_event pool_deposit_event lp.log)
    c (
        log_event eth lp "POOL_DEPOSIT" (
          ("initiator", hex_value eth args.0)
          ∷ ("tokenIn", hex_value eth args.1.0)
          ∷ ("amountIn", number_value args.1.1.0)
          ∷ []))

  unfoldable pub handle_pool_deposit_input_data : Eth → InputDataHandlerFunc S
  handle_pool_deposit_input_data eth idp c = do
    input ← lift (eth.hex_bytes idp.input_data)
    args ← lift (eth.decode_func pool_deposit_sig input)
    c (
        input_data_event idp "POOL_DEPOSIT" (
          ("initiator", text idp.from)
          ∷ ("tokenIn", hex_value eth args.0)
          ∷ ("amountIn", number_value args.1.0)
          ∷ []))

  unfoldable pub handle_pool_swap_log : Eth → LogHandlerFunc S
  handle_pool_swap_log eth lp c = do
    args ← lift (eth.decode_event pool_swap_event lp.log)
    c (
        log_event eth lp "POOL_SWAP" (
          ("initiator", hex_value eth args.0)
          ∷ ("tokenIn", hex_value eth args.1.0)
          ∷ ("tokenOut", hex_value eth args.1.1.0)
          ∷ ("amountIn", number_value args.1.1.1.0)
          ∷ ("amountOut", number_value args.1.1.1.1.0)
          ∷ ("fee", number_value args.1.1.1.1.1.0)
          ∷ []))

  -- The arguments of the call come in the order tokenOut, tokenIn, amountIn.
  unfoldable pub handle_pool_swap_input_data : Eth → InputDataHandlerFunc S
  handle_pool_swap_input_data eth idp c = do
    input ← lift (eth.hex_bytes idp.input_data)
    args ← lift (eth.decode_func pool_swap_sig input)
    c (
        input_data_event idp "POOL_SWAP" (
          ("initiator", text idp.from)
          ∷ ("tokenIn", hex_value eth args.1.0)
          ∷ ("tokenOut", hex_value eth args.0)
          ∷ ("amountIn", number_value args.1.1.0)
          ∷ ("amountOut", text "0")
          ∷ ("fee", text "0")
          ∷ []))
