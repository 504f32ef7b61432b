-- ===== src/Handler/Quoter.antt =====
-- internal/handler: quoter_price.go and quoter_updated.go
use eth_tracker.Prelude.{[], ◌∷◌, string_eq}
use eth_tracker.Exec.{lift, ◌>>=◌}
use eth_tracker.Eth.{Eth}
use eth_tracker.Eth.Abi.{Signature, indexed, plain, address, uint256}
use eth_tracker.Router.{LogHandlerFunc, InputDataHandlerFunc}
use eth_tracker.Handler.{log_event, input_data_event, hex_value, number_value}

abbrev quoter_price_event : Signature
quoter_price_event = record {
  name = "PriceIndexUpdated";
  inputs = plain address ∷ plain uint256 ∷ [];
}

abbrev quoter_price_to_sig : Signature
quoter_price_to_sig = record {
  name = "setPriceIndexValue";
  inputs = plain address ∷ plain uint256 ∷ [];
}

abbrev quoter_updated_event : Signature
quoter_updated_event = record { name = "QuoterUpdated"; inputs = indexed address ∷ [] }

abbrev quoter_updated_sig : Signature
quoter_updated_sig = record { name = "setQuoter"; inputs = plain address ∷ [] }

module _ {S : Type 0} where
  unfoldable pub handle_quoter_price_update_log : Eth → LogHandlerFunc S
  handle_quoter_price_update_log eth lp c = do
    args ← lift (eth.decode_event quoter_price_event lp.log)
    c (
        log_event eth lp "QUOTER_PRICE_INDEX_UPDATED"
          (("token", hex_value eth args.0) ∷ ("exchangeRate", number_value args.1.0) ∷ []))

  unfoldable pub handle_quoter_price_update_input_data : Eth → InputDataHandlerFunc S
  handle_quoter_price_update_input_data eth idp c = do
    input ← lift (eth.hex_bytes idp.input_data)
    args ← lift (eth.decode_func quoter_price_to_sig input)
    c (
        input_data_event idp "QUOTER_PRICE_INDEX_UPDATED"
          (("token", hex_value eth args.0) ∷ ("exchangeRate", number_value args.1.0) ∷ []))

  unfoldable pub handle_quoter_updated_log : Eth → LogHandlerFunc S
  handle_quoter_updated_log eth lp c = do
    args ← lift (eth.decode_event quoter_updated_event lp.log)
    c (log_event eth lp "QUOTER_UPDATED" (("newQuoter", hex_value eth args.0) ∷ []))

  unfoldable pub handle_quoter_updated_input_data : Eth → InputDataHandlerFunc S
  handle_quoter_updated_input_data eth idp c = do
    input ← lift (eth.hex_bytes idp.input_data)
    args ← lift (eth.decode_func quoter_updated_sig input)
    c (input_data_event idp "QUOTER_UPDATED" (("newQuoter", hex_value eth args.0) ∷ []))
