-- ===== src/Handler/Faucet.antt =====
-- internal/handler/faucet_give.go
use eth_tracker.Prelude.{[], ◌∷◌, string_eq, if◌then◌else◌, ◌==◌}
use eth_tracker.Exec.{lift, pure, ◌>>=◌}
use eth_tracker.Eth.{Eth}
use eth_tracker.Eth.Abi.{Signature, indexed, plain, address, uint256}
use eth_tracker.Event.{text, raw_address}
use eth_tracker.Router.{LogHandlerFunc, InputDataHandlerFunc}
use eth_tracker.Handler.{log_event, input_data_event, selector, hex_value, number_value}

abbrev faucet_give_event : Signature
faucet_give_event = record {
  name = "Give";
  inputs = indexed address ∷ indexed address ∷ plain uint256 ∷ [];
}

abbrev faucet_give_to_sig : Signature
faucet_give_to_sig = record { name = "giveTo"; inputs = plain address ∷ [] }

module _ {S : Type 0} where
  unfoldable pub handle_faucet_give_log : Eth → LogHandlerFunc S
  handle_faucet_give_log eth lp c = do
    args ← lift (eth.decode_event faucet_give_event lp.log)
    c (
        log_event eth lp "FAUCET_GIVE" (
          ("recipient", hex_value eth args.0)
          ∷ ("token", hex_value eth args.1.0)
          ∷ ("amount", number_value args.1.1.0)
          ∷ []))

  -- case "63e4bff4"
  unfoldable pub give_to_call : Eth → InputDataHandlerFunc S
  give_to_call eth idp c = do
    input ← lift (eth.hex_bytes idp.input_data)
    args ← lift (eth.decode_func faucet_give_to_sig input)
    c (
        input_data_event idp "FAUCET_GIVE" (
          ("recipient", hex_value eth args.0)
          ∷ ("token", raw_address eth.zero_address)
          ∷ ("amount", text "0")
          ∷ []))

  -- case "de82efb4": `gimme()` has no arguments, and nothing is decoded.
  unfoldable pub gimme_call : Eth → InputDataHandlerFunc S
  gimme_call eth idp c = c (
      input_data_event idp "FAUCET_GIVE" (
        ("recipient", raw_address eth.zero_address)
        ∷ ("token", raw_address eth.zero_address)
        ∷ ("amount", text "0")
        ∷ []))

  unfoldable pub handle_faucet_give_input_data : Eth → InputDataHandlerFunc S
  handle_faucet_give_input_data eth idp c = do
    sel ← lift (selector idp)
    if sel == "63e4bff4"
        then give_to_call eth idp c
        else if sel == "de82efb4"
        then gimme_call eth idp c
        else pure tt
