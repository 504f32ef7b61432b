-- ===== src/Handler/Index.antt =====
-- internal/handler: index_add.go and index_remove.go
use eth_tracker.Prelude.{[], ◌∷◌, string_eq, if◌then◌else◌, ◌==◌}
use eth_tracker.Exec.{lift, pure, ◌>>=◌, ◌>>◌}
use eth_tracker.Eth.{Eth}
use eth_tracker.Eth.Abi.{Address, Signature, plain, address}
use eth_tracker.Router.{LogHandlerFunc, InputDataHandlerFunc}
use eth_tracker.Handler.{HandlerContainer, log_event, input_data_event, selector, hex_value}

abbrev index_add_event : Signature
index_add_event = record { name = "AddressAdded"; inputs = plain address ∷ [] }

abbrev pub index_add_sig : Signature
index_add_sig = record { name = "add"; inputs = plain address ∷ [] }

abbrev index_register_sig : Signature
index_register_sig = record { name = "register"; inputs = plain address ∷ [] }

abbrev index_remove_event : Signature
index_remove_event = record { name = "AddressRemoved"; inputs = plain address ∷ [] }

abbrev index_remove_sig : Signature
index_remove_sig = record { name = "remove"; inputs = plain address ∷ [] }

-- var address common.Address
abbrev pub unset_address : Address
unset_address = 0

module _ {S : Type 0} where
  unfoldable pub handle_index_add_log : Eth → HandlerContainer S → LogHandlerFunc S
  handle_index_add_log eth hc lp c = do
    args ← lift (eth.decode_event index_add_event lp.log)
    hc.cache.add (eth.address_hex args.0)
    c (log_event eth lp "INDEX_ADD" (("address", hex_value eth args.0) ∷ []))

  -- The payload of both cases is built before the decoding, from an address variable that is still
  -- the zero value.
  unfoldable pub index_call : Eth → Signature → InputDataHandlerFunc S
  index_call eth sig idp c = do
    let event = input_data_event idp "INDEX_ADD" (("address", hex_value eth unset_address) ∷ [])
    input ← lift (eth.hex_bytes idp.input_data)
    lift (eth.decode_func sig input)
    c event

  unfoldable pub handle_index_add_input_data : Eth → InputDataHandlerFunc S
  unfolding index_call
  handle_index_add_input_data eth idp c = do
    sel ← lift (selector idp)
    if sel == "0a3b0a4f"
        then index_call eth index_add_sig idp c
        else if sel == "4420e486"
        then index_call eth index_register_sig idp c
        else pure tt

  unfoldable pub handle_index_remove_log : Eth → HandlerContainer S → LogHandlerFunc S
  handle_index_remove_log eth hc lp c = do
    args ← lift (eth.decode_event index_remove_event lp.log)
    hc.cache.remove (eth.address_hex args.0)
    c (log_event eth lp "INDEX_REMOVE" (("address", hex_value eth args.0) ∷ []))

  unfoldable pub handle_index_remove_input_data : Eth → InputDataHandlerFunc S
  handle_index_remove_input_data eth idp c = do
    input ← lift (eth.hex_bytes idp.input_data)
    args ← lift (eth.decode_func index_remove_sig input)
    c (input_data_event idp "INDEX_REMOVE" (("address", hex_value eth args.0) ∷ []))
