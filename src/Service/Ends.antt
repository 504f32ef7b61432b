-- ===== src/Service/Ends.antt =====
-- The routes of the service come back: the router hands no input data without a selector to a handler.
use Prim.Native.String.{len}
use eth_tracker.Prelude.{false, All, ◌&◌, ◌≡◌, ltb}
use eth_tracker.Prelude.{Bool}
use eth_tracker.Exec.Ends.{Ends, HasEnded, ends_rules, Ends-pure}
use eth_tracker.Handler.Ends.{Answers, IsReadable, selector-HasEnded}
use eth_tracker.Eth.{Eth}
use eth_tracker.Cache.{Cache}
use eth_tracker.Router.{
  Callback, LogPayload, InputDataPayload, ContractCreationPayload, process_log, process_input_data,
  process_contract_creation,
}
use eth_tracker.Router.Dispatch.{LogEntryHas, CallEntryHas, process_log-has, process_input_data-has}
use eth_tracker.Handler.{HandlerContainer}
use eth_tracker.Handler.Account.{handle_contract_creation}
use eth_tracker.Handler.Ends.Logs
use eth_tracker.Handler.Ends.Calls
use eth_tracker.Service.Routes.{bootstrap_event_router}

module _ {S : Type 0} {dying : Bool} (eth : Eth) (cache : Cache S) (c : Callback S)
    (k : Answers dying eth cache c) where
  log_handlers-End :
      (lp : LogPayload)
      → All
          (LogEntryHas (Ends dying) (Ends-pure tt) (bootstrap_event_router eth cache c) lp)
          (bootstrap_event_router eth cache c).log_handlers
  unfolding bootstrap_event_router
  log_handlers-End lp =
      let hc : HandlerContainer S = record { cache = cache } in
      Logs.faucet_give_log-Ends eth hc c k lp
      & Logs.index_add_log-Ends eth hc c k lp
      & Logs.index_remove_log-Ends eth hc c k lp
      & Logs.ownership_log-Ends eth hc c k lp
      & Logs.pool_deposit_log-Ends eth hc c k lp
      & Logs.pool_swap_log-Ends eth hc c k lp
      & Logs.quoter_price_update_log-Ends eth hc c k lp
      & Logs.seal_state_change_log-Ends eth hc c k lp
      & Logs.token_burn_log-Ends eth hc c k lp
      & Logs.token_mint_log-Ends eth hc c k lp
      & Logs.custodial_registration_log-Ends eth hc c k lp
      & Logs.token_transfer_log-Ends eth hc c k lp
      & Logs.token_approve_log-Ends eth hc c k lp
      & Logs.token_transfer_from_log-Ends eth hc c k lp
      & Logs.quoter_updated_log-Ends eth hc c k lp
      & tt

  call_handlers-End :
      (idp : InputDataPayload)
      → HasEnded dying (eth.hex_bytes idp.input_data)
      → All
          (CallEntryHas (Ends dying) (Ends-pure tt) (bootstrap_event_router eth cache c) idp)
          (bootstrap_event_router eth cache c).input_data_handlers
  unfolding bootstrap_event_router
  call_handlers-End idp hexadecimal =
      let hc : HandlerContainer S = record { cache = cache } in
      let readable : ltb (len idp.input_data) 8 ≡ false → IsReadable dying eth idp =
        λ long. record { hexadecimal = hexadecimal; selects = selector-HasEnded idp long } in
      (λ long. Calls.faucet_give_input_data-Ends eth hc c k idp (readable long))
      & (λ long. Calls.faucet_give_input_data-Ends eth hc c k idp (readable long))
      & (λ long. Calls.index_add_input_data-Ends eth hc c k idp (readable long))
      & (λ long. Calls.custodial_registration_input_data-Ends eth hc c k idp (readable long))
      & (λ long. Calls.index_remove_input_data-Ends eth hc c k idp (readable long))
      & (λ long. Calls.ownership_input_data-Ends eth hc c k idp (readable long))
      & (λ long. Calls.pool_deposit_input_data-Ends eth hc c k idp (readable long))
      & (λ long. Calls.pool_swap_input_data-Ends eth hc c k idp (readable long))
      & (λ long. Calls.quoter_price_update_input_data-Ends eth hc c k idp (readable long))
      & (λ long. Calls.seal_state_change_input_data-Ends eth hc c k idp (readable long))
      & (λ long. Calls.token_burn_input_data-Ends eth hc c k idp (readable long))
      & (λ long. Calls.token_mint_input_data-Ends eth hc c k idp (readable long))
      & (λ long. Calls.token_transfer_input_data-Ends eth hc c k idp (readable long))
      & (λ long. Calls.token_transfer_input_data-Ends eth hc c k idp (readable long))
      & (λ long. Calls.token_approve_input_data-Ends eth hc c k idp (readable long))
      & (λ long. Calls.quoter_updated_input_data-Ends eth hc c k idp (readable long))
      & tt

  pub process_log-Ends :
      (lp : LogPayload) → Ends dying (process_log (bootstrap_event_router eth cache c) lp)
  process_log-Ends lp =
      process_log-has (Ends dying) (Ends-pure tt) (bootstrap_event_router eth cache c) lp
        (log_handlers-End lp)

  pub process_input_data-Ends :
      (idp : InputDataPayload)
      → HasEnded dying (eth.hex_bytes idp.input_data)
      → Ends dying (process_input_data (bootstrap_event_router eth cache c) idp)
  process_input_data-Ends idp hexadecimal =
      process_input_data-has (Ends dying) (Ends-pure tt) (bootstrap_event_router eth cache c) idp
        (call_handlers-End idp hexadecimal)

  pub process_contract_creation-Ends :
      (ccp : ContractCreationPayload)
      → Ends dying (process_contract_creation (bootstrap_event_router eth cache c) ccp)
  unfolding process_contract_creation bootstrap_event_router handle_contract_creation
  process_contract_creation-Ends ccp = search (ends_rules, k.adds, k.callbacks)
