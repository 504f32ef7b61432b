-- ===== src/Service/Keeps.antt =====
-- The routes of the service change the state by calls of the cache and of the publisher only.
use eth_tracker.Prelude.{All, ◌&◌}
use eth_tracker.Exec.Keeps.{Keeps, keeps_rules, Keeps-pure}
use eth_tracker.Handler.Keeps.{LeftAlone}
use eth_tracker.Eth.{Eth}
use eth_tracker.Cache.{Cache}
use eth_tracker.Router.{
  Callback, LogPayload, InputDataPayload, ContractCreationPayload, process_log, process_input_data,
  process_contract_creation,
}
use eth_tracker.Router.Dispatch.{LogEntryHas, CallEntryHas, process_log-has, process_input_data-has}
use eth_tracker.Handler.{HandlerContainer}
use eth_tracker.Handler.Account.{handle_contract_creation}
use eth_tracker.Handler.Keeps.Logs
use eth_tracker.Handler.Keeps.Calls
use eth_tracker.Service.Routes.{bootstrap_event_router}

module _ {S : Type 0} {P : S → Type 0} (eth : Eth) (cache : Cache S) (c : Callback S)
    (k : LeftAlone P cache c) where
  log_handlers-Keep :
      (lp : LogPayload)
      → All
          (LogEntryHas (Keeps P) (Keeps-pure tt) (bootstrap_event_router eth cache c) lp)
          (bootstrap_event_router eth cache c).log_handlers
  unfolding bootstrap_event_router
  log_handlers-Keep lp =
      let hc : HandlerContainer S = record { cache = cache } in
      Logs.faucet_give_log-Keeps eth hc c k lp
      & Logs.index_add_log-Keeps eth hc c k lp
      & Logs.index_remove_log-Keeps eth hc c k lp
      & Logs.ownership_log-Keeps eth hc c k lp
      & Logs.pool_deposit_log-Keeps eth hc c k lp
      & Logs.pool_swap_log-Keeps eth hc c k lp
      & Logs.quoter_price_update_log-Keeps eth hc c k lp
      & Logs.seal_state_change_log-Keeps eth hc c k lp
      & Logs.token_burn_log-Keeps eth hc c k lp
      & Logs.token_mint_log-Keeps eth hc c k lp
      & Logs.custodial_registration_log-Keeps eth hc c k lp
      & Logs.token_transfer_log-Keeps eth hc c k lp
      & Logs.token_approve_log-Keeps eth hc c k lp
      & Logs.token_transfer_from_log-Keeps eth hc c k lp
      & Logs.quoter_updated_log-Keeps eth hc c k lp
      & tt

  call_handlers-Keep :
      (idp : InputDataPayload)
      → All
          (CallEntryHas (Keeps P) (Keeps-pure tt) (bootstrap_event_router eth cache c) idp)
          (bootstrap_event_router eth cache c).input_data_handlers
  unfolding bootstrap_event_router
  call_handlers-Keep idp =
      let hc : HandlerContainer S = record { cache = cache } in
      (λ long. Calls.faucet_give_input_data-Keeps eth hc c k idp)
      & (λ long. Calls.faucet_give_input_data-Keeps eth hc c k idp)
      & (λ long. Calls.index_add_input_data-Keeps eth hc c k idp)
      & (λ long. Calls.custodial_registration_input_data-Keeps eth hc c k idp)
      & (λ long. Calls.index_remove_input_data-Keeps eth hc c k idp)
      & (λ long. Calls.ownership_input_data-Keeps eth hc c k idp)
      & (λ long. Calls.pool_deposit_input_data-Keeps eth hc c k idp)
      & (λ long. Calls.pool_swap_input_data-Keeps eth hc c k idp)
      & (λ long. Calls.quoter_price_update_input_data-Keeps eth hc c k idp)
      & (λ long. Calls.seal_state_change_input_data-Keeps eth hc c k idp)
      & (λ long. Calls.token_burn_input_data-Keeps eth hc c k idp)
      & (λ long. Calls.token_mint_input_data-Keeps eth hc c k idp)
      & (λ long. Calls.token_transfer_input_data-Keeps eth hc c k idp)
      & (λ long. Calls.token_transfer_input_data-Keeps eth hc c k idp)
      & (λ long. Calls.token_approve_input_data-Keeps eth hc c k idp)
      & (λ long. Calls.quoter_updated_input_data-Keeps eth hc c k idp)
      & tt

  pub process_log-Keeps :
      (lp : LogPayload) → Keeps P (process_log (bootstrap_event_router eth cache c) lp)
  process_log-Keeps lp =
      process_log-has (Keeps P) (Keeps-pure tt) (bootstrap_event_router eth cache c) lp
        (log_handlers-Keep lp)

  pub process_input_data-Keeps :
      (idp : InputDataPayload)
      → Keeps P (process_input_data (bootstrap_event_router eth cache c) idp)
  process_input_data-Keeps idp =
      process_input_data-has (Keeps P) (Keeps-pure tt) (bootstrap_event_router eth cache c) idp
        (call_handlers-Keep idp)

  pub process_contract_creation-Keeps :
      (ccp : ContractCreationPayload)
      → Keeps P (process_contract_creation (bootstrap_event_router eth cache c) ccp)
  unfolding process_contract_creation bootstrap_event_router handle_contract_creation
  process_contract_creation-Keeps ccp = search (keeps_rules, k.adds, k.callbacks)
