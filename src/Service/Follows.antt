-- ===== src/Service/Follows.antt =====
-- Each handler that the service registers follows the schema of its topic or selector.
use eth_tracker.Prelude.{◌&◌, ◌≡◌, refl, String, List, some, All, nat_eq, string_eq}
use eth_tracker.Prelude.Maps.{lookup}
use eth_tracker.Eth.{Eth}
use eth_tracker.Eth.Abi.{Hash}
use eth_tracker.Event.{Event}
use eth_tracker.Cache.{Cache}
use eth_tracker.Router.{Callback, LogRouteEntry, InputDataEntry}
use eth_tracker.Handler.{HandlerContainer}
use eth_tracker.Handler.Layouts.{LogLayout, CallLayout}
use eth_tracker.Handler.Emits.{IsTraced, EmitsLog, EmitsCall}
use eth_tracker.Handler.Emits.Logs
use eth_tracker.Handler.Emits.Calls
use eth_tracker.Service.Schema.{log_schema, call_schema}
use eth_tracker.Service.Routes.{bootstrap_event_router}

module _ {S : Type 0} (trace : S → List Event) (eth : Eth) (c : Callback S) where
  -- The handler of a log route publishes at most one event, as the schema has it for its topic.
  abbrev pub FollowsLogSchema : Hash × LogRouteEntry S → Type 0
  FollowsLogSchema (topic, entry) =
      (ty : String) × (layout : LogLayout) × (lookup topic log_schema ≡ some (ty, layout))
      × EmitsLog trace eth c ty layout entry.handler_func

  abbrev pub FollowsCallSchema : String × InputDataEntry S → Type 0
  FollowsCallSchema (selector, entry) =
      (ty : String) × (layout : CallLayout) × (lookup selector call_schema ≡ some (ty, layout))
      × EmitsCall trace eth c selector ty layout entry.handler_func

module _ {S : Type 0} {trace : S → List Event} (eth : Eth) (cache : Cache S) (c : Callback S)
    (t : IsTraced trace cache c) where
  pub log_handlers-FollowsLogSchema :
      All (FollowsLogSchema trace eth c) (bootstrap_event_router eth cache c).log_handlers
  unfolding bootstrap_event_router
  log_handlers-FollowsLogSchema =
      let hc : HandlerContainer S = record { cache = cache } in
      (_, _, refl, Logs.faucet_give_log-EmitsLog eth hc c t)
      & (_, _, refl, Logs.index_add_log-EmitsLog eth hc c t)
      & (_, _, refl, Logs.index_remove_log-EmitsLog eth hc c t)
      & (_, _, refl, Logs.ownership_log-EmitsLog eth hc c t)
      & (_, _, refl, Logs.pool_deposit_log-EmitsLog eth hc c t)
      & (_, _, refl, Logs.pool_swap_log-EmitsLog eth hc c t)
      & (_, _, refl, Logs.quoter_price_update_log-EmitsLog eth hc c t)
      & (_, _, refl, Logs.seal_state_change_log-EmitsLog eth hc c t)
      & (_, _, refl, Logs.token_burn_log-EmitsLog eth hc c t)
      & (_, _, refl, Logs.token_mint_log-EmitsLog eth hc c t)
      & (_, _, refl, Logs.custodial_registration_log-EmitsLog eth hc c t)
      & (_, _, refl, Logs.token_transfer_log-EmitsLog eth hc c t)
      & (_, _, refl, Logs.token_approve_log-EmitsLog eth hc c t)
      & (_, _, refl, Logs.token_transfer_from_log-EmitsLog eth hc c t)
      & (_, _, refl, Logs.quoter_updated_log-EmitsLog eth hc c t)
      & tt

  pub input_data_handlers-FollowsCallSchema :
      All (FollowsCallSchema trace eth c) (bootstrap_event_router eth cache c).input_data_handlers
  unfolding bootstrap_event_router
  input_data_handlers-FollowsCallSchema =
      let hc : HandlerContainer S = record { cache = cache } in
      (_, _, refl, Calls.give_to_call-EmitsCall eth hc c t)
      & (_, _, refl, Calls.gimme_call-EmitsCall eth hc c t)
      & (_, _, refl, Calls.index_add_call-EmitsCall eth hc c t)
      & (_, _, refl, Calls.register_call-EmitsCall eth hc c t)
      & (_, _, refl, Calls.index_remove_call-EmitsCall eth hc c t)
      & (_, _, refl, Calls.transfer_ownership_call-EmitsCall eth hc c t)
      & (_, _, refl, Calls.pool_deposit_call-EmitsCall eth hc c t)
      & (_, _, refl, Calls.pool_withdraw_call-EmitsCall eth hc c t)
      & (_, _, refl, Calls.set_price_index_call-EmitsCall eth hc c t)
      & (_, _, refl, Calls.seal_call-EmitsCall eth hc c t)
      & (_, _, refl, Calls.burn_call-EmitsCall eth hc c t)
      & (_, _, refl, Calls.mint_to_call-EmitsCall eth hc c t)
      & (_, _, refl, Calls.transfer_call-EmitsCall eth hc c t)
      & (_, _, refl, Calls.transfer_from_call-EmitsCall eth hc c t)
      & (_, _, refl, Calls.approve_call-EmitsCall eth hc c t)
      & (_, _, refl, Calls.set_quoter_call-EmitsCall eth hc c t)
      & tt
