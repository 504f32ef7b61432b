-- ===== src/Handler/Keeps/Calls.antt =====
-- The handlers of reverted calls change the state by calls of the cache and of the callback only.
use eth_tracker.Eth.{Eth}
use eth_tracker.Exec.Keeps.{Keeps, keeps_rules}
use eth_tracker.Router.{Callback, InputDataPayload}
use eth_tracker.Handler.{HandlerContainer, check_within_network}
use eth_tracker.Handler.Keeps.{LeftAlone}
use eth_tracker.Handler.Transfer.{
  handle_token_transfer_input_data, transfer_call, transfer_from_call,
}
use eth_tracker.Handler.Token.{
  handle_token_approve_input_data, handle_token_mint_input_data, handle_token_burn_input_data,
}
use eth_tracker.Handler.Index.{handle_index_add_input_data, handle_index_remove_input_data}
use eth_tracker.Handler.Pool.{handle_pool_deposit_input_data, handle_pool_swap_input_data}
use eth_tracker.Handler.Quoter.{
  handle_quoter_price_update_input_data, handle_quoter_updated_input_data,
}
use eth_tracker.Handler.Account.{
  handle_custodial_registration_input_data, handle_ownership_input_data,
  handle_seal_state_change_input_data,
}
use eth_tracker.Handler.Faucet.{handle_faucet_give_input_data, give_to_call, gimme_call}

module _ {S : Type 0} {P : S → Type 0} (eth : Eth) (hc : HandlerContainer S) (c : Callback S)
    (k : LeftAlone P hc.cache c) where
  pub token_transfer_input_data-Keeps :
      (idp : InputDataPayload) → Keeps P (handle_token_transfer_input_data eth hc idp c)
  unfolding handle_token_transfer_input_data check_within_network transfer_call transfer_from_call
  token_transfer_input_data-Keeps idp = search (keeps_rules, k.callbacks, k.networks) depth 9

  pub token_approve_input_data-Keeps :
      (idp : InputDataPayload) → Keeps P (handle_token_approve_input_data eth hc idp c)
  unfolding handle_token_approve_input_data check_within_network
  token_approve_input_data-Keeps idp = search (keeps_rules, k.callbacks, k.networks) depth 9

  pub token_mint_input_data-Keeps :
      (idp : InputDataPayload) → Keeps P (handle_token_mint_input_data eth idp c)
  unfolding handle_token_mint_input_data
  token_mint_input_data-Keeps idp = search (keeps_rules, k.callbacks) depth 9

  pub token_burn_input_data-Keeps :
      (idp : InputDataPayload) → Keeps P (handle_token_burn_input_data eth idp c)
  unfolding handle_token_burn_input_data
  token_burn_input_data-Keeps idp = search (keeps_rules, k.callbacks) depth 9

  pub index_add_input_data-Keeps :
      (idp : InputDataPayload) → Keeps P (handle_index_add_input_data eth idp c)
  unfolding handle_index_add_input_data
  index_add_input_data-Keeps idp = search (keeps_rules, k.callbacks) depth 9

  pub index_remove_input_data-Keeps :
      (idp : InputDataPayload) → Keeps P (handle_index_remove_input_data eth idp c)
  unfolding handle_index_remove_input_data
  index_remove_input_data-Keeps idp = search (keeps_rules, k.callbacks) depth 9

  pub pool_deposit_input_data-Keeps :
      (idp : InputDataPayload) → Keeps P (handle_pool_deposit_input_data eth idp c)
  unfolding handle_pool_deposit_input_data
  pool_deposit_input_data-Keeps idp = search (keeps_rules, k.callbacks) depth 9

  pub pool_swap_input_data-Keeps :
      (idp : InputDataPayload) → Keeps P (handle_pool_swap_input_data eth idp c)
  unfolding handle_pool_swap_input_data
  pool_swap_input_data-Keeps idp = search (keeps_rules, k.callbacks) depth 9

  pub quoter_price_update_input_data-Keeps :
      (idp : InputDataPayload) → Keeps P (handle_quoter_price_update_input_data eth idp c)
  unfolding handle_quoter_price_update_input_data
  quoter_price_update_input_data-Keeps idp = search (keeps_rules, k.callbacks) depth 9

  pub quoter_updated_input_data-Keeps :
      (idp : InputDataPayload) → Keeps P (handle_quoter_updated_input_data eth idp c)
  unfolding handle_quoter_updated_input_data
  quoter_updated_input_data-Keeps idp = search (keeps_rules, k.callbacks) depth 9

  pub custodial_registration_input_data-Keeps :
      (idp : InputDataPayload) → Keeps P (handle_custodial_registration_input_data eth idp c)
  unfolding handle_custodial_registration_input_data
  custodial_registration_input_data-Keeps idp = search (keeps_rules, k.callbacks) depth 9

  pub ownership_input_data-Keeps :
      (idp : InputDataPayload) → Keeps P (handle_ownership_input_data eth idp c)
  unfolding handle_ownership_input_data
  ownership_input_data-Keeps idp = search (keeps_rules, k.callbacks) depth 9

  pub seal_state_change_input_data-Keeps :
      (idp : InputDataPayload) → Keeps P (handle_seal_state_change_input_data eth idp c)
  unfolding handle_seal_state_change_input_data
  seal_state_change_input_data-Keeps idp = search (keeps_rules, k.callbacks) depth 9

  pub faucet_give_input_data-Keeps :
      (idp : InputDataPayload) → Keeps P (handle_faucet_give_input_data eth idp c)
  unfolding handle_faucet_give_input_data give_to_call gimme_call
  faucet_give_input_data-Keeps idp = search (keeps_rules, k.callbacks) depth 9
