-- ===== src/Handler/Emits/Calls.antt =====
-- Each input data handler emits at most one event, and that event is about its reverted call.
use eth_tracker.Prelude.{List}
use eth_tracker.Eth.{Eth}
use eth_tracker.Exec.Emits.{emits_rules}
use eth_tracker.Event.{Event}
use eth_tracker.Router.{Callback}
use eth_tracker.Handler.{HandlerContainer, check_within_network}
use eth_tracker.Handler.Contract.{
  give_to_call_layout, gimme_call_layout, index_add_call_layout, register_call_layout,
  index_remove_call_layout, transfer_ownership_call_layout, pool_deposit_call_layout,
  pool_withdraw_call_layout, set_price_index_call_layout, seal_call_layout, burn_call_layout,
  mint_to_call_layout, transfer_call_layout, transfer_from_call_layout, approve_call_layout,
  set_quoter_call_layout,
}
use eth_tracker.Handler.Emits.{
  IsTraced, EmitsCall, EmitsOne-selector, callback-input_data_event, callback-decoded,
}
use eth_tracker.Handler.Transfer.{
  handle_token_transfer_input_data, transfer_call, transfer_from_call,
}
use eth_tracker.Handler.Token.{
  handle_token_approve_input_data, handle_token_mint_input_data, handle_token_burn_input_data,
}
use eth_tracker.Handler.Index.{handle_index_add_input_data, handle_index_remove_input_data}
use eth_tracker.Handler.Pool.{handle_pool_deposit_input_data, handle_pool_swap_input_data}
use eth_tracker.Handler.Quoter.{
  handle_quoter_price_update_input_data, handle_quoter_updated_input_data,
}
use eth_tracker.Handler.Account.{
  handle_custodial_registration_input_data, handle_ownership_input_data,
  handle_seal_state_change_input_data,
}
use eth_tracker.Handler.Faucet.{handle_faucet_give_input_data, give_to_call, gimme_call}

module _ {S : Type 0} {trace : S → List Event} (eth : Eth) (hc : HandlerContainer S)
    (c : Callback S) (t : IsTraced trace hc.cache c) where
  pub transfer_call-EmitsCall :
      EmitsCall trace eth c "a9059cbb" "TOKEN_TRANSFER" transfer_call_layout
        (handle_token_transfer_input_data eth hc)
  unfolding handle_token_transfer_input_data check_within_network transfer_call transfer_from_call
  transfer_call-EmitsCall idp is =
      EmitsOne-selector idp _ _ is (search (emits_rules, t.network_quiet, callback-decoded eth c t))

  pub transfer_from_call-EmitsCall :
      EmitsCall trace eth c "23b872dd" "TOKEN_TRANSFER" transfer_from_call_layout
        (handle_token_transfer_input_data eth hc)
  unfolding handle_token_transfer_input_data check_within_network transfer_call transfer_from_call
  transfer_from_call-EmitsCall idp is =
      EmitsOne-selector idp _ _ is (search (emits_rules, t.network_quiet, callback-decoded eth c t))

  pub approve_call-EmitsCall :
      EmitsCall trace eth c "095ea7b3" "TOKEN_APPROVE" approve_call_layout
        (handle_token_approve_input_data eth hc)
  unfolding handle_token_approve_input_data check_within_network
  approve_call-EmitsCall idp is = search (emits_rules, t.network_quiet, callback-decoded eth c t)

  pub mint_to_call-EmitsCall :
      EmitsCall trace eth c "449a52f8" "TOKEN_MINT" mint_to_call_layout
        (handle_token_mint_input_data eth)
  unfolding handle_token_mint_input_data
  mint_to_call-EmitsCall idp is = search (emits_rules, callback-decoded eth c t)

  pub burn_call-EmitsCall :
      EmitsCall trace eth c "42966c68" "TOKEN_BURN" burn_call_layout
        (handle_token_burn_input_data eth)
  unfolding handle_token_burn_input_data
  burn_call-EmitsCall idp is = search (emits_rules, callback-decoded eth c t)

  pub index_add_call-EmitsCall :
      EmitsCall trace eth c "0a3b0a4f" "INDEX_ADD" index_add_call_layout
        (handle_index_add_input_data eth)
  unfolding handle_index_add_input_data
  index_add_call-EmitsCall idp is =
      EmitsOne-selector idp _ _ is (search (emits_rules, callback-decoded eth c t))

  pub index_remove_call-EmitsCall :
      EmitsCall trace eth c "29092d0e" "INDEX_REMOVE" index_remove_call_layout
        (handle_index_remove_input_data eth)
  unfolding handle_index_remove_input_data
  index_remove_call-EmitsCall idp is = search (emits_rules, callback-decoded eth c t)

  pub pool_deposit_call-EmitsCall :
      EmitsCall trace eth c "47e7ef24" "POOL_DEPOSIT" pool_deposit_call_layout
        (handle_pool_deposit_input_data eth)
  unfolding handle_pool_deposit_input_data
  pool_deposit_call-EmitsCall idp is = search (emits_rules, callback-decoded eth c t)

  pub pool_withdraw_call-EmitsCall :
      EmitsCall trace eth c "d9caed12" "POOL_SWAP" pool_withdraw_call_layout
        (handle_pool_swap_input_data eth)
  unfolding handle_pool_swap_input_data
  pool_withdraw_call-EmitsCall idp is = search (emits_rules, callback-decoded eth c t)

  pub set_price_index_call-EmitsCall :
      EmitsCall trace eth c "ebc59dff" "QUOTER_PRICE_INDEX_UPDATED" set_price_index_call_layout
        (handle_quoter_price_update_input_data eth)
  unfolding handle_quoter_price_update_input_data
  set_price_index_call-EmitsCall idp is = search (emits_rules, callback-decoded eth c t)

  pub set_quoter_call-EmitsCall :
      EmitsCall trace eth c "f912c64b" "QUOTER_UPDATED" set_quoter_call_layout
        (handle_quoter_updated_input_data eth)
  unfolding handle_quoter_updated_input_data
  set_quoter_call-EmitsCall idp is = search (emits_rules, callback-decoded eth c t)

  pub register_call-EmitsCall :
      EmitsCall trace eth c "4420e486" "CUSTODIAL_REGISTRATION" register_call_layout
        (handle_custodial_registration_input_data eth)
  unfolding handle_custodial_registration_input_data
  register_call-EmitsCall idp is = search (emits_rules, callback-decoded eth c t)

  pub transfer_ownership_call-EmitsCall :
      EmitsCall trace eth c "f2fde38b" "OWNERSHIP_TRANSFERRED" transfer_ownership_call_layout
        (handle_ownership_input_data eth)
  unfolding handle_ownership_input_data
  transfer_ownership_call-EmitsCall idp is = search (emits_rules, callback-decoded eth c t)

  pub seal_call-EmitsCall :
      EmitsCall trace eth c "86fe212d" "SEAL_STATE_CHANGE" seal_call_layout
        (handle_seal_state_change_input_data eth)
  unfolding handle_seal_state_change_input_data
  seal_call-EmitsCall idp is = search (emits_rules, callback-decoded eth c t)

  pub give_to_call-EmitsCall :
      EmitsCall trace eth c "63e4bff4" "FAUCET_GIVE" give_to_call_layout
        (handle_faucet_give_input_data eth)
  unfolding handle_faucet_give_input_data give_to_call gimme_call
  give_to_call-EmitsCall idp is =
      EmitsOne-selector idp _ _ is (search (emits_rules, callback-decoded eth c t))

  pub gimme_call-EmitsCall :
      EmitsCall trace eth c "de82efb4" "FAUCET_GIVE" gimme_call_layout
        (handle_faucet_give_input_data eth)
  unfolding handle_faucet_give_input_data give_to_call gimme_call
  gimme_call-EmitsCall idp is =
      EmitsOne-selector idp _ _ is (search (emits_rules, callback-input_data_event eth c t))
