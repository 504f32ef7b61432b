-- ===== src/Handler/Emits/Logs.antt =====
-- Each log handler emits at most one event, and that event is about its log.
use eth_tracker.Prelude.{List}
use eth_tracker.Eth.{Eth}
use eth_tracker.Exec.Emits.{emits_rules}
use eth_tracker.Event.{Event}
use eth_tracker.Router.{Callback}
use eth_tracker.Handler.{HandlerContainer, check_within_network}
use eth_tracker.Handler.Contract.{
  token_transfer_layout, token_transfer_from_layout, token_approve_layout, token_mint_layout,
  token_burn_layout, index_add_layout, index_remove_layout, pool_deposit_layout, pool_swap_layout,
  quoter_price_update_layout, quoter_updated_layout, custodial_registration_layout,
  ownership_layout, seal_state_change_layout, faucet_give_layout,
}
use eth_tracker.Handler.Emits.{IsTraced, EmitsLog, callback-log_event}
use eth_tracker.Handler.Transfer.{handle_token_transfer_log, handle_token_transfer_from_log}
use eth_tracker.Handler.Token.{
  handle_token_approve_log, handle_token_mint_log, handle_token_burn_log,
}
use eth_tracker.Handler.Index.{handle_index_add_log, handle_index_remove_log}
use eth_tracker.Handler.Pool.{handle_pool_deposit_log, handle_pool_swap_log}
use eth_tracker.Handler.Quoter.{handle_quoter_price_update_log, handle_quoter_updated_log}
use eth_tracker.Handler.Account.{
  handle_custodial_registration_log, handle_ownership_log, handle_seal_state_change_log,
}
use eth_tracker.Handler.Faucet.{handle_faucet_give_log}

module _ {S : Type 0} {trace : S → List Event} (eth : Eth) (hc : HandlerContainer S)
    (c : Callback S) (t : IsTraced trace hc.cache c) where
  pub token_transfer_log-EmitsLog :
      EmitsLog trace eth c "TOKEN_TRANSFER" token_transfer_layout (handle_token_transfer_log eth hc)
  unfolding handle_token_transfer_log check_within_network
  token_transfer_log-EmitsLog lp = search (emits_rules, t.network_quiet, callback-log_event eth c t)

  pub token_transfer_from_log-EmitsLog :
      EmitsLog trace eth c "TOKEN_TRANSFER" token_transfer_from_layout
        (handle_token_transfer_from_log eth hc)
  unfolding handle_token_transfer_from_log check_within_network
  token_transfer_from_log-EmitsLog lp =
      search (emits_rules, t.network_quiet, callback-log_event eth c t)

  pub token_approve_log-EmitsLog :
      EmitsLog trace eth c "TOKEN_APPROVE" token_approve_layout (handle_token_approve_log eth hc)
  unfolding handle_token_approve_log check_within_network
  token_approve_log-EmitsLog lp = search (emits_rules, t.network_quiet, callback-log_event eth c t)

  pub token_mint_log-EmitsLog :
      EmitsLog trace eth c "TOKEN_MINT" token_mint_layout (handle_token_mint_log eth)
  unfolding handle_token_mint_log
  token_mint_log-EmitsLog lp = search (emits_rules, callback-log_event eth c t)

  pub token_burn_log-EmitsLog :
      EmitsLog trace eth c "TOKEN_BURN" token_burn_layout (handle_token_burn_log eth)
  unfolding handle_token_burn_log
  token_burn_log-EmitsLog lp = search (emits_rules, callback-log_event eth c t)

  pub index_add_log-EmitsLog :
      EmitsLog trace eth c "INDEX_ADD" index_add_layout (handle_index_add_log eth hc)
  unfolding handle_index_add_log
  index_add_log-EmitsLog lp = search (emits_rules, t.add_quiet, callback-log_event eth c t)

  pub index_remove_log-EmitsLog :
      EmitsLog trace eth c "INDEX_REMOVE" index_remove_layout (handle_index_remove_log eth hc)
  unfolding handle_index_remove_log
  index_remove_log-EmitsLog lp = search (emits_rules, t.remove_quiet, callback-log_event eth c t)

  pub pool_deposit_log-EmitsLog :
      EmitsLog trace eth c "POOL_DEPOSIT" pool_deposit_layout (handle_pool_deposit_log eth)
  unfolding handle_pool_deposit_log
  pool_deposit_log-EmitsLog lp = search (emits_rules, callback-log_event eth c t)

  pub pool_swap_log-EmitsLog :
      EmitsLog trace eth c "POOL_SWAP" pool_swap_layout (handle_pool_swap_log eth)
  unfolding handle_pool_swap_log
  pool_swap_log-EmitsLog lp = search (emits_rules, callback-log_event eth c t)

  pub quoter_price_update_log-EmitsLog :
      EmitsLog trace eth c "QUOTER_PRICE_INDEX_UPDATED" quoter_price_update_layout
        (handle_quoter_price_update_log eth)
  unfolding handle_quoter_price_update_log
  quoter_price_update_log-EmitsLog lp = search (emits_rules, callback-log_event eth c t)

  pub quoter_updated_log-EmitsLog :
      EmitsLog trace eth c "QUOTER_UPDATED" quoter_updated_layout (handle_quoter_updated_log eth)
  unfolding handle_quoter_updated_log
  quoter_updated_log-EmitsLog lp = search (emits_rules, callback-log_event eth c t)

  pub custodial_registration_log-EmitsLog :
      EmitsLog trace eth c "CUSTODIAL_REGISTRATION" custodial_registration_layout
        (handle_custodial_registration_log eth)
  unfolding handle_custodial_registration_log
  custodial_registration_log-EmitsLog lp = search (emits_rules, callback-log_event eth c t)

  pub ownership_log-EmitsLog :
      EmitsLog trace eth c "OWNERSHIP_TRANSFERRED" ownership_layout (handle_ownership_log eth)
  unfolding handle_ownership_log
  ownership_log-EmitsLog lp = search (emits_rules, callback-log_event eth c t)

  pub seal_state_change_log-EmitsLog :
      EmitsLog trace eth c "SEAL_STATE_CHANGE" seal_state_change_layout
        (handle_seal_state_change_log eth)
  unfolding handle_seal_state_change_log
  seal_state_change_log-EmitsLog lp = search (emits_rules, callback-log_event eth c t)

  pub faucet_give_log-EmitsLog :
      EmitsLog trace eth c "FAUCET_GIVE" faucet_give_layout (handle_faucet_give_log eth)
  unfolding handle_faucet_give_log
  faucet_give_log-EmitsLog lp = search (emits_rules, callback-log_event eth c t)
