-- ===== src/Handler/Keeps/Logs.antt =====
-- The log handlers change the state by calls of the cache and of the callback only.
use eth_tracker.Eth.{Eth}
use eth_tracker.Exec.Keeps.{Keeps, keeps_rules}
use eth_tracker.Router.{Callback, LogPayload}
use eth_tracker.Handler.{HandlerContainer, check_within_network}
use eth_tracker.Handler.Keeps.{LeftAlone}
use eth_tracker.Handler.Transfer.{handle_token_transfer_log, handle_token_transfer_from_log}
use eth_tracker.Handler.Token.{
  handle_token_approve_log, handle_token_mint_log, handle_token_burn_log,
}
use eth_tracker.Handler.Index.{handle_index_add_log, handle_index_remove_log}
use eth_tracker.Handler.Pool.{handle_pool_deposit_log, handle_pool_swap_log}
use eth_tracker.Handler.Quoter.{handle_quoter_price_update_log, handle_quoter_updated_log}
use eth_tracker.Handler.Account.{
  handle_custodial_registration_log, handle_ownership_log, handle_seal_state_change_log,
}
use eth_tracker.Handler.Faucet.{handle_faucet_give_log}

module _ {S : Type 0} {P : S → Type 0} (eth : Eth) (hc : HandlerContainer S) (c : Callback S)
    (k : LeftAlone P hc.cache c) where
  pub token_transfer_log-Keeps : (lp : LogPayload) → Keeps P (handle_token_transfer_log eth hc lp c)
  unfolding handle_token_transfer_log check_within_network
  token_transfer_log-Keeps lp = search (keeps_rules, k.callbacks, k.networks) depth 9

  pub token_transfer_from_log-Keeps :
      (lp : LogPayload) → Keeps P (handle_token_transfer_from_log eth hc lp c)
  unfolding handle_token_transfer_from_log check_within_network
  token_transfer_from_log-Keeps lp = search (keeps_rules, k.callbacks, k.networks) depth 9

  pub token_approve_log-Keeps : (lp : LogPayload) → Keeps P (handle_token_approve_log eth hc lp c)
  unfolding handle_token_approve_log check_within_network
  token_approve_log-Keeps lp = search (keeps_rules, k.callbacks, k.networks) depth 9

  pub token_mint_log-Keeps : (lp : LogPayload) → Keeps P (handle_token_mint_log eth lp c)
  unfolding handle_token_mint_log
  token_mint_log-Keeps lp = search (keeps_rules, k.callbacks) depth 9

  pub token_burn_log-Keeps : (lp : LogPayload) → Keeps P (handle_token_burn_log eth lp c)
  unfolding handle_token_burn_log
  token_burn_log-Keeps lp = search (keeps_rules, k.callbacks) depth 9

  pub index_add_log-Keeps : (lp : LogPayload) → Keeps P (handle_index_add_log eth hc lp c)
  unfolding handle_index_add_log
  index_add_log-Keeps lp = search (keeps_rules, k.callbacks, k.adds) depth 9

  pub index_remove_log-Keeps : (lp : LogPayload) → Keeps P (handle_index_remove_log eth hc lp c)
  unfolding handle_index_remove_log
  index_remove_log-Keeps lp = search (keeps_rules, k.callbacks, k.removes) depth 9

  pub pool_deposit_log-Keeps : (lp : LogPayload) → Keeps P (handle_pool_deposit_log eth lp c)
  unfolding handle_pool_deposit_log
  pool_deposit_log-Keeps lp = search (keeps_rules, k.callbacks) depth 9

  pub pool_swap_log-Keeps : (lp : LogPayload) → Keeps P (handle_pool_swap_log eth lp c)
  unfolding handle_pool_swap_log
  pool_swap_log-Keeps lp = search (keeps_rules, k.callbacks) depth 9

  pub quoter_price_update_log-Keeps :
      (lp : LogPayload) → Keeps P (handle_quoter_price_update_log eth lp c)
  unfolding handle_quoter_price_update_log
  quoter_price_update_log-Keeps lp = search (keeps_rules, k.callbacks) depth 9

  pub quoter_updated_log-Keeps : (lp : LogPayload) → Keeps P (handle_quoter_updated_log eth lp c)
  unfolding handle_quoter_updated_log
  quoter_updated_log-Keeps lp = search (keeps_rules, k.callbacks) depth 9

  pub custodial_registration_log-Keeps :
      (lp : LogPayload) → Keeps P (handle_custodial_registration_log eth lp c)
  unfolding handle_custodial_registration_log
  custodial_registration_log-Keeps lp = search (keeps_rules, k.callbacks) depth 9

  pub ownership_log-Keeps : (lp : LogPayload) → Keeps P (handle_ownership_log eth lp c)
  unfolding handle_ownership_log
  ownership_log-Keeps lp = search (keeps_rules, k.callbacks) depth 9

  pub seal_state_change_log-Keeps :
      (lp : LogPayload) → Keeps P (handle_seal_state_change_log eth lp c)
  unfolding handle_seal_state_change_log
  seal_state_change_log-Keeps lp = search (keeps_rules, k.callbacks) depth 9

  pub faucet_give_log-Keeps : (lp : LogPayload) → Keeps P (handle_faucet_give_log eth lp c)
  unfolding handle_faucet_give_log
  faucet_give_log-Keeps lp = search (keeps_rules, k.callbacks) depth 9
