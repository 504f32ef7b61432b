-- ===== src/Service/Routes.antt =====
-- cmd/service/router.go: the routes of the service.
use eth_tracker.Prelude.{List, [], ◌∷◌, String}
use eth_tracker.Eth.{Eth}
use eth_tracker.Eth.Abi.{Hash}
use eth_tracker.Cache.{Cache}
use eth_tracker.Router
use eth_tracker.Router.{Router, Callback, LogHandlerFunc, InputDataHandlerFunc}
use eth_tracker.Handler.{HandlerContainer}
use eth_tracker.Handler.Transfer.{
  handle_token_transfer_log, handle_token_transfer_from_log, handle_token_transfer_input_data,
}
use eth_tracker.Handler.Token.{
  handle_token_approve_log, handle_token_approve_input_data, handle_token_mint_log,
  handle_token_mint_input_data, handle_token_burn_log, handle_token_burn_input_data,
}
use eth_tracker.Handler.Index.{
  handle_index_add_log, handle_index_add_input_data, handle_index_remove_log,
  handle_index_remove_input_data,
}
use eth_tracker.Handler.Pool.{
  handle_pool_deposit_log, handle_pool_deposit_input_data, handle_pool_swap_log,
  handle_pool_swap_input_data,
}
use eth_tracker.Handler.Quoter.{
  handle_quoter_price_update_log, handle_quoter_price_update_input_data, handle_quoter_updated_log,
  handle_quoter_updated_input_data,
}
use eth_tracker.Handler.Account.{
  handle_custodial_registration_log, handle_custodial_registration_input_data, handle_ownership_log,
  handle_ownership_input_data, handle_seal_state_change_log, handle_seal_state_change_input_data,
  handle_contract_creation,
}
use eth_tracker.Handler.Faucet.{handle_faucet_give_log, handle_faucet_give_input_data}

module _ {S : Type 0} (eth : Eth) (hc : HandlerContainer S) where
  -- The calls of `RegisterLogRoute`, in order.
  abbrev pub log_routes : List (Hash × LogHandlerFunc S)
  log_routes =
      (
        0x26162814817e23ec5035d6a2edc6c422da2da2119e27cfca6be65cc2dc55ca4c,
        handle_faucet_give_log eth,
      )
      ∷ (
        0xa226db3f664042183ee0281230bba26cbf7b5057e50aee7f25a175ff45ce4d7f,
        handle_index_add_log eth hc,
      )
      ∷ (
        0x24a12366c02e13fe4a9e03d86a8952e85bb74a456c16e4a18b6d8295700b74bb,
        handle_index_remove_log eth hc,
      )
      ∷ (
        0x8be0079c531659141344cd1fd0a4f28419497f9722a3daafe3b4186f6b6457e0,
        handle_ownership_log eth,
      )
      ∷ (
        0x5548c837ab068cf56a2c2479df0882a4922fd203edb7517321831d95078c5f62,
        handle_pool_deposit_log eth,
      )
      ∷ (
        0xd6d34547c69c5ee3d2667625c188acf1006abb93e0ee7cf03925c67cf7760413,
        handle_pool_swap_log eth,
      )
      ∷ (
        0xdb9ce1a76955721ca61ac50cd1b87f9ab8620325c8619a62192c2dc7871d56b1,
        handle_quoter_price_update_log eth,
      )
      ∷ (
        0x6b7e2e653f93b645d4ed7292d6429f96637084363e477c8aaea1a43ed13c284e,
        handle_seal_state_change_log eth,
      )
      ∷ (
        0xcc16f5dbb4873280815c1ee09dbd06736cffcc184412cf7a71a0fdb75d397ca5,
        handle_token_burn_log eth,
      )
      ∷ (
        0xab8530f87dc9b59234c4623bf917212bb2536d647574c8e7e5da92c2ede0c9f8,
        handle_token_mint_log eth,
      )
      ∷ (
        0x894e56e1dac400b4475c83d8af0f0aa44de17c62764bd82f6e768a504e242461,
        handle_custodial_registration_log eth,
      )
      ∷ (
        0xddf252ad1be2c89b69c2b068fc378daa952ba7f163c4a11628f55a4df523b3ef,
        handle_token_transfer_log eth hc,
      )
      ∷ (
        0x8c5be1e5ebec7d5bd14f71427d1e84f3dd0314c0f7b2291e5b200ac8c7c3b925,
        handle_token_approve_log eth hc,
      )
      ∷ (
        0x5f7542858008eeb041631f30e6109ae94b83a58e9a58261dd2c42c508850f939,
        handle_token_transfer_from_log eth hc,
      )
      ∷ (
        0x06526a30af2ff868c2686df12e95844d8ae300416bbec5d5ccc2d2f4afdb17a0,
        handle_quoter_updated_log eth,
      )
      ∷ []

  -- The calls of `RegisterInputDataRoute`, in order. One selector is registered twice.
  abbrev pub input_data_routes : List (String × InputDataHandlerFunc S)
  input_data_routes =
      ("63e4bff4", handle_faucet_give_input_data eth)
      ∷ ("de82efb4", handle_faucet_give_input_data eth)
      ∷ ("0a3b0a4f", handle_index_add_input_data eth)
      ∷ ("4420e486", handle_index_add_input_data eth)
      ∷ ("29092d0e", handle_index_remove_input_data eth)
      ∷ ("f2fde38b", handle_ownership_input_data eth)
      ∷ ("47e7ef24", handle_pool_deposit_input_data eth)
      ∷ ("d9caed12", handle_pool_swap_input_data eth)
      ∷ ("ebc59dff", handle_quoter_price_update_input_data eth)
      ∷ ("86fe212d", handle_seal_state_change_input_data eth)
      ∷ ("42966c68", handle_token_burn_input_data eth)
      ∷ ("449a52f8", handle_token_mint_input_data eth)
      ∷ ("4420e486", handle_custodial_registration_input_data eth)
      ∷ ("a9059cbb", handle_token_transfer_input_data eth hc)
      ∷ ("23b872dd", handle_token_transfer_input_data eth hc)
      ∷ ("095ea7b3", handle_token_approve_input_data eth hc)
      ∷ ("f912c64b", handle_quoter_updated_input_data eth)
      ∷ []

module _ {S : Type 0} where
  unfoldable pub register_log_routes : List (Hash × LogHandlerFunc S) → Router S → Router S
  register_log_routes [] r = r
  register_log_routes ((signature, handler) ∷ routes) r =
      register_log_routes routes (Router.register_log_route signature handler r)

  unfoldable pub register_input_data_routes :
      List (String × InputDataHandlerFunc S) → Router S → Router S
  register_input_data_routes [] r = r
  register_input_data_routes ((signature, handler) ∷ routes) r =
      register_input_data_routes routes (Router.register_input_data_route signature handler r)

  unfoldable pub bootstrap_event_router : Eth → Cache S → Callback S → Router S
  unfolding register_log_routes register_input_data_routes Router.register_contract_creation_handler
      Router.new Router.register_log_route Router.register_input_data_route
  bootstrap_event_router eth cache_provider pub_cb =
      let hc : HandlerContainer S = record { cache = cache_provider } in
      let router =
        Router.register_contract_creation_handler (handle_contract_creation hc)
          (Router.new pub_cb) in
      register_input_data_routes (input_data_routes eth hc)
        (register_log_routes (log_routes eth hc) router)
