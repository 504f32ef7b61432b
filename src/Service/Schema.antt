-- ===== src/Service/Schema.antt =====
-- The contract with the consumers of the events: which type and which payload layout an event has, by
-- the first topic of its log or by the selector of its reverted call. It is written down from the
-- Solidity signatures of the handlers, and not read off the routing tables.
use eth_tracker.Prelude.{String, [], ◌∷◌}
use eth_tracker.Prelude.Maps.{Map}
use eth_tracker.Eth.Abi.{Hash}
use eth_tracker.Handler.Layouts.{LogLayout, CallLayout}
use eth_tracker.Handler.Contract.{
  token_transfer_layout, token_transfer_from_layout, token_approve_layout, token_mint_layout,
  token_burn_layout, index_add_layout, index_remove_layout, pool_deposit_layout, pool_swap_layout,
  quoter_price_update_layout, quoter_updated_layout, custodial_registration_layout,
  ownership_layout, seal_state_change_layout, faucet_give_layout, give_to_call_layout,
  gimme_call_layout, index_add_call_layout, register_call_layout, index_remove_call_layout,
  transfer_ownership_call_layout, pool_deposit_call_layout, pool_withdraw_call_layout,
  set_price_index_call_layout, seal_call_layout, burn_call_layout, mint_to_call_layout,
  transfer_call_layout, transfer_from_call_layout, approve_call_layout, set_quoter_call_layout,
}

-- The event type and the payload layout that consumers expect for a log with this first topic.
abbrev pub LogSchema : Type 0
LogSchema = Map Hash (String × LogLayout)

abbrev pub log_schema : LogSchema
log_schema =
    (
      0x26162814817e23ec5035d6a2edc6c422da2da2119e27cfca6be65cc2dc55ca4c,
      ("FAUCET_GIVE", faucet_give_layout),
    )
    ∷ (
      0xa226db3f664042183ee0281230bba26cbf7b5057e50aee7f25a175ff45ce4d7f,
      ("INDEX_ADD", index_add_layout),
    )
    ∷ (
      0x24a12366c02e13fe4a9e03d86a8952e85bb74a456c16e4a18b6d8295700b74bb,
      ("INDEX_REMOVE", index_remove_layout),
    )
    ∷ (
      0x8be0079c531659141344cd1fd0a4f28419497f9722a3daafe3b4186f6b6457e0,
      ("OWNERSHIP_TRANSFERRED", ownership_layout),
    )
    ∷ (
      0x5548c837ab068cf56a2c2479df0882a4922fd203edb7517321831d95078c5f62,
      ("POOL_DEPOSIT", pool_deposit_layout),
    )
    ∷ (
      0xd6d34547c69c5ee3d2667625c188acf1006abb93e0ee7cf03925c67cf7760413,
      ("POOL_SWAP", pool_swap_layout),
    )
    ∷ (
      0xdb9ce1a76955721ca61ac50cd1b87f9ab8620325c8619a62192c2dc7871d56b1,
      ("QUOTER_PRICE_INDEX_UPDATED", quoter_price_update_layout),
    )
    ∷ (
      0x6b7e2e653f93b645d4ed7292d6429f96637084363e477c8aaea1a43ed13c284e,
      ("SEAL_STATE_CHANGE", seal_state_change_layout),
    )
    ∷ (
      0xcc16f5dbb4873280815c1ee09dbd06736cffcc184412cf7a71a0fdb75d397ca5,
      ("TOKEN_BURN", token_burn_layout),
    )
    ∷ (
      0xab8530f87dc9b59234c4623bf917212bb2536d647574c8e7e5da92c2ede0c9f8,
      ("TOKEN_MINT", token_mint_layout),
    )
    ∷ (
      0x894e56e1dac400b4475c83d8af0f0aa44de17c62764bd82f6e768a504e242461,
      ("CUSTODIAL_REGISTRATION", custodial_registration_layout),
    )
    ∷ (
      0xddf252ad1be2c89b69c2b068fc378daa952ba7f163c4a11628f55a4df523b3ef,
      ("TOKEN_TRANSFER", token_transfer_layout),
    )
    ∷ (
      0x8c5be1e5ebec7d5bd14f71427d1e84f3dd0314c0f7b2291e5b200ac8c7c3b925,
      ("TOKEN_APPROVE", token_approve_layout),
    )
    ∷ (
      0x5f7542858008eeb041631f30e6109ae94b83a58e9a58261dd2c42c508850f939,
      ("TOKEN_TRANSFER", token_transfer_from_layout),
    )
    ∷ (
      0x06526a30af2ff868c2686df12e95844d8ae300416bbec5d5ccc2d2f4afdb17a0,
      ("QUOTER_UPDATED", quoter_updated_layout),
    )
    ∷ []

-- The same for a reverted call with this selector.
abbrev pub call_schema : Map String (String × CallLayout)
call_schema =
    ("63e4bff4", ("FAUCET_GIVE", give_to_call_layout))
    ∷ ("de82efb4", ("FAUCET_GIVE", gimme_call_layout))
    ∷ ("0a3b0a4f", ("INDEX_ADD", index_add_call_layout))
    ∷ ("4420e486", ("CUSTODIAL_REGISTRATION", register_call_layout))
    ∷ ("29092d0e", ("INDEX_REMOVE", index_remove_call_layout))
    ∷ ("f2fde38b", ("OWNERSHIP_TRANSFERRED", transfer_ownership_call_layout))
    ∷ ("47e7ef24", ("POOL_DEPOSIT", pool_deposit_call_layout))
    ∷ ("d9caed12", ("POOL_SWAP", pool_withdraw_call_layout))
    ∷ ("ebc59dff", ("QUOTER_PRICE_INDEX_UPDATED", set_price_index_call_layout))
    ∷ ("86fe212d", ("SEAL_STATE_CHANGE", seal_call_layout))
    ∷ ("42966c68", ("TOKEN_BURN", burn_call_layout))
    ∷ ("449a52f8", ("TOKEN_MINT", mint_to_call_layout))
    ∷ ("a9059cbb", ("TOKEN_TRANSFER", transfer_call_layout))
    ∷ ("23b872dd", ("TOKEN_TRANSFER", transfer_from_call_layout))
    ∷ ("095ea7b3", ("TOKEN_APPROVE", approve_call_layout))
    ∷ ("f912c64b", ("QUOTER_UPDATED", set_quoter_call_layout))
    ∷ []
