-- ===== src/Handler/Contract.antt =====
-- The contract with the consumers of the events: the layout of the payload of each event. It is stated
-- by the arguments of the Solidity signatures; the handlers are proved to follow it.
use eth_tracker.Prelude.{[], ◌∷◌}
use eth_tracker.Eth.Abi.{indexed, plain, address, uint256, bool}
use eth_tracker.Handler.Layouts.{
  LogLayout, CallLayout, undecoded, decoded, sender, argument, no_amount, no_token, unset,
}

abbrev pub token_transfer_layout : LogLayout
token_transfer_layout = (
  "Transfer",
  ("from", indexed address) ∷ ("to", indexed address) ∷ ("value", plain uint256) ∷ [],
)

abbrev pub token_transfer_from_layout : LogLayout
token_transfer_from_layout = (
  "TransferFrom",
  ("from", indexed address)
      ∷ ("to", indexed address)
      ∷ ("spender", indexed address)
      ∷ ("value", plain uint256)
      ∷ [],
)

abbrev pub token_approve_layout : LogLayout
token_approve_layout = (
  "Approval",
  ("owner", indexed address) ∷ ("spender", indexed address) ∷ ("value", plain uint256) ∷ [],
)

abbrev pub token_mint_layout : LogLayout
token_mint_layout = (
  "Mint",
  ("tokenMinter", indexed address) ∷ ("to", indexed address) ∷ ("value", plain uint256) ∷ [],
)

abbrev pub token_burn_layout : LogLayout
token_burn_layout = ("Burn", ("tokenBurner", indexed address) ∷ ("value", plain uint256) ∷ [])

abbrev pub index_add_layout : LogLayout
index_add_layout = ("AddressAdded", ("address", plain address) ∷ [])

abbrev pub index_remove_layout : LogLayout
index_remove_layout = ("AddressRemoved", ("address", plain address) ∷ [])

abbrev pub pool_deposit_layout : LogLayout
pool_deposit_layout = (
  "Deposit",
  ("initiator", indexed address) ∷ ("tokenIn", indexed address) ∷ ("amountIn", plain uint256) ∷ [],
)

abbrev pub pool_swap_layout : LogLayout
pool_swap_layout = (
  "Swap",
  ("initiator", indexed address)
      ∷ ("tokenIn", indexed address)
      ∷ ("tokenOut", plain address)
      ∷ ("amountIn", plain uint256)
      ∷ ("amountOut", plain uint256)
      ∷ ("fee", plain uint256)
      ∷ [],
)

abbrev pub quoter_price_update_layout : LogLayout
quoter_price_update_layout =
    ("PriceIndexUpdated", ("token", plain address) ∷ ("exchangeRate", plain uint256) ∷ [])

abbrev pub quoter_updated_layout : LogLayout
quoter_updated_layout = ("QuoterUpdated", ("newQuoter", indexed address) ∷ [])

abbrev pub custodial_registration_layout : LogLayout
custodial_registration_layout = ("NewRegistration", ("account", indexed address) ∷ [])

abbrev pub ownership_layout : LogLayout
ownership_layout = (
  "OwnershipTransferred",
  ("previousOwner", indexed address) ∷ ("newOwner", indexed address) ∷ [],
)

abbrev pub seal_state_change_layout : LogLayout
seal_state_change_layout =
    ("SealStateChange", ("final", indexed bool) ∷ ("sealState", plain uint256) ∷ [])

abbrev pub faucet_give_layout : LogLayout
faucet_give_layout = (
  "Give",
  ("recipient", indexed address) ∷ ("token", indexed address) ∷ ("amount", plain uint256) ∷ [],
)

-- The layouts of reverted calls, by the function that is called. The address of a reverted addition to
-- an index is the zero address, whatever the argument is.
abbrev pub give_to_call_layout : CallLayout
give_to_call_layout =
    decoded (record { name = "giveTo"; inputs = plain address ∷ [] })
      (("recipient", argument 0) ∷ ("token", no_token) ∷ ("amount", no_amount) ∷ [])

abbrev pub gimme_call_layout : CallLayout
gimme_call_layout =
    undecoded (("recipient", no_token) ∷ ("token", no_token) ∷ ("amount", no_amount) ∷ [])

abbrev pub index_add_call_layout : CallLayout
index_add_call_layout =
    decoded (record { name = "add"; inputs = plain address ∷ [] }) (("address", unset) ∷ [])

abbrev pub register_call_layout : CallLayout
register_call_layout =
    decoded (record { name = "register"; inputs = plain address ∷ [] })
      (("account", argument 0) ∷ [])

abbrev pub index_remove_call_layout : CallLayout
index_remove_call_layout =
    decoded (record { name = "remove"; inputs = plain address ∷ [] }) (("address", argument 0) ∷ [])

abbrev pub transfer_ownership_call_layout : CallLayout
transfer_ownership_call_layout =
    decoded (record { name = "transferOwnership"; inputs = plain address ∷ [] })
      (("previousOwner", sender) ∷ ("newOwner", argument 0) ∷ [])

abbrev pub pool_deposit_call_layout : CallLayout
pool_deposit_call_layout =
    decoded (record { name = "deposit"; inputs = plain address ∷ plain uint256 ∷ [] })
      (("initiator", sender) ∷ ("tokenIn", argument 0) ∷ ("amountIn", argument 1) ∷ [])

abbrev pub pool_withdraw_call_layout : CallLayout
pool_withdraw_call_layout =
    decoded
      (record { name = "withdraw"; inputs = plain address ∷ plain address ∷ plain uint256 ∷ [] })
      (("initiator", sender)
        ∷ ("tokenIn", argument 1)
        ∷ ("tokenOut", argument 0)
        ∷ ("amountIn", argument 2)
        ∷ ("amountOut", no_amount)
        ∷ ("fee", no_amount)
        ∷ [])

abbrev pub set_price_index_call_layout : CallLayout
set_price_index_call_layout =
    decoded (record { name = "setPriceIndexValue"; inputs = plain address ∷ plain uint256 ∷ [] })
      (("token", argument 0) ∷ ("exchangeRate", argument 1) ∷ [])

abbrev pub seal_call_layout : CallLayout
seal_call_layout =
    decoded (record { name = "seal"; inputs = plain uint256 ∷ [] }) (("sealState", argument 0) ∷ [])

abbrev pub burn_call_layout : CallLayout
burn_call_layout =
    decoded (record { name = "burn"; inputs = plain uint256 ∷ [] })
      (("tokenBurner", sender) ∷ ("value", argument 0) ∷ [])

abbrev pub mint_to_call_layout : CallLayout
mint_to_call_layout =
    decoded (record { name = "mintTo"; inputs = plain address ∷ plain uint256 ∷ [] })
      (("tokenMinter", sender) ∷ ("to", argument 0) ∷ ("value", argument 1) ∷ [])

abbrev pub transfer_call_layout : CallLayout
transfer_call_layout =
    decoded (record { name = "transfer"; inputs = plain address ∷ plain uint256 ∷ [] })
      (("from", sender) ∷ ("to", argument 0) ∷ ("value", argument 1) ∷ [])

abbrev pub transfer_from_call_layout : CallLayout
transfer_from_call_layout =
    decoded
      (record {
        name = "transferFrom";
        inputs = plain address ∷ plain address ∷ plain uint256 ∷ [];
      })
      (("from", argument 0) ∷ ("to", argument 1) ∷ ("value", argument 2) ∷ [])

abbrev pub approve_call_layout : CallLayout
approve_call_layout =
    decoded (record { name = "approve"; inputs = plain address ∷ plain uint256 ∷ [] })
      (("owner", sender) ∷ ("spender", argument 0) ∷ ("value", argument 1) ∷ [])

abbrev pub set_quoter_call_layout : CallLayout
set_quoter_call_layout =
    decoded (record { name = "setQuoter"; inputs = plain address ∷ [] })
      (("newQuoter", argument 0) ∷ [])
