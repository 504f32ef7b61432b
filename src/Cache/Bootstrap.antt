-- ===== src/Cache/Bootstrap.antt =====
-- internal/cache/bootstrap.go: what the cache tracks at the start of the service.
pub mod Lists
pub mod Keeps
pub mod Entries
pub mod Ends
use eth_tracker.Prelude.{
  ℕ, zero, suc, ◌<◌, ◌≡◌, Bool, true, false, String, List, [], ◌∷◌, Option, none, some, ◌==◌,
  nat_eq, string_eq, if◌then◌else◌,
}
use eth_tracker.Prelude.Maps.{Map, lookup}
use eth_tracker.Result.{Result, ok, diverges}
use eth_tracker.Exec.{Exec, pure, lift, ◌>>=◌, ◌>>◌, for_each, or_exit}
use eth_tracker.Eth.{Eth}
use eth_tracker.Eth.Abi.{Address}
use eth_tracker.Cache.{Cache}

-- What the bootstrap calls of ethutils and of w3. A registry is the list of its entries in the order in
-- which the loop over the Go map meets them. `remaining` bounds the batches that an iterator has left:
-- an index of addresses is finite.
pub record Registries (S I : Type 0) : Type 0 where
  pub hex_to_address : String → Address  -- ethutils.HexToAddress
  pub custodial_proxy : String
  pub account_index : String
  pub token_index : String
  pub pool_index : String
  pub registry_map : Address → Exec S (Map String Address)
  pub system_account : Address → Exec S Address
  pub tokens_and_quoter : Address → Exec S (Address × Address)  -- one batch of two calls
  pub new_batch_iterator : Address → Exec S I
  pub next : I → Exec S (Option (List Address) × I)
  pub remaining : I → ℕ
  pub next-remaining :
      (it it' : I) (batch : List Address) (s : S)
      → (next it s).0 ≡ ok (some batch, it')
      → remaining it' < remaining it

-- A missing key of a Go map reads as the zero value, here the zero address.
abbrev pub address_or_zero : Option Address → Address
address_or_zero none = 0
address_or_zero (some a) = a

module _ {S I : Type 0} (eth : Eth) (cache : Cache S) (g : Registries S I) where
  open g use {
    hex_to_address, custodial_proxy, account_index, token_index, pool_index, registry_map,
    system_account, tokens_and_quoter, new_batch_iterator, next, remaining,
  }

  abbrev pub track : Address → Exec S (Unit {0})
  track a = cache.add (eth.address_hex a)

  -- if a != ethutils.ZeroAddress { ... }
  abbrev pub unless_zero : Address → Exec S (Unit {0}) → Exec S (Unit {0})
  unless_zero a m = if a == eth.zero_address then pure tt else m

  -- One batch of an iterator, and then `again`.
  unfoldable pub after_batch :
      (I → Exec S (Unit {0}))
      → (Address → Exec S (Unit {0}))
      → Option (List Address) × I
      → Exec S (Unit {0})
  after_batch again body (none, it) = pure tt
  after_batch again body (some batch, it) = do
    for_each batch (λ a. unless_zero a (body a))
    again it

  -- The loop over the batches.
  unfoldable pub each_batch : ℕ → (Address → Exec S (Unit {0})) → I → Exec S (Unit {0})
  unfolding after_batch
  each_batch zero body it = lift diverges
  each_batch (suc fuel) body it = do found ← next it; after_batch (each_batch fuel body) body found

  -- More rounds than the iterator has batches.
  unfoldable pub each_address : Address → (Address → Exec S (Unit {0})) → Exec S (Unit {0})
  each_address index body = do
    it ← new_batch_iterator index
    each_batch (suc (remaining it)) body it

  unfoldable pub add_entries : Map String Address → Exec S (Unit {0})
  add_entries entries = for_each entries (λ entry. unless_zero entry.1 (track entry.1))

  unfoldable pub add_system_account : Address → Exec S (Unit {0})
  add_system_account proxy =
      unless_zero proxy (do account ← system_account proxy; unless_zero account (track account))

  -- The account index and the token index.
  unfoldable pub add_index : Address → Exec S (Unit {0})
  add_index index = unless_zero index (do track index; each_address index track)

  unfoldable pub add_pool_tokens : Address → Exec S (Unit {0})
  add_pool_tokens tokens = unless_zero tokens (do track tokens; each_address tokens track)

  unfoldable pub add_pool : Address → Exec S (Unit {0})
  add_pool pool = do
    track pool
    (tokens, quoter) ← tokens_and_quoter pool
    unless_zero quoter (track quoter)
    add_pool_tokens tokens

  unfoldable pub add_pools : Address → Exec S (Unit {0})
  add_pools index = unless_zero index (do track index; each_address index add_pool)

  unfoldable pub add_registry : String → Exec S (Unit {0})
  add_registry registry = do
    entries ← or_exit (registry_map (hex_to_address registry))
    add_entries entries
    add_system_account (address_or_zero (lookup custodial_proxy entries))
    add_index (address_or_zero (lookup account_index entries))
    add_index (address_or_zero (lookup token_index entries))
    add_pools (address_or_zero (lookup pool_index entries))

  -- The text of an address in the form that the cache uses.
  abbrev pub normal : String → String
  normal address = eth.address_hex (hex_to_address address)

  -- The watch list, the black list and the zero address.
  unfoldable pub apply_lists : List String → List String → Exec S (Unit {0})
  apply_lists watchlist blacklist = do
    for_each watchlist (λ address. cache.add (normal address))
    for_each blacklist (λ address. cache.remove (normal address))
    cache.remove (eth.address_hex eth.zero_address)

  unfoldable pub bootstrap_registry : List String → List String → String → Exec S (Unit {0})
  bootstrap_registry watchlist blacklist registry = do
    add_registry registry
    apply_lists watchlist blacklist
    cache_size ← cache.size
    pure tt

  unfoldable pub bootstrap_cache : List String → List String → List String → Exec S (Unit {0})
  bootstrap_cache registries watchlist blacklist =
      for_each registries (bootstrap_registry watchlist blacklist)
