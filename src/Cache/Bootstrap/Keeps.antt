-- ===== src/Cache/Bootstrap/Keeps.antt =====
-- What the bootstrap of one registry leaves alone: all that the additions to the cache leave alone.
use eth_tracker.Prelude.{ℕ, zero, suc, String, List, Option, none, some, ◌==◌, nat_eq, string_eq}
use eth_tracker.Prelude.Maps.{Map, lookup}
use eth_tracker.Result.{diverges}
use eth_tracker.Exec.{Exec, pure, ◌>>◌, or_exit}
use eth_tracker.Exec.Keeps.{
  Keeps, keeps_rules, Keeps-pure, Keeps-lift, Keeps-if, Keeps-bind, Keeps-for_each,
}
use eth_tracker.Eth.{Eth}
use eth_tracker.Eth.Abi.{Address}
use eth_tracker.Cache.{Cache}
use eth_tracker.Cache.Bootstrap.{
  Registries, unless_zero, track, address_or_zero, after_batch, each_batch, each_address,
  add_entries, add_system_account, add_index, add_pool_tokens, add_pool, add_pools, add_registry,
  apply_lists, bootstrap_registry, bootstrap_cache,
}

-- What `P` says of the state is left alone by the calls of the chain.
pub record ChainKeeps {S I : Type 0} (P : S → Type 0) (g : Registries S I) : Type 0 where
  pub maps : (a : Address) → Keeps P (g.registry_map a)
  pub accounts : (a : Address) → Keeps P (g.system_account a)
  pub pools : (a : Address) → Keeps P (g.tokens_and_quoter a)
  pub iterators : (a : Address) → Keeps P (g.new_batch_iterator a)
  pub batches : (it : I) → Keeps P (g.next it)

pub Keeps-or_exit : {S A : Type 0} {P : S → Type 0} (m : Exec S A) → Keeps P m → Keeps P (or_exit m)
unfolding or_exit
Keeps-or_exit m k = record { at = k.at }

module _ {S I : Type 0} {P : S → Type 0} (eth : Eth) (cache : Cache S) (g : Registries S I)
    (k : ChainKeeps P g) (adds : (key : String) → Keeps P (cache.add key)) where
  pub unless_zero-Keeps :
      (a : Address) (m : Exec S (Unit {0})) → Keeps P m → Keeps P (unless_zero eth cache g a m)
  unless_zero-Keeps a m h = Keeps-if (a == eth.zero_address) (pure tt) m (Keeps-pure tt) h

  after_batch-Keeps :
      (again : I → Exec S (Unit {0})) (body : Address → Exec S (Unit {0}))
      (found : Option (List Address) × I)
      → ((it : I) → Keeps P (again it))
      → ((a : Address) → Keeps P (body a))
      → Keeps P (after_batch eth cache g again body found)
  unfolding after_batch
  after_batch-Keeps again body (none, it) rest each = Keeps-pure tt
  after_batch-Keeps again body (some batch, it) rest each =
      Keeps-bind _ _ (Keeps-for_each batch _ (λ a. unless_zero-Keeps a (body a) (each a)))
        (λ _. rest it)

  each_batch-Keeps :
      (fuel : ℕ) (body : Address → Exec S (Unit {0})) (it : I)
      → ((a : Address) → Keeps P (body a))
      → Keeps P (each_batch eth cache g fuel body it)
  unfolding each_batch
  each_batch-Keeps zero body it each = Keeps-lift diverges
  each_batch-Keeps (suc fuel) body it each = Keeps-bind _ _ (k.batches it) λ found.
      after_batch-Keeps (each_batch eth cache g fuel body) body found
        (λ it'. each_batch-Keeps fuel body it' each) each

  each_address-Keeps :
      (index : Address) (body : Address → Exec S (Unit {0}))
      → ((a : Address) → Keeps P (body a))
      → Keeps P (each_address eth cache g index body)
  unfolding each_address
  each_address-Keeps index body each =
      Keeps-bind _ _ (k.iterators index) (λ it. each_batch-Keeps _ body it each)

  pub track-Keeps : (a : Address) → Keeps P (track eth cache g a)
  track-Keeps a = adds (eth.address_hex a)

  add_index-Keeps : (index : Address) → Keeps P (add_index eth cache g index)
  unfolding add_index
  add_index-Keeps index =
      unless_zero-Keeps index _
        (Keeps-bind _ _ (track-Keeps index) (λ _. each_address-Keeps index _ track-Keeps))

  add_pool_tokens-Keeps : (tokens : Address) → Keeps P (add_pool_tokens eth cache g tokens)
  unfolding add_pool_tokens
  add_pool_tokens-Keeps tokens =
      unless_zero-Keeps tokens _
        (Keeps-bind _ _ (track-Keeps tokens) (λ _. each_address-Keeps tokens _ track-Keeps))

  add_pool-Keeps : (pool : Address) → Keeps P (add_pool eth cache g pool)
  unfolding add_pool
  add_pool-Keeps pool = Keeps-bind _ _ (track-Keeps pool) λ _.
      Keeps-bind _ _ (k.pools pool) λ found.
        Keeps-bind _ _ (unless_zero-Keeps found.1 _ (track-Keeps found.1))
          λ _. add_pool_tokens-Keeps found.0

  add_pools-Keeps : (index : Address) → Keeps P (add_pools eth cache g index)
  unfolding add_pools
  add_pools-Keeps index =
      unless_zero-Keeps index _
        (Keeps-bind _ _ (track-Keeps index) (λ _. each_address-Keeps index _ add_pool-Keeps))

  add_system_account-Keeps : (proxy : Address) → Keeps P (add_system_account eth cache g proxy)
  unfolding add_system_account
  add_system_account-Keeps proxy = unless_zero-Keeps proxy _ (
      Keeps-bind _ _ (k.accounts proxy)
        (λ account. unless_zero-Keeps account _ (track-Keeps account)))

  add_entries-Keeps : (entries : Map String Address) → Keeps P (add_entries eth cache g entries)
  unfolding add_entries
  add_entries-Keeps entries =
      Keeps-for_each entries _ (λ entry. unless_zero-Keeps entry.1 _ (track-Keeps entry.1))

  -- What follows the loop over the entries of a registry.
  abbrev pub add_rest : Map String Address → Exec S (Unit {0})
  add_rest entries = do
    add_system_account eth cache g (address_or_zero (lookup g.custodial_proxy entries))
    add_index eth cache g (address_or_zero (lookup g.account_index entries))
    add_index eth cache g (address_or_zero (lookup g.token_index entries))
    add_pools eth cache g (address_or_zero (lookup g.pool_index entries))

  pub add_rest-Keeps : (entries : Map String Address) → Keeps P (add_rest entries)
  add_rest-Keeps entries =
      search (keeps_rules, add_system_account-Keeps, add_index-Keeps, add_pools-Keeps)

  pub add_registry-Keeps : (registry : String) → Keeps P (add_registry eth cache g registry)
  unfolding add_registry
  add_registry-Keeps registry =
      Keeps-bind _ _ (Keeps-or_exit _ (k.maps _))
        λ entries. Keeps-bind _ _ (add_entries-Keeps entries) (λ _. add_rest-Keeps entries)

module _ {S I : Type 0} {P : S → Type 0} (eth : Eth) (cache : Cache S) (g : Registries S I)
    (k : ChainKeeps P g) (adds : (key : String) → Keeps P (cache.add key))
    (removes : (key : String) → Keeps P (cache.remove key)) (sizes : Keeps P cache.size) where
  apply_lists-Keeps :
      (watchlist blacklist : List String) → Keeps P (apply_lists eth cache g watchlist blacklist)
  unfolding apply_lists
  apply_lists-Keeps watchlist blacklist = search (keeps_rules, adds, removes)

  pub bootstrap_cache-Keeps :
      (registries watchlist blacklist : List String)
      → Keeps P (bootstrap_cache eth cache g registries watchlist blacklist)
  unfolding bootstrap_cache bootstrap_registry
  bootstrap_cache-Keeps registries watchlist blacklist = Keeps-for_each registries _ λ registry.
      Keeps-bind _ _ (add_registry-Keeps eth cache g k adds registry) λ _.
        Keeps-bind _ _ (apply_lists-Keeps watchlist blacklist)
          λ _. Keeps-bind _ _ sizes (λ _. Keeps-pure tt)
