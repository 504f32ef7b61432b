-- ===== src/Cache/Bootstrap/Ends.antt =====
-- The bootstrap comes to an end.
use eth_tracker.Prelude.{
  ℕ, zero, suc, ◌<◌, ◌≡◌, refl, true, String, List, Option, none, some, ◌==◌, nat_eq, ◌∙◌, ap,
  arith,
}
use eth_tracker.Prelude.Maps.{Map}
use eth_tracker.Result.{Result, ok, err, panic, diverges}
use eth_tracker.Exec.{Exec, pure, or_exit, for_each, exits}
use eth_tracker.Exec.Ends.{
  Ends, HasEnded, ends_rules, Ends-pure, Ends-bind, Ends-bind_at, Ends-for_each, Ends-if,
  HasEnded-ok,
}
use eth_tracker.Eth.{Eth}
use eth_tracker.Eth.Abi.{Address}
use eth_tracker.Cache.{Cache}
use eth_tracker.Cache.Bootstrap.{
  Registries, unless_zero, track, after_batch, each_batch, each_address, add_entries,
  add_system_account, add_index, add_pool_tokens, add_pool, add_pools, add_registry, apply_lists,
  bootstrap_registry, bootstrap_cache,
}

exits-HasEnded : {A : Type 0} (r : Result A) → HasEnded true r → HasEnded true (exits r)
exits-HasEnded diverges h = absurd h.fine
exits-HasEnded panic h = record { fine = refl }
exits-HasEnded (err e) h = record { fine = refl }
exits-HasEnded (ok a) h = record { fine = tt }

Ends-or_exit : {S A : Type 0} (m : Exec S A) → Ends true m → Ends true (or_exit m)
unfolding or_exit
Ends-or_exit m h = record { at = λ s. exits-HasEnded (m s).0 (h.at s) }

-- The calls of the cache and of the chain end; the process may die in them.
pub record RegistriesEnd {S I : Type 0} (cache : Cache S) (g : Registries S I) : Type 0 where
  pub adds : (k : String) → Ends true (cache.add k)
  pub removes : (k : String) → Ends true (cache.remove k)
  pub sizes : Ends true cache.size
  pub maps : (a : Address) → Ends true (g.registry_map a)
  pub accounts : (a : Address) → Ends true (g.system_account a)
  pub pools : (a : Address) → Ends true (g.tokens_and_quoter a)
  pub iterators : (a : Address) → Ends true (g.new_batch_iterator a)
  pub batches : (it : I) → Ends true (g.next it)

module _ {S I : Type 0} (eth : Eth) (cache : Cache S) (g : Registries S I)
    (k : RegistriesEnd cache g) where
  unless_zero-Ends :
      (a : Address) (m : Exec S (Unit {0})) → Ends true m → Ends true (unless_zero eth cache g a m)
  unless_zero-Ends a m h = Ends-if (a == eth.zero_address) (pure tt) m (Ends-pure tt) h

  after_batch-HasEnded :
      (again : I → Exec S (Unit {0})) (body : Address → Exec S (Unit {0}))
      (found : Option (List Address) × I) (s : S)
      → ((a : Address) → Ends true (body a))
      → ((batch : List Address) (it : I) (x : S)
          → found ≡ (some batch, it)
          → HasEnded true (again it x).0)
      → HasEnded true (after_batch eth cache g again body found s).0
  unfolding after_batch pure
  after_batch-HasEnded again body (none, it) s each rest = HasEnded-ok tt
  after_batch-HasEnded again body (some batch, it) s each rest =
      Ends-bind_at (for_each batch (λ a. unless_zero eth cache g a (body a))) (λ _. again it) s
        ((Ends-for_each batch _ (λ a. unless_zero-Ends a (body a) (each a))).at s)
        (λ _ _. rest batch it _ refl)

  -- With more rounds than batches are left, the loop ends.
  each_batch-HasEnded :
      (fuel : ℕ) (body : Address → Exec S (Unit {0})) (it : I) (s : S)
      → ((a : Address) → Ends true (body a))
      → g.remaining it < fuel
      → HasEnded true (each_batch eth cache g fuel body it s).0
  unfolding each_batch
  each_batch-HasEnded zero body it s each enough = absurd (omega arith)
  each_batch-HasEnded (suc fuel) body it s each enough =
      Ends-bind_at (g.next it) _ s ((k.batches it).at s) λ found e.
        after_batch-HasEnded (each_batch eth cache g fuel body) body found _ each λ batch it' x p.
          each_batch-HasEnded fuel body it' x each
            (omega (arith, g.next-remaining it it' batch s (e ∙ ap ok p)))

  each_address-Ends :
      (index : Address) (body : Address → Exec S (Unit {0}))
      → ((a : Address) → Ends true (body a))
      → Ends true (each_address eth cache g index body)
  unfolding each_address
  each_address-Ends index body each =
      Ends-bind _ _ (k.iterators index)
        λ it. record { at = λ s. each_batch-HasEnded _ body it s each (omega arith) }

  track-Ends : (a : Address) → Ends true (track eth cache g a)
  track-Ends a = k.adds (eth.address_hex a)

  add_entries-Ends : (entries : Map String Address) → Ends true (add_entries eth cache g entries)
  unfolding add_entries
  add_entries-Ends entries =
      Ends-for_each entries _ (λ entry. unless_zero-Ends entry.1 _ (track-Ends entry.1))

  add_system_account-Ends : (proxy : Address) → Ends true (add_system_account eth cache g proxy)
  unfolding add_system_account
  add_system_account-Ends proxy = unless_zero-Ends proxy _ (
      Ends-bind _ _ (k.accounts proxy) (λ account. unless_zero-Ends account _ (track-Ends account)))

  add_index-Ends : (index : Address) → Ends true (add_index eth cache g index)
  unfolding add_index
  add_index-Ends index =
      unless_zero-Ends index _
        (Ends-bind _ _ (track-Ends index) (λ _. each_address-Ends index _ track-Ends))

  add_pool_tokens-Ends : (tokens : Address) → Ends true (add_pool_tokens eth cache g tokens)
  unfolding add_pool_tokens
  add_pool_tokens-Ends tokens =
      unless_zero-Ends tokens _
        (Ends-bind _ _ (track-Ends tokens) (λ _. each_address-Ends tokens _ track-Ends))

  add_pool-Ends : (pool : Address) → Ends true (add_pool eth cache g pool)
  unfolding add_pool
  add_pool-Ends pool = Ends-bind _ _ (track-Ends pool) λ _. Ends-bind _ _ (k.pools pool) λ found.
      Ends-bind _ _ (unless_zero-Ends found.1 _ (track-Ends found.1))
        λ _. add_pool_tokens-Ends found.0

  add_pools-Ends : (index : Address) → Ends true (add_pools eth cache g index)
  unfolding add_pools
  add_pools-Ends index =
      unless_zero-Ends index _
        (Ends-bind _ _ (track-Ends index) (λ _. each_address-Ends index _ add_pool-Ends))

  add_registry-Ends : (registry : String) → Ends true (add_registry eth cache g registry)
  unfolding add_registry
  add_registry-Ends registry = Ends-bind _ _ (Ends-or_exit _ (k.maps _)) λ entries.
      Ends-bind _ _ (add_entries-Ends entries) λ _. Ends-bind _ _ (add_system_account-Ends _) λ _.
        Ends-bind _ _ (add_index-Ends _) λ _. Ends-bind _ _ (add_index-Ends _) λ _. add_pools-Ends _

  apply_lists-Ends :
      (watchlist blacklist : List String) → Ends true (apply_lists eth cache g watchlist blacklist)
  unfolding apply_lists
  apply_lists-Ends watchlist blacklist = search (ends_rules, k.adds, k.removes)

  -- If each call of the cache and of the chain ends, the bootstrap does: no loop over the batches of an
  -- index, the nested one over the tokens of a pool included, runs forever.
  pub bootstrap_cache-Ends :
      (registries watchlist blacklist : List String)
      → Ends true (bootstrap_cache eth cache g registries watchlist blacklist)
  unfolding bootstrap_cache bootstrap_registry
  bootstrap_cache-Ends registries watchlist blacklist = Ends-for_each registries _ λ registry.
      Ends-bind _ _ (add_registry-Ends registry) λ _.
        Ends-bind _ _ (apply_lists-Ends watchlist blacklist)
          λ _. Ends-bind _ _ k.sizes (λ _. Ends-pure tt)
