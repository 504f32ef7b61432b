-- ===== src/Tests/Starting.antt =====
-- The theorems on the bootstrap of the cache, applied to one registry.
use eth_tracker.Prelude.{◌≡◌, refl, ap, true, List, [], ◌∷◌, inl, inr}
use eth_tracker.Prelude.Text.{decimal}
use eth_tracker.Result.{Result, ok}
use eth_tracker.Exec.{pure, lift, ◌>>=◌, or_exit, for_each}
use eth_tracker.Exec.Ends.{Ends, HasEnded-ok}
use eth_tracker.Eth.Abi.{Address}
use eth_tracker.Cache.MapCache.{add, remove, size}
use eth_tracker.Cache.Bootstrap.{
  bootstrap_cache, bootstrap_registry, add_registry, apply_lists, add_entries, add_system_account,
  add_index, add_pools, each_address, each_batch, after_batch,
}
use eth_tracker.Cache.Bootstrap.Entries.{bootstrap_cache-entries}
use eth_tracker.Cache.Bootstrap.Ends.{RegistriesEnd, bootstrap_cache-Ends}
use eth_tracker.Cache.MapCache.Tracking.{has}
use eth_tracker.Tests.Tracked.{tracked_map}
use eth_tracker.Tests.Registry.{registry, entries, registry-ChainKeeps}
use eth_tracker.Tests.World.{World, addresses, cache, eth, world}

abbrev after : World
after = (bootstrap_cache eth cache registry ("r" ∷ []) ("25" ∷ []) ("20" ∷ []) (world [])).1

boots : (bootstrap_cache eth cache registry ("r" ∷ []) ("25" ∷ []) ("20" ∷ []) (world [])).0 ≡ ok tt
unfolding bootstrap_cache bootstrap_registry add_registry apply_lists add_entries add_system_account
    add_index add_pools each_address each_batch after_batch or_exit for_each pure lift ◌>>=◌ add
    remove size
boots = refl

batches-End : (it : List (List Address)) → Ends true (registry.next it)
batches-End [] = record { at = λ s. HasEnded-ok _ }
batches-End (b ∷ bs) = record { at = λ s. HasEnded-ok _ }

bootstrap_cache-entries_example : has tracked_map addresses after (decimal 41) ≡ true
unfolding decimal
bootstrap_cache-entries_example =
    bootstrap_cache-entries tracked_map addresses eth registry (decimal 41) registry-ChainKeeps
      ("r" ∷ []) ("25" ∷ []) ("20" ∷ []) "r" "Faucet" 41 entries (world []) after (inl refl)
      (λ x. refl) (inr (inl refl)) refl refl refl (ap (λ (r : Result (Unit {0})). (r, after)) boots)

world-RegistriesEnd : RegistriesEnd cache registry
unfolding add remove size
world-RegistriesEnd = record {
  adds = λ k. record { at = λ s. HasEnded-ok tt };
  removes = λ k. record { at = λ s. HasEnded-ok tt };
  sizes = record { at = λ s. HasEnded-ok _ };
  maps = λ a. record { at = λ s. HasEnded-ok entries };
  accounts = λ a. record { at = λ s. HasEnded-ok _ };
  pools = λ a. record { at = λ s. HasEnded-ok _ };
  iterators = λ a. record { at = λ s. HasEnded-ok _ };
  batches = batches-End;
}

bootstrap_cache-Ends_example :
    Ends true (bootstrap_cache eth cache registry ("r" ∷ []) ("25" ∷ []) ("20" ∷ []))
bootstrap_cache-Ends_example =
    bootstrap_cache-Ends eth cache registry world-RegistriesEnd ("r" ∷ []) ("25" ∷ []) ("20" ∷ [])
