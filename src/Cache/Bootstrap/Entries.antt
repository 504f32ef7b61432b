-- ===== src/Cache/Bootstrap/Entries.antt =====
-- Every entry of a registry is tracked after the bootstrap, unless the configuration excludes it.
use eth_tracker.Prelude.{
  ◌≡◌, refl, ap, sym, ◌∙◌, subst, true, false, String, List, Elem, ◌==◌, nat_eq, string_eq, ==_refl,
  arith,
}
use eth_tracker.Prelude.Maps.{Map}
use eth_tracker.Result.{Result, ok, ok_injective}
use eth_tracker.Exec.Inversion.{>>=-returns, or_exit-returns, for_each-one}
use eth_tracker.Exec.Keeps.{Keeps, Keeps-bind, Keeps-pure}
use eth_tracker.Exec.Lens.{Lens}
use eth_tracker.Eth.{Eth}
use eth_tracker.Eth.Abi.{Address}
use eth_tracker.Cache.MapCache.{XMap, map_cache, add, size}
use eth_tracker.Cache.MapCache.Tracking.{has, has-added}
use eth_tracker.Cache.Bootstrap.{
  Registries, unless_zero, track, add_entries, add_registry, bootstrap_registry, bootstrap_cache,
}
use eth_tracker.Cache.Bootstrap.Keeps.{
  ChainKeeps, add_rest-Keeps, add_registry-Keeps, unless_zero-Keeps, track-Keeps,
}
use eth_tracker.Cache.Bootstrap.Lists.{is_excluded, apply_lists-has, bootstrap_registry-has}

module _ {M S I : Type 0} (xmap : XMap M) (state : Lens S M) (eth : Eth) (g : Registries S I)
    (k : String) where
  -- The key is tracked.
  abbrev pub IsTracked : S → Type 0
  IsTracked s = has xmap state s k ≡ true

  add-Keeps : (key : String) → Keeps IsTracked (add xmap state key)
  add-Keeps key = record { at = λ s h. has-added xmap state key k s ∙ ground arith }

  size-Keeps : Keeps IsTracked (size xmap state)
  unfolding size
  size-Keeps = record { at = λ s h. h }

  module _ (chain : ChainKeeps IsTracked g) where
    -- The entry with this key.
    entry-IsTracked :
        (v : Address) (s s' : S)
        → (v == eth.zero_address) ≡ false
        → eth.address_hex v ≡ k
        → unless_zero eth (map_cache xmap state) g v (track eth (map_cache xmap state) g v) s
          ≡ (ok tt, s')
        → IsTracked s'
    entry-IsTracked v s s' nonzero same h =
        ap (λ (p : Result (Unit {0}) × S). has xmap state p.1 k) (sym (rw nonzero at h))
        ∙ has-added xmap state (eth.address_hex v) k s
        ∙ rw (same, ==_refl k) refl

    registry-IsTracked :
        (registry name : String) (v : Address) (entries : Map String Address) (s s' : S)
        → ((x : S) → (g.registry_map (g.hex_to_address registry) x).0 ≡ ok entries)
        → Elem (name, v) entries
        → (v == eth.zero_address) ≡ false
        → eth.address_hex v ≡ k
        → add_registry eth (map_cache xmap state) g registry s ≡ (ok tt, s')
        → IsTracked s'
    unfolding add_registry add_entries
    registry-IsTracked registry name v entries s s' answers there nonzero same h =
        let (found, s1, e1, r1) = >>=-returns _ _ s s' tt h in
        let read : found ≡ entries = ok_injective found entries (
          ap (λ (p : Result (Map String Address) × S). p.0) (sym (or_exit-returns _ s s1 found e1))
          ∙ answers s) in
        let (_, s2, e2, r2) = >>=-returns _ _ s1 s' tt r1 in
        let tracked : IsTracked s2 =
          for_each-one _ IsTracked (name, v) found s1 s2
            (subst (λ (es : Map String Address). Elem (name, v) es) (sym read) there)
            (λ t t' e. entry-IsTracked v t t' nonzero same e)
            (λ entry.
              unless_zero-Keeps eth (map_cache xmap state) g chain add-Keeps entry.1 _
                (track-Keeps eth (map_cache xmap state) g chain add-Keeps entry.1))
            e2 in
        subst IsTracked (ap (λ (p : Result (Unit {0}) × S). p.1) r2)
          ((add_rest-Keeps eth (map_cache xmap state) g chain add-Keeps found).at s2 tracked)

    -- The bootstrap of a registry takes no key off that the configuration does not exclude.
    bootstrap_registry-Keeps :
        (watchlist blacklist : List String) (registry : String)
        → is_excluded xmap state eth g blacklist k ≡ false
        → Keeps IsTracked
            (bootstrap_registry eth (map_cache xmap state) g watchlist blacklist registry)
    unfolding bootstrap_registry
    bootstrap_registry-Keeps watchlist blacklist registry kept =
        Keeps-bind _ _ (add_registry-Keeps eth (map_cache xmap state) g chain add-Keeps registry)
          λ _.
            Keeps-bind _ _
              (record {
                at = λ s h.
                    apply_lists-has xmap state eth g watchlist blacklist k s
                    ∙ ground (arith, kept, h);
              })
              λ _. Keeps-bind _ _ size-Keeps (λ _. Keeps-pure tt)

    -- If asking the chain changes nothing in the cache, one of the registries always answers with some
    -- entries, one entry has an address other than zero, the black list does not have that address, and
    -- the bootstrap returns without an error, then the address is tracked.
    pub bootstrap_cache-entries :
        (registries watchlist blacklist : List String) (registry name : String) (v : Address)
        (entries : Map String Address) (s s' : S)
        → Elem registry registries
        → ((x : S) → (g.registry_map (g.hex_to_address registry) x).0 ≡ ok entries)
        → Elem (name, v) entries
        → (v == eth.zero_address) ≡ false
        → eth.address_hex v ≡ k
        → is_excluded xmap state eth g blacklist k ≡ false
        → bootstrap_cache eth (map_cache xmap state) g registries watchlist blacklist s
          ≡ (ok tt, s')
        → has xmap state s' k ≡ true
    unfolding bootstrap_cache
    bootstrap_cache-entries registries watchlist blacklist registry name v entries s s' listed
          answers there nonzero same kept h =
        for_each-one (bootstrap_registry eth (map_cache xmap state) g watchlist blacklist) IsTracked
          registry registries s s' listed
          (λ t t' e.
            let (mid, first, holds) =
              bootstrap_registry-has xmap state eth g watchlist blacklist registry k t t' e in
            holds
            ∙ ground (
              arith,
              kept,
              registry-IsTracked registry name v entries t mid answers there nonzero same first,
            ))
          (λ r. bootstrap_registry-Keeps watchlist blacklist r kept) h
