-- ===== src/Cache/Bootstrap/Lists.antt =====
-- The lists of the configuration decide what the cache tracks after the bootstrap.
use eth_tracker.Prelude.{
  ◌≡◌, refl, ap, sym, ◌∙◌, Bool, not, ◌&&◌, ◌||◌, String, List, [], ◌∷◌, map, contains, ◌==◌,
  string_eq, arith,
}
use eth_tracker.Result.{Result, ok}
use eth_tracker.Exec.{pure, ◌>>=◌, for_each}
use eth_tracker.Exec.Inversion.{>>=-returns, for_each-last}
use eth_tracker.Exec.Lens.{Lens}
use eth_tracker.Eth.{Eth}
use eth_tracker.Cache.MapCache.{XMap, map_cache, add, remove, size}
use eth_tracker.Cache.MapCache.Tracking.{
  added, removed, tracked_after, has, apply, apply_all, has-apply_all, has-removed,
}
use eth_tracker.Cache.Bootstrap.{
  Registries, normal, add_registry, apply_lists, bootstrap_registry, bootstrap_cache,
}

module _ (f : String → String) where
  tracked_after-added :
      (k : String) (xs : List String) (before : Bool)
      → tracked_after k (map (λ x. added (f x)) xs) before ≡ (contains (map f xs) k || before)
  tracked_after-added k [] before = refl
  tracked_after-added k (x ∷ xs) before = tracked_after-added k xs _ ∙ ground arith

  tracked_after-removed :
      (k : String) (xs : List String) (before : Bool)
      → tracked_after k (map (λ x. removed (f x)) xs) before
        ≡ (not (contains (map f xs) k) && before)
  tracked_after-removed k [] before = refl
  tracked_after-removed k (x ∷ xs) before = tracked_after-removed k xs _ ∙ ground arith

module _ {M S I : Type 0} (xmap : XMap M) (state : Lens S M) (eth : Eth) (g : Registries S I) where
  for_each-added :
      (f : String → String) (xs : List String) (s : S)
      → for_each xs (λ x. add xmap state (f x)) s
        ≡ (ok tt, apply_all xmap state (map (λ x. added (f x)) xs) s)
  unfolding for_each apply_all apply add pure ◌>>=◌
  for_each-added f [] s = refl
  for_each-added f (x ∷ xs) s = for_each-added f xs (add xmap state (f x) s).1

  for_each-removed :
      (f : String → String) (xs : List String) (s : S)
      → for_each xs (λ x. remove xmap state (f x)) s
        ≡ (ok tt, apply_all xmap state (map (λ x. removed (f x)) xs) s)
  unfolding for_each apply_all apply remove pure ◌>>=◌
  for_each-removed f [] s = refl
  for_each-removed f (x ∷ xs) s = for_each-removed f xs (remove xmap state (f x) s).1

  -- The keys that the bootstrap takes off the cache: the black list and the zero address.
  abbrev pub is_excluded : List String → String → Bool
  is_excluded blacklist k =
      eth.address_hex eth.zero_address == k
      || contains (map (normal eth (map_cache xmap state) g) blacklist) k

  abbrev pub is_watched : List String → String → Bool
  is_watched watchlist k = contains (map (normal eth (map_cache xmap state) g) watchlist) k

  abbrev listed : List String → List String → S → S
  listed watchlist blacklist s =
      apply_all xmap state (map (λ x. removed (normal eth (map_cache xmap state) g x)) blacklist) (
        apply_all xmap state (map (λ x. added (normal eth (map_cache xmap state) g x)) watchlist) s)

  apply_lists_lem :
      (watchlist blacklist : List String) (s : S)
      → apply_lists eth (map_cache xmap state) g watchlist blacklist s
        ≡ remove xmap state (eth.address_hex eth.zero_address) (listed watchlist blacklist s)
  unfolding apply_lists ◌>>=◌
  apply_lists_lem watchlist blacklist s =
      rw
        (
          for_each-added (normal eth (map_cache xmap state) g) watchlist s,
          for_each-removed (normal eth (map_cache xmap state) g) blacklist,
        )
        refl

  listed-has :
      (watchlist blacklist : List String) (k : String) (s : S)
      → has xmap state (listed watchlist blacklist s) k ≡ (
          not (contains (map (normal eth (map_cache xmap state) g) blacklist) k)
          && (is_watched watchlist k || has xmap state s k))
  listed-has watchlist blacklist k s =
      has-apply_all xmap state k _ _
      ∙ tracked_after-removed (normal eth (map_cache xmap state) g) k blacklist _
      ∙ ap
          (λ (b : Bool).
            not (contains (map (normal eth (map_cache xmap state) g) blacklist) k) && b)
          (has-apply_all xmap state k _ s
            ∙ tracked_after-added (normal eth (map_cache xmap state) g) k watchlist _)

  pub apply_lists-has :
      (watchlist blacklist : List String) (k : String) (s : S)
      → has xmap state (apply_lists eth (map_cache xmap state) g watchlist blacklist s).1 k
        ≡ (not (is_excluded blacklist k) && (is_watched watchlist k || has xmap state s k))
  apply_lists-has watchlist blacklist k s =
      ap (λ (p : Result (Unit {0}) × S). has xmap state p.1 k)
        (apply_lists_lem watchlist blacklist s)
      ∙ has-removed xmap state (eth.address_hex eth.zero_address) k _
      ∙ ground (arith, listed-has watchlist blacklist k s)

  size_reads :
      (s' s : S) (k : String)
      → (size xmap state >>= λ _. pure tt) s ≡ (ok tt, s')
      → has xmap state s' k ≡ has xmap state s k
  unfolding size pure ◌>>=◌
  size_reads s' s k h = ap (λ (p : Result (Unit {0}) × S). has xmap state p.1 k) (sym h)

  -- One registry, if its bootstrap returned.
  pub bootstrap_registry-has :
      (watchlist blacklist : List String) (registry k : String) (s s' : S)
      → bootstrap_registry eth (map_cache xmap state) g watchlist blacklist registry s ≡ (ok tt, s')
      → (mid : S) × (add_registry eth (map_cache xmap state) g registry s ≡ (ok tt, mid))
        × (has xmap state s' k
            ≡ (not (is_excluded blacklist k) && (is_watched watchlist k || has xmap state mid k)))
  unfolding bootstrap_registry
  bootstrap_registry-has watchlist blacklist registry k s s' h =
      let (_, mid, first, rest) = >>=-returns _ _ s s' tt h in
      let (_, listed, lists, last) = >>=-returns _ _ mid s' tt rest in
      (
        mid,
        first,
        size_reads s' listed k last
            ∙ ap (λ (p : Result (Unit {0}) × S). has xmap state p.1 k) (sym lists)
            ∙ apply_lists-has watchlist blacklist k mid,
      )

  -- If the bootstrap from at least one registry returns without an error, a key of the black list and
  -- the zero address are not tracked, and every other key of the watch list is tracked.
  pub bootstrap_cache-lists :
      (registry : String) (registries watchlist blacklist : List String) (k : String) (s s' : S)
      → bootstrap_cache eth (map_cache xmap state) g (registry ∷ registries) watchlist blacklist s
        ≡ (ok tt, s')
      → has xmap state s' k
        ≡ (not (is_excluded blacklist k) && (is_watched watchlist k || has xmap state s' k))
  unfolding bootstrap_cache
  bootstrap_cache-lists registry registries watchlist blacklist k s s' h =
      for_each-last (bootstrap_registry eth (map_cache xmap state) g watchlist blacklist)
        (λ (t : S).
          has xmap state t k
          ≡ (not (is_excluded blacklist k) && (is_watched watchlist k || has xmap state t k)))
        registry registries s s'
        (λ r t t' e.
          let (mid, _, holds) = bootstrap_registry-has watchlist blacklist r k t t' e in
          ground (arith, holds))
        h
