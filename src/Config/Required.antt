-- ===== src/Config/Required.antt =====
-- cmd/service/main.go: the settings that must be there, and what a call that must find one tells.
use eth_tracker.Prelude.{
  ℤ, ◌≡◌, refl, Bool, true, false, ◌&&◌, ◌==◌, string_eq, String, List, [], ◌∷◌, All, if◌then◌else◌,
}
use eth_tracker.Result.{Result, ok, panic}
use eth_tracker.Exec.{Exec, lift, ◌>>=◌}
use eth_tracker.Cache.Creation.{cache_type_redis}
use eth_tracker.Config.{Settings, is_zero, is_empty}

module _ {S A R : Type 0} (f : A → Exec S R) (s s' : S) (c : R) where
  guarded-returns :
      (b : Bool) (r : Result A) (x : A)
      → r ≡ (if b then panic else ok x)
      → (lift r >>= f) s ≡ (ok c, s')
      → (b ≡ false) × (f x s ≡ (ok c, s'))
  unfolding lift ◌>>=◌
  guarded-returns true r x e h = cc (rw e at h)
  guarded-returns false r x e h = (refl, rw e at h)

-- A call that must find a setting, and what follows it.
module _ {S R : Type 0} (k : Settings) (key : String) (s s' : S) (c : R) where
  pub must_string-returns :
      (f : String → Exec S R)
      → (lift (k.must_string key) >>= f) s ≡ (ok c, s')
      → ((k.string key == "") ≡ false) × (f (k.string key) s ≡ (ok c, s'))
  must_string-returns f = guarded-returns f s s' c _ _ _ (k.must_string_lem key)

  pub must_strings-returns :
      (f : List String → Exec S R)
      → (lift (k.must_strings key) >>= f) s ≡ (ok c, s')
      → (is_empty (k.strings key) ≡ false) × (f (k.strings key) s ≡ (ok c, s'))
  must_strings-returns f = guarded-returns f s s' c _ _ _ (k.must_strings_lem key)

  pub must_int-returns :
      (f : ℤ → Exec S R)
      → (lift (k.must_int key) >>= f) s ≡ (ok c, s')
      → (is_zero (k.int key) ≡ false) × (f (k.int key) s ≡ (ok c, s'))
  must_int-returns f = guarded-returns f s s' c _ _ _ (k.must_int_lem key)

-- The settings without which the service does not start.
abbrev required_texts : List String
required_texts =
    "chain.rpc_endpoint" ∷ "core.db_type" ∷ "core.cache_type" ∷ "jetstream.endpoint"
    ∷ "chain.ws_endpoint" ∷ "api.address" ∷ []

abbrev required_numbers : List String
required_numbers = "chain.chainid" ∷ "jetstream.persist_duration_hrs" ∷ "core.batch_size" ∷ []

abbrev pub IsConfigured : Settings → Type 0
IsConfigured k =
    All (λ key. (k.string key == "") ≡ false) required_texts
    × All (λ key. is_zero (k.int key) ≡ false) required_numbers
    × (is_empty (k.strings "bootstrap.ge_registry") ≡ false)
    × ((k.string "core.cache_type" == cache_type_redis && k.string "redis.dsn" == "") ≡ false)
