-- ===== src/Cache/MapCache/Tracking.antt =====
-- Which addresses the cache tracks, after any sequence of its calls.
use eth_tracker.Prelude.{
  ◌≡◌, refl, ap, ◌∙◌, Bool, true, false, ◌&&◌, List, [], ◌∷◌, any, String, is_some, ◌==◌, string_eq,
  if◌then◌else◌, arith,
}
use eth_tracker.Result.{ok}
use eth_tracker.Exec.{Exec}
use eth_tracker.Exec.Lens.{Lens}
use eth_tracker.Cache.MapCache.{XMap, any_tracked, add, remove, exists, exists_network}

pub data Update : Type 0 where
  added removed : String → Update

-- Whether the key is tracked after the updates, if `before` says whether it was before them: the last
-- update of the key decides.
abbrev pub tracked_after : String → List Update → Bool → Bool
tracked_after k [] before = before
tracked_after k (added j ∷ us) before = tracked_after k us (if j == k then true else before)
tracked_after k (removed j ∷ us) before = tracked_after k us (if j == k then false else before)

module _ {M S : Type 0} (xmap : XMap M) (state : Lens S M) where
  -- Whether the map of the state has the key.
  abbrev pub has : S → String → Bool
  has s k = is_some (xmap.load (state.get s) k)

  unfoldable pub apply : Update → Exec S (Unit {0})
  apply (added k) = add xmap state k
  apply (removed k) = remove xmap state k

  unfoldable pub apply_all : List Update → S → S
  apply_all [] s = s
  apply_all (u ∷ us) s = apply_all us (apply u s).1

  pub has-added :
      (j k : String) (s : S) → has (add xmap state j s).1 k ≡ (if j == k then true else has s k)
  unfolding add
  has-added j k s =
      rw (state.get-put (xmap.store (state.get s) j true) s, xmap.load-store (state.get s) j k true)
        (ground arith)

  pub has-removed :
      (j k : String) (s : S) → has (remove xmap state j s).1 k ≡ (if j == k then false else has s k)
  unfolding remove
  has-removed j k s =
      rw (state.get-put (xmap.delete (state.get s) j) s, xmap.load-delete (state.get s) j k)
        (ground arith)

  pub has-apply_all :
      (k : String) (us : List Update) (s : S)
      → has (apply_all us s) k ≡ tracked_after k us (has s k)
  unfolding apply apply_all
  has-apply_all k [] s = refl
  has-apply_all k (added j ∷ us) s =
      has-apply_all k us (add xmap state j s).1 ∙ ap (tracked_after k us) (has-added j k s)
  has-apply_all k (removed j ∷ us) s =
      has-apply_all k us (remove xmap state j s).1 ∙ ap (tracked_after k us) (has-removed j k s)

  -- After any sequence of additions and removals, a look-up returns whether the last one that concerns
  -- the key was an addition, or, if none concerns it, whether the key was there before.
  pub exists-apply_all :
      (k : String) (us : List Update) (s : S)
      → exists xmap state k (apply_all us s) ≡ (ok (tracked_after k us (has s k)), apply_all us s)
  unfolding exists
  exists-apply_all k us s = ap (λ (b : Bool). (ok b, apply_all us s)) (has-apply_all k us s)

  any_tracked_lem : (ks : List String) (s : S) → any_tracked xmap ks (state.get s) ≡ any (has s) ks
  unfolding any_tracked
  any_tracked_lem [] s = refl
  any_tracked_lem (k ∷ ks) s = ground (arith, any_tracked_lem ks s)

  -- A token is in the network of some addresses exactly if the token and one of them are tracked.
  pub exists_network-exact :
      (token : String) (ks : List String) (s : S)
      → exists_network xmap state token ks s ≡ (ok (has s token && any (has s) ks), s)
  unfolding exists_network
  exists_network-exact token ks s = rw (any_tracked_lem ks s) (ground arith)
