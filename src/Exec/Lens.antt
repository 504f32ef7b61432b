-- ===== src/Exec/Lens.antt =====
-- A part of the state of the service, and calls on the part as calls on the whole.
use eth_tracker.Prelude.{◌≡◌, ap, ◌∙◌}
use eth_tracker.Result.{Result}
use eth_tracker.Exec.{Exec}

-- Where a state of type `S` holds a value of type `M`.
pub record Lens (S M : Type 0) : Type 0 where
  pub get : S → M
  pub put : M → S → S
  pub get-put : (m : M) (s : S) → get (put m s) ≡ m
  pub put-get : (s : S) → put (get s) s ≡ s

module _ {S M : Type 0} (l : Lens S M) where
  unfoldable pub zoom : {A : Type 0} → Exec M A → Exec S A
  zoom m s = let (r, x) = m (l.get s) in (r, l.put x s)

  -- A call that only reads the part leaves the whole as it was.
  pub zoom_read :
      {A : Type 0} (m : Exec M A) (r : Result A) (s : S)
      → m (l.get s) ≡ (r, l.get s)
      → zoom m s ≡ (r, s)
  unfolding zoom
  zoom_read m r s e =
      ap (λ (p : Result _ × M). (p.0, l.put p.1 s)) e ∙ ap (λ (x : S). (r, x)) (l.put-get s)
