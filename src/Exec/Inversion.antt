-- ===== src/Exec/Inversion.antt =====
-- What a chain of calls that returned tells of its parts.
use eth_tracker.Prelude.{
  ◌≡◌, refl, sym, ap, ◌∙◌, subst, String, List, [], ◌∷◌, Elem, inl, inr, Bool-cases,
}
use eth_tracker.Result.{
  Result, ok, err, panic, diverges, wrapped-ok, wrapped_unless_canceled, is_canceled,
}
use eth_tracker.Exec.{
  Exec, continue, pure, lift, ◌>>=◌, or_wrap, or_wrap_unless_canceled, or_exit, exits, for_each,
}
use eth_tracker.Exec.Keeps.{Keeps, Keeps-for_each}
use eth_tracker.Exec.Lens.{Lens, zoom}

module _ {S A B : Type 0} where
  continue-eq-ok :
      (r : Result A) (f : A → Exec S B) (s s' : S) (b : B)
      → continue r f s ≡ (ok b, s')
      → (a : A) × (r ≡ ok a) × (f a s ≡ (ok b, s'))
  continue-eq-ok (ok a) f s s' b h = (a, refl, h)
  continue-eq-ok (err e) f s s' b h = cc (ap (λ (p : Result B × S). p.0) h)
  continue-eq-ok panic f s s' b h = cc (ap (λ (p : Result B × S). p.0) h)
  continue-eq-ok diverges f s s' b h = cc (ap (λ (p : Result B × S). p.0) h)

  pub >>=-returns :
      (m : Exec S A) (f : A → Exec S B) (s s' : S) (b : B)
      → (m >>= f) s ≡ (ok b, s')
      → (a : A) × (mid : S) × (m s ≡ (ok a, mid)) × (f a mid ≡ (ok b, s'))
  unfolding ◌>>=◌
  >>=-returns m f s s' b h =
      let (a, first, rest) = continue-eq-ok (m s).0 f (m s).1 s' b h in
      (a, (m s).1, ap (λ (r : Result A). (r, (m s).1)) first, rest)

unless_canceled-eq-ok :
    {A : Type 0} (prefix : String) (r : Result A) (a : A)
    → wrapped_unless_canceled prefix r ≡ ok a
    → r ≡ ok a
unless_canceled-eq-ok prefix (ok b) a h = h
unless_canceled-eq-ok prefix (err e) a h = elim (Bool-cases (is_canceled e)) [
  | inl canceled ↦ cc (rw canceled at h)
  | inr other ↦ cc (rw other at h)
]
unless_canceled-eq-ok prefix panic a h = cc h
unless_canceled-eq-ok prefix diverges a h = cc h

exits-eq-ok : {A : Type 0} (r : Result A) (a : A) → exits r ≡ ok a → r ≡ ok a
exits-eq-ok (ok b) a h = h
exits-eq-ok (err e) a h = cc h
exits-eq-ok panic a h = cc h
exits-eq-ok diverges a h = cc h

module _ {S A : Type 0} where
  pub lift-returns : (r : Result A) (s s' : S) (a : A) → lift r s ≡ (ok a, s') → r ≡ ok a
  unfolding lift
  lift-returns r s s' a h = ap (λ (p : Result A × S). p.0) h

  pub or_wrap-returns :
      (prefix : String) (m : Exec S A) (s s' : S) (a : A)
      → or_wrap prefix m s ≡ (ok a, s')
      → m s ≡ (ok a, s')
  unfolding or_wrap
  or_wrap-returns prefix m s s' a h =
      ap (λ (r : Result A). (r, (m s).1))
        (wrapped-ok prefix (m s).0 a (ap (λ (p : Result A × S). p.0) h))
      ∙ ap (λ (p : Result A × S). (ok a, p.1)) h

  pub or_wrap_unless_canceled-returns :
      (prefix : String) (m : Exec S A) (s s' : S) (a : A)
      → or_wrap_unless_canceled prefix m s ≡ (ok a, s')
      → m s ≡ (ok a, s')
  unfolding or_wrap_unless_canceled
  or_wrap_unless_canceled-returns prefix m s s' a h =
      ap (λ (r : Result A). (r, (m s).1))
        (unless_canceled-eq-ok prefix (m s).0 a (ap (λ (p : Result A × S). p.0) h))
      ∙ ap (λ (p : Result A × S). (ok a, p.1)) h

  pub or_exit-returns :
      (m : Exec S A) (s s' : S) (a : A) → or_exit m s ≡ (ok a, s') → m s ≡ (ok a, s')
  unfolding or_exit
  or_exit-returns m s s' a h =
      ap (λ (r : Result A). (r, (m s).1)) (exits-eq-ok (m s).0 a (ap (λ (p : Result A × S). p.0) h))
      ∙ ap (λ (p : Result A × S). (ok a, p.1)) h

pub zoom-returns :
    {S M A : Type 0} (l : Lens S M) (m : Exec M A) (s s' : S) (a : A)
    → zoom l m s ≡ (ok a, s')
    → m (l.get s) ≡ (ok a, l.get s')
unfolding zoom
zoom-returns l m s s' a h =
    ap (λ (x : _). (x, (m (l.get s)).1)) (ap (λ (p : Result _ × _). p.0) h)
    ∙ ap (λ (x : _). (ok a, x))
        (sym (l.get-put (m (l.get s)).1 s) ∙ ap (λ (p : Result _ × _). l.get p.1) h)

module _ {S A : Type 0} (body : A → Exec S (Unit {0})) where
  pub for_each-returns :
      (x : A) (xs : List A) (s s' : S)
      → for_each (x ∷ xs) body s ≡ (ok tt, s')
      → (mid : S) × (body x s ≡ (ok tt, mid)) × (for_each xs body mid ≡ (ok tt, s'))
  unfolding for_each
  for_each-returns x xs s s' h =
      let (_, mid, first, rest) = >>=-returns (body x) (λ _. for_each xs body) s s' tt h in
      (mid, first, rest)

  -- What each round leaves true, the last one leaves true.
  pub for_each-last :
      (P : S → Type 0) (x : A) (xs : List A) (s s' : S)
      → ((y : A) (t t' : S) → body y t ≡ (ok tt, t') → P t')
      → for_each (x ∷ xs) body s ≡ (ok tt, s')
      → P s'
  unfolding for_each pure
  for_each-last P x [] s s' each h =
      let (mid, first, rest) = for_each-returns x [] s s' h in
      subst P (ap (λ (p : Result (Unit {0}) × S). p.1) rest) (each x s mid first)
  for_each-last P x (y ∷ xs) s s' each h =
      let (mid, first, rest) = for_each-returns x (y ∷ xs) s s' h in
      for_each-last P y xs mid s' each rest

  -- What one round makes true, and each round keeps, is true at the end.
  pub for_each-one :
      (P : S → Type 0) (x : A) (xs : List A) (s s' : S)
      → Elem x xs
      → ((t t' : S) → body x t ≡ (ok tt, t') → P t')
      → ((y : A) → Keeps P (body y))
      → for_each xs body s ≡ (ok tt, s')
      → P s'
  for_each-one P x [] s s' there makes keeps h = absurd there
  for_each-one P x (y ∷ xs) s s' there makes keeps h =
      let (mid, first, rest) = for_each-returns y xs s s' h in
      elim there [
        | inl same ↦ subst P (ap (λ (p : Result (Unit {0}) × S). p.1) rest) (
            (Keeps-for_each xs body keeps).at mid
              (makes s mid (ap (λ (z : A). body z s) same ∙ first)))
        | inr later ↦ for_each-one P x xs mid s' later makes keeps rest
      ]
