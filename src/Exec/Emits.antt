-- ===== src/Exec/Emits.antt =====
-- How calls extend a trace, a list that is read off the state, with one rule for each way to build a
-- call. The trace of the proofs is the list of the events handed to the publisher.
use eth_tracker.Prelude.{
  ◌≡◌, refl, ◌⊎◌, inl, inr, Bool, true, false, List, [], ◌∷◌, ◌++◌, String, if◌then◌else◌,
}
use eth_tracker.Result.{Result, ok, err, panic, diverges}
use eth_tracker.Exec.{Exec, pure, lift, continue, ◌>>=◌, or_wrap, or_wrap_unless_canceled}

module _ {S T : Type 0} (trace : S → List T) where
  -- The call adds nothing to the trace.
  pub record IsQuiet {A : Type 0} (m : Exec S A) : Type 0 where
    pub at : (s : S) → trace (m s).1 ≡ trace s

  -- The call adds nothing to the trace, or one entry, of which `Q` holds.
  pub record EmitsOne {A : Type 0} (Q : T → Type 0) (m : Exec S A) : Type 0 where
    pub at :
        (s : S) → (trace (m s).1 ≡ trace s) ⊎ ((e : T) × (trace (m s).1 ≡ trace s ++ e ∷ []) × Q e)

module _ {S T A : Type 0} {trace : S → List T} where
  pub IsQuiet-lift : (r : Result A) → IsQuiet trace (lift r)
  unfolding lift
  IsQuiet-lift r = record { at = λ s. refl }

  pub EmitsOne-pure : {Q : T → Type 0} (a : A) → EmitsOne trace Q (pure a)
  unfolding pure
  EmitsOne-pure a = record { at = λ s. inl refl }

  pub EmitsOne-if :
      {Q : T → Type 0} (b : Bool) (m n : Exec S A)
      → EmitsOne trace Q m
      → EmitsOne trace Q n
      → EmitsOne trace Q (if b then m else n)
  EmitsOne-if true m n em en = em
  EmitsOne-if false m n em en = en

  -- The only emission is the last call.
  pub EmitsOne-call :
      {Q : T → Type 0} (c : T → Exec S A) (e : T)
      → ((e : T) (s : S) → trace (c e s).1 ≡ trace s ++ e ∷ [])
      → Q e
      → EmitsOne trace Q (c e)
  EmitsOne-call c e logs q = record { at = λ s. inr (e, logs e s, q) }

  pub EmitsOne-weaken :
      {Q R : T → Type 0} (m : Exec S A)
      → ((e : T) → Q e → R e)
      → EmitsOne trace Q m
      → EmitsOne trace R m
  EmitsOne-weaken m w em = record {
    at = λ s. elim (em.at s) [ inl same ↦ inl same | inr (e, p, q) ↦ inr (e, p, w e q) ];
  }

module _ {S T A B : Type 0} {trace : S → List T} {Q : T → Type 0} where
  continue-EmitsOne :
      (r : Result A) (f : A → Exec S B) (s s' : S)
      → trace s' ≡ trace s
      → ((a : A) → EmitsOne trace Q (f a))
      → (trace (continue r f s').1 ≡ trace s)
        ⊎ ((e : T) × (trace (continue r f s').1 ≡ trace s ++ e ∷ []) × Q e)
  continue-EmitsOne (ok a) f s s' same ef = rw (← same) ((ef a).at s')
  continue-EmitsOne (err x) f s s' same ef = inl same
  continue-EmitsOne panic f s s' same ef = inl same
  continue-EmitsOne diverges f s s' same ef = inl same

  pub EmitsOne-bind :
      (m : Exec S A) (f : A → Exec S B)
      → IsQuiet trace m
      → ((a : A) → EmitsOne trace Q (f a))
      → EmitsOne trace Q (m >>= f)
  unfolding ◌>>=◌
  EmitsOne-bind m f qm ef = record { at = λ s. continue-EmitsOne (m s).0 f s (m s).1 (qm.at s) ef }

  -- What follows a computation may use what it gave.
  pub EmitsOne-lift :
      (r : Result A) (f : A → Exec S B)
      → ((a : A) → r ≡ ok a → EmitsOne trace Q (f a))
      → EmitsOne trace Q (lift r >>= f)
  unfolding ◌>>=◌ lift
  EmitsOne-lift (ok a) f ef = record { at = (ef a refl).at }
  EmitsOne-lift (err x) f ef = record { at = λ s. inl refl }
  EmitsOne-lift panic f ef = record { at = λ s. inl refl }
  EmitsOne-lift diverges f ef = record { at = λ s. inl refl }

pub ruleset emits_rules = (IsQuiet-lift, EmitsOne-lift, EmitsOne-pure, EmitsOne-if, EmitsOne-bind)

module _ {S T A : Type 0} {trace : S → List T} where
  pub IsQuiet-pure : (a : A) → IsQuiet trace (pure a)
  unfolding pure
  IsQuiet-pure a = record { at = λ s. refl }

  pub IsQuiet-or_wrap :
      (prefix : String) (m : Exec S A) → IsQuiet trace m → IsQuiet trace (or_wrap prefix m)
  unfolding or_wrap
  IsQuiet-or_wrap prefix m q = record { at = q.at }

  pub IsQuiet-or_wrap_unless_canceled :
      (prefix : String) (m : Exec S A)
      → IsQuiet trace m
      → IsQuiet trace (or_wrap_unless_canceled prefix m)
  unfolding or_wrap_unless_canceled
  IsQuiet-or_wrap_unless_canceled prefix m q = record { at = q.at }

pub ruleset quiet_rules =
    (IsQuiet-lift, IsQuiet-pure, IsQuiet-or_wrap, IsQuiet-or_wrap_unless_canceled)
