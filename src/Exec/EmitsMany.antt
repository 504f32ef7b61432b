-- ===== src/Exec/EmitsMany.antt =====
-- Calls that add a bounded number of entries to the trace, one rule for each way to build a call.
use native.Mathlib.Nat.{zero-add}
use eth_tracker.Prelude.{
  ℕ, suc, ◌+◌, ◌≤◌, ◌≡◌, refl, ap, sym, subst, ◌∙◌, inl, inr, Bool, true, false, List, [], ◌∷◌,
  ◌++◌, String, length, length-append, append-nil, append_assoc, All, All-append, All-map, Elem,
  total, arith, if◌then◌else◌,
}
use eth_tracker.Result.{Result, ok, err, panic, diverges}
use eth_tracker.Exec.{Exec, pure, continue, ◌>>=◌, or_wrap_unless_canceled, for_each}
use eth_tracker.Exec.Emits.{IsQuiet, EmitsOne, IsQuiet-pure}

-- The trace `after` is `before` with at most `n` entries added, of all of which `Q` holds.
abbrev pub Extends : {T : Type 0} → ℕ → (T → Type 0) → List T → List T → Type 0
Extends {T} n Q before after = (es : List T) × (after ≡ before ++ es) × (length es ≤ n) × All Q es

module _ {S T : Type 0} (trace : S → List T) where
  -- The call adds at most `n` entries to the trace, of all of which `Q` holds.
  pub record EmitsUpTo {A : Type 0} (n : ℕ) (Q : T → Type 0) (m : Exec S A) : Type 0 where
    pub at : (s : S) → Extends n Q (trace s) (trace (m s).1)

module _ {T : Type 0} {Q : T → Type 0} where
  Extends-none : (n : ℕ) (before after : List T) → after ≡ before → Extends n Q before after
  Extends-none n before after e = ([], e ∙ sym (append-nil before), omega arith, tt)

  Extends-append :
      (m n : ℕ) (a b c : List T) → Extends m Q a b → Extends n Q b c → Extends (m + n) Q a c
  Extends-append m n a b c (es, e, le, all) (fs, f, le', all') = (
    es ++ fs,
    f ∙ ap (λ t. t ++ fs) e ∙ append_assoc a es fs,
    omega (arith, length-append es fs),
    All-append Q es fs all all',
  )

module _ {S T : Type 0} {trace : S → List T} {Q : T → Type 0} where
  module _ {A : Type 0} where
    pub EmitsUpTo-quiet : {n : ℕ} (m : Exec S A) → IsQuiet trace m → EmitsUpTo trace n Q m
    EmitsUpTo-quiet {n} m q = record { at = λ s. Extends-none n (trace s) (trace (m s).1) (q.at s) }

    pub EmitsUpTo-one : {n : ℕ} (m : Exec S A) → EmitsOne trace Q m → EmitsUpTo trace (suc n) Q m
    EmitsUpTo-one {n} m one = record {
      at = λ s. elim (one.at s) [
        | inl same ↦ Extends-none (suc n) (trace s) (trace (m s).1) same
        | inr (e, added, q) ↦ (e ∷ [], added, omega arith, (q, tt))
      ];
    }

    pub EmitsUpTo-if :
        {n : ℕ} (b : Bool) (m k : Exec S A)
        → EmitsUpTo trace n Q m
        → EmitsUpTo trace n Q k
        → EmitsUpTo trace n Q (if b then m else k)
    EmitsUpTo-if true m k em ek = em
    EmitsUpTo-if false m k em ek = ek

    pub EmitsUpTo-or_wrap_unless_canceled :
        {n : ℕ} (prefix : String) (m : Exec S A)
        → EmitsUpTo trace n Q m
        → EmitsUpTo trace n Q (or_wrap_unless_canceled prefix m)
    unfolding or_wrap_unless_canceled
    EmitsUpTo-or_wrap_unless_canceled prefix m em = record { at = em.at }

  module _ {A B : Type 0} where
    continue-Extends :
        (n : ℕ) (r : Result A) (f : A → Exec S B) (s : S)
        → ((a : A) → EmitsUpTo trace n Q (f a))
        → Extends n Q (trace s) (trace (continue r f s).1)
    continue-Extends n (ok a) f s ef = (ef a).at s
    continue-Extends n (err x) f s ef = Extends-none n (trace s) (trace s) refl
    continue-Extends n panic f s ef = Extends-none n (trace s) (trace s) refl
    continue-Extends n diverges f s ef = Extends-none n (trace s) (trace s) refl

    pub EmitsUpTo-bind :
        {m n : ℕ} (c : Exec S A) (f : A → Exec S B)
        → EmitsUpTo trace m Q c
        → ((a : A) → EmitsUpTo trace n Q (f a))
        → EmitsUpTo trace (m + n) Q (c >>= f)
    unfolding ◌>>=◌
    EmitsUpTo-bind {m} {n} c f ec ef = record {
      at = λ s.
          Extends-append m n (trace s) (trace (c s).1) (trace (continue (c s).0 f (c s).1).1)
            (ec.at s) (continue-Extends n (c s).0 f (c s).1 ef);
    }

    pub EmitsUpTo-after_quiet :
        {n : ℕ} (c : Exec S A) (f : A → Exec S B)
        → IsQuiet trace c
        → ((a : A) → EmitsUpTo trace n Q (f a))
        → EmitsUpTo trace n Q (c >>= f)
    EmitsUpTo-after_quiet {n} c f qc ef =
        subst (λ k. EmitsUpTo trace k Q (c >>= f)) (zero-add n)
          (EmitsUpTo-bind {m = 0} c f (EmitsUpTo-quiet c qc) ef)

  pub EmitsUpTo-for_each :
      {A : Type 0} (count : A → ℕ) (xs : List A) (body : A → Exec S (Unit {0}))
      → ((x : A) → Elem x xs → EmitsUpTo trace (count x) Q (body x))
      → EmitsUpTo trace (total count xs) Q (for_each xs body)
  unfolding for_each
  EmitsUpTo-for_each count [] body eb = EmitsUpTo-quiet (pure tt) (IsQuiet-pure tt)
  EmitsUpTo-for_each count (x ∷ xs) body eb =
      EmitsUpTo-bind (body x) _ (eb x (inl refl))
        (λ _. EmitsUpTo-for_each count xs body (λ y there. eb y (inr there)))

pub EmitsUpTo-weaken :
    {S T A : Type 0} {trace : S → List T} (Q R : T → Type 0) {n : ℕ} (m : Exec S A)
    → ((e : T) → Q e → R e)
    → EmitsUpTo trace n Q m
    → EmitsUpTo trace n R m
EmitsUpTo-weaken Q R m w em = record {
  at = λ s. let (es, e, le, all) = em.at s in (es, e, le, All-map Q R es w all);
}

pub EmitsUpTo-more :
    {S T A : Type 0} {trace : S → List T} {Q : T → Type 0} {m n : ℕ} (c : Exec S A)
    → m ≤ n
    → EmitsUpTo trace m Q c
    → EmitsUpTo trace n Q c
EmitsUpTo-more c le em = record {
  at = λ s. let (es, e, fits, all) = em.at s in (es, e, omega arith, all);
}
