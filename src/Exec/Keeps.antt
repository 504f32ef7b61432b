-- ===== src/Exec/Keeps.antt =====
-- What a call keeps of the state, with one rule for each way to build a call.
use eth_tracker.Prelude.{Bool, true, false, String, List, [], ◌∷◌, if◌then◌else◌}
use eth_tracker.Result.{Result, ok, err, panic, diverges}
use eth_tracker.Exec.{Exec, pure, lift, continue, ◌>>=◌, or_wrap, or_wrap_unless_canceled, for_each}

-- Whether it returns, fails or panics, the call `m` leaves `P` true.
pub record Keeps {S A : Type 0} (P : S → Type 0) (m : Exec S A) : Type 0 where
  pub at : (s : S) → P s → P (m s).1

module _ {S A : Type 0} {P : S → Type 0} where
  pub Keeps-lift : (outcome : Result A) → Keeps P (lift outcome)
  unfolding lift
  Keeps-lift outcome = record { at = λ _ true_before. true_before }

  pub Keeps-pure : (value : A) → Keeps P (pure value)
  unfolding pure
  Keeps-pure value = record { at = λ _ true_before. true_before }

  pub Keeps-if : (b : Bool) (m n : Exec S A) → Keeps P m → Keeps P n → Keeps P (if b then m else n)
  Keeps-if true m n km kn = km
  Keeps-if false m n km kn = kn

  pub Keeps-or_wrap : (prefix : String) (m : Exec S A) → Keeps P m → Keeps P (or_wrap prefix m)
  unfolding or_wrap
  Keeps-or_wrap prefix m km = record { at = km.at }

  pub Keeps-or_wrap_unless_canceled :
      (prefix : String) (m : Exec S A) → Keeps P m → Keeps P (or_wrap_unless_canceled prefix m)
  unfolding or_wrap_unless_canceled
  Keeps-or_wrap_unless_canceled prefix m km = record { at = km.at }

module _ {S A B : Type 0} {P : S → Type 0} where
  continue-Keeps :
      (outcome : Result A) (next : A → Exec S B) (s : S)
      → ((x : A) → Keeps P (next x))
      → P s
      → P (continue outcome next s).1
  continue-Keeps diverges next s kept before = before
  continue-Keeps panic next s kept before = before
  continue-Keeps (err e) next s kept before = before
  continue-Keeps (ok x) next s kept before = (kept x).at s before

  pub Keeps-bind :
      (call : Exec S A) (next : A → Exec S B)
      → Keeps P call
      → ((x : A) → Keeps P (next x))
      → Keeps P (call >>= next)
  unfolding ◌>>=◌
  Keeps-bind call next first kept = record {
    at = λ s before.
        let (outcome, s') = call s in continue-Keeps outcome next s' kept (first.at s before);
  }

pub Keeps-for_each :
    {S A : Type 0} {P : S → Type 0} (xs : List A) (body : A → Exec S (Unit {0}))
    → ((x : A) → Keeps P (body x))
    → Keeps P (for_each xs body)
unfolding for_each
Keeps-for_each [] body k = Keeps-pure tt
Keeps-for_each (x ∷ xs) body k =
    Keeps-bind (body x) (λ _. for_each xs body) (k x) (λ _. Keeps-for_each xs body k)

pub ruleset keeps_rules = (
  Keeps-pure, Keeps-lift, Keeps-if, Keeps-or_wrap, Keeps-or_wrap_unless_canceled, Keeps-bind,
  Keeps-for_each,
)
