-- ===== src/Exec/Ends.antt =====
-- Calls that come back, with one rule for each way to build a call.
use eth_tracker.Prelude.{◌≡◌, refl, Bool, true, false, String, List, [], ◌∷◌, arith, if◌then◌else◌}
use eth_tracker.Result.{
  Result, ok, err, panic, diverges, wrapped, wrapped_unless_canceled, Error, ◌>>=◌ as and_then,
}
use eth_tracker.Exec.{Exec, pure, lift, continue, ◌>>=◌, or_wrap, or_wrap_unless_canceled, for_each}

-- A value or an error, or, if `dying` says so, the end of the process; in no case an endless loop.
abbrev Fine : {A : Type 0} → Bool → Result A → Type 0
Fine dying (ok a) = Unit
Fine dying (err e) = Unit
Fine dying panic = dying ≡ true
Fine dying diverges = ⊥

pub record HasEnded {A : Type 0} (dying : Bool) (r : Result A) : Type 0 where
  pub fine : Fine dying r

-- From every state, the call comes back.
pub record Ends {S A : Type 0} (dying : Bool) (m : Exec S A) : Type 0 where
  pub at : (s : S) → HasEnded dying (m s).0

module _ {A : Type 0} {dying : Bool} where
  pub HasEnded-ok : (a : A) → HasEnded dying (ok a)
  HasEnded-ok a = record { fine = tt }

  pub HasEnded-err : (e : Error) → HasEnded {A = A} dying (err e)
  HasEnded-err e = record { fine = tt }

  pub HasEnded-if :
      (b : Bool) (p q : Result A)
      → HasEnded dying p
      → HasEnded dying q
      → HasEnded dying (if b then p else q)
  HasEnded-if true p q hp hq = hp
  HasEnded-if false p q hp hq = hq

  wrapped-HasEnded :
      (prefix : String) (r : Result A) → HasEnded dying r → HasEnded dying (wrapped prefix r)
  wrapped-HasEnded prefix diverges h = absurd h.fine
  wrapped-HasEnded prefix panic h = record { fine = h.fine }
  wrapped-HasEnded prefix (err e) h = record { fine = tt }
  wrapped-HasEnded prefix (ok a) h = record { fine = tt }

  canceled-HasEnded :
      (prefix : String) (r : Result A)
      → HasEnded dying r
      → HasEnded dying (wrapped_unless_canceled prefix r)
  canceled-HasEnded prefix diverges h = absurd h.fine
  canceled-HasEnded prefix panic h = record { fine = h.fine }
  canceled-HasEnded prefix (err e) h = record { fine = ground arith }
  canceled-HasEnded prefix (ok a) h = record { fine = tt }

pub then-HasEnded :
    {X Y : Type 0} {dying : Bool} (r : Result X) (next : X → Result Y)
    → HasEnded dying r
    → ((x : X) → HasEnded dying (next x))
    → HasEnded dying (and_then r next)
then-HasEnded diverges next h each = absurd h.fine
then-HasEnded panic next h each = record { fine = h.fine }
then-HasEnded (err e) next h each = record { fine = tt }
then-HasEnded (ok x) next h each = each x

module _ {S A : Type 0} {dying : Bool} where
  pub Ends-lift : (r : Result A) → HasEnded dying r → Ends {S = S} dying (lift r)
  unfolding lift
  Ends-lift r h = record { at = λ _. h }

  pub Ends-pure : (a : A) → Ends {S = S} dying (pure a)
  unfolding pure
  Ends-pure a = record { at = λ _. HasEnded-ok a }

  pub Ends-if :
      (b : Bool) (m n : Exec S A) → Ends dying m → Ends dying n → Ends dying (if b then m else n)
  Ends-if true m n hm hn = hm
  Ends-if false m n hm hn = hn

  pub Ends-or_wrap : (prefix : String) (m : Exec S A) → Ends dying m → Ends dying (or_wrap prefix m)
  unfolding or_wrap
  Ends-or_wrap prefix m hm = record { at = λ s. wrapped-HasEnded prefix (m s).0 (hm.at s) }

  pub Ends-or_wrap_unless_canceled :
      (prefix : String) (m : Exec S A)
      → Ends dying m
      → Ends dying (or_wrap_unless_canceled prefix m)
  unfolding or_wrap_unless_canceled
  Ends-or_wrap_unless_canceled prefix m hm = record {
    at = λ s. canceled-HasEnded prefix (m s).0 (hm.at s);
  }

module _ {S A B : Type 0} {dying : Bool} where
  continue-HasEnded :
      (r : Result A) (next : A → Exec S B) (s : S)
      → HasEnded dying r
      → ((a : A) → r ≡ ok a → HasEnded dying (next a s).0)
      → HasEnded dying (continue r next s).0
  continue-HasEnded diverges next s h each = absurd h.fine
  continue-HasEnded panic next s h each = record { fine = h.fine }
  continue-HasEnded (err e) next s h each = record { fine = tt }
  continue-HasEnded (ok a) next s h each = each a refl

  pub Ends-bind :
      (call : Exec S A) (next : A → Exec S B)
      → Ends dying call
      → ((a : A) → Ends dying (next a))
      → Ends dying (call >>= next)
  unfolding ◌>>=◌
  Ends-bind call next first rest = record {
    at = λ s.
        continue-HasEnded (call s).0 next (call s).1 (first.at s) (λ a _. (rest a).at (call s).1);
  }

  -- The same where what follows may rely on how the first call came out.
  pub Ends-bind_at :
      (call : Exec S A) (next : A → Exec S B) (s : S)
      → HasEnded dying (call s).0
      → ((a : A) → (call s).0 ≡ ok a → HasEnded dying (next a (call s).1).0)
      → HasEnded dying ((call >>= next) s).0
  unfolding ◌>>=◌
  Ends-bind_at call next s first rest = continue-HasEnded (call s).0 next (call s).1 first rest

pub Ends-for_each :
    {S A : Type 0} {dying : Bool} (xs : List A) (body : A → Exec S (Unit {0}))
    → ((x : A) → Ends dying (body x))
    → Ends dying (for_each xs body)
unfolding for_each
Ends-for_each [] body each = Ends-pure tt
Ends-for_each (x ∷ xs) body each =
    Ends-bind (body x) (λ _. for_each xs body) (each x) (λ _. Ends-for_each xs body each)

pub ruleset ends_rules = (
  Ends-pure, Ends-lift, Ends-if, Ends-or_wrap, Ends-or_wrap_unless_canceled, Ends-bind,
  Ends-for_each,
)
