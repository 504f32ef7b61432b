-- ===== src/Exec.antt =====
-- Calls that read and change a state `S` and may fail. What was done before an error stays done, so
-- the state comes back beside the error too. The interfaces of the service (the cache, the chain, the
-- database, the publisher) are records of such calls.
pub mod Keeps
pub mod Lens
pub mod Emits
pub mod EmitsMany
pub mod Inversion
pub mod Ends
use mathlib.Core.Path.{◌≡◌, fun_ext}
use Prim.Native.String.{String}
use eth_tracker.Prelude.{refl, Bool, true, false, List, [], ◌∷◌, if◌then◌else◌}
use eth_tracker.Result.{Result, ok, err, panic, diverges, wrapped, wrapped_unless_canceled}

abbrev pub Exec : Type 0 → Type 0 → Type 0
Exec S A = S → Result A × S

module _ {S A : Type 0} where
  unfoldable pub pure : A → Exec S A
  pure a s = (ok a, s)

  unfoldable pub lift : Result A → Exec S A
  lift r s = (r, s)

module _ {S A B : Type 0} where
  abbrev pub continue : Result A → (A → Exec S B) → Exec S B
  continue (ok a) f s = f a s
  continue (err e) f s = (err e, s)
  continue panic f s = (panic, s)
  continue diverges f s = (diverges, s)

  infixl 5 ◌>>=◌ ◌>>◌
  unfoldable pub ◌>>=◌ : Exec S A → (A → Exec S B) → Exec S B
  unfolding pure lift
  ◌>>=◌ m f s = let (r, s') = m s in continue r f s'

  abbrev pub ◌>>◌ : Exec S A → Exec S B → Exec S B
  m >> k = m >>= λ _. k

module _ {S A : Type 0} where
  unfoldable pub or_wrap : String → Exec S A → Exec S A
  or_wrap prefix m s = let (r, s') = m s in (wrapped prefix r, s')

  unfoldable pub or_wrap_unless_canceled : String → Exec S A → Exec S A
  or_wrap_unless_canceled prefix m s = let (r, s') = m s in (wrapped_unless_canceled prefix r, s')

-- for _, x := range xs { if err := body(x); err != nil { return err } }
unfoldable pub for_each : {S A : Type 0} → List A → (A → Exec S (Unit {0})) → Exec S (Unit {0})
unfolding ◌>>=◌
for_each [] body = pure tt
for_each (x ∷ xs) body = body x >>= λ _. for_each xs body

-- An error that makes the process exit: `os.Exit(1)`. Nothing of the process goes on after it.
abbrev pub exits : {A : Type 0} → Result A → Result A
exits (ok a) = ok a
exits (err e) = panic
exits panic = panic
exits diverges = diverges

unfoldable pub or_exit : {S A : Type 0} → Exec S A → Exec S A
or_exit m s = let (r, s') = m s in (exits r, s')
