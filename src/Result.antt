-- ===== src/Result.antt =====
-- Go's `error` values as the service uses them, and the results of calls that can fail or panic.
use Prim.Native.String.{String}
use eth_tracker.Prelude.{Bool, true, false, if◌then◌else◌, ◌≡◌, refl}

-- `wrap prefix e` is `fmt.Errorf("prefix: %w", e)`.
pub data Error : Type 0 where
  canceled : Error
  message : String → Error
  wrap : String → Error → Error

-- errors.Is(err, context.Canceled)
abbrev pub is_canceled : Error → Bool
is_canceled canceled = true
is_canceled (message _) = false
is_canceled (wrap _ e) = is_canceled e

-- `panic` is the end of the process, by a run-time panic, which no caller in the service recovers, or by
-- `os.Exit`; `diverges` stands for a call whose loop had not ended when the fuel of the model was used
-- up.
pub data Result (A : Type 0) : Type 0 where
  ok : A → Result A
  err : Error → Result A
  panic : Result A
  diverges : Result A

infixl 5 ◌>>=◌
abbrev pub ◌>>=◌ : {A B : Type 0} → Result A → (A → Result B) → Result B
diverges >>= next = diverges
panic >>= next = panic
err e >>= next = err e
ok a >>= next = next a

module _ {A : Type 0} where
  -- if err != nil { return fmt.Errorf("prefix: %w", err) }
  abbrev pub wrapped : String → Result A → Result A
  wrapped prefix (ok a) = ok a
  wrapped prefix (err e) = err (wrap prefix e)
  wrapped prefix panic = panic
  wrapped prefix diverges = diverges

  -- The same after `if errors.Is(err, context.Canceled) { return err }`.
  abbrev pub wrapped_unless_canceled : String → Result A → Result A
  wrapped_unless_canceled prefix (ok a) = ok a
  wrapped_unless_canceled prefix (err e) = if is_canceled e then err e else err (wrap prefix e)
  wrapped_unless_canceled prefix panic = panic
  wrapped_unless_canceled prefix diverges = diverges

-- If a chain of two calls returned, each of them did.
pub >>=-eq-ok :
    {X Y : Type 0} (call : Result X) (next : X → Result Y) {y : Y}
    → (call >>= next) ≡ ok y
    → (x : X) × (call ≡ ok x) × (next x ≡ ok y)
>>=-eq-ok diverges next returned = cc
>>=-eq-ok panic next returned = cc
>>=-eq-ok (err e) next returned = cc
>>=-eq-ok (ok x) next returned = (x, refl, returned)

pub ok_injective : {A : Type 0} (a b : A) → ok a ≡ ok b → a ≡ b
ok_injective a b e = cc

pub wrapped-ok :
    {A : Type 0} (prefix : String) (r : Result A) (a : A) → wrapped prefix r ≡ ok a → r ≡ ok a
wrapped-ok prefix (ok b) a e = e
wrapped-ok prefix (err x) a e = cc
wrapped-ok prefix panic a e = cc
wrapped-ok prefix diverges a e = cc
