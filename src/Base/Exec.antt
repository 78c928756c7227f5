-- ===== src/Base/Exec.antt =====
-- C functions that return an `int` early: a call gives a value, or ends the caller with a code.
-- What was done to the state before a return stays done.
use mathlib.Core.Path.{◌≡◌, refl}
use mathlib.Core.Bool.{Bool, true, false}
use cortex_m3_embedded_debug.Base.Codes.{Errno, Rc, fail, ok}

abbrev pub Void : Type 0
Void = Unit {0}

pub data Outcome {ℓ} (A : Type ℓ) : Type ℓ where
  value : A → Outcome A
  returned : Rc → Outcome A

abbrev pub Exec {ℓ κ} : Type ℓ → Type κ → Type (ℓ ⊔ κ)
Exec S A = S → Outcome A × S

module _ {ℓ κ ι} {S : Type ℓ} {A : Type κ} {B : Type ι} where
  abbrev pub continue : Outcome A × S → (A → Exec S B) → Outcome B × S
  continue (value a, s) f = f a s
  continue (returned rc, s) f = (returned rc, s)

  infixl 10 ◌>>=◌
  abbrev pub ◌>>=◌ : Exec S A → (A → Exec S B) → Exec S B
  ◌>>=◌ m f s = continue (m s) f

infixl 10 ◌>>◌
abbrev pub ◌>>◌ {ℓ κ} : {S : Type ℓ} {B : Type κ} → Exec S (Void) → Exec S B → Exec S B
m >> k = m >>= λ _. k

module _ {ℓ} {S : Type ℓ} where
  abbrev pub pure {κ} : {A : Type κ} → A → Exec S A
  pure a s = (value a, s)

  abbrev pub leave {κ} : {A : Type κ} → Rc → Exec S A
  leave rc s = (returned rc, s)

  -- a call that does not fail
  abbrev pub act : (S → S) → Exec S Void
  act f s = (value tt, f s)

  -- The call, and then `f` whatever it has given.
  abbrev pub finally {κ} : {A : Type κ} → Exec S A → (S → S) → Exec S A
  finally m f s = let (out, s') = m s in (out, f s')

  -- `f` before the return of a code
  abbrev pub on_error_of {κ} : {A : Type κ} → Outcome A × S → (S → S) → Outcome A × S
  on_error_of (value a, s) f = (value a, s)
  on_error_of (returned rc, s) f = (returned rc, f s)

  abbrev pub on_error {κ} : {A : Type κ} → Exec S A → (S → S) → Exec S A
  on_error m f s = on_error_of (m s) f

  -- the state after a call whose result is not looked at
  abbrev pub ignored {κ} : {A : Type κ} → Exec S A → S → S
  ignored m s = (m s).1

  -- `if (!test) return -e;`
  abbrev pub guard : Bool → Errno → Exec S (Void)
  guard true e s = (value tt, s)
  guard false e s = (returned (fail e), s)

  -- the `int` that a function ends with, its last line being `return 0`
  abbrev pub result : Outcome (Void) × S → Rc × S
  result (value _, s) = (ok, s)
  result (returned rc, s) = (rc, s)

module _ {ℓ κ ι} {S : Type ℓ} {A : Type κ} where
  -- the result satisfies `Q` where the call gives a value, and `R` where it returns a code
  abbrev pub Ensures : Outcome A × S → (A → S → Type ι) → (Rc → S → Type ι) → Type ι
  Ensures (value a, s) Q R = Q a s
  Ensures (returned rc, s) Q R = R rc s

module _ {ℓ κ ι υ} {S : Type ℓ} {A : Type κ} {B : Type ι} where
  pub Ensures-bind :
      (Q : A → S → Type υ) (P : B → S → Type υ) (R : Rc → S → Type υ) (r : Outcome A × S)
      (f : A → Exec S B)
      → Ensures r Q R
      → ((a : A) (s : S) → Q a s → Ensures (f a s) P R)
      → Ensures (continue r f) P R
  Ensures-bind Q P R (value a, s) f h k = k a s h
  Ensures-bind Q P R (returned rc, s) f h k = h

module _ {ℓ ι} {S : Type ℓ} where
  pub Ensures-guard :
      (P : Void → S → Type ι) (R : Rc → S → Type ι) (b : Bool) (e : Errno) (s : S)
      → (b ≡ true → P tt s)
      → R (fail e) s
      → Ensures (guard b e s) P R
  Ensures-guard P R true e s h k = h refl
  Ensures-guard P R false e s h k = k

module _ {ℓ κ ι} {S : Type ℓ} {A : Type κ} {B : Type ι} where
  -- Two ways to go on that agree wherever the call gives a value.
  pub continue_same :
      (r : Outcome A × S) (f g : A → Exec S B)
      → Ensures r (λ a s. f a s ≡ g a s) (λ rc s. Unit {ℓ ⊔ ι})
      → continue r f ≡ continue r g
  continue_same (value a, s) f g h = h
  continue_same (returned rc, s) f g h = refl

module _ {ℓ} {S : Type ℓ} where
  pub continue-pure : (r : Outcome Void × S) → continue r (λ _. pure tt) ≡ r
  continue-pure (value tt, s) = refl
  continue-pure (returned rc, s) = refl

  pub continue_assoc :
      (r : Outcome Void × S) (m k : Exec S Void)
      → continue (continue r (λ _. m)) (λ _. k) ≡ continue r (λ _. m >> k)
  continue_assoc (value tt, s) m k = refl
  continue_assoc (returned rc, s) m k = refl

module _ {ℓ κ ι υ} {S : Type ℓ} {A : Type κ} where
  pub Ensures-map :
      (r : Outcome A × S) {Q : A → S → Type ι} {P : A → S → Type υ} {R : Rc → S → Type ι}
      {R' : Rc → S → Type υ}
      → Ensures r Q R
      → ((a : A) (s : S) → Q a s → P a s)
      → ((rc : Rc) (s : S) → R rc s → R' rc s)
      → Ensures r P R'
  Ensures-map (value a, s) h f g = f a s h
  Ensures-map (returned rc, s) h f g = g rc s h
