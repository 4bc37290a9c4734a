-- ===== src/Base/Outcomes.antt =====
-- What holds of a value whenever a computation returns one, one rule for each way to build it.
use mathlib.Core.Path.{◌≡◌, refl, subst}
use mathlib.Core.Bool.{Bool, true, false}
use footjob.Base.Tests.{if◌then◌else◌}
use footjob.Base.Errors.{Result, ok, err, Error, ◌>>=◌, ◌>>◌, guard}

pub record Yields {ℓ κ} {A : Type ℓ} (P : A → Type κ) (r : Result A) : Type (ℓ ⊔ κ) where
  pub holds : (a : A) → r ≡ ok a → P a

module _ {ℓ κ} {A : Type ℓ} {P : A → Type κ} where
  pub Yields-pure : {a : A} → P a → Yields P (ok a)
  Yields-pure {a} h = record { holds = λ b e. subst P (unok e) h }
    where
      unok : {b : A} → ◌≡◌ {A = Result A} (ok a) (ok b) → a ≡ b
      unok e = cc

  pub Yields-err : (e : Error) → Yields P (err e)
  Yields-err e = record { holds = λ a h. cc }

  -- The rest of a `do` block may use that the step before it succeeded.
  pub Yields-bind {μ} :
      {B : Type μ} (r : Result B) (f : B → Result A)
      → ((b : B) → r ≡ ok b → Yields P (f b))
      → Yields P (r >>= f)
  Yields-bind (ok b) f h = h b refl
  Yields-bind (err e) f h = Yields-err e

  pub Yields-guard :
      (test : Bool) (e : Error) (r : Result A)
      → (test ≡ true → Yields P r)
      → Yields P (guard test e >> r)
  Yields-guard true e r h = h refl
  Yields-guard false e r h = Yields-err e

  pub Yields-if :
      (test : Bool) (x y : Result A)
      → (test ≡ true → Yields P x)
      → (test ≡ false → Yields P y)
      → Yields P (if test then x else y)
  Yields-if true x y hx hy = hx refl
  Yields-if false x y hx hy = hy refl

-- The computation raises nothing.
abbrev pub Succeeds {ℓ} : {A : Type ℓ} → Result A → Type 0
Succeeds (ok a) = Unit
Succeeds (err e) = ⊥

module _ {ℓ} {A : Type ℓ} where
  pub Succeeds-ok : (r : Result A) → Succeeds r → (a : A) × (r ≡ ok a)
  Succeeds-ok (ok a) h = (a, refl)
  Succeeds-ok (err e) h = absurd h

  pub ok-Succeeds : (r : Result A) {a : A} → r ≡ ok a → Succeeds r
  ok-Succeeds (ok a) h = tt
  ok-Succeeds (err e) h = cc

  pub Succeeds-bind {μ} :
      {B : Type μ} (r : Result B) (f : B → Result A)
      → Succeeds r
      → ((b : B) → Succeeds (f b))
      → Succeeds (r >>= f)
  Succeeds-bind (ok b) f h k = k b
  Succeeds-bind (err e) f h k = absurd h

  pub Succeeds-if :
      (test : Bool) (x y : Result A)
      → (test ≡ true → Succeeds x)
      → (test ≡ false → Succeeds y)
      → Succeeds (if test then x else y)
  Succeeds-if true x y hx hy = hx refl
  Succeeds-if false x y hx hy = hy refl
