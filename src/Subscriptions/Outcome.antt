-- ===== src/Subscriptions/Outcome.antt =====
-- What holds of a method of `SubscriptionRepository` whenever it succeeds, one rule for each way to
-- build a method.
use mathlib.Core.Path.{subst₂}
use footjob.Base.{◌≡◌, refl, Bool, true, false, Result, ok, err, Error, if◌then◌else◌, ◌>>=◌}
use footjob.Subscriptions.Tables.{Store, StateRecord}

-- What is shown of a result that succeeds.
pub record Succeeds (P : Store → StateRecord → Type 0) (r : Result (Store × StateRecord))
    : Type 0 where
  pub holds : (store : Store) (s : StateRecord) → r ≡ ok (store, s) → P store s

ok_parts :
    {a b : Store} {s t : StateRecord}
    → ◌≡◌ {A = Result (Store × StateRecord)} (ok (a, s)) (ok (b, t))
    → (a ≡ b) × (s ≡ t)
ok_parts e = (cc, cc)

module _ {P : Store → StateRecord → Type 0} where
  pub Succeeds-pure : {store : Store} {s : StateRecord} → P store s → Succeeds P (ok (store, s))
  Succeeds-pure {store} {s} h = record {
    holds = λ store' s' e. let (p, q) = ok_parts e in subst₂ P p q h;
  }

  pub Succeeds-err : (e : Error) → Succeeds P (err e)
  Succeeds-err e = record { holds = λ store s h. cc }

  -- The rest of a `do` block may use that the step before it succeeded.
  pub Succeeds-bind :
      {A : Type 0} (r : Result A) (f : A → Result (Store × StateRecord))
      → ((a : A) → r ≡ ok a → Succeeds P (f a))
      → Succeeds P (r >>= f)
  Succeeds-bind (ok a) f h = h a refl
  Succeeds-bind (err e) f h = Succeeds-err e

  pub Succeeds-if :
      (b : Bool) (x y : Result (Store × StateRecord))
      → (b ≡ true → Succeeds P x)
      → (b ≡ false → Succeeds P y)
      → Succeeds P (if b then x else y)
  Succeeds-if true x y hx hy = hx refl
  Succeeds-if false x y hx hy = hy refl
