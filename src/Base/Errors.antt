-- ===== src/Base/Errors.antt =====
-- The exceptions that the modelled modules raise, by class. A function that may raise returns
-- `Result`; the transaction around it is rolled back, so no state comes with the error.
use mathlib.Core.Path.{◌≡◌, refl}
use mathlib.Core.Bool.{Bool, true, false}
use Prim.Native.Nat.{ℕ}

pub data Error : Type 0 where
  value_error type_error lookup_error runtime_error integrity_error : Error
  user_not_found transition_error persistence_conflict : Error
  collector_paused floodwait_active delivery_send_error delivery_scheduling_error : Error

pub data Result {ℓ} (T : Type ℓ) : Type ℓ where
  err : Error → Result T
  ok : T → Result T

infixl 5 ◌>>=◌ ◌>>◌
abbrev pub ◌>>=◌ {κ μ} : {S : Type κ} {T : Type μ} → Result S → (S → Result T) → Result T
err raised >>= next = err raised
ok value >>= next = next value

abbrev pub ◌>>◌ {κ} : {T : Type κ} → Result (Unit {0}) → Result T → Result T
check >> rest = check >>= λ done. rest

-- A chain that succeeds has steps that succeed.
pub bind-ok {κ μ} :
    {S : Type κ} {T : Type μ} (first : Result S) (next : S → Result T) {t : T}
    → (first >>= next) ≡ ok t
    → (s : S) × (first ≡ ok s) × (next s ≡ ok t)
bind-ok (err raised) next h = cc
bind-ok (ok value) next h = (value, refl, h)

-- `if not test: raise e`
abbrev pub guard : Bool → Error → Result (Unit {0})
guard false raised = err raised
guard true raised = ok tt

-- A `timedelta` in microseconds: `negsuc n` is -(n + 1).
pub data ℤ : Type 0 where
  pos : ℕ → ℤ
  negsuc : ℕ → ℤ

-- A `datetime`: `aware` holds the UTC instant in microseconds since `datetime.min`, `naive` the
-- wall clock of a value without a timezone.
pub data Datetime : Type 0 where
  aware naive : ℕ → Datetime

-- `_aware_utc` and `_aware`: a value without a timezone is refused.
unfoldable pub aware_utc : Datetime → Result ℕ
aware_utc (aware t) = ok t
aware_utc (naive t) = err value_error
