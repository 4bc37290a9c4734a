-- ===== src/Base/Bounds.antt =====
-- Bounds on decimals in ten-thousandths, through the rounded operations.
use Prim.Native.Nat.{ℕ, zero, suc, ◌+◌, ◌*◌, ◌-◌, ◌^◌, ◌<◌, ◌≤◌}
use mathlib.Core.Path.{◌≡◌, sym, ap, ◌∙◌, subst}
use mathlib.Core.Logic.{inl, inr}
use native.Mathlib.Omega.{arith}
use native.Mathlib.Nat.{mul-le-mul_right, mul-le-mul}
use footjob.Base.Tests.{◌==◌, Bool-cases}
use footjob.Base.Decimal.{Decimal, whole, half_even, places_from, rounded, add_decimal, multiply}
use footjob.Base.Decimal.{divide, excess, quantize, half_even-le, pow_positive, at_places}

-- `value <= bound / 10000`
abbrev pub Within : ℕ → Decimal → Type 0
Within bound value = value.coefficient * 10000 ≤ bound * 10 ^ value.places

pow_suc : (j : ℕ) → 10 ^ suc j ≡ 10 * 10 ^ j
pow_suc j = omega arith

pow-add : (j k : ℕ) → 10 ^ (j + k) ≡ 10 ^ j * 10 ^ k
pow-add zero k = ap (λ n. 10 ^ n) zero_on ∙ one_of
  where
    zero_on : 0 + k ≡ k
    zero_on = omega arith

    one_of : 10 ^ k ≡ 1 * 10 ^ k
    one_of = omega arith
pow-add (suc j) k =
    rw (suc-add j k, pow_suc (j + k), pow_suc j, pow-add j k) (regroup (10 ^ j) (10 ^ k))
  where
    regroup : (p q : ℕ) → 10 * (p * q) ≡ 10 * p * q
    regroup p q = grind arith

    suc-add : (j k : ℕ) → suc j + k ≡ suc (j + k)
    suc-add j k = omega arith

places_from-ge : (fuel k num den : ℕ) → k ≤ places_from fuel k num den
unfolding places_from
places_from-ge zero k num den = omega arith
places_from-ge (suc fuel) k num den = ground (arith, places_from-ge fuel (k + 1) (num * 10) den)

-- Below 10 ^ 20, a value shows four places at least.
places_enough :
    (fuel num den : ℕ)
    → num < 10 ^ 20 * den
    → 4 ≤ places_from (suc (suc (suc (suc fuel)))) 0 num den
unfolding places_from
places_enough fuel num den h = ground (arith, places_from-ge fuel 4 (num * 10 * 10 * 10 * 10) den)

four_on : (k : ℕ) → 4 ≤ k → 10 ^ k ≡ 10000 * 10 ^ (k - 4)
four_on k h = ap (λ n. 10 ^ n) apart ∙ pow-add 4 (k - 4)
  where
    apart : k ≡ 4 + (k - 4)
    apart = omega arith

scaled :
    (num den bound p : ℕ) → num * 10000 * p ≤ bound * den * p → num * (10000 * p) ≤ bound * p * den
scaled num den bound p h = grind arith

unscaled : (x bound p : ℕ) → x ≤ bound * p → x * 10000 ≤ bound * (10000 * p)
unscaled x bound p h = grind arith

at_places-Within :
    (num den bound k : ℕ)
    → 0 < den
    → 4 ≤ k
    → num * 10000 ≤ bound * den
    → Within bound (at_places num den k)
unfolding at_places
at_places-Within num den bound k positive enough h =
    let p : ℕ = 10 ^ (k - 4) in
    let e = four_on k enough in
    let product = scaled num den bound p (mul-le-mul_right p h) in
    let fits =
      half_even-le (num * 10 ^ k) den (bound * p) positive
        (subst (λ t. num * t ≤ bound * p * den) (sym e) product) in
    subst (λ t. half_even (num * 10 ^ k) den * 10000 ≤ bound * t) (sym e)
      (unscaled (half_even (num * 10 ^ k) den) bound p fits)

under :
    (num den bound : ℕ)
    → 0 < den
    → bound < 10 ^ 20
    → num * 10000 ≤ bound * den
    → num < 10 ^ 20 * den
under num den bound positive small h = let more = mul-le-mul_right den small in grind arith

pub rounded-Within :
    (num den bound : ℕ)
    → 0 < den
    → bound < 10 ^ 20
    → num * 10000 ≤ bound * den
    → Within bound (rounded num den)
unfolding rounded whole
rounded-Within num den bound positive small h = elim (Bool-cases (num == 0)) [
  | inl e ↦ rw e (omega arith)
  | inr e ↦ rw e (at_places-Within num den bound _ positive places h)
]
  where
    four_more : 28 + den ≡ suc (suc (suc (suc (24 + den))))
    four_more = omega arith

    below : num < 10 ^ 20 * den
    below = under num den bound positive small h

    places : 4 ≤ places_from (28 + den) 0 num den
    places = rw four_more (places_enough (24 + den) num den below)

-- The operations, one by one.
pub add_decimal-Within :
    (a b : Decimal) (m n : ℕ)
    → m + n < 10 ^ 20
    → Within m a
    → Within n b
    → Within (m + n) (add_decimal a b)
unfolding add_decimal
add_decimal-Within a b m n small ha hb =
    rounded-Within _ _ (m + n) (pow_positive (a.places + b.places)) small
      (rw (pow-add a.places b.places) (sums a.coefficient b.coefficient m n _ _ ha hb))
  where
    sums :
        (x y m n p q : ℕ)
        → x * 10000 ≤ m * p
        → y * 10000 ≤ n * q
        → (x * q + y * p) * 10000 ≤ (m + n) * (p * q)
    sums x y m n p q h k =
        let l = mul-le-mul_right q h in let r = mul-le-mul_right p k in grind arith

-- A product with a factor of at most 1.
pub multiply-Within :
    (a b : Decimal) (n : ℕ) → n < 10 ^ 20 → Within 10000 a → Within n b → Within n (multiply a b)
unfolding multiply
multiply-Within a b n small ha hb =
    rounded-Within _ _ n (pow_positive (a.places + b.places)) small
      (rw (pow-add a.places b.places) (products a.coefficient b.coefficient n _ _ ha hb))
  where
    products :
        (x y n p q : ℕ) → x * 10000 ≤ 10000 * p → y * 10000 ≤ n * q → x * y * 10000 ≤ n * (p * q)
    products x y n p q h k = let l : x ≤ p = omega arith in let r = mul-le-mul l k in grind arith

pub excess-Within : (a b : Decimal) (m : ℕ) → m < 10 ^ 20 → Within m a → Within m (excess a b)
unfolding excess
excess-Within a b m small ha =
    rounded-Within _ _ m (pow_positive (a.places + b.places)) small (
      rw (pow-add a.places b.places) (rests a.coefficient (b.coefficient * 10 ^ a.places) m _ _ ha))
  where
    rests : (x y m p q : ℕ) → x * 10000 ≤ m * p → (x * q - y) * 10000 ≤ m * (p * q)
    rests x y m p q h = let l = mul-le-mul_right q h in grind arith

-- A quarter of a value.
pub quarter-Within :
    (a : Decimal) (m : ℕ) → m < 10 ^ 20 → Within (4 * m) a → Within m (divide a (whole 4))
unfolding divide whole
quarter-Within a m small ha =
    rounded-Within _ _ m (four_positive (pow_positive a.places)) small
      (quarter a.coefficient m _ ha)
  where
    four_positive : {p : ℕ} → 0 < p → 0 < 4 * p
    four_positive h = omega arith

    quarter : (x m p : ℕ) → x * 10000 ≤ 4 * m * p → x * 1 * 10000 ≤ m * (4 * p)
    quarter x m p h = grind arith

pub quantize-Within : (a : Decimal) (m : ℕ) → Within m a → quantize a ≤ m
unfolding quantize
quantize-Within a m h =
    half_even-le (a.coefficient * 10000) (10 ^ a.places) m (pow_positive a.places) h
