-- ===== src/Base/Decimal.antt =====
-- `decimal.Decimal` under its default context: no value is negative or as large as 10 ^ 28, so a
-- result is the exact one, rounded to 28 significant digits, a half to the even digit.
use Prim.Native.Nat.{ℕ, zero, suc, ◌+◌, ◌*◌, ◌-◌, ◌/◌, ◌%◌, ◌^◌, ◌<◌, ◌≤◌}
use mathlib.Core.Bool.{Bool, false}
use mathlib.Core.Path.{◌≡◌}
use native.Mathlib.Omega.{arith}
use native.Mathlib.Nat.{div-add-mod, mod-lt}
use footjob.Base.Tests.{ltb, leb, ◌==◌, if◌then◌else◌}

-- The value is `coefficient / 10 ^ places`.
pub record Decimal : Type 0 where
  pub coefficient : ℕ
  pub places : ℕ

unfoldable pub whole : ℕ → Decimal
whole n = record { coefficient = n; places = 0 }

unfoldable pub half_even : ℕ → ℕ → ℕ
half_even num den =
    let q = num / den in
    let r = num % den in if ltb (2 * r) den then q else if ltb den (2 * r) then q + 1 else q + q % 2

-- The places at which `num / den` shows 28 digits.
unfoldable pub places_from : ℕ → ℕ → ℕ → ℕ → ℕ
places_from zero k num den = k
places_from (suc fuel) k num den =
    let rest = places_from fuel (k + 1) (num * 10) den in
    if leb (10 ^ 27 * den) num then k else rest

unfoldable pub at_places : ℕ → ℕ → ℕ → Decimal
at_places num den k = record { coefficient = half_even (num * 10 ^ k) den; places = k }

-- The result of an operation whose exact value is `num / den`.
unfoldable pub rounded : ℕ → ℕ → Decimal
rounded num den = if num == 0 then whole 0 else at_places num den (places_from (28 + den) 0 num den)

unfoldable pub add_decimal : Decimal → Decimal → Decimal
add_decimal a b =
    rounded (a.coefficient * 10 ^ b.places + b.coefficient * 10 ^ a.places)
      (10 ^ (a.places + b.places))

unfoldable pub multiply : Decimal → Decimal → Decimal
multiply a b = rounded (a.coefficient * b.coefficient) (10 ^ (a.places + b.places))

unfoldable pub divide : Decimal → Decimal → Decimal
divide a b = rounded (a.coefficient * 10 ^ b.places) (b.coefficient * 10 ^ a.places)

-- `max(Decimal("0"), a - b)`
unfoldable pub excess : Decimal → Decimal → Decimal
excess a b =
    rounded (a.coefficient * 10 ^ b.places - b.coefficient * 10 ^ a.places)
      (10 ^ (a.places + b.places))

unfoldable pub less : Decimal → Decimal → Bool
less a b = ltb (a.coefficient * 10 ^ b.places) (b.coefficient * 10 ^ a.places)

-- `value.quantize(Decimal("0.0001"))`, in ten-thousandths.
unfoldable pub quantize : Decimal → ℕ
quantize a = half_even (a.coefficient * 10000) (10 ^ a.places)

half_even_small : (q r den bound : ℕ) → r < den → den * q + r ≤ bound * den → q ≤ bound
half_even_small q r den bound h k = grind arith

half_even_full : (q r den bound : ℕ) → r < den → den * q + r ≤ bound * den → 0 < r → q < bound
half_even_full q r den bound h k s = grind arith

rounding :
    (q r den bound : ℕ)
    → 0 < den
    → q ≤ bound
    → (0 < r → q < bound)
    → (if ltb (2 * r) den then q else if ltb den (2 * r) then q + 1 else q + q % 2) ≤ bound
rounding q zero den bound h small full = ground arith
rounding q (suc r) den bound h small full = ground (arith, full (omega arith))

pub pow_positive : (k : ℕ) → 0 < 10 ^ k
pow_positive zero = omega arith
pow_positive (suc k) = omega (arith, pow_positive k)

pub half_even-le : (num den bound : ℕ) → 0 < den → num ≤ bound * den → half_even num den ≤ bound
unfolding half_even
half_even-le num den bound h k =
    let e = div-add-mod num den in
    let l = mod-lt num h in
    let small = half_even_small (num / den) (num % den) den bound l (omega (arith, e, k)) in
    let full = half_even_full (num / den) (num % den) den bound l (omega (arith, e, k)) in
    rounding (num / den) (num % den) den bound h small full

-- A value of at most 1 is at most 10000 ten-thousandths.
pub quantize-le : (value : Decimal) → less (whole 1) value ≡ false → quantize value ≤ 10000
unfolding less whole quantize
quantize-le value h =
    half_even-le (value.coefficient * 10000) (10 ^ value.places) 10000 (pow_positive value.places)
      (ground arith)
