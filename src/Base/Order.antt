-- ===== src/Base/Order.antt =====
-- The order of texts by code points, Python's stable `sorted`, the distinct entries that
-- `dict.fromkeys` keeps, and the tests on the ends of a text.
use Prim.Native.Nat.{ℕ, ◌-◌}
use mathlib.Core.Bool.{Bool, true, false, not, ◌&&◌, ◌||◌}
use mathlib.Core.List.{List, [], ◌∷◌, reverse}
use footjob.Base.Tests.{ltb, ◌==◌, if◌then◌else◌}
use footjob.Base.Lists.{any, select}
use footjob.Base.Text.{Str, str_eq}

-- `left < right` on `str`.
unfoldable pub str_lt : Str → Str → Bool
str_lt [] [] = false
str_lt [] (b ∷ t) = true
str_lt (a ∷ s) [] = false
str_lt (a ∷ s) (b ∷ t) = ltb a b || (a == b && str_lt s t)

-- `label in labels`
unfoldable pub str_in : Str → List Str → Bool
unfolding any
str_in label labels = any (str_eq label) labels

unfoldable pub starts_with : Str → Str → Bool
starts_with [] s = true
starts_with (a ∷ prefix) [] = false
starts_with (a ∷ prefix) (b ∷ s) = a == b && starts_with prefix s

-- `s.endswith(suffix)`
unfoldable pub ends_with : Str → Str → Bool
unfolding starts_with
ends_with suffix s = starts_with (reverse suffix) (reverse s)

module _ {A : Type 0} where
  -- `xs[:n]`
  unfoldable pub take : ℕ → List A → List A
  take n [] = []
  take n (x ∷ xs) = let rest = take (n - 1) xs in if n == 0 then [] else x ∷ rest

  -- An entry goes before the entries that it precedes, and after those equal to it.
  unfoldable pub insert_sorted : (A → A → Bool) → A → List A → List A
  insert_sorted precedes x [] = x ∷ []
  insert_sorted precedes x (y ∷ ys) =
      let rest = insert_sorted precedes x ys in if precedes y x then y ∷ rest else x ∷ y ∷ ys

  unfoldable pub sorted : (A → A → Bool) → List A → List A
  unfolding insert_sorted
  sorted precedes [] = []
  sorted precedes (x ∷ xs) = insert_sorted precedes x (sorted precedes xs)

  -- `tuple(dict.fromkeys(xs))`: each entry once, where it stands first.
  unfoldable pub unique : (A → A → Bool) → List A → List A
  unfolding select
  unique same [] = []
  unique same (x ∷ xs) = x ∷ select (λ y. not (same x y)) (unique same xs)
