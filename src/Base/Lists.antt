-- ===== src/Base/Lists.antt =====
-- Lists measured by the native numbers, and SQL's way to read and write a table of rows.
use Prim.Native.Nat.{ℕ, suc}
use mathlib.Core.Path.{◌≡◌, refl, subst}
use mathlib.Core.Logic.{◌⊎◌, inl, inr}
use mathlib.Core.Bool.{Bool, true, false, ◌||◌}
use mathlib.Core.List.{List, [], ◌∷◌, ◌++◌}
use mathlib.Core.Option
use mathlib.Core.Option.{Option, none, some}
use native.Mathlib.Omega.{arith}
use footjob.Base.Tests.{if◌then◌else◌}

module _ {ℓ} {A : Type ℓ} where
  abbrev pub length : List A → ℕ
  length [] = 0
  length (x ∷ xs) = suc (length xs)

  -- A property of every entry.
  abbrev pub All {κ} : (A → Type κ) → List A → Type κ
  All Meets [] = Unit
  All Meets (row ∷ rows) = Meets row × All Meets rows

  pub All-append {κ} :
      (P : A → Type κ) (rows more : List A) → All P rows → All P more → All P (rows ++ more)
  All-append P [] more none_before h = h
  All-append P (row ∷ rows) more (first, before) h = (first, All-append P rows more before h)

  pub All-map {κ μ} :
      (P : A → Type κ) (Q : A → Type μ)
      → ((x : A) → P x → Q x)
      → (rows : List A) → All P rows
      → All Q rows
  All-map P Q f [] h = tt
  All-map P Q f (row ∷ rows) h = (f row h.0, All-map P Q f rows h.1)

  -- Python's `any(test(x) for x in xs)`.
  unfoldable pub any : (A → Bool) → List A → Bool
  any test [] = false
  any test (x ∷ xs) = test x || any test xs

  -- `[x for x in xs if test(x)]`, and a WHERE clause.
  unfoldable pub select : (A → Bool) → List A → List A
  select test [] = []
  select test (x ∷ xs) = let rest = select test xs in if test x then x ∷ rest else rest

  -- The first entry that passes.
  unfoldable pub find : (A → Bool) → List A → Option A
  find test [] = none
  find test (x ∷ xs) = let rest = find test xs in if test x then some x else rest

  -- UPDATE … SET … WHERE test.
  unfoldable pub update_where : (A → Bool) → (A → A) → List A → List A
  update_where test f [] = []
  update_where test f (x ∷ xs) = (if test x then f x else x) ∷ update_where test f xs

  -- A row as an UPDATE leaves it.
  abbrev pub updated : (A → Bool) → (A → A) → A → A
  updated test f x = if test x then f x else x

  pub All-update_where {κ} :
      (P : A → Type κ) (test : A → Bool) (f : A → A)
      → ((x : A) → P x → test x ≡ true → P (f x))
      → (xs : List A) → All P xs
      → All P (update_where test f xs)
  unfolding update_where
  All-update_where P test f keep [] h = tt
  All-update_where P test f keep (x ∷ xs) h =
      (ground (arith, h.0, keep x h.0), All-update_where P test f keep xs h.1)

  pub find-update_where :
      (key test : A → Bool) (f : A → A)
      → ((x : A) → key (updated test f x) ≡ key x)
      → (xs : List A)
      → find key (update_where test f xs) ≡ Option.map (updated test f) (find key xs)
  unfolding update_where find
  find-update_where key test f keep [] = refl
  find-update_where key test f keep (x ∷ xs) =
      ground (arith, keep x, find-update_where key test f keep xs)

  pub find-append :
      (key : A → Bool) (xs ys : List A) (x : A)
      → find key xs ≡ some x
      → find key (xs ++ ys) ≡ some x
  unfolding find
  find-append key [] ys x h = ground arith
  find-append key (y ∷ xs) ys x h = ground (arith, find-append key xs ys x)

  pub find-append_none :
      (key : A → Bool) (xs ys : List A) → find key xs ≡ none → find key (xs ++ ys) ≡ find key ys
  unfolding find
  find-append_none key [] ys h = refl
  find-append_none key (y ∷ xs) ys h = ground (arith, find-append_none key xs ys)

  found_here :
      (key : A → Bool) (y : A) (xs : List A) (x : A)
      → find key (y ∷ xs) ≡ some x
      → ((y ≡ x) × (key y ≡ true)) ⊎ (find key xs ≡ some x)
  unfolding find
  found_here key y xs x h = ground arith

  pub find-key : (key : A → Bool) (xs : List A) (x : A) → find key xs ≡ some x → key x ≡ true
  unfolding find
  find-key key [] x h = ground arith
  find-key key (y ∷ xs) x h = elim (found_here key y xs x h) [
    | inl (e, k) ↦ subst (λ z. key z ≡ true) e k
    | inr rest ↦ find-key key xs x rest
  ]

  -- A property of every row holds of the one found.
  pub find-All {κ} :
      (P : A → Type κ) (key : A → Bool) (xs : List A) (x : A)
      → All P xs
      → find key xs ≡ some x
      → P x
  unfolding find
  find-All P key [] x all h = ground arith
  find-All P key (y ∷ xs) x all h = elim (found_here key y xs x h) [
    | inl (e, k) ↦ subst P e all.0
    | inr rest ↦ find-All P key xs x all.1 rest
  ]

  pub update_where_id :
      (test : A → Bool) (f : A → A) (xs : List A)
      → any test xs ≡ false
      → update_where test f xs ≡ xs
  unfolding update_where any
  update_where_id test f [] h = refl
  update_where_id test f (x ∷ xs) h = ground (arith, update_where_id test f xs)
