-- ===== src/Base/Sorting.antt =====
-- A sorted list holds the same entries, each before the entries that are no better.
use mathlib.Core.Path.{◌≡◌, sym, subst}
use mathlib.Core.Logic.{◌⊎◌, inl, inr}
use mathlib.Core.Bool.{Bool, true, false}
use mathlib.Core.List.{List, [], ◌∷◌}
use footjob.Base.Tests.{Bool-cases}
use footjob.Base.Lists.{All}
use footjob.Base.Tables.{In, All-In, In-All}
use footjob.Base.Order.{insert_sorted, sorted}

module _ {A : Type 0} where
  -- No entry is followed by one that `at_least` does not put after it.
  abbrev pub Ordered : (A → A → Bool) → List A → Type 0
  Ordered at_least [] = Unit
  Ordered at_least (x ∷ xs) = All (λ y. at_least x y ≡ true) xs × Ordered at_least xs

  -- In a list with a head: the head, or whatever is in the tail.
  pub tail_In :
      (y z : A) (xs ys : List A) (Q : Type 0)
      → (In z xs → Q ⊎ In z ys)
      → In z (y ∷ xs)
      → Q ⊎ In z (y ∷ ys)
  tail_In y z xs ys Q f (inl p) = inr (inl p)
  tail_In y z xs ys Q f (inr m) = widen (f m)
    where
      widen : Q ⊎ In z ys → Q ⊎ In z (y ∷ ys)
      widen (inl q) = inl q
      widen (inr n) = inr (inr n)

  pub In-insert_sorted :
      (precedes : A → A → Bool) (x : A) (ys : List A) (z : A)
      → (z ≡ x) ⊎ In z ys
      → In z (insert_sorted precedes x ys)
  unfolding insert_sorted
  In-insert_sorted precedes x [] z h = h
  In-insert_sorted precedes x (y ∷ ys) z h = elim (Bool-cases (precedes y x)) [
    | inl e ↦ rw e (later (In-insert_sorted precedes x ys z) h)
    | inr e ↦ rw e h
  ]
    where
      later :
          ((z ≡ x) ⊎ In z ys → In z (insert_sorted precedes x ys))
          → (z ≡ x) ⊎ In z (y ∷ ys)
          → In z (y ∷ insert_sorted precedes x ys)
      later ih (inl p) = inr (ih (inl p))
      later ih (inr (inl p)) = inl p
      later ih (inr (inr m)) = inr (ih (inr m))

  pub insert_sorted-In :
      (precedes : A → A → Bool) (x : A) (ys : List A) (z : A)
      → In z (insert_sorted precedes x ys)
      → (z ≡ x) ⊎ In z ys
  unfolding insert_sorted
  insert_sorted-In precedes x [] z h = h
  insert_sorted-In precedes x (y ∷ ys) z h = elim (Bool-cases (precedes y x)) [
    | inl e ↦ tail_In y z _ ys (z ≡ x) (insert_sorted-In precedes x ys z) (rw e at h)
    | inr e ↦ rw e at h
  ]

  pub In-sorted :
      (precedes : A → A → Bool) (xs : List A) (z : A) → In z xs → In z (sorted precedes xs)
  unfolding sorted
  In-sorted precedes [] z h = h
  In-sorted precedes (x ∷ xs) z (inl p) = In-insert_sorted precedes x (sorted precedes xs) z (inl p)
  In-sorted precedes (x ∷ xs) z (inr m) =
      In-insert_sorted precedes x (sorted precedes xs) z (inr (In-sorted precedes xs z m))

  pub sorted-In :
      (precedes : A → A → Bool) (xs : List A) (z : A) → In z (sorted precedes xs) → In z xs
  unfolding sorted
  sorted-In precedes [] z h = h
  sorted-In precedes (x ∷ xs) z h = elim (insert_sorted-In precedes x (sorted precedes xs) z h) [
    | inl p ↦ inl p
    | inr m ↦ inr (sorted-In precedes xs z m)
  ]

  module _ (precedes at_least : A → A → Bool)
      (before : (x y : A) → precedes y x ≡ true → at_least y x ≡ true)
      (after : (x y : A) → precedes y x ≡ false → at_least x y ≡ true)
      (onward : (x y z : A) → at_least x y ≡ true → at_least y z ≡ true → at_least x z ≡ true) where
    insert_sorted-Ordered :
        (x : A) (ys : List A) → Ordered at_least ys → Ordered at_least (insert_sorted precedes x ys)
    unfolding insert_sorted
    insert_sorted-Ordered x [] h = (tt, tt)
    insert_sorted-Ordered x (y ∷ ys) h = elim (Bool-cases (precedes y x)) [
      | inl e ↦ rw e (All-In _ _ (later e), insert_sorted-Ordered x ys h.1)
      | inr e ↦
          rw e
            ((after x y e, All-In _ _ (λ z m. onward x y z (after x y e) (In-All _ ys h.0 z m))), h)
    ]
      where
        pick : precedes y x ≡ true → (z : A) → (z ≡ x) ⊎ In z ys → at_least y z ≡ true
        pick e z (inl p) = subst (λ w. at_least y w ≡ true) (sym p) (before x y e)
        pick e z (inr m) = In-All (λ w. at_least y w ≡ true) ys h.0 z m

        later :
            precedes y x ≡ true → (z : A) → In z (insert_sorted precedes x ys) → at_least y z ≡ true
        later e z m = pick e z (insert_sorted-In precedes x ys z m)

    pub sorted-Ordered : (xs : List A) → Ordered at_least (sorted precedes xs)
    unfolding sorted
    sorted-Ordered [] = tt
    sorted-Ordered (x ∷ xs) = insert_sorted-Ordered x (sorted precedes xs) (sorted-Ordered xs)
