-- ===== src/Base/Tables.antt =====
-- Membership and keys of the rows of a table, under a selection, an insert and an update.
use mathlib.Core.Path.{ap, ◌≡◌, refl, sym, ◌∙◌, subst}
use mathlib.Core.Logic.{◌⊎◌, inl, inr}
use mathlib.Core.Bool.{Bool, true, false, ◌&&◌, ◌||◌}
use mathlib.Core.List.{List, [], ◌∷◌, ◌++◌}
use mathlib.Core.Option.{Option, some}
use native.Mathlib.Omega.{arith}
use footjob.Base.Tests.{Bool-cases}
use footjob.Base.Lists.{All, any, select, find, update_where, updated}

module _ {A : Type 0} where
  abbrev pub In : A → List A → Type 0
  In x [] = ⊥
  In x (y ∷ ys) = (x ≡ y) ⊎ In x ys

  select_head :
      (test : A → Bool) (y : A) (ys : List A) (x : A)
      → In x (select test (y ∷ ys))
      → ((x ≡ y) × (test y ≡ true)) ⊎ In x (select test ys)
  unfolding select
  select_head test y ys x h = elim (Bool-cases (test y)) [
    | inl e ↦ elim (rw e at h) [ inl p ↦ inl (p, e) | inr r ↦ inr r ]
    | inr e ↦ inr (rw e at h)
  ]

  -- What a WHERE clause selects is a row that passes it.
  pub select-In :
      (test : A → Bool) (xs : List A) (x : A) → In x (select test xs) → In x xs × (test x ≡ true)
  unfolding select
  select-In test [] x h = absurd h
  select-In test (y ∷ ys) x h = elim (select_head test y ys x h) [
    | inl (p, e) ↦ (inl p, subst (λ z. test z ≡ true) (sym p) e)
    | inr r ↦ let s = select-In test ys x r in (inr s.0, s.1)
  ]

  pub In-select :
      (test : A → Bool) (xs : List A) (x : A) → In x xs → test x ≡ true → In x (select test xs)
  unfolding select
  In-select test [] x m t = m
  In-select test (y ∷ ys) x (inl p) t = rw (subst (λ z. test z ≡ true) p t) (inl p)
  In-select test (y ∷ ys) x (inr m) t = elim (Bool-cases (test y)) [
    | inl e ↦ rw e (inr (In-select test ys x m t))
    | inr e ↦ rw e (In-select test ys x m t)
  ]

  pub select-append :
      (test : A → Bool) (xs ys : List A) → select test (xs ++ ys) ≡ select test xs ++ select test ys
  unfolding select
  select-append test [] ys = refl
  select-append test (x ∷ xs) ys = ground (arith, select-append test xs ys)

  -- A search by two tests is a search by one in what the other selects.
  pub any-select :
      (first second : A → Bool) (xs : List A)
      → any (λ x. first x && second x) xs ≡ any second (select first xs)
  unfolding any select
  any-select first second [] = refl
  any-select first second (x ∷ xs) = ground (arith, any-select first second xs)

  pub any-In :
      (test : A → Bool) (xs : List A) (x : A) → In x xs → test x ≡ true → any test xs ≡ true
  unfolding any
  any-In test [] x h t = absurd h
  any-In test (y ∷ ys) x (inl p) t = rw (subst (λ z. test z ≡ true) p t)
  any-In test (y ∷ ys) x (inr r) t = rw (any-In test ys x r t) (ground arith)

  -- No two rows are the same by the key that `same` compares.
  abbrev pub Distinct : (A → A → Bool) → List A → Type 0
  Distinct same [] = Unit
  Distinct same (x ∷ xs) = (any (same x) xs ≡ false) × Distinct same xs

  pub any-update_where :
      (key test : A → Bool) (f : A → A)
      → ((x : A) → key (updated test f x) ≡ key x)
      → (xs : List A) → any key (update_where test f xs) ≡ any key xs
  unfolding any update_where
  any-update_where key test f keep [] = refl
  any-update_where key test f keep (x ∷ xs) = rw (keep x, any-update_where key test f keep xs)

  pub Distinct-update_where :
      (same : A → A → Bool) (test : A → Bool) (f : A → A)
      → ((x y : A) → same x (updated test f y) ≡ same x y)
      → ((x y : A) → same (updated test f x) y ≡ same x y)
      → (xs : List A) → Distinct same xs
      → Distinct same (update_where test f xs)
  unfolding update_where any
  Distinct-update_where same test f right left [] d = tt
  Distinct-update_where same test f right left (x ∷ xs) d = (
    any_left (updated test f x) x (left x) (update_where test f xs)
        ∙ any-update_where (same x) test f (right x) xs
        ∙ d.0,
    Distinct-update_where same test f right left xs d.1,
  )
    where
      any_left :
          (a b : A)
          → ((y : A) → same a y ≡ same b y)
          → (ys : List A) → any (same a) ys ≡ any (same b) ys
      any_left a b e [] = refl
      any_left a b e (y ∷ ys) = rw (e y, any_left a b e ys)

  any-append :
      (test : A → Bool) (xs ys : List A) → any test (xs ++ ys) ≡ (any test xs || any test ys)
  unfolding any
  any-append test [] ys = refl
  any-append test (x ∷ xs) ys = ground (arith, any-append test xs ys)

  -- Appending a row whose key is new.
  pub Distinct-append :
      (same : A → A → Bool) (xs : List A) (y : A)
      → ((x : A) → same x y ≡ same y x)
      → any (same y) xs ≡ false
      → Distinct same xs
      → Distinct same (xs ++ y ∷ [])
  unfolding any
  Distinct-append same [] y flip fresh d = (refl, tt)
  Distinct-append same (x ∷ xs) y flip fresh d = (
    ground (arith, flip x, any-append (same x) xs (y ∷ [])),
    Distinct-append same xs y flip (ground arith) d.1,
  )

  -- A row of a table with distinct keys is the one that its key finds.
  pub find-In :
      (same : A → A → Bool) (xs : List A) (x : A)
      → ((a : A) → same a a ≡ true)
      → ((a b : A) → same a b ≡ same b a)
      → Distinct same xs
      → In x xs
      → find (same x) xs ≡ some x
  unfolding find
  find-In same [] x self flip d h = absurd h
  find-In same (y ∷ ys) x self flip d (inl p) =
      subst (λ z. find (same z) (y ∷ ys) ≡ some z) (sym p) (rw (self y))
  find-In same (y ∷ ys) x self flip d (inr r) = elim (Bool-cases (same x y)) [
    | inl e ↦ absurd (clash (flip y x ∙ e))
    | inr e ↦ rw e (find-In same ys x self flip d.1 r)
  ]
    where
      clash : same y x ≡ true → ⊥
      clash e = let t = any-In (same y) ys x r e in let u = d.0 in cc

  -- An update whose reason may use that the row is in the table.
  pub All-update_where-In :
      (P : A → Type 0) (test : A → Bool) (f : A → A) (xs : List A)
      → ((x : A) → In x xs → P x → test x ≡ true → P (f x))
      → All P xs
      → All P (update_where test f xs)
  unfolding update_where
  All-update_where-In P test f [] keep h = tt
  All-update_where-In P test f (x ∷ xs) keep h = (
    ground (arith, h.0, keep x (inl refl) h.0),
    All-update_where-In P test f xs (λ y m. keep y (inr m)) h.1,
  )

  pub any-witness :
      (test : A → Bool) (xs : List A) → any test xs ≡ true → (x : A) × In x xs × (test x ≡ true)
  unfolding any
  any-witness test [] h = ground arith
  any-witness test (x ∷ xs) h = elim (Bool-cases (test x)) [
    | inl e ↦ (x, inl refl, e)
    | inr e ↦ let (y, m, t) = any-witness test xs (ground arith) in (y, inr m, t)
  ]

  pub found-In : (key : A → Bool) (xs : List A) (x : A) → find key xs ≡ some x → In x xs
  unfolding find
  found-In key [] x h = ground arith
  found-In key (y ∷ ys) x h = elim (Bool-cases (key y)) [
    | inl e ↦ inl (sym (first_found (rw e at h)))
    | inr e ↦ inr (found-In key ys x (rw e at h))
  ]
    where
      first_found : ◌≡◌ {A = Option A} (some y) (some x) → y ≡ x
      first_found e = cc

  pub In-find :
      (key : A → Bool) (xs : List A) (x : A)
      → In x xs
      → key x ≡ true
      → (y : A) × (find key xs ≡ some y)
  unfolding find
  In-find key [] x m h = absurd m
  In-find key (y ∷ ys) x m h = elim (Bool-cases (key y)) [
    | inl e ↦ (y, rw e)
    | inr e ↦ let (z, f) = In-find key ys x (later m e) h in (z, rw e f)
  ]
    where
      later : In x (y ∷ ys) → key y ≡ false → In x ys
      later (inl p) e = let c = subst (λ z. key z ≡ true) p h in cc
      later (inr n) e = n

  pub find-any : (key : A → Bool) (xs : List A) (x : A) → find key xs ≡ some x → any key xs ≡ true
  unfolding find any
  find-any key [] x h = ground arith
  find-any key (y ∷ ys) x h = ground (arith, find-any key ys x)

  pub In-append : (xs ys : List A) (x : A) → In x (xs ++ ys) → In x xs ⊎ In x ys
  In-append [] ys x h = inr h
  In-append (z ∷ xs) ys x (inl p) = inl (inl p)
  In-append (z ∷ xs) ys x (inr m) = elim (In-append xs ys x m) [
    | inl n ↦ inl (inr n)
    | inr n ↦ inr n
  ]

  pub append-In : (xs ys : List A) (x : A) → In x xs ⊎ In x ys → In x (xs ++ ys)
  append-In [] ys x (inl m) = absurd m
  append-In [] ys x (inr m) = m
  append-In (z ∷ xs) ys x (inl (inl p)) = inl p
  append-In (z ∷ xs) ys x (inl (inr m)) = inr (append-In xs ys x (inl m))
  append-In (z ∷ xs) ys x (inr m) = inr (append-In xs ys x (inr m))

  pub All-In : (P : A → Type 0) (xs : List A) → ((z : A) → In z xs → P z) → All P xs
  All-In P [] h = tt
  All-In P (x ∷ xs) h = (h x (inl refl), All-In P xs (λ z m. h z (inr m)))

  pub In-All : (P : A → Type 0) (xs : List A) → All P xs → (z : A) → In z xs → P z
  In-All P [] h z m = absurd m
  In-All P (x ∷ xs) h z (inl p) = subst P (sym p) h.0
  In-All P (x ∷ xs) h z (inr m) = In-All P xs h.1 z m

  pub In-update_where :
      (test : A → Bool) (f : A → A) (xs : List A) (x : A)
      → In x xs
      → test x ≡ false
      → In x (update_where test f xs)
  unfolding update_where
  In-update_where test f [] x m e = m
  In-update_where test f (y ∷ xs) x (inl p) e = inl (p ∙ rw (subst (λ z. test z ≡ false) p e))
  In-update_where test f (y ∷ xs) x (inr m) e = inr (In-update_where test f xs x m e)

  pub updated-In :
      (test : A → Bool) (f : A → A) (xs : List A) (x : A)
      → In x xs
      → test x ≡ true
      → In (f x) (update_where test f xs)
  unfolding update_where
  updated-In test f [] x m e = absurd m
  updated-In test f (y ∷ xs) x (inl p) e = inl (ap f p ∙ rw (subst (λ z. test z ≡ true) p e))
  updated-In test f (y ∷ xs) x (inr m) e = inr (updated-In test f xs x m e)

  -- In a table with distinct keys, two rows with the same key are one.
  pub Distinct-eq :
      (same : A → A → Bool) (xs : List A) (x y : A)
      → ((a b : A) → same a b ≡ same b a)
      → Distinct same xs
      → In x xs
      → In y xs
      → same x y ≡ true
      → x ≡ y
  Distinct-eq same [] x y flip d m n e = absurd m
  Distinct-eq same (z ∷ xs) x y flip d (inl p) (inl q) e = p ∙ sym q
  Distinct-eq same (z ∷ xs) x y flip d (inl p) (inr n) e =
      let t = any-In (same z) xs y n (subst (λ w. same w y ≡ true) p e) in let u = d.0 in cc
  Distinct-eq same (z ∷ xs) x y flip d (inr m) (inl q) e =
      let t = any-In (same z) xs x m (subst (λ w. same w x ≡ true) q (flip y x ∙ e)) in
      let u = d.0 in cc
  Distinct-eq same (z ∷ xs) x y flip d (inr m) (inr n) e = Distinct-eq same xs x y flip d.1 m n e

  pub any-weaken :
      (narrow wide : A → Bool)
      → ((x : A) → narrow x ≡ true → wide x ≡ true)
      → (xs : List A) → any wide xs ≡ false
      → any narrow xs ≡ false
  unfolding any
  any-weaken narrow wide within [] h = refl
  any-weaken narrow wide within (x ∷ xs) h =
      ground (arith, within x, any-weaken narrow wide within xs)
