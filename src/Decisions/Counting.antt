-- ===== src/Decisions/Counting.antt =====
-- Counting the entries of a list that pass a test, under sorting and selecting.
use footjob.Base.{Bool, Bool-cases, Distinct, In, List, [], any-In, ap, arith, false}
use footjob.Base.{if◌then◌else◌, inl, inr, insert_sorted, refl, select, sorted, subst, true}
use footjob.Base.{ℕ, ◌&&◌, ◌+◌, ◌<◌, ◌∙◌, ◌∷◌, ◌≡◌, ◌⊎◌}

-- How many entries pass.
unfoldable pub tally : {A : Type 0} → (A → Bool) → List A → ℕ
tally test [] = 0
tally test (x ∷ xs) = let rest = tally test xs in if test x then 1 + rest else rest

module _ {A : Type 0} where
  tally-insert_sorted :
      (test : A → Bool) (precedes : A → A → Bool) (x : A) (ys : List A)
      → tally test (insert_sorted precedes x ys) ≡ tally test (x ∷ ys)
  unfolding tally insert_sorted
  tally-insert_sorted test precedes x [] = refl
  tally-insert_sorted test precedes x (y ∷ ys) =
      ground (arith, tally-insert_sorted test precedes x ys)

  pub tally-sorted :
      (test : A → Bool) (precedes : A → A → Bool) (xs : List A)
      → tally test (sorted precedes xs) ≡ tally test xs
  unfolding tally sorted
  tally-sorted test precedes [] = refl
  tally-sorted test precedes (x ∷ xs) =
      tally-insert_sorted test precedes x (sorted precedes xs)
      ∙ ap (λ n. if test x then 1 + n else n) (tally-sorted test precedes xs)

  pub tally-select :
      (test wanted : A → Bool) (xs : List A)
      → tally test (select wanted xs) ≡ tally (λ x. wanted x && test x) xs
  unfolding tally select
  tally-select test wanted [] = refl
  tally-select test wanted (x ∷ xs) = ground (arith, tally-select test wanted xs)

  pub tally_none :
      (test : A → Bool) (xs : List A) → ((x : A) → In x xs → test x ≡ false) → tally test xs ≡ 0
  unfolding tally
  tally_none test [] h = refl
  tally_none test (x ∷ xs) h = rw (h x (inl refl)) (tally_none test xs (λ y m. h y (inr m)))

  pub tally_some :
      (test : A → Bool) (xs : List A) (x : A) → In x xs → test x ≡ true → 0 < tally test xs
  unfolding tally
  tally_some test [] x m e = absurd m
  tally_some test (y ∷ xs) x (inl p) e = rw (subst (λ z. test z ≡ true) p e) (omega arith)
  tally_some test (y ∷ xs) x (inr m) e = ground (arith, tally_some test xs x m e)

  pub tally_one :
      (same : A → A → Bool) (test : A → Bool) (xs : List A) (x : A)
      → ((a b : A) → same a b ≡ same b a)
      → Distinct same xs
      → In x xs
      → test x ≡ true
      → ((u : A) → test u ≡ true → same x u ≡ true)
      → tally test xs ≡ 1
  unfolding tally
  tally_one same test [] x flip d m e near = absurd m
  tally_one same test (y ∷ xs) x flip d (inl p) e near =
      rw (subst (λ z. test z ≡ true) p e)
        (ap (λ n. 1 + n) (tally_none test xs (λ u n. fails u n (Bool-cases (test u)))))
    where
      fails : (u : A) → In u xs → (test u ≡ true) ⊎ (test u ≡ false) → test u ≡ false
      fails u n (inr f) = f
      fails u n (inl t) =
          let c = any-In (same y) xs u n (subst (λ z. same z u ≡ true) p (near u t)) in
          let w = d.0 in cc
  tally_one same test (y ∷ xs) x flip d (inr m) e near =
      rw (other (Bool-cases (test y))) (tally_one same test xs x flip d.1 m e near)
    where
      other : (test y ≡ true) ⊎ (test y ≡ false) → test y ≡ false
      other (inr f) = f
      other (inl t) = let c = any-In (same y) xs x m (flip y x ∙ near y t) in let w = d.0 in cc
