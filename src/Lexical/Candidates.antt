-- ===== src/Lexical/Candidates.antt =====
-- The candidates of two lists are what their pairs of entries give.
use footjob.Base.{Bool-cases, In, In-append, In-select, List, Option, Str, [], ap, append-In}
use footjob.Base.{inl, inr, none, refl, select-In, some, str_eq, str_eq→eq, subst, sym}
use footjob.Base.{unique, ◌∷◌, ◌≡◌, ◌⊎◌}
use footjob.Lexical.Greedy.{add_some, pairs_with, candidate_pairs}

module _ {A : Type 0} (candidate : Str → Str → Option A) where
  -- The entry that a pair of texts from the two lists gives.
  pub record Drawn (lefts rights : List Str) (x : A) : Type 0 where
    pub from_left : Str
    pub from_right : Str
    pub in_left : In from_left lefts
    pub in_right : In from_right rights
    pub made : candidate from_left from_right ≡ some x

  some_of : (x y : A) → ◌≡◌ {A = Option A} (some x) (some y) → x ≡ y
  some_of x y e = cc

  add_some-In : (o : Option A) (xs : List A) (x : A) → In x (add_some o xs) → (o ≡ some x) ⊎ In x xs
  add_some-In none xs x h = inr h
  add_some-In (some y) xs x (inl p) = inl (ap some (sym p))
  add_some-In (some y) xs x (inr m) = inr m

  In-add_some : (o : Option A) (xs : List A) (x : A) → (o ≡ some x) ⊎ In x xs → In x (add_some o xs)
  In-add_some none xs x (inl e) = cc
  In-add_some none xs x (inr m) = m
  In-add_some (some y) xs x (inl e) = inl (sym (some_of y x e))
  In-add_some (some y) xs x (inr m) = inr m

  pairs_with-Drawn :
      (left : Str) (rights : List Str) (x : A)
      → In x (pairs_with candidate left rights)
      → (right : Str) × In right rights × (candidate left right ≡ some x)
  unfolding pairs_with
  pairs_with-Drawn left [] x h = absurd h
  pairs_with-Drawn left (right ∷ rights) x h =
      elim (add_some-In (candidate left right) (pairs_with candidate left rights) x h) [
        | inl e ↦ (right, inl refl, e)
        | inr m ↦ let (r, n, e) = pairs_with-Drawn left rights x m in (r, inr n, e)
      ]

  pub candidate_pairs-Drawn :
      (lefts rights : List Str) (x : A)
      → In x (candidate_pairs candidate lefts rights)
      → Drawn lefts rights x
  unfolding candidate_pairs
  candidate_pairs-Drawn [] rights x h = absurd h
  candidate_pairs-Drawn (left ∷ lefts) rights x h =
      elim (In-append (pairs_with candidate left rights) _ x h) [
        | inl m ↦
            let (r, n, e) = pairs_with-Drawn left rights x m in
            record { from_left = left; from_right = r; in_left = inl refl; in_right = n; made = e }
        | inr m ↦
            let d = candidate_pairs-Drawn lefts rights x m in
            record {
              from_left = d.from_left;
              from_right = d.from_right;
              in_left = inr d.in_left;
              in_right = d.in_right;
              made = d.made;
            }
      ]

  In-pairs_with :
      (left right : Str) (rights : List Str) (x : A)
      → In right rights
      → candidate left right ≡ some x
      → In x (pairs_with candidate left rights)
  unfolding pairs_with
  In-pairs_with left right [] x m e = absurd m
  In-pairs_with left right (r ∷ rights) x (inl p) e =
      In-add_some (candidate left r) _ x (inl (subst (λ s. candidate left s ≡ some x) p e))
  In-pairs_with left right (r ∷ rights) x (inr m) e =
      In-add_some (candidate left r) _ x (inr (In-pairs_with left right rights x m e))

  pub In-candidate_pairs :
      (left right : Str) (lefts rights : List Str) (x : A)
      → In left lefts
      → In right rights
      → candidate left right ≡ some x
      → In x (candidate_pairs candidate lefts rights)
  unfolding candidate_pairs
  In-candidate_pairs left right [] rights x m n e = absurd m
  In-candidate_pairs left right (l ∷ lefts) rights x (inl p) n e =
      append-In (pairs_with candidate l rights) _ x
        (inl (In-pairs_with l right rights x n (subst (λ s. candidate s right ≡ some x) p e)))
  In-candidate_pairs left right (l ∷ lefts) rights x (inr m) n e =
      append-In (pairs_with candidate l rights) _ x
        (inr (In-candidate_pairs left right lefts rights x m n e))

pub unique-In : (xs : List Str) (x : Str) → In x (unique str_eq xs) → In x xs
unfolding unique
unique-In [] x h = h
unique-In (y ∷ xs) x (inl p) = inl p
unique-In (y ∷ xs) x (inr m) = inr (unique-In xs x (select-In _ (unique str_eq xs) x m).0)

pub In-unique : (xs : List Str) (x : Str) → In x xs → In x (unique str_eq xs)
unfolding unique
In-unique [] x h = h
In-unique (y ∷ xs) x (inl p) = inl p
In-unique (y ∷ xs) x (inr m) = elim (Bool-cases (str_eq y x)) [
  | inl e ↦ inl (sym (str_eq→eq y x e))
  | inr e ↦ inr (In-select _ (unique str_eq xs) x (In-unique xs x m) (rw e))
]
