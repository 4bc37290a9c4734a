-- ===== src/Lexical/Pairing.antt =====
-- What the walk over the candidates gives: no text is used twice on a side, and a candidate that is
-- skipped shares a text with a pair that came before it.
use footjob.Base.{Bool, Bool-cases, Distinct, In, In-All, List, Str, [], any, arith, false}
use footjob.Base.{inl, inr, refl, str_eq, str_eq_flip, str_eq_self, str_eq→eq, str_in, subst}
use footjob.Base.{sym, true, ◌&&◌, ◌||◌, ◌∷◌, ◌≡◌, ◌⊎◌}
use footjob.Lexical.Greedy.{greedy}
use footjob.Base.Sorting.{Ordered}

module _ {A : Type 0} where
  -- The two sides are treated alike.
  pub greedy-swap :
      (left right : A → Str) (ul ur : List Str) (cs : List A)
      → greedy left right ul ur cs ≡ greedy right left ur ul cs
  unfolding greedy
  greedy-swap left right ul ur [] = refl
  greedy-swap left right ul ur (c ∷ cs) = ground (
    arith,
    greedy-swap left right ul ur cs,
    greedy-swap left right (left c ∷ ul) (right c ∷ ur) cs,
  )

  -- A text that is used stands in no further pair.
  greedy-fresh :
      (left right : A → Str) (ul ur : List Str) (cs : List A) (t : Str)
      → str_in t ul ≡ true
      → any (λ c. str_eq t (left c)) (greedy left right ul ur cs) ≡ false
  unfolding greedy any str_in
  greedy-fresh left right ul ur [] t used = refl
  greedy-fresh left right ul ur (c ∷ cs) t used = ground (
    arith,
    greedy-fresh left right ul ur cs t used,
    greedy-fresh left right (left c ∷ ul) (right c ∷ ur) cs t,
    apart,
  )
    where
      apart : str_eq t (left c) ≡ true → any (str_eq (left c)) ul ≡ true
      apart e = subst (λ s. any (str_eq s) ul ≡ true) (str_eq→eq t (left c) e) used

  pub greedy-Distinct :
      (left right : A → Str) (ul ur : List Str) (cs : List A)
      → Distinct (λ a b. str_eq (left a) (left b)) (greedy left right ul ur cs)
  unfolding greedy any str_in
  greedy-Distinct left right ul ur [] = tt
  greedy-Distinct left right ul ur (c ∷ cs) =
      elim (Bool-cases (str_in (left c) ul || str_in (right c) ur)) [
        | inl e ↦ rw e (greedy-Distinct left right ul ur cs)
        | inr e ↦ rw e (
          greedy-fresh left right (left c ∷ ul) (right c ∷ ur) cs (left c) first,
          greedy-Distinct left right (left c ∷ ul) (right c ∷ ur) cs,
        )
      ]
    where
      first : str_in (left c) (left c ∷ ul) ≡ true
      first = rw (str_eq_self (left c))

  pub greedy-In :
      (left right : A → Str) (ul ur : List Str) (cs : List A) (x : A)
      → In x (greedy left right ul ur cs)
      → In x cs
  unfolding greedy
  greedy-In left right ul ur [] x h = h
  greedy-In left right ul ur (c ∷ cs) x h =
      elim (Bool-cases (str_in (left c) ul || str_in (right c) ur)) [
        | inl e ↦ inr (greedy-In left right ul ur cs x (rw e at h))
        | inr e ↦ later (greedy-In left right (left c ∷ ul) (right c ∷ ur) cs x) (rw e at h)
      ]
    where
      later :
          (In x (greedy left right (left c ∷ ul) (right c ∷ ur) cs) → In x cs)
          → In x (c ∷ greedy left right (left c ∷ ul) (right c ∷ ur) cs)
          → In x (c ∷ cs)
      later ih (inl p) = inl p
      later ih (inr m) = inr (ih m)

  -- The pair stands in the way of the candidate, and was not after it.
  abbrev pub blocks : (A → Str) → (A → Str) → (A → A → Bool) → A → A → Bool
  blocks left right at_least c m =
      at_least m c && (str_eq (left m) (left c) || str_eq (right m) (right c))

  module _ (left right : A → Str) (at_least : A → A → Bool)
      (self : (x : A) → at_least x x ≡ true) where
    used_head :
        (ul ur : List Str) (c x : A)
        → at_least c x ≡ true
        → (str_in (left x) (left c ∷ ul) || str_in (right x) (right c ∷ ur)) ≡ true
        → ((str_in (left x) ul || str_in (right x) ur) ≡ true)
          ⊎ (blocks left right at_least x c ≡ true)
    unfolding str_in any
    used_head ul ur c x after h =
        ground (arith, str_eq_flip (left x) (left c), str_eq_flip (right x) (right c))

    or_true : (a : Bool) {b : Bool} → b ≡ true → (a || b) ≡ true
    or_true a h = ground arith

    pub greedy-blocked :
        (ul ur : List Str) (cs : List A) (x : A)
        → Ordered at_least cs
        → In x cs
        → ((str_in (left x) ul || str_in (right x) ur) ≡ true)
          ⊎ (any (blocks left right at_least x) (greedy left right ul ur cs) ≡ true)
    unfolding greedy any
    greedy-blocked ul ur [] x order m = absurd m
    greedy-blocked ul ur (c ∷ cs) x order (inl p) =
        subst
          (λ z.
            ((str_in (left z) ul || str_in (right z) ur) ≡ true)
            ⊎ (any (blocks left right at_least z) (greedy left right ul ur (c ∷ cs)) ≡ true))
          (sym p) (ground (arith, self c, str_eq_self (left c)))
    greedy-blocked ul ur (c ∷ cs) x order (inr m) =
        elim (Bool-cases (str_in (left c) ul || str_in (right c) ur)) [
          | inl e ↦ rw e (greedy-blocked ul ur cs x order.1 m)
          | inr e ↦ rw e (elim (greedy-blocked (left c ∷ ul) (right c ∷ ur) cs x order.1 m) [
            | inl used ↦ elim (used_head ul ur c x (In-All _ cs order.0 x m) used) [
              | inl before ↦ inl before
              | inr met ↦ inr (rw met)
            ]
            | inr met ↦ inr (or_true (blocks left right at_least x c) met)
          ])
        ]
