-- ===== src/Lexical/Matches.antt =====
-- The pairs of labels that `label_matches` returns, against a description that does not mention
-- how they are found.
use footjob.Base.{All, All-In, Bool, Distinct, In, List, Str, [], any, ap, arith, false, inl}
use footjob.Base.{inr, leb, some, sorted, str_eq, subst, sym, true, unique, ◌&&◌, ◌||◌, ◌∙◌}
use footjob.Base.{◌≡◌, ◌≢◌}
use footjob.Lexical.{label_matches, label_candidate, label_similarity, better, LabelMatch}
use footjob.Lexical.Tokens.{Unicode}
use footjob.Lexical.Greedy.{candidate_pairs}
use footjob.Lexical.Candidates.{candidate_pairs-Drawn, In-candidate_pairs, unique-In, In-unique}
use footjob.Base.Sorting.{Ordered, In-sorted, sorted-In, sorted-Ordered}
use footjob.Lexical.Pairing.{greedy-swap, greedy-Distinct, greedy-In, greedy-blocked}

-- A pairing of labels: no label is paired twice, the pairs are of the given labels and have their
-- similarity, which is not zero; and where two labels are similar, one of them is in a pair that is
-- as similar at least.
pub record IsMatching (u : Unicode) (left right : List Str) (ms : List LabelMatch) : Type 0 where
  pub left_once : Distinct (λ m n. str_eq m.left n.left) ms
  pub right_once : Distinct (λ m n. str_eq m.right n.right) ms
  pub drawn :
      All
        (λ m.
          In m.left left
          × In m.right right
          × (m.similarity ≡ label_similarity u m.left m.right)
          × (m.similarity ≢ 0))
        ms
  pub best :
      (l r : Str)
      → In l left
      → In r right
      → label_similarity u l r ≢ 0
      → any
          (λ m. leb (label_similarity u l r) m.similarity && (str_eq m.left l || str_eq m.right r))
          ms
        ≡ true

module _ (u : Unicode) (left right : List Str) where
  abbrev at_least : LabelMatch → LabelMatch → Bool
  at_least m n = leb n.similarity m.similarity

  at_least_self : (m : LabelMatch) → at_least m m ≡ true
  at_least_self m = ground arith

  candidates : List LabelMatch
  unfolding unique str_eq candidate_pairs
  candidates = candidate_pairs (label_candidate u) (unique str_eq left) (unique str_eq right)

  candidates-Ordered : Ordered at_least (sorted better candidates)
  unfolding better
  candidates-Ordered = sorted-Ordered better at_least before after onward candidates
    where
      before : (x y : LabelMatch) → better y x ≡ true → at_least y x ≡ true
      before x y h = ground arith

      after : (x y : LabelMatch) → better y x ≡ false → at_least x y ≡ true
      after x y h = ground arith

      onward :
          (x y z : LabelMatch) → at_least x y ≡ true → at_least y z ≡ true → at_least x z ≡ true
      onward x y z h k = ground arith

  made-Similar :
      (l r : Str) (m : LabelMatch)
      → label_candidate u l r ≡ some m
      → (l ≡ m.left) × (r ≡ m.right) × (m.similarity ≡ label_similarity u l r) × (m.similarity ≢ 0)
  unfolding label_candidate
  made-Similar l r m e = ground arith

  candidate-made :
      (l r : Str)
      → label_similarity u l r ≢ 0
      → label_candidate u l r
        ≡ some (record { left = l; right = r; similarity = label_similarity u l r })
  unfolding label_candidate
  candidate-made l r h = ground arith

  label_matches-drawn :
      (m : LabelMatch)
      → In m (label_matches u left right)
      → In m.left left
        × In m.right right
        × (m.similarity ≡ label_similarity u m.left m.right)
        × (m.similarity ≢ 0)
  unfolding label_matches candidates
  label_matches-drawn m h =
      let d =
        candidate_pairs-Drawn (label_candidate u) (unique str_eq left) (unique str_eq right) m
          (sorted-In better candidates m (greedy-In _ _ [] [] (sorted better candidates) m h)) in
      let s = made-Similar d.from_left d.from_right m d.made in
      (
        subst (λ l. In l left) s.0 (unique-In left _ d.in_left),
        subst (λ r. In r right) s.1 (unique-In right _ d.in_right),
        s.2 ∙ ap (λ l. label_similarity u l d.from_right) s.0 ∙ ap (label_similarity u m.left) s.1,
        s.3,
      )

  label_matches-best :
      (l r : Str)
      → In l left
      → In r right
      → label_similarity u l r ≢ 0
      → any
          (λ m. leb (label_similarity u l r) m.similarity && (str_eq m.left l || str_eq m.right r))
          (label_matches u left right)
        ≡ true
  unfolding label_matches candidates
  label_matches-best l r m n similar =
      elim (greedy-blocked (λ m. m.left) (λ m. m.right) at_least at_least_self [] []
        (sorted better candidates)
        (record { left = l; right = r; similarity = label_similarity u l r }) candidates-Ordered
        (In-sorted better candidates _ (
          In-candidate_pairs (label_candidate u) l r (unique str_eq left) (unique str_eq right) _
            (In-unique left l m) (In-unique right r n) (candidate-made l r similar)))) [
              | inl used ↦ cc
              | inr met ↦ met
            ]

-- The pairs of labels that are matched use no label twice, are of the given labels and carry
-- their similarity, which is not zero; and for any two labels that are similar, one of the two is
-- in a pair that is as similar at least.
pub label_matches-IsMatching :
    (u : Unicode) (left right : List Str) → IsMatching u left right (label_matches u left right)
unfolding label_matches candidates
label_matches-IsMatching u left right = record {
  left_once = greedy-Distinct _ _ [] [] (sorted better (candidates u left right));
  right_once =
      subst (Distinct (λ m n. str_eq m.right n.right))
        (sym (greedy-swap (λ m. m.left) (λ m. m.right) [] [] _))
        (greedy-Distinct _ _ [] [] (sorted better (candidates u left right)));
  drawn = All-In _ _ (label_matches-drawn u left right);
  best = label_matches-best u left right;
}
