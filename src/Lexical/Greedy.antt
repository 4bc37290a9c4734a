-- ===== src/Lexical/Greedy.antt =====
-- The two loops that pair entries once each: the candidates of two lists, and the walk over the
-- sorted candidates that skips what is used.
use footjob.Base.{List, Option, Str, [], if◌then◌else◌, none, some, str_in, ◌++◌, ◌||◌}
use footjob.Base.{◌∷◌}

module _ {A : Type 0} where
  abbrev pub add_some : Option A → List A → List A
  add_some none xs = xs
  add_some (some x) xs = x ∷ xs

  unfoldable pub pairs_with : (Str → Str → Option A) → Str → List Str → List A
  pairs_with candidate left [] = []
  pairs_with candidate left (right ∷ rights) =
      add_some (candidate left right) (pairs_with candidate left rights)

  unfoldable pub candidate_pairs : (Str → Str → Option A) → List Str → List Str → List A
  unfolding pairs_with
  candidate_pairs candidate [] rights = []
  candidate_pairs candidate (left ∷ lefts) rights =
      pairs_with candidate left rights ++ candidate_pairs candidate lefts rights

  unfoldable pub greedy : (A → Str) → (A → Str) → List Str → List Str → List A → List A
  unfolding str_in
  greedy left right used_left used_right [] = []
  greedy left right used_left used_right (c ∷ cs) =
      let skipped = greedy left right used_left used_right cs in
      let paired = greedy left right (left c ∷ used_left) (right c ∷ used_right) cs in
      if str_in (left c) used_left || str_in (right c) used_right then skipped else c ∷ paired
