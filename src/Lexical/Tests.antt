-- ===== src/Lexical/Tests.antt =====
-- Labels in ASCII, compared and paired.
use footjob.Base.{List, Str, [], codes, is_ascii_alpha, is_ascii_digit, lower, lower_char}
use footjob.Base.{refl, ◌||◌, ◌∷◌, ◌≡◌}
use footjob.Lexical.{label_similarity, label_matches}
use footjob.Lexical.Matches.{IsMatching, label_matches-IsMatching}
use footjob.Lexical.Tokens.{Unicode}

unfoldable pub ascii : Unicode
unfolding lower is_ascii_alpha is_ascii_digit
ascii = record {
  nfkc = λ s. s;
  casefold = lower;
  isalpha = is_ascii_alpha;
  isalnum = λ c. is_ascii_alpha c || is_ascii_digit c;
}

abbrev wanted : List Str
wanted = codes "Python developer" ∷ codes "designer" ∷ []

abbrev offered : List Str
offered = codes "developer (python)" ∷ codes "backend developer" ∷ []

same_concepts :
    label_similarity ascii (codes "Python developer") (codes "developer (python)") ≡ 10000
unfolding label_similarity ascii footjob.Base.lower_char footjob.Base.Decimal.half_even
    footjob.Base.Decimal.rounded footjob.Base.Decimal.at_places footjob.Base.Decimal.places_from
same_concepts = refl

half_of_the_concepts :
    label_similarity ascii (codes "backend developer") (codes "Python developer") ≡ 5000
unfolding label_similarity ascii footjob.Base.lower_char footjob.Base.Decimal.half_even
    footjob.Base.Decimal.rounded footjob.Base.Decimal.at_places footjob.Base.Decimal.places_from
half_of_the_concepts = refl

acronym : label_similarity ascii (codes "qa") (codes "quality assurance") ≡ 10000
unfolding label_similarity ascii footjob.Base.lower_char
acronym = refl

best_pair :
    label_matches ascii wanted offered
    ≡ record {
      left = codes "Python developer";
      right = codes "developer (python)";
      similarity = 10000;
    }
      ∷ []
unfolding label_matches label_similarity ascii footjob.Base.lower_char
    footjob.Base.Decimal.half_even footjob.Base.Decimal.rounded footjob.Base.Decimal.at_places
    footjob.Base.Decimal.places_from
best_pair = refl

label_matches-IsMatching_example :
    IsMatching ascii wanted offered (label_matches ascii wanted offered)
label_matches-IsMatching_example = label_matches-IsMatching ascii wanted offered
