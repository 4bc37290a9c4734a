-- ===== src/Lexical.antt =====
-- Lexical matching of labels: freelancer_bot/lexical_matching.py. Lexical/Tokens divides a text
-- into concepts; here labels are compared and paired by them.
-- A similarity is a decimal of four places, held in ten-thousandths. A set of texts is a list: what
-- the code does with one depends neither on the order nor on a repetition.
mod Greedy
pub mod Tokens
mod Candidates
mod Pairing
pub mod Matches
pub mod Tests
use footjob.Base.{Bool, List, Option, Str, [], any, codes, false, if◌then◌else◌, leb, length}
use footjob.Base.{ltb, none, not, some, sorted, starts_with, str_eq, str_in, str_lt, true}
use footjob.Base.{unique, ℕ, ◌&&◌, ◌*◌, ◌++◌, ◌-◌, ◌==◌, ◌||◌, ◌∷◌}
use footjob.Base.Decimal.{Decimal, whole, add_decimal, multiply, divide, quantize, rounded}
use Tokens.{Unicode, normalize_lexical_text, lexical_token_sequence, lexical_concepts}
use Tokens.{token_variants, acronym_of}
use Greedy.{candidate_pairs, greedy}

pub plural_variant : Str → Str → Bool
plural_variant shorter longer =
    leb 3 (length shorter)
    && (str_eq longer (shorter ++ codes "s")
        || str_eq longer (shorter ++ codes "es")
        || str_eq longer (shorter ++ codes "ies"))

-- The two that `sorted(…, key=len)` gives: a tie keeps the order.
by_length : (Str → Str → Bool) → Str → Str → Bool
by_length test left right =
    if ltb (length right) (length left) then test right left else test left right

-- `len(shorter) / len(longer) >= 0.75`, which no rounding of the quotient changes.
pub long_prefix : Str → Str → Bool
unfolding starts_with
long_prefix shorter longer =
    not (ltb (length shorter) 5 || ltb 3 (length longer - length shorter))
    && starts_with shorter longer
    && leb (3 * length longer) (4 * length shorter)

pub surface_concept_equivalent : Str → Str → Bool
unfolding str_eq by_length plural_variant long_prefix
surface_concept_equivalent left right =
    str_eq left right || by_length plural_variant left right || by_length long_prefix left right

pub concept_equivalent : Str → Str → Bool
unfolding any token_variants surface_concept_equivalent
concept_equivalent left right =
    any (λ left_variant. any (surface_concept_equivalent left_variant) (token_variants right))
      (token_variants left)

abbrev pub ConceptPair : Type 0
ConceptPair = Str × Str

-- The order of pairs of texts.
pub pair_lt : Str → Str → Str → Str → Bool
unfolding str_lt str_eq
pair_lt left right left' right' = str_lt left left' || (str_eq left left' && str_lt right right')

pub concept_pair : Str → Str → Option ConceptPair
unfolding concept_equivalent
concept_pair left right = if concept_equivalent left right then some (left, right) else none

pub greedy_concept_matches : List Str → List Str → List ConceptPair
unfolding candidate_pairs greedy sorted concept_pair pair_lt
greedy_concept_matches left right =
    greedy (λ pair. pair.0) (λ pair. pair.1) [] []
      (sorted (λ pair other. pair_lt pair.0 pair.1 other.0 other.1)
        (candidate_pairs concept_pair left right))

pub f1_from_match_count : ℕ → ℕ → ℕ → ℕ
unfolding whole add_decimal multiply divide quantize
f1_from_match_count match_count left_count right_count =
    let precision = divide (whole match_count) (whole left_count) in
    let recall = divide (whole match_count) (whole right_count) in
    if match_count == 0 || left_count == 0 || right_count == 0
    then 0
    else quantize
        (divide (multiply (multiply (whole 2) precision) recall) (add_decimal precision recall))

-- One token is the acronym of the other label's tokens.
pub is_acronym : List Str → List Str → Bool
unfolding acronym_of str_eq
is_acronym (token ∷ []) other = elim (acronym_of other) [
  | none ↦ false
  | some acronym ↦ str_eq acronym token
]
is_acronym tokens other = false

pub token_similarity : List Str → List Str → ℕ
unfolding is_acronym greedy_concept_matches f1_from_match_count
token_similarity left_tokens right_tokens =
    if is_acronym left_tokens right_tokens || is_acronym right_tokens left_tokens
    then 10000
    else f1_from_match_count (length (greedy_concept_matches left_tokens right_tokens))
        (length left_tokens) (length right_tokens)

unfoldable pub label_similarity : Unicode → Str → Str → ℕ
unfolding normalize_lexical_text lexical_token_sequence token_similarity
label_similarity u left right =
    if str_eq (normalize_lexical_text u left) (normalize_lexical_text u right)
    then 10000
    else token_similarity (lexical_token_sequence u left) (lexical_token_sequence u right)

pub record LabelMatch : Type 0 where
  pub left : Str
  pub right : Str
  pub similarity : ℕ

pub label_candidate : Unicode → Str → Str → Option LabelMatch
label_candidate u left right =
    let similarity = label_similarity u left right in
    if similarity == 0
    then none
    else some (record { left = left; right = right; similarity = similarity })

-- `key=lambda item: (-item[0], item[1], item[2])`
pub better : LabelMatch → LabelMatch → Bool
unfolding pair_lt
better match other =
    ltb other.similarity match.similarity
    || (match.similarity == other.similarity
        && pair_lt match.left match.right other.left other.right)

unfoldable pub label_matches : Unicode → List Str → List Str → List LabelMatch
unfolding unique str_eq candidate_pairs greedy sorted label_candidate better
label_matches u left right =
    greedy (λ match. match.left) (λ match. match.right) [] []
      (sorted better
        (candidate_pairs (label_candidate u) (unique str_eq left) (unique str_eq right)))

generic_target_concepts : List Str
generic_target_concepts =
    codes "develop"
    ∷ codes "developer"
    ∷ codes "job"
    ∷ codes "project"
    ∷ codes "работа"
    ∷ codes "разработчик"
    ∷ codes "specialist"
    ∷ codes "специалист"
    ∷ codes "work"
    ∷ []

pub is_specific : Str → Bool
unfolding str_in generic_target_concepts
is_specific concept = not (str_in concept generic_target_concepts)

pub specific_label : Unicode → Str → Bool
unfolding any lexical_concepts is_specific
specific_label u label = any is_specific (lexical_concepts u label)

-- A similar pair of labels with an equivalent pair of concepts, one of them specific.
pub strong_match : Unicode → LabelMatch → Bool
unfolding any lexical_concepts concept_equivalent is_specific
strong_match u match =
    leb 6000 match.similarity
    && any
        (λ left_concept.
          any
            (λ right_concept.
              concept_equivalent left_concept right_concept
              && (is_specific left_concept || is_specific right_concept))
            (lexical_concepts u match.right))
        (lexical_concepts u match.left)

pub exact_match : Unicode → LabelMatch → Bool
unfolding specific_label
exact_match u match =
    match.similarity == 10000 && (specific_label u match.left || specific_label u match.right)

is_empty : {A : Type 0} → List A → Bool
is_empty [] = true
is_empty (x ∷ xs) = false

unfoldable pub labels_have_overlap : Unicode → List Str → List Str → Bool
unfolding unique any label_matches strong_match exact_match specific_label is_empty
labels_have_overlap u left right =
    let left_labels = unique str_eq left in
    let right_labels = unique str_eq right in
    let matches = label_matches u left_labels right_labels in
    not (is_empty matches)
    && (any (strong_match u) matches
        || any (exact_match u) matches
        || not (any (specific_label u) left_labels)
        || not (any (specific_label u) right_labels))

unfoldable pub labels_f1 : Unicode → List Str → List Str → ℕ × List LabelMatch
unfolding unique label_matches f1_from_match_count
labels_f1 u left right =
    let matches = label_matches u left right in
    (
      f1_from_match_count (length matches) (length (unique str_eq left))
          (length (unique str_eq right)),
      matches,
    )
