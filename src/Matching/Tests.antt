-- ===== src/Matching/Tests.antt =====
-- An order for a bot in Python against three profiles.
use footjob.Base.{List, Str, [], arith, codes, lower_char, none, ok, refl, select, some}
use footjob.Base.{str_eq, true, ◌↔◌, ◌∷◌, ◌≡◌}
use footjob.Base.Decimal.{Decimal, whole}
use footjob.Lexical.Tests.{ascii}
use footjob.Matching.{narrow_and_filter_candidates}
use footjob.Matching.Records.{
  Shown, AnalysisType, OpportunityType, BudgetPolicy, OpportunityLifecycleStatus,
}
use footjob.Matching.Records.{SearchProfileConfirmationStatus}
use footjob.Matching.Records.{CanonicalOpportunityRecord, SearchProfileTerm}
use footjob.Matching.Records.{SearchProfileRecord, HardFilterDecision}
use footjob.Matching.Filters.{Alphabet, evaluate_hard_filters}
use footjob.Matching.Suitable.{IsSuitable, evaluate_hard_filters-IsSuitable}
use footjob.Matching.Narrowing.{kept}
use footjob.Matching.Policy.{ComponentName, role, skills, category, work_type, budget, preferences}
use footjob.Matching.Policy.{default_policy, hundredths, StructuredCandidateScore}
use footjob.Matching.Scoring.{
  score_narrowed_candidates, StructuredScoringResult, score_candidate_structured,
}
use footjob.Matching.Scores.{Scored, score_narrowed_candidates-Scored}
use footjob.Matching.Bounds.{IsScore, IsQuality, score_candidate_structured-IsScore}

abbrev alphabet : Alphabet
alphabet = record { unicode = ascii; upper = λ s. s }

abbrev order : CanonicalOpportunityRecord
order = record {
  id = 1;
  lifecycle_status = OpportunityLifecycleStatus.active;
  analysis = record {
    opportunity_type = AnalysisType.project;
    category = some (codes "bots");
    role_title = none;
    skills = codes "Python" ∷ [];
    budget = record {
      known = true;
      min = some (whole 300);
      max = some (whole 500);
      currency = some (codes "EUR");
      explicit = true;
    };
    is_remote = some true;
    location = none;
    language = some (codes "EN");
    quality = record {
      actionability = hundredths 90;
      commercial_plausibility = hundredths 80;
      specificity = hundredths 70;
      credibility = hundredths 60;
    };
    red_flags = codes "prepayment" ∷ [];
  };
}

abbrev term : Str → SearchProfileTerm
term s = record { value = s; normalized_value = s }

abbrev bot_maker : SearchProfileRecord
bot_maker = record {
  id = 7;
  roles = [];
  skills = term (codes "python") ∷ [];
  categories = term (codes "bots") ∷ [];
  preferences = record {
    work_types = some (OpportunityType.project ∷ []);
    minimum_budget = some (whole 400);
    currency = some (codes "EUR");
    budget_policy = some BudgetPolicy.require_explicit;
    languages = some (term (codes "en") ∷ []);
    geographies = none;
    work_modes = none;
    excluded_categories = none;
  };
  confirmation_status = SearchProfileConfirmationStatus.confirmed;
  is_active = true;
}

-- The same wishes with a higher minimum.
abbrev expensive : SearchProfileRecord
expensive = record bot_maker {
  id = 8;
  preferences = record bot_maker.preferences { minimum_budget = some (whole 600) };
}

abbrev cook : SearchProfileRecord
cook = record bot_maker {
  id = 9;
  skills = term (codes "baking") ∷ [];
  categories = term (codes "kitchen") ∷ [];
}

abbrev profiles : List SearchProfileRecord
profiles = bot_maker ∷ expensive ∷ cook ∷ []

evaluate_hard_filters-IsSuitable_example :
    (d : HardFilterDecision) × (evaluate_hard_filters alphabet order expensive ≡ ok d)
    × ((d.eligible ≡ true) ↔ IsSuitable alphabet order expensive)
evaluate_hard_filters-IsSuitable_example =
    evaluate_hard_filters-IsSuitable alphabet order expensive (λ known. refl)

score_narrowed_candidates-Scored_example :
    (r : StructuredScoringResult) × (score_narrowed_candidates alphabet order profiles none
        default_policy
      ≡ ok r)
    × (narrow_and_filter_candidates alphabet order profiles ≡ ok r.candidates)
    × Scored order (select (kept alphabet order) profiles) r.scores
score_narrowed_candidates-Scored_example =
    score_narrowed_candidates-Scored alphabet order (λ known. refl) none default_policy profiles

order-IsQuality : IsQuality order.analysis.quality
unfolding hundredths
order-IsQuality = record {
  actionable = omega arith;
  plausible = omega arith;
  specific = omega arith;
  credible = omega arith;
}

-- The role is unknown; all else fits, and a red flag takes eight hundredths away.
abbrev bot_maker_score : StructuredCandidateScore
bot_maker_score = record {
  opportunity_id = 1;
  profile_id = 7;
  components =
      record { name = role; score = none; weight = hundredths 30; contribution = 0; evidence = [] }
      ∷ record {
        name = skills;
        score = some 10000;
        weight = hundredths 35;
        contribution = 3500;
        evidence = Shown.text (codes "python") ∷ [];
      }
      ∷ record {
        name = category;
        score = some 10000;
        weight = hundredths 15;
        contribution = 1500;
        evidence = Shown.text (codes "bots") ∷ [];
      }
      ∷ record {
        name = work_type;
        score = some 10000;
        weight = hundredths 8;
        contribution = 800;
        evidence = Shown.work_type OpportunityType.project ∷ [];
      }
      ∷ record {
        name = budget;
        score = some 10000;
        weight = hundredths 7;
        contribution = 700;
        evidence = Shown.amount (whole 500) ∷ Shown.text (codes "EUR") ∷ [];
      }
      ∷ record {
        name = preferences;
        score = some 10000;
        weight = hundredths 5;
        contribution = 500;
        evidence = Shown.text (codes "language:en") ∷ [];
      }
      ∷ [];
  user_relevance_score = 7000;
  opportunity_quality_score = 7500;
  source_quality_score = none;
  red_flag_penalty = 800;
  structured_score = 5575;
  source_quality_snapshot_id = none;
}

bot_maker_scored :
    score_candidate_structured alphabet order bot_maker none default_policy ≡ ok bot_maker_score
unfolding score_candidate_structured evaluate_hard_filters footjob.Base.str_eq
    footjob.Matching.Filters.standing_findings footjob.Matching.Filters.type_findings
    footjob.Matching.Filters.category_findings footjob.Matching.Findings.optional_identity ascii
    footjob.Matching.Filters.term_findings footjob.Base.lower_char
    footjob.Matching.Filters.mode_findings footjob.Matching.Findings.work_mode
    footjob.Base.Decimal.less whole footjob.Matching.Scoring.components_of
    footjob.Matching.Scoring.score_of footjob.Matching.Policy.score_component default_policy
    hundredths footjob.Matching.Filters.budget_findings footjob.Matching.Findings.normalized_values
    footjob.Matching.Findings.profile_opportunity_type footjob.Base.Decimal.half_even
    footjob.Base.Decimal.rounded footjob.Base.Decimal.at_places footjob.Base.Decimal.places_from
    footjob.Lexical.label_similarity footjob.Matching.identities
bot_maker_scored = refl

score_candidate_structured-IsScore_example : IsScore bot_maker_score
score_candidate_structured-IsScore_example =
    score_candidate_structured-IsScore alphabet order order-IsQuality bot_maker none
      bot_maker_scored
