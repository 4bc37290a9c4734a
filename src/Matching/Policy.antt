-- ===== src/Matching/Policy.antt =====
-- The policy and the records of a structured score (freelancer_bot/matching.py). The score and the
-- contribution of a component are in ten-thousandths: the code quantizes them to four places.
use footjob.Base.{List, Option, if◌then◌else◌, none, some, ℕ}
use footjob.Base.Decimal.{Decimal, whole, multiply, less, quantize}
use footjob.Matching.Records.{Shown}

pub record StructuredScoringPolicy : Type 0 where
  pub role_weight : Decimal
  pub skills_weight : Decimal
  pub category_weight : Decimal
  pub work_type_weight : Decimal
  pub budget_weight : Decimal
  pub preferences_weight : Decimal
  pub relevance_weight : Decimal
  pub opportunity_quality_weight : Decimal
  pub source_quality_weight : Decimal
  pub each_red_flag_penalty : Decimal
  pub maximum_red_flag_penalty : Decimal

unfoldable pub hundredths : ℕ → Decimal
hundredths n = record { coefficient = n; places = 2 }

unfoldable pub default_policy : StructuredScoringPolicy
default_policy = record {
  role_weight = hundredths 30;
  skills_weight = hundredths 35;
  category_weight = hundredths 15;
  work_type_weight = hundredths 8;
  budget_weight = hundredths 7;
  preferences_weight = hundredths 5;
  relevance_weight = hundredths 75;
  opportunity_quality_weight = hundredths 15;
  source_quality_weight = hundredths 10;
  each_red_flag_penalty = hundredths 8;
  maximum_red_flag_penalty = hundredths 32;
}

pub data ComponentName : Type 0 where
  role skills category work_type budget preferences : ComponentName

pub record StructuredScoreComponent : Type 0 where
  pub name : ComponentName
  pub score : Option ℕ
  pub weight : Decimal
  pub contribution : ℕ
  pub evidence : List Shown

-- What the source's quality is read from.
pub record SourceQualitySnapshot : Type 0 where
  pub id : ℕ
  pub opportunity_yield : Decimal
  pub buyer_intent_ratio : Decimal
  pub seller_ratio : Decimal
  pub spam_ratio : Decimal
  pub duplicate_ratio : Decimal

pub record StructuredCandidateScore : Type 0 where
  pub opportunity_id : ℕ
  pub profile_id : ℕ
  pub components : List StructuredScoreComponent
  pub user_relevance_score : ℕ
  pub opportunity_quality_score : ℕ
  pub source_quality_score : Option ℕ
  pub red_flag_penalty : ℕ
  pub structured_score : ℕ
  pub source_quality_snapshot_id : Option ℕ

-- The decimal that is held in ten-thousandths.
unfoldable pub of_quanta : ℕ → Decimal
of_quanta n = record { coefficient = n; places = 4 }

-- No value is negative.
unfoldable pub clamp : Decimal → Decimal
unfolding less whole
clamp value = if less (whole 1) value then whole 1 else value

unfoldable pub score_component :
    ComponentName → Option Decimal → Decimal → List Shown → StructuredScoreComponent
score_component name none weight evidence = record {
  name = name;
  score = none;
  weight = weight;
  contribution = 0;
  evidence = evidence;
}
score_component name (some score) weight evidence =
    let normalized_score = quantize (clamp score) in
    record {
      name = name;
      score = some normalized_score;
      weight = weight;
      contribution = quantize (multiply (of_quanta normalized_score) weight);
      evidence = evidence;
    }
