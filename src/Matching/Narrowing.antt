-- ===== src/Matching/Narrowing.antt =====
-- Narrowing drops no profile that the hard filters would keep, except for its targets.
use footjob.Base.{All, All-map, Bool, Bool-cases, In, List, Option-cases, Result, [], ap}
use footjob.Base.{arith, err, false, if◌then◌else◌, inl, inr, length, none, not, ok, refl}
use footjob.Base.{select, select-In, some, subst, sym, true, ◌&&◌, ◌+◌, ◌>>=◌, ◌∙◌, ◌∷◌, ◌≡◌}
use footjob.Base.{◌⊎◌}
use footjob.Matching.{candidate_exclusion, targets_apart, takes_part}
use footjob.Matching.{looked_at, narrowing_result, candidates, excluded, evaluate_all, eligible_of}
use footjob.Matching.{narrow_and_filter_candidates}
use footjob.Matching.Records.{CanonicalOpportunityRecord, SearchProfileRecord, HardFilterDecision}
use footjob.Matching.Records.{CandidateNarrowingResult, CandidateExclusion}
use footjob.Matching.Records.{CandidateExclusionCode}
use footjob.Matching.Filters.{Alphabet, evaluate_hard_filters}
use footjob.Matching.Findings.{is_open}
use footjob.Matching.Passing.{plain_accepted, evaluate_hard_filters_lem, budget_findings-ok}
use footjob.Matching.Passing.{HasAmount, clear}

abbrev pub passed_by : Result HardFilterDecision → Bool
passed_by (err raised) = false
passed_by (ok decision) = decision.eligible

-- The decision of the hard filters on the pair alone.
abbrev pub passes : Alphabet → CanonicalOpportunityRecord → SearchProfileRecord → Bool
passes a o p = passed_by (evaluate_hard_filters a o p)

-- What a search without narrowing would keep.
abbrev pub kept : Alphabet → CanonicalOpportunityRecord → SearchProfileRecord → Bool
kept a o p = passes a o p && not (targets_apart a.unicode o.analysis p)

-- The exclusion is of one of the profiles, and of one that would not be kept.
abbrev pub Excluded :
    Alphabet → CanonicalOpportunityRecord → List SearchProfileRecord → CandidateExclusion → Type 0
Excluded a o profiles x =
    (p : SearchProfileRecord) × In p profiles × (p.id ≡ x.profile_id) × (kept a o p ≡ false)

-- The result against the search without narrowing: the same profiles in the same order, none
-- lost without a reason, and the numbers of the trace.
pub record IsNarrowing (a : Alphabet) (o : CanonicalOpportunityRecord)
    (profiles : List SearchProfileRecord) (r : CandidateNarrowingResult) : Type 0 where
  pub same_profiles : r.eligible_profiles ≡ select (kept a o) profiles
  pub all_excluded : All (Excluded a o profiles) r.trace.exclusions
  pub eligible_counted : r.trace.hard_filter_eligible_count ≡ length r.eligible_profiles
  pub candidates_counted : r.trace.narrowed_candidate_count ≡ length r.decisions
  pub active_counted :
      (if is_open o.lifecycle_status then r.trace.active_profile_count else 0)
      ≡ r.trace.narrowed_candidate_count + length r.trace.exclusions

and_left : (b c : Bool) → (b && c) ≡ true → b ≡ true
and_left b c h = ground arith

module _ (a : Alphabet) (o : CanonicalOpportunityRecord)
    (amount : HasAmount o.analysis.budget) where
  decided :
      (p : SearchProfileRecord)
      → (d : HardFilterDecision) × (evaluate_hard_filters a o p ≡ ok d)
        × (d.profile ≡ p)
        × (passes a o p ≡ true → plain_accepted a o p ≡ true)
  decided p =
      let (found, q) = budget_findings-ok a o.analysis.budget p.preferences amount in
      let (d, e, own, eligible) = evaluate_hard_filters_lem a o p found q in
      (
        d,
        e,
        own,
        λ pass.
            and_left (plain_accepted a o p) (clear found)
              (sym eligible ∙ sym (ap passed_by e) ∙ pass),
      )

  -- A profile that is dropped before the hard filters fails them, or its targets are apart.
  candidate_exclusion-kept :
      (p : SearchProfileRecord) (code : CandidateExclusionCode)
      → candidate_exclusion a.unicode o.analysis p ≡ some code
      → kept a o p ≡ false
  unfolding candidate_exclusion
  candidate_exclusion-kept p code h = ground (arith, (decided p).3)

  not_excluded-kept :
      (p : SearchProfileRecord)
      → candidate_exclusion a.unicode o.analysis p ≡ none
      → kept a o p ≡ passes a o p
  unfolding candidate_exclusion
  not_excluded-kept p h = ground arith

  takes_part-kept : (p : SearchProfileRecord) → takes_part p ≡ false → kept a o p ≡ false
  unfolding takes_part
  takes_part-kept p h = ground (arith, (decided p).3)

  open-kept : (p : SearchProfileRecord) → is_open o.lifecycle_status ≡ false → kept a o p ≡ false
  open-kept p h = ground (arith, (decided p).3)

  evaluate_all-eligible :
      (ps : List SearchProfileRecord)
      → (ds : List HardFilterDecision) × (evaluate_all a o ps ≡ ok ds)
        × (eligible_of ds ≡ select (passes a o) ps)
        × (length ds ≡ length ps)
  unfolding evaluate_all eligible_of select
  evaluate_all-eligible [] = ([], refl, refl, refl)
  evaluate_all-eligible (p ∷ ps) =
      let (d, e, own, plain) = decided p in
      let (ds, es, rest, count) = evaluate_all-eligible ps in
      (d ∷ ds, rw (e, es), rw (own, rest, e), omega (arith, count))

  candidates-kept :
      (ps : List SearchProfileRecord)
      → select (passes a o) (candidates a.unicode o.analysis ps) ≡ select (kept a o) ps
  unfolding candidates select
  candidates-kept [] = refl
  candidates-kept (p ∷ ps) = elim (Option-cases (candidate_exclusion a.unicode o.analysis p)) [
    | inl e ↦ ground (arith, e, not_excluded-kept p e, candidates-kept ps)
    | inr (code, e) ↦ ground (arith, e, candidate_exclusion-kept p code e, candidates-kept ps)
  ]

  takes_part-select :
      (ps : List SearchProfileRecord)
      → select (kept a o) (select takes_part ps) ≡ select (kept a o) ps
  unfolding select
  takes_part-select [] = refl
  takes_part-select (p ∷ ps) = ground (arith, takes_part-kept p, takes_part-select ps)

  open-select :
      (ps : List SearchProfileRecord)
      → is_open o.lifecycle_status ≡ false
      → select (kept a o) ps ≡ []
  unfolding select
  open-select [] h = refl
  open-select (p ∷ ps) h = ground (arith, open-kept p h, open-select ps h)

  candidates-excluded :
      (ps : List SearchProfileRecord)
      → length ps
        ≡ length (candidates a.unicode o.analysis ps) + length (excluded a.unicode o.analysis ps)
  unfolding candidates excluded
  candidates-excluded [] = refl
  candidates-excluded (p ∷ ps) = ground (arith, candidates-excluded ps)

  excluded_head :
      (p : SearchProfileRecord) (ps : List SearchProfileRecord)
      → (excluded a.unicode o.analysis (p ∷ ps) ≡ excluded a.unicode o.analysis ps)
        ⊎ ((code : CandidateExclusionCode) × (candidate_exclusion a.unicode o.analysis p
              ≡ some code)
            × (excluded a.unicode o.analysis (p ∷ ps)
                ≡ record { profile_id = p.id; code = code } ∷ excluded a.unicode o.analysis ps))
  unfolding excluded
  excluded_head p ps = elim (Option-cases (candidate_exclusion a.unicode o.analysis p)) [
    | inl e ↦ inl (ground (arith, e))
    | inr (code, e) ↦ inr (code, e, ground (arith, e))
  ]

  excluded-Excluded :
      (ps : List SearchProfileRecord) → All (Excluded a o ps) (excluded a.unicode o.analysis ps)
  unfolding excluded
  excluded-Excluded [] = tt
  excluded-Excluded (p ∷ ps) = elim (excluded_head p ps) [
    | inl e ↦ subst (All (Excluded a o (p ∷ ps))) (sym e) (wider (excluded-Excluded ps))
    | inr (code, x, e) ↦
        subst (All (Excluded a o (p ∷ ps))) (sym e)
          ((p, inl refl, refl, candidate_exclusion-kept p code x), wider (excluded-Excluded ps))
  ]
    where
      wider :
          All (Excluded a o ps) (excluded a.unicode o.analysis ps)
          → All (Excluded a o (p ∷ ps)) (excluded a.unicode o.analysis ps)
      wider h = All-map _ _ (λ x (q, m, i, k). (q, inr m, i, k)) _ h

  looked_at-kept :
      (ps : List SearchProfileRecord) → select (kept a o) (looked_at o ps) ≡ select (kept a o) ps
  unfolding looked_at select
  looked_at-kept ps = elim (Bool-cases (is_open o.lifecycle_status)) [
    | inl e ↦ rw e (takes_part-select ps)
    | inr e ↦ ground (arith, e, open-select ps e)
  ]

  looked_at-In :
      (ps : List SearchProfileRecord) (p : SearchProfileRecord) → In p (looked_at o ps) → In p ps
  unfolding looked_at
  looked_at-In ps p h = elim (Bool-cases (is_open o.lifecycle_status)) [
    | inl e ↦ (select-In takes_part ps p (rw e at h)).0
    | inr e ↦ absurd (rw e at h)
  ]

  counted :
      (ps : List SearchProfileRecord)
      → (if is_open o.lifecycle_status then length (select takes_part ps) else 0)
        ≡ length (candidates a.unicode o.analysis (looked_at o ps))
          + length (excluded a.unicode o.analysis (looked_at o ps))
  unfolding looked_at candidates excluded
  counted ps = elim (Bool-cases (is_open o.lifecycle_status)) [
    | inl e ↦ rw e (candidates-excluded (select takes_part ps))
    | inr e ↦ rw e
  ]

  pub narrow_and_filter_candidates-IsNarrowing :
      (profiles : List SearchProfileRecord)
      → (r : CandidateNarrowingResult) × (narrow_and_filter_candidates a o profiles ≡ ok r)
        × IsNarrowing a o profiles r
  unfolding narrow_and_filter_candidates narrowing_result
  narrow_and_filter_candidates-IsNarrowing profiles =
      let looked = looked_at o profiles in
      let narrowed = candidates a.unicode o.analysis looked in
      let (ds, e, q, n) = evaluate_all-eligible narrowed in
      (
        narrowing_result a o profiles ds,
        ap (λ r. r >>= (λ found. ok (narrowing_result a o profiles found))) e,
        record {
          same_profiles = q ∙ candidates-kept looked ∙ looked_at-kept profiles;
          all_excluded =
              All-map _ _ (λ x (p, m, i, k). (p, looked_at-In profiles p m, i, k)) _
                (excluded-Excluded looked);
          eligible_counted = refl;
          candidates_counted = sym n;
          active_counted = counted profiles;
        },
      )
