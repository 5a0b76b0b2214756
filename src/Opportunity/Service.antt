-- ===== src/Opportunity/Service.antt =====
-- Rejection reasons, missing data and `KairosOpportunityService.analyze` of
-- kairos/opportunities.py.
use urim_platform.Base.{
  String, Bool, not, ◌&&◌, ◌||◌, none, some, List, [], ◌∷◌, ◌++◌, map, ltb, if◌then◌else◌, length,
  any, all, Result, ok, err, ◌>>=◌, is_nil,
}
use urim_platform.Base.Text.{is_goal}
use urim_platform.Base.Sort.{sorted}
use urim_platform.Float.{Float}
use urim_platform.Observation.{KairosMatchDataset}
use urim_platform.HalfTime.{
  probability_threshold, data_quality_threshold, technical_confidence_threshold,
}
use urim_platform.Response.{is_blocking, is_fresh, KairosAnalysisResponse}
use urim_platform.Opportunity.Schema.{KairosMatchOpportunity, meets_opportunity_schema}
use urim_platform.Opportunity.Model.{
  opportunity_validation_error, KairosOpportunityCandidate, DoubleChancePayload, OpportunityError,
  Section, watch, SafetyDecision, analysis_allowed, KairosRejectionReason,
  insufficient_half_time_data, low_data_quality, low_technical_confidence,
  estimated_probability_below_threshold, stale_data, critical_guardrail, provider_data_partial,
  KairosMissingData, half_time_scores, goal_events, h2h, standings, match_statistics, section_of,
  is_stale_guardrail, has_reason, distinct_reasons, append_if, max_below, known_probabilities,
  half_time_candidates, double_chance_candidate, key_le, alternatives_of,
}

module _ {F : Type 0} ⦃fl : Float F⦄ where
  unfoldable pub raw_rejection_reasons : KairosAnalysisResponse F → List KairosRejectionReason
  raw_rejection_reasons a =
      let markets = a.half_time_analysis in
      let reasons =
        append_if (not (is_nil markets) && all (λ m. m.insufficient_data) markets)
          insufficient_half_time_data [] in
      let reasons =
        append_if
          (not (is_fresh a.data_freshness)
            || any (λ m. any is_stale_guardrail m.guardrails) markets)
          stale_data reasons in
      let reasons =
        append_if (max_below (map (λ m. m.data_quality_score) markets) data_quality_threshold)
          low_data_quality reasons in
      let reasons =
        append_if
          (max_below (map (λ m. m.technical_confidence_score) markets)
            technical_confidence_threshold)
          low_technical_confidence reasons in
      let reasons =
        append_if (max_below (known_probabilities markets) probability_threshold)
          estimated_probability_below_threshold reasons in
      let reasons =
        append_if
          (any (λ w. is_blocking w.severity) a.warnings
            || any (λ m. any (λ g. not (is_stale_guardrail g)) m.guardrails) markets)
          critical_guardrail reasons in
      append_if (any not a.availability) provider_data_partial reasons

  unfoldable pub rejection_reasons : KairosAnalysisResponse F → List KairosRejectionReason
  unfolding raw_rejection_reasons distinct_reasons
  rejection_reasons a =
      let reasons = raw_rejection_reasons a in
      distinct_reasons [] (if is_nil reasons then critical_guardrail ∷ [] else reasons)

  unfoldable pub missing_data :
      {V : Type 0} → KairosMatchDataset V → KairosAnalysisResponse F → List KairosMissingData
  unfolding is_goal
  missing_data d a =
      let markets = a.half_time_analysis in
      let missing =
        append_if (not (is_nil markets) && all (λ m. m.insufficient_data) markets) half_time_scores
          [] in
      let missing =
        append_if (not (any (λ e. is_goal e.event_type) d.events)) goal_events missing in
      let missing = append_if (ltb (length d.h2h_history) 3) h2h missing in
      let missing = append_if (ltb (length d.standings) 2) standings missing in
      append_if (is_nil d.statistics) match_statistics missing

-- The section of a match without a primary analysis.
abbrev pub blocked_section : Bool → List KairosRejectionReason → Section
blocked_section all_insufficient reasons =
    if all_insufficient
    then Section.insufficient_data
    else if has_reason reasons stale_data || has_reason reasons critical_guardrail
    then Section.no_bet
    else watch

module _ {F : Type 0} ⦃fl : Float F⦄ where
  -- The candidates of an analysis in order.
  unfoldable pub candidates_of :
      (DoubleChancePayload F → String)
      → KairosAnalysisResponse F
      → Result OpportunityError (List (KairosOpportunityCandidate F))
  unfolding double_chance_candidate
  candidates_of digest a = do
    half ← half_time_candidates a.half_time_analysis
    double ← double_chance_candidate digest a
    ok (sorted key_le (elim double [ none ↦ half | some c ↦ half ++ (c ∷ []) ]))

module _ {F V : Type 0} ⦃fl : Float F⦄ where
  -- The opportunity from the candidates in order, the first of which is the primary analysis.
  unfoldable pub opportunity_from :
      KairosMatchDataset V
      → KairosAnalysisResponse F
      → List (KairosOpportunityCandidate F)
      → KairosMatchOpportunity F
  opportunity_from d a [] =
      let all_insufficient = all (λ m. m.insufficient_data) a.half_time_analysis in
      record {
        provider_match_id = d.target.provider_match_id;
        kickoff_at = d.target.kickoff_at;
        home_team_name = d.target.home_team_name;
        away_team_name = d.target.away_team_name;
        competition_name = d.target.competition_name;
        section = blocked_section all_insufficient (rejection_reasons a);
        safety_decision =
            if all_insufficient then SafetyDecision.insufficient_data else SafetyDecision.no_bet;
        primary_analysis = none;
        alternative_analyses = [];
        evaluated_markets = a.half_time_analysis;
        rejection_reasons = rejection_reasons a;
        missing_data = missing_data d a;
        data_freshness = a.data_freshness;
      }
  opportunity_from d a (primary ∷ candidates) = record {
    provider_match_id = d.target.provider_match_id;
    kickoff_at = d.target.kickoff_at;
    home_team_name = d.target.home_team_name;
    away_team_name = d.target.away_team_name;
    competition_name = d.target.competition_name;
    section = section_of primary.market;
    safety_decision = analysis_allowed;
    primary_analysis = some primary;
    alternative_analyses = alternatives_of (primary ∷ candidates);
    evaluated_markets = a.half_time_analysis;
    rejection_reasons = [];
    missing_data = missing_data d a;
    data_freshness = a.data_freshness;
  }

  -- `KairosOpportunityService.analyze`, from the response of the analysis service on; the last
  -- step is the constructor of pydantic.
  unfoldable pub analyze :
      (DoubleChancePayload F → String)
      → KairosMatchDataset V
      → KairosAnalysisResponse F
      → Result OpportunityError (KairosMatchOpportunity F)
  unfolding candidates_of opportunity_from meets_opportunity_schema
  analyze digest d a = do
    candidates ← candidates_of digest a
    let o = opportunity_from d a candidates
    if meets_opportunity_schema o then ok o else err opportunity_validation_error
