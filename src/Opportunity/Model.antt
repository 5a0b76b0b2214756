-- ===== src/Opportunity/Model.antt =====
-- The definitions of kairos/opportunities.py. `digest` stands for `sha256` of the JSON text of the
-- payload of a double chance.
use urim_platform.Base.{
  ℕ, min, String, Bool, true, false, not, ◌&&◌, ◌||◌, Option, none, some, List, [], ◌∷◌, ◌++◌, map,
  leb, ◌==◌, if◌then◌else◌, length, any, conjunction, disjunction, Result, ok, err, ◌>>=◌,
}
use urim_platform.Base.Text.{text_le, is_sha256_hex}
use urim_platform.Float.{Float, lt, fmax}
use urim_platform.Market.{
  Market, first_half_more_goals, second_half_more_goals, equal_half_goals, first_half_over_0_5,
  second_half_over_0_5, second_half_over_1_5, home_or_draw, away_or_draw, home_or_away, MarketGroup,
  market_group,
}
use urim_platform.HalfTime.{
  is_unit, is_between, KairosHalfTimeMarketAnalysis, HalfTimeReason, Guardrail, stale_source_data,
  Risk, elevated, probability_threshold, data_quality_threshold, technical_confidence_threshold,
}
use urim_platform.Response.{KairosMarketProbabilities, is_fresh, KairosAnalysisResponse}

abbrev pub max_alternatives_per_match : ℕ
max_alternatives_per_match = 2

-- The market's text, by which ties are broken.
unfoldable pub market_name : Market → String
market_name first_half_more_goals = "FIRST_HALF_MORE_GOALS"
market_name second_half_more_goals = "SECOND_HALF_MORE_GOALS"
market_name equal_half_goals = "EQUAL_HALF_GOALS"
market_name first_half_over_0_5 = "FIRST_HALF_OVER_0_5"
market_name second_half_over_0_5 = "SECOND_HALF_OVER_0_5"
market_name second_half_over_1_5 = "SECOND_HALF_OVER_1_5"
market_name home_or_draw = "HOME_OR_DRAW"
market_name away_or_draw = "AWAY_OR_DRAW"
market_name home_or_away = "HOME_OR_AWAY"

pub data CandidateReason : Type 0 where
  half_time_reason : HalfTimeReason → CandidateReason
  derived_from_baseline uncalibrated_signal : CandidateReason

pub record KairosOpportunityCandidate (F : Type 0) : Type 0 where
  pub market : Market
  pub estimated_probability : F
  pub data_quality_score : F
  pub technical_confidence_score : F
  pub sample_size : ℕ
  pub risk : Risk
  pub reasons : List CandidateReason
  pub guardrails : List Guardrail
  pub analysis_hash : String

-- What the hash of a double chance is taken of.
pub record DoubleChancePayload (F : Type 0) : Type 0 where
  pub feature_snapshot_hash : String
  pub market : Market
  pub model_version : String
  pub probability : F

pub data OpportunityError : Type 0 where
  only_eligible_analyses_are_candidates candidate_validation_error : OpportunityError
  opportunity_validation_error : OpportunityError

pub data Section : Type 0 where
  half_time goal_markets double_chance watch no_bet insufficient_data : Section

pub data SafetyDecision : Type 0 where
  analysis_allowed no_bet insufficient_data : SafetyDecision

pub data KairosRejectionReason : Type 0 where
  insufficient_half_time_data low_data_quality low_technical_confidence : KairosRejectionReason
  estimated_probability_below_threshold stale_data critical_guardrail : KairosRejectionReason
  provider_data_partial : KairosRejectionReason

pub data KairosMissingData : Type 0 where
  half_time_scores goal_events h2h standings match_statistics : KairosMissingData

abbrev pub section_of : Market → Section
section_of first_half_more_goals = Section.half_time
section_of second_half_more_goals = Section.half_time
section_of equal_half_goals = Section.half_time
section_of first_half_over_0_5 = goal_markets
section_of second_half_over_0_5 = goal_markets
section_of second_half_over_1_5 = goal_markets
section_of _ = Section.double_chance

abbrev pub same_group : MarketGroup → MarketGroup → Bool
same_group MarketGroup.half_time MarketGroup.half_time = true
same_group MarketGroup.double_chance MarketGroup.double_chance = true
same_group _ _ = false

abbrev pub is_stale_guardrail : Guardrail → Bool
is_stale_guardrail stale_source_data = true
is_stale_guardrail _ = false

-- `dict.fromkeys(reasons)`: the numbers tell the reasons apart.
abbrev pub reason_number : KairosRejectionReason → ℕ
reason_number insufficient_half_time_data = 0
reason_number low_data_quality = 1
reason_number low_technical_confidence = 2
reason_number estimated_probability_below_threshold = 3
reason_number stale_data = 4
reason_number critical_guardrail = 5
reason_number provider_data_partial = 6

abbrev pub has_reason : List KairosRejectionReason → KairosRejectionReason → Bool
has_reason reasons r = any (λ q. reason_number q == reason_number r) reasons

unfoldable pub distinct_reasons :
    List KairosRejectionReason → List KairosRejectionReason → List KairosRejectionReason
distinct_reasons kept [] = kept
distinct_reasons kept (r ∷ reasons) =
    distinct_reasons (if has_reason kept r then kept else kept ++ (r ∷ [])) reasons

-- `if test: reasons.append(r)`
abbrev pub append_if : {A : Type 0} → Bool → A → List A → List A
append_if test r reasons = if test then reasons ++ (r ∷ []) else reasons

module _ {F : Type 0} ⦃fl : Float F⦄ where
  -- `max(xs)` of a list that is not empty, its head given apart.
  abbrev pub max_from : F → List F → F
  max_from best [] = best
  max_from best (x ∷ xs) = max_from (fmax best x) xs

  -- `xs and max(xs) < bound`
  abbrev pub max_below : List F → F → Bool
  max_below [] bound = false
  max_below (x ∷ xs) bound = lt (max_from x xs) bound

  abbrev pub known_probabilities : List (KairosHalfTimeMarketAnalysis F) → List F
  known_probabilities [] = []
  known_probabilities (m ∷ markets) = elim m.estimated_probability [
    | none ↦ known_probabilities markets
    | some p ↦ p ∷ known_probabilities markets
  ]

  -- The fields of `KairosOpportunityCandidate`: true where the constructor raises nothing.
  unfoldable pub meets_candidate_schema : KairosOpportunityCandidate F → Bool
  meets_candidate_schema c = conjunction (
      is_unit c.estimated_probability
      ∷ is_between (fl.lit 0 0) (fl.lit 100 0) c.data_quality_score
      ∷ is_between (fl.lit 0 0) (fl.lit 650 1) c.technical_confidence_score
      ∷ leb c.sample_size 50
      ∷ leb 1 (length c.reasons)
      ∷ leb (length c.reasons) 6
      ∷ leb (length c.guardrails) 6
      ∷ is_sha256_hex c.analysis_hash
      ∷ [])

  -- The constructor of pydantic: a `ValidationError` where the schema is not met.
  abbrev pub validated_candidate :
      KairosOpportunityCandidate F → Result OpportunityError (KairosOpportunityCandidate F)
  validated_candidate c = if meets_candidate_schema c then ok c else err candidate_validation_error

  -- The candidate of an analysis with this probability.
  abbrev pub candidate_of : KairosHalfTimeMarketAnalysis F → F → KairosOpportunityCandidate F
  candidate_of m p = record {
    market = m.market;
    estimated_probability = p;
    data_quality_score = m.data_quality_score;
    technical_confidence_score = m.technical_confidence_score;
    sample_size = m.sample_size;
    risk = m.risk;
    reasons = map half_time_reason m.reasons;
    guardrails = m.guardrails;
    analysis_hash = m.analysis_hash;
  }

  unfoldable pub half_time_candidate :
      KairosHalfTimeMarketAnalysis F → Result OpportunityError (KairosOpportunityCandidate F)
  unfolding meets_candidate_schema
  half_time_candidate m = elim m.estimated_probability [
    | none ↦ err only_eligible_analyses_are_candidates
    | some p ↦
        if m.eligible_for_opportunity
        then validated_candidate (candidate_of m p)
        else err only_eligible_analyses_are_candidates
  ]

  -- The candidates of the eligible markets.
  unfoldable pub half_time_candidates :
      List (KairosHalfTimeMarketAnalysis F)
      → Result OpportunityError (List (KairosOpportunityCandidate F))
  half_time_candidates [] = ok []
  half_time_candidates (m ∷ markets) =
      let rest = half_time_candidates markets in
      if m.eligible_for_opportunity
      then (half_time_candidate m >>= λ c. rest >>= λ cs. ok (c ∷ cs))
      else rest

  -- `max(options.items(), key=…)`: the first of the largest.
  abbrev pub better : Market × F → Market × F → Market × F
  better a b = if lt a.1 b.1 then b else a

  abbrev pub best_double_chance : KairosMarketProbabilities F → Market × F
  best_double_chance p =
      better (better (home_or_draw, p.home_or_draw) (away_or_draw, p.away_or_draw))
        (home_or_away, p.home_or_away)

  abbrev pub double_chance_payload : KairosAnalysisResponse F → Market → F → DoubleChancePayload F
  double_chance_payload a market probability = record {
    feature_snapshot_hash = a.feature_snapshot_hash;
    market = market;
    model_version = a.model_version;
    probability = probability;
  }

  -- What the service hands to the constructor for a double chance.
  abbrev pub double_chance_of :
      (DoubleChancePayload F → String)
      → KairosAnalysisResponse F
      → Market × F
      → KairosOpportunityCandidate F
  double_chance_of digest a (market, probability) = record {
    market = market;
    estimated_probability = probability;
    data_quality_score = a.data_quality_score;
    technical_confidence_score = a.confidence_score;
    sample_size = min a.home_sample_size a.away_sample_size;
    risk = elevated;
    reasons = derived_from_baseline ∷ uncalibrated_signal ∷ [];
    guardrails = [];
    analysis_hash = digest (double_chance_payload a market probability);
  }

  unfoldable pub double_chance_candidate :
      (DoubleChancePayload F → String)
      → KairosAnalysisResponse F
      → Result OpportunityError (Option (KairosOpportunityCandidate F))
  unfolding meets_candidate_schema
  double_chance_candidate digest a = elim a.market_probabilities [
    | none ↦ ok none
    | some probabilities ↦
        if disjunction (
          a.suggestion_no_bet
          ∷ not (is_fresh a.data_freshness)
          ∷ lt a.data_quality_score data_quality_threshold
          ∷ lt a.confidence_score technical_confidence_threshold
          ∷ lt (best_double_chance probabilities).1 probability_threshold
          ∷ [])
        then ok none
        else (validated_candidate (double_chance_of digest a (best_double_chance probabilities))
            >>= λ c. ok (some c))
  ]

  -- The order of the sort key `(-probability, -quality, -confidence, market)`.
  abbrev pub key_le : KairosOpportunityCandidate F → KairosOpportunityCandidate F → Bool
  key_le a b =
      lt b.estimated_probability a.estimated_probability
      || (fl.le b.estimated_probability a.estimated_probability
          && (lt b.data_quality_score a.data_quality_score
              || (fl.le b.data_quality_score a.data_quality_score
                  && (lt b.technical_confidence_score a.technical_confidence_score
                      || (fl.le b.technical_confidence_score a.technical_confidence_score
                          && text_le (market_name a.market) (market_name b.market))))))

  abbrev pub group_of : KairosOpportunityCandidate F → MarketGroup
  group_of c = market_group c.market

  -- The loop over `candidates[1:]`.
  unfoldable pub alternatives_from :
      List MarketGroup
      → List (KairosOpportunityCandidate F)
      → List (KairosOpportunityCandidate F)
      → List (KairosOpportunityCandidate F)
  alternatives_from used kept [] = kept
  alternatives_from used kept (c ∷ candidates) =
      let skipped = alternatives_from used kept candidates in
      let longer = kept ++ (c ∷ []) in
      let rest = alternatives_from (group_of c ∷ used) longer candidates in
      if any (same_group (group_of c)) used
      then skipped
      else if leb max_alternatives_per_match (length longer)
      then longer
      else rest

  unfoldable pub alternatives_of :
      List (KairosOpportunityCandidate F) → List (KairosOpportunityCandidate F)
  unfolding alternatives_from
  alternatives_of [] = []
  alternatives_of (primary ∷ candidates) = alternatives_from (group_of primary ∷ []) [] candidates
