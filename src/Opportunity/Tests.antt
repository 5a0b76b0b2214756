-- ===== src/Opportunity/Tests.antt =====
-- The opportunity of one match, with fractions for floats.
use urim_platform.Base.Sort.{IsSorted}
use urim_platform.HalfTime.{
  Fingerprint, analyze_half_time_markets, KairosHalfTimeMarketAnalysis, elevated,
  meets_analysis_schema, validate_half_time_gate, recent_matches,
}
use urim_platform.Base.{
  ℕ, ◌≤◌, String, ◌≡◌, refl, ap, true, false, some, List, [], ◌∷◌, map, arith, length, All, ok,
}
use mathlib.Core.Option.{some-injective}
use urim_platform.Base.Select.{length-map}
use urim_platform.Dataset.Tests.{dataset-temporal, dataset-integrity}
use urim_platform.HalfTime.Total.{analyze_half_time_markets_lem}
use urim_platform.Opportunity.Schema.{
  KairosMatchOpportunity, validate_primary_contract, meets_opportunity_schema,
}
use urim_platform.Opportunity.Origin.{IsGrounded, analyze-IsGrounded}
use urim_platform.HalfTime.Gate.{IsInRange}
use urim_platform.Market.{
  market_group, Market, half_time_markets, second_half_more_goals, first_half_over_0_5,
  home_or_draw,
}
use urim_platform.Float.Rational.{Fraction, fractions, fractions-Laws}
use urim_platform.Fixture.{dataset, some_hash}
use urim_platform.Response.{KairosMarketProbabilities, KairosAnalysisResponse, fresh}
use urim_platform.Opportunity.Model.{
  uncalibrated_signal, KairosOpportunityCandidate, DoubleChancePayload, key_le, alternatives_of,
}
use urim_platform.Opportunity.Service.{candidates_of, analyze}
use urim_platform.Opportunity.Selection.{IsUncorrelated, alternatives_of_lem}
use urim_platform.Opportunity.Ranking.{MeetsThresholds, FitsCandidate, IsMeant, candidates_of_lem}
use urim_platform.Opportunity.Contract.{FitsOpportunity, analyze_lem}

abbrev half_digest : Fingerprint Fraction → String
half_digest f = some_hash

abbrev digest : DoubleChancePayload Fraction → String
digest p = some_hash

abbrev candidate : Market → ℕ → KairosOpportunityCandidate Fraction
candidate market percent = record {
  market = market;
  estimated_probability = fractions.lit percent 2;
  data_quality_score = fractions.lit 800 1;
  technical_confidence_score = fractions.lit 600 1;
  sample_size = 8;
  risk = elevated;
  reasons = uncalibrated_signal ∷ [];
  guardrails = [];
  analysis_hash = some_hash;
}

abbrev analysis_ : Market → ℕ → KairosHalfTimeMarketAnalysis Fraction
analysis_ market percent = record {
  market = market;
  estimated_probability = some (fractions.lit percent 2);
  data_quality_score = fractions.lit 800 1;
  technical_confidence_score = fractions.lit 600 1;
  sample_size = 8;
  h2h_sample_size = 0;
  risk = elevated;
  reasons = recent_matches 8 ∷ [];
  guardrails = [];
  eligible_for_opportunity = true;
  insufficient_data = false;
  analysis_hash = some_hash;
}

abbrev probabilities : KairosMarketProbabilities Fraction
probabilities = record {
  home_win = fractions.lit 55 2;
  draw = fractions.lit 25 2;
  away_win = fractions.lit 20 2;
  home_or_draw = fractions.lit 80 2;
  away_or_draw = fractions.lit 45 2;
  home_or_away = fractions.lit 75 2;
  over_2_5 = fractions.lit 50 2;
  under_2_5 = fractions.lit 50 2;
  btts = fractions.lit 50 2;
}

abbrev response : KairosAnalysisResponse Fraction
response = record {
  model_version = "v1";
  market_probabilities = some probabilities;
  suggestion_no_bet = false;
  data_freshness = fresh;
  data_quality_score = fractions.lit 700 1;
  confidence_score = fractions.lit 600 1;
  home_sample_size = 5;
  away_sample_size = 4;
  feature_snapshot_hash = "snapshot";
  warnings = [];
  availability = true ∷ [];
  half_time_analysis = analysis_ first_half_over_0_5 75 ∷ analysis_ second_half_more_goals 85 ∷ [];
}

alternatives-one :
    alternatives_of (
      candidate second_half_more_goals 85
      ∷ candidate home_or_draw 80
      ∷ candidate first_half_over_0_5 75
      ∷ [])
    ≡ candidate home_or_draw 80 ∷ []
unfolding alternatives_of market_group
alternatives-one = refl

alternatives_of_lem_example :
    IsUncorrelated (
      candidate second_half_more_goals 85
      ∷ alternatives_of (
          candidate second_half_more_goals 85
          ∷ candidate home_or_draw 80
          ∷ candidate first_half_over_0_5 75
          ∷ []))
    × All
        (λ c. c.sample_size ≡ 8)
        (alternatives_of (
          candidate second_half_more_goals 85
          ∷ candidate home_or_draw 80
          ∷ candidate first_half_over_0_5 75
          ∷ []))
alternatives_of_lem_example =
    alternatives_of_lem (λ c. c.sample_size ≡ 8) (candidate second_half_more_goals 85)
      (candidate home_or_draw 80 ∷ candidate first_half_over_0_5 75 ∷ []) (refl, (refl, tt))

fits_candidate :
    (l : List (KairosHalfTimeMarketAnalysis Fraction))
    → FitsCandidate digest (record response { half_time_analysis = l })
fits_candidate l = record {
  hexadecimal = λ p. refl;
  likely = λ p e.
      let same : probabilities ≡ p = some-injective probabilities p e in
      rw (← same) (refl, refl, refl);
  quality = refl;
  confidence = refl;
  few_samples = omega arith;
}

candidates_of_lem_example :
    (cs : List (KairosOpportunityCandidate Fraction)) × (candidates_of digest response ≡ ok cs)
    × IsSorted key_le cs
    × All (IsMeant fractions-Laws response) cs
unfolding meets_analysis_schema validate_half_time_gate
candidates_of_lem_example =
    candidates_of_lem fractions-Laws digest response (refl, (refl, tt))
      (fits_candidate response.half_time_analysis)

fits_opportunity : FitsOpportunity dataset response
fits_opportunity = record {
  identified = omega arith;
  home_named = refl;
  away_named = refl;
  competition_named = refl;
  few_markets = omega arith;
}

analyze_lem_example :
    (o : KairosMatchOpportunity Fraction) × (analyze digest dataset response ≡ ok o)
    × (meets_opportunity_schema o ≡ true)
    × (validate_primary_contract o ≡ true)
    × ((c : KairosOpportunityCandidate Fraction) → o.primary_analysis ≡ some c → MeetsThresholds c)
    × All MeetsThresholds o.alternative_analyses
    × (length o.alternative_analyses ≤ 1)
unfolding meets_analysis_schema validate_half_time_gate
analyze_lem_example =
    analyze_lem fractions-Laws digest dataset response (refl, (refl, tt))
      (fits_candidate response.half_time_analysis) fits_opportunity

-- What the run on the dataset returns, and a response with these analyses.
abbrev run :
    (l : List (KairosHalfTimeMarketAnalysis Fraction)) × (analyze_half_time_markets half_digest
        dataset 60
      ≡ ok l)
    × (map (λ a. a.market) l ≡ half_time_markets)
    × All IsInRange l
run =
    analyze_half_time_markets_lem half_digest dataset fractions-Laws (λ f. refl) 60 dataset-temporal
      dataset-integrity (omega arith)

abbrev run_response : KairosAnalysisResponse Fraction
run_response = record response { half_time_analysis = run.0 }

run_fits : FitsOpportunity dataset run_response
run_fits = record {
  identified = omega arith;
  home_named = refl;
  away_named = refl;
  competition_named = refl;
  few_markets =
      let size = ap (λ (l : List Market). length l) run.2 in
      omega
        (arith, size, length-map (λ (a : KairosHalfTimeMarketAnalysis Fraction). a.market) run.0);
}

analyze-IsGrounded_example :
    (o : KairosMatchOpportunity Fraction) × (analyze digest dataset run_response ≡ ok o)
    × (meets_opportunity_schema o ≡ true)
    × (validate_primary_contract o ≡ true)
    × ((c : KairosOpportunityCandidate Fraction)
        → o.primary_analysis ≡ some c
        → IsGrounded fractions-Laws dataset 60 run_response c)
    × All (IsGrounded fractions-Laws dataset 60 run_response) o.alternative_analyses
analyze-IsGrounded_example =
    analyze-IsGrounded fractions-Laws dataset 60 run_response half_digest digest run.1
      (fits_candidate run.0) run_fits
