-- ===== src/HalfTime/Scoring.antt =====
-- The probability, the scores and the gate of a half-time market: kairos/half_time.py.
-- Floats come by the interface; `digest` stands for `sha256` of the JSON text of a fingerprint.
use urim_platform.Base.{
  ℕ, ◌+◌, min, max, String, Bool, true, false, not, ◌&&◌, Option, none, some, List, [], ◌∷◌, map,
  leb, if◌then◌else◌, length, conjunction, disjunction, Result, ok, err, ◌>>=◌, is_nil,
}
use urim_platform.Base.Text.{text_le, is_sha256_hex}
use urim_platform.Base.Sort.{sorted}
use urim_platform.Float.{Float, lt, fmin, fmax, of_nat}
use urim_platform.Observation.{SourceObservation, KairosMatchDataset}
use urim_platform.Market.{Market, home_or_draw, away_or_draw, home_or_away}
use urim_platform.Dataset.{KairosError, validation_error, source_observations}
use urim_platform.HalfTime.Model.{
  half_time_recent_window, half_time_h2h_minimum_sample, HalfSample, favourable, alternatives, Risk,
  Fingerprint, KairosHalfTimeMarketAnalysis, Evidence, guarded, elevated, high,
}

abbrev pub is_half_time : Market → Bool
is_half_time home_or_draw = false
is_half_time away_or_draw = false
is_half_time home_or_away = false
is_half_time _ = true

module _ {F : Type 0} ⦃fl : Float F⦄ where
  -- `_probabilities(samples)[market]`
  unfoldable pub probability_of : List HalfSample → Market → F
  probability_of l market =
      fl.div (of_nat (favourable market l + 1)) (of_nat (length l + alternatives market))

  abbrev pub coverage : ℕ → F
  coverage n = fmin (fl.div (of_nat n) (of_nat half_time_recent_window)) (fl.lit 10 1)

  -- Before rounding and clamping.
  abbrev pub quality_sum : (home_count away_count h2h_count standings goals : ℕ) → Bool → F
  quality_sum home_count away_count h2h_count standings goal_matches stale =
      let history_coverage =
        fl.div (fl.add (coverage home_count) (coverage away_count)) (of_nat 2) in
      let score = fl.add (fl.lit 250 1) (fl.mul history_coverage (fl.lit 450 1)) in
      let score = fl.add score (fl.mul (of_nat (min standings 2)) (fl.lit 25 1)) in
      let score = fl.add score (of_nat (min goal_matches 5)) in
      let score =
        if leb half_time_h2h_minimum_sample h2h_count then fl.add score (fl.lit 50 1) else score in
      if stale then fl.sub score (fl.lit 200 1) else score

  unfoldable pub quality_score : (home_count away_count h2h_count standings goals : ℕ) → Bool → F
  quality_score home_count away_count h2h_count standings goal_matches stale =
      fl.round
        (fmax (fl.lit 0 1) (
          fmin (quality_sum home_count away_count h2h_count standings goal_matches stale)
            (fl.lit 850 1)))
        1

  abbrev pub confidence_sum : (sample_count home_count away_count h2h_count : ℕ) → Bool → F
  confidence_sum sample_count home_count away_count h2h_count stale =
      let balance =
        fl.div (of_nat (min home_count away_count)) (of_nat (max (max home_count away_count) 1)) in
      let score =
        fl.add
          (fl.add (fl.lit 300 1)
            (fl.mul (fmin (fl.div (of_nat sample_count) (of_nat 10)) (fl.lit 10 1)) (fl.lit 250 1)))
          (fl.mul balance (fl.lit 50 1)) in
      let score =
        if leb half_time_h2h_minimum_sample h2h_count then fl.add score (fl.lit 50 1) else score in
      if stale then fl.sub score (fl.lit 150 1) else score

  unfoldable pub technical_confidence :
      (sample_count home_count away_count h2h_count : ℕ) → Bool → F
  technical_confidence sample_count home_count away_count h2h_count stale =
      fl.round
        (fmax (fl.lit 0 1)
          (fmin (confidence_sum sample_count home_count away_count h2h_count stale) (fl.lit 650 1)))
        1

  -- `OPPORTUNITY_PROBABILITY_THRESHOLD` and its neighbours.
  abbrev pub probability_threshold : F
  probability_threshold = fl.lit 70 2

  abbrev pub data_quality_threshold : F
  data_quality_threshold = fl.lit 650 1

  abbrev pub technical_confidence_threshold : F
  technical_confidence_threshold = fl.lit 500 1

  -- `eligible` of `_analysis`
  unfoldable pub is_eligible : Option F → Evidence F → Bool
  is_eligible none e = false
  is_eligible (some p) e = conjunction (
      fl.is_finite p
      ∷ fl.le probability_threshold p
      ∷ fl.le data_quality_threshold e.quality
      ∷ fl.le technical_confidence_threshold e.confidence
      ∷ is_nil e.guardrails
      ∷ not e.insufficient_data
      ∷ [])

  abbrev pub risk_of : Bool → Option F → Risk
  risk_of eligible none = if eligible then elevated else high
  risk_of eligible (some p) =
      if eligible && fl.le (fl.lit 78 2) p then guarded else if eligible then elevated else high

  abbrev pub has_value : Option F → Bool
  has_value none = false
  has_value (some p) = true

  -- `self.estimated_probability is None or self.estimated_probability < threshold`
  abbrev pub below_threshold : Option F → Bool
  below_threshold none = true
  below_threshold (some p) = lt p probability_threshold

  -- `validate_half_time_gate`: true where the validator raises nothing.
  unfoldable pub validate_half_time_gate : KairosHalfTimeMarketAnalysis F → Bool
  validate_half_time_gate a =
      not (a.insufficient_data && has_value a.estimated_probability)
      && not (
          a.eligible_for_opportunity
          && disjunction (
              a.insufficient_data
              ∷ below_threshold a.estimated_probability
              ∷ lt a.data_quality_score data_quality_threshold
              ∷ lt a.technical_confidence_score technical_confidence_threshold
              ∷ not (is_nil a.guardrails)
              ∷ []))

  -- `Field(ge=lowest, le=highest)`
  abbrev pub is_between : F → F → F → Bool
  is_between lowest highest x = fl.le lowest x && fl.le x highest

  -- `Field(ge=0, le=1)`
  abbrev pub is_unit : F → Bool
  is_unit x = is_between (fl.lit 0 0) (fl.lit 1 0) x

  abbrev pub is_unit_or_none : Option F → Bool
  is_unit_or_none none = true
  is_unit_or_none (some p) = is_unit p

  -- The fields of `KairosHalfTimeMarketAnalysis` and its validator: true where the constructor
  -- raises nothing.
  unfoldable pub meets_analysis_schema : KairosHalfTimeMarketAnalysis F → Bool
  unfolding validate_half_time_gate
  meets_analysis_schema a = conjunction (
      is_half_time a.market
      ∷ is_unit_or_none a.estimated_probability
      ∷ is_between (fl.lit 0 1) (fl.lit 850 1) a.data_quality_score
      ∷ is_between (fl.lit 0 1) (fl.lit 650 1) a.technical_confidence_score
      ∷ leb a.sample_size 10
      ∷ leb a.h2h_sample_size 5
      ∷ leb 1 (length a.reasons)
      ∷ leb (length a.reasons) 6
      ∷ leb (length a.guardrails) 6
      ∷ is_sha256_hex a.analysis_hash
      ∷ validate_half_time_gate a
      ∷ [])

  -- The constructor of pydantic: a `ValidationError` where the schema is not met.
  abbrev pub validated_analysis :
      KairosHalfTimeMarketAnalysis F → Result KairosError (KairosHalfTimeMarketAnalysis F)
  validated_analysis a = if meets_analysis_schema a then ok a else err validation_error

  module _ {V : Type 0} (digest : Fingerprint F → String) where
    -- What `_analysis` hands to the constructor.
    abbrev pub raw_analysis :
        KairosMatchDataset V
        → Evidence F
        → Market
        → Option F
        → List SourceObservation
        → KairosHalfTimeMarketAnalysis F
    raw_analysis d e market probability sources =
        let eligible = is_eligible probability e in
        record {
          market = market;
          estimated_probability = probability;
          data_quality_score = e.quality;
          technical_confidence_score = e.confidence;
          sample_size = e.sample_size;
          h2h_sample_size = e.h2h_sample_size;
          risk = risk_of eligible probability;
          reasons = e.reasons;
          guardrails = e.guardrails;
          eligible_for_opportunity = eligible;
          insufficient_data = e.insufficient_data;
          analysis_hash = digest (record {
            as_of = d.as_of;
            market = market;
            probability = probability;
            quality = e.quality;
            confidence = e.confidence;
            sample_size = e.sample_size;
            h2h_sample_size = e.h2h_sample_size;
            source_hashes = sorted text_le (map (λ s. s.raw_hash) sources);
          });
        }

    -- `_analysis`; it reads the sources once more for the fingerprint.
    unfoldable pub analysis :
        KairosMatchDataset V
        → Evidence F
        → Market
        → Option F
        → Result KairosError (KairosHalfTimeMarketAnalysis F)
    unfolding meets_analysis_schema
    analysis d e market probability = do
      sources ← source_observations d
      validated_analysis (raw_analysis d e market probability sources)
