-- ===== src/HalfTime/Analyze.antt =====
-- `analyze_half_time_markets` and `_is_stale` of kairos/half_time.py.
use text.Mathlib.Text.{◌==◌ as str_eq}
use urim_platform.Base.{
  ℕ, String, ◌≡◌, Bool, true, false, not, ◌&&◌, ◌||◌, Option, none, some, List, [], ◌∷◌, ◌++◌,
  arith, leb, ◌==◌, if◌then◌else◌, length, Result, ok, err, ◌>>◌, raise_if, is_nil, traverse,
}
use urim_platform.Base.Instant.{difference}
use urim_platform.Float.{Float}
use urim_platform.Observation.{KairosMatchDataset}
use urim_platform.Market.{Market, half_time_markets}
use urim_platform.Dataset.{KairosError, validate_temporal_integrity, validate_data_integrity}
use urim_platform.HalfTime.Model.{
  half_time_recent_window, half_time_minimum_sample_per_team, half_time_h2h_limit,
  half_time_h2h_minimum_sample, HalfSample, samples, deduplicate, stale_source_data,
  insufficient_half_time_history, HalfTimeReason, history_required, recent_matches, h2h_ignored,
  h2h_secondary, goal_minutes_known, goal_minutes_unknown, Fingerprint,
  KairosHalfTimeMarketAnalysis, Evidence, goal_event_match_ids,
}
use urim_platform.HalfTime.Scoring.{probability_of, quality_score, technical_confidence, analysis}

-- The `ValueError` of a bad threshold, or what a check of the dataset raised.
pub data HalfTimeError : Type 0 where
  freshness_threshold_minutes_must_be_positive : HalfTimeError
  dataset_error : KairosError → HalfTimeError

abbrev pub lift {ℓ} : {A : Type ℓ} → Result KairosError A → Result HalfTimeError A
lift (ok a) = ok a
lift (err e) = err (dataset_error e)

unfoldable pub is_stale : {F V : Type 0} → Float F → KairosMatchDataset V → ℕ → Bool
is_stale fl d threshold =
    let seconds =
      fl.div (fl.of_int (difference d.as_of d.target.source.fetched_at)) (fl.lit 1000000 0) in
    not (str_eq d.target.source.freshness_status "fresh")
    || not (fl.le (fl.div seconds (fl.lit 60 0)) (fl.lit threshold 0))

abbrev pub reasons_of : List HalfSample → List HalfSample → ℕ → List HalfTimeReason
reasons_of merged h2h goal_matches =
    recent_matches (length merged)
    ∷ (if leb half_time_h2h_minimum_sample (length h2h) then h2h_secondary else h2h_ignored)
    ∷ (if goal_matches == 0 then goal_minutes_unknown else goal_minutes_known)
    ∷ []

module _ {F : Type 0} ⦃fl : Float F⦄ where
  -- The base probability, moved by at most a tenth towards the direct encounters, and rounded.
  unfoldable pub market_probability : List HalfSample → List HalfSample → Market → F
  unfolding probability_of
  market_probability merged h2h market =
      let base = probability_of merged market in
      fl.round
        (if leb half_time_h2h_minimum_sample (length h2h)
          then fl.add (fl.mul base (fl.sub (fl.lit 10 1) (fl.lit 10 2)))
              (fl.mul (probability_of h2h market) (fl.lit 10 2))
          else base)
        6

  -- What the analyses share, and each market's probability.
  unfoldable pub evidence_of :
      (home away merged h2h : List HalfSample) (standings goal_matches : ℕ)
      → Bool
      → Evidence F × (Market → Option F)
  evidence_of home away merged h2h standings goal_matches stale =
      let quality =
        quality_score (length home) (length away) (length h2h) standings goal_matches stale in
      let confidence =
        technical_confidence (length merged) (length home) (length away) (length h2h) stale in
      if (leb half_time_minimum_sample_per_team (length home)
          && leb half_time_minimum_sample_per_team (length away))
        && not (is_nil merged)
      then (
        record {
          quality = quality;
          confidence = confidence;
          sample_size = length merged;
          h2h_sample_size = length h2h;
          insufficient_data = false;
          reasons = reasons_of merged h2h goal_matches;
          guardrails = if stale then stale_source_data ∷ [] else [];
        },
        λ market. some (market_probability merged h2h market),
      )
      else (
        record {
          quality = quality;
          confidence = fl.lit 0 1;
          sample_size = length merged;
          h2h_sample_size = length h2h;
          insufficient_data = true;
          reasons = history_required ∷ [];
          guardrails = insufficient_half_time_history ∷ [];
        },
        λ market. none,
      )

  module _ {V : Type 0} (digest : Fingerprint F → String) where
    unfoldable pub analyze_half_time_markets :
        KairosMatchDataset V → ℕ → Result HalfTimeError (List (KairosHalfTimeMarketAnalysis F))
    analyze_half_time_markets d threshold = do
      lift (validate_temporal_integrity d)
      lift (validate_data_integrity d)
      raise_if (threshold == 0) freshness_threshold_minutes_must_be_positive
      let home = samples d.home_history half_time_recent_window
      let away = samples d.away_history half_time_recent_window
      let merged = deduplicate (home ++ away)
      let h2h = samples d.h2h_history half_time_h2h_limit
      let goal_matches = length (goal_event_match_ids [] d.events)
      let (evidence, probability) =
          evidence_of home away merged h2h (length d.standings) goal_matches
            (is_stale fl d threshold)
      lift (
          traverse (λ market. analysis digest d evidence market (probability market))
            half_time_markets)

pub lift-eq-ok {ℓ} : {A : Type ℓ} (m : Result KairosError A) {a : A} → lift m ≡ ok a → m ≡ ok a
lift-eq-ok (ok b) h = ground (arith, h)
lift-eq-ok (err e) h = cc
