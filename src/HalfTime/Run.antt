-- ===== src/HalfTime/Run.antt =====
-- What a run of `analyze_half_time_markets` hands out, against the checks of its schema, the class
-- `KairosHalfTimeMarketAnalysis` of kairos/schemas.py.
use urim_platform.Base.{
  ℕ, ◌≤◌, String, ◌≡◌, refl, sym, ◌∙◌, true, Option, List, [], ◌∷◌, ◌++◌, map, arith, ◌==◌, length,
  All, length-append, ok, raise_if, >>=-eq-ok, All-trivial,
}
use urim_platform.Float.{Float, Laws}
use urim_platform.Observation.{KairosMatchDataset}
use urim_platform.Market.{Market, half_time_markets}
use urim_platform.Dataset.{validate_temporal_integrity, validate_data_integrity}
use urim_platform.HalfTime.Model.{
  half_time_recent_window, half_time_h2h_limit, HalfSample, samples, deduplicate, Fingerprint,
  KairosHalfTimeMarketAnalysis, Evidence, goal_event_match_ids,
}
use urim_platform.HalfTime.Scoring.{analysis, meets_analysis_schema}
use urim_platform.HalfTime.Analyze.{
  lift, is_stale, evidence_of, analyze_half_time_markets, lift-eq-ok,
}
use urim_platform.HalfTime.Samples.{samples_lem, deduplicate_lem}
use urim_platform.HalfTime.Gate.{
  Aligned, traverse-Aligned, IsMade, analysis-IsMade, IsMade-gate, IsInRange, IsBacked,
  is_stale-fresh, EvidenceFacts, evidence_lem,
}

module _ {F V : Type 0} ⦃fl : Float F⦄ (laws : Laws fl) (digest : Fingerprint F → String)
    (d : KairosMatchDataset V) (threshold : ℕ) where
  abbrev pub home_samples : List HalfSample
  home_samples = samples d.home_history half_time_recent_window

  abbrev pub away_samples : List HalfSample
  away_samples = samples d.away_history half_time_recent_window

  abbrev pub merged_samples : List HalfSample
  merged_samples = deduplicate (home_samples ++ away_samples)

  abbrev pub h2h_samples : List HalfSample
  h2h_samples = samples d.h2h_history half_time_h2h_limit

  abbrev pub shared : Evidence F × (Market → Option F)
  shared =
      evidence_of home_samples away_samples merged_samples h2h_samples (length d.standings)
        (length (goal_event_match_ids [] d.events)) (is_stale fl d threshold)

  merged-le : length merged_samples ≤ 10
  merged-le =
      let home = (samples_lem d.home_history 5 (omega arith)).0 in
      let away = (samples_lem d.away_history 5 (omega arith)).0 in
      let merged =
        (deduplicate_lem (λ _. Unit) (home_samples ++ away_samples)
          (All-trivial (home_samples ++ away_samples))).2 in
      omega (arith, home, away, merged, length-append home_samples away_samples)

  pub shared_facts :
      EvidenceFacts home_samples away_samples (is_stale fl d threshold) shared.0 shared.1
  shared_facts =
      evidence_lem laws home_samples away_samples merged_samples h2h_samples (length d.standings)
        (length (goal_event_match_ids [] d.events)) (is_stale fl d threshold) merged-le
        (samples_lem d.h2h_history 5 (omega arith)).0

  -- A successful run is made of one evidence for all six markets.
  analyze-Aligned :
      (l : List (KairosHalfTimeMarketAnalysis F))
      → analyze_half_time_markets digest d threshold ≡ ok l
      → Aligned
          (λ market a.
            IsMade shared.0 market (shared.1 market) a × (meets_analysis_schema a ≡ true))
          half_time_markets
          l
  unfolding analyze_half_time_markets
  analyze-Aligned l h =
      let (_, temporal, h1) = >>=-eq-ok (lift (validate_temporal_integrity d)) _ h in
      let (_, integrity, h2) = >>=-eq-ok (lift (validate_data_integrity d)) _ h1 in
      let (_, positive, h3) = >>=-eq-ok (raise_if (threshold == 0) _) _ h2 in
      traverse-Aligned
        (λ market a. IsMade shared.0 market (shared.1 market) a × (meets_analysis_schema a ≡ true))
        (λ market. analysis digest d shared.0 market (shared.1 market))
        (λ market a. analysis-IsMade digest d shared.0 market (shared.1 market) a) half_time_markets
        l (lift-eq-ok _ h3)

  Aligned-All :
      (P : KairosHalfTimeMarketAnalysis F → Type 0)
      → ((market : Market) (a : KairosHalfTimeMarketAnalysis F)
          → IsMade shared.0 market (shared.1 market) a × (meets_analysis_schema a ≡ true)
          → P a)
      → (markets : List Market) (l : List (KairosHalfTimeMarketAnalysis F))
      → Aligned
          (λ market a.
            IsMade shared.0 market (shared.1 market) a × (meets_analysis_schema a ≡ true))
          markets
          l
      → (map (λ a. a.market) l ≡ markets) × All P l
  Aligned-All P each [] [] h = (refl, tt)
  Aligned-All P each [] (a ∷ l) h = elim h [ ]
  Aligned-All P each (m ∷ markets) [] h = elim h [ ]
  Aligned-All P each (m ∷ markets) (a ∷ l) h =
      let (same, rest) = Aligned-All P each markets l h.1 in
      let (made, _) = h in (cc (made.0.market_kept, same), (each m a made, rest))

  IsMade-IsInRange :
      (market : Market) (a : KairosHalfTimeMarketAnalysis F)
      → IsMade shared.0 market (shared.1 market) a × (meets_analysis_schema a ≡ true)
      → IsInRange a
  IsMade-IsInRange market a (made, met) =
      let facts = shared_facts in
      record {
        quality_low = rw made.quality_kept facts.quality_low;
        quality_high = rw made.quality_kept facts.quality_high;
        confidence_low = rw made.confidence_kept facts.confidence_low;
        confidence_high = rw made.confidence_kept facts.confidence_high;
        sample_bounded = rw made.sample_kept facts.sample_bounded;
        h2h_bounded = rw made.h2h_kept facts.h2h_bounded;
        schema_met = met;
        gate_passed = IsMade-gate shared.0 market (shared.1 market) a (facts.honest market) made;
      }

  -- A successful run hands out one analysis for each of the six half-time markets, in their order;
  -- each passes the validator of its schema, and its scores and sample sizes are in the ranges
  -- that the schema declares.
  pub analyze_half_time_markets-IsInRange :
      (l : List (KairosHalfTimeMarketAnalysis F))
      → analyze_half_time_markets digest d threshold ≡ ok l
      → (map (λ a. a.market) l ≡ half_time_markets) × All IsInRange l
  analyze_half_time_markets-IsInRange l h =
      Aligned-All IsInRange (λ m a both. IsMade-IsInRange m a both) half_time_markets l
        (analyze-Aligned l h)

  IsMade-IsBacked :
      (market : Market) (a : KairosHalfTimeMarketAnalysis F)
      → IsMade shared.0 market (shared.1 market) a
      → a.eligible_for_opportunity ≡ true
      → IsBacked d threshold a
  IsMade-IsBacked market a made chosen =
      let (fresh, home, away, (p, is_p, likely, quality, confidence)) =
        shared_facts.eligible market (sym made.eligible_is ∙ chosen) in
      record {
        fresh_source = is_stale-fresh fl d threshold fresh;
        not_stale = fresh;
        home_history = home;
        away_history = away;
        likely = (p, made.probability_kept ∙ is_p, likely);
        quality = rw made.quality_kept quality;
        confidence = rw made.confidence_kept confidence;
      }

  -- In a successful run, an analysis is eligible for an opportunity only where the target's data
  -- is fresh, both teams have at least three complete matches, and the probability, the quality
  -- and the confidence reach their thresholds.
  pub analyze_half_time_markets-IsBacked :
      (l : List (KairosHalfTimeMarketAnalysis F))
      → analyze_half_time_markets digest d threshold ≡ ok l
      → All (λ a. a.eligible_for_opportunity ≡ true → IsBacked d threshold a) l
  analyze_half_time_markets-IsBacked l h =
      (Aligned-All (λ a. a.eligible_for_opportunity ≡ true → IsBacked d threshold a)
        (λ m a both. IsMade-IsBacked m a both.0) half_time_markets l (analyze-Aligned l h)).1
