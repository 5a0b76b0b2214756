-- ===== src/Opportunity/Ranking.antt =====
-- The candidates of a match: the primary one is the best, and all of them pass the thresholds.
use urim_platform.Base.{
  ℕ, ◌≤◌, min, String, ◌≡◌, refl, ◌⊎◌, inl, inr, Bool, true, false, not, ◌&&◌, ◌||◌, none, some,
  List, [], ◌∷◌, ◌++◌, map, arith, leb, Bool-cases, Option-cases, &&-eq-true, length, All, Any,
  all-eq-true, All-map, All-append, disjunction, ok,
}
use urim_platform.Base.Text.{text_le_total, text_le_trans, is_sha256_hex}
use urim_platform.Float.{Float, Laws, lt}
use urim_platform.HalfTime.{
  KairosHalfTimeMarketAnalysis, probability_threshold, data_quality_threshold,
  technical_confidence_threshold, validate_half_time_gate, meets_analysis_schema, is_unit,
  is_between, is_half_time, is_unit_or_none,
}
use urim_platform.Base.Select.{length-map}
use urim_platform.Market.{Market, home_or_draw, away_or_draw, home_or_away}
use urim_platform.Response.{KairosMarketProbabilities, KairosAnalysisResponse, fresh, is_fresh}
use urim_platform.Opportunity.Service.{candidates_of}
use urim_platform.Base.Sort.{sorted, IsSorted, IsSorted-sorted, All-sorted}
use urim_platform.Opportunity.Model.{
  meets_candidate_schema, double_chance_of, best_double_chance, better, half_time_reason,
  market_name, KairosOpportunityCandidate, DoubleChancePayload, half_time_candidate, candidate_of,
  half_time_candidates, double_chance_candidate, key_le,
}

module _ {F : Type 0} ⦃fl : Float F⦄ where
  -- The probability, the quality and the confidence of a candidate reach their thresholds.
  pub record MeetsThresholds (c : KairosOpportunityCandidate F) : Type 0 where
    pub likely : fl.le probability_threshold c.estimated_probability ≡ true
    pub quality : fl.le data_quality_threshold c.data_quality_score ≡ true
    pub confidence : fl.le technical_confidence_threshold c.technical_confidence_score ≡ true

  -- The candidate shows the market, the probability and the hash of an eligible analysis.
  abbrev pub IsOf : KairosHalfTimeMarketAnalysis F → KairosOpportunityCandidate F → Type 0
  IsOf m c =
      (m.market ≡ c.market)
      × (m.estimated_probability ≡ some c.estimated_probability)
      × (m.analysis_hash ≡ c.analysis_hash)
      × (m.eligible_for_opportunity ≡ true)

  -- What the fields of the response have to be for the double chance to be a candidate. All but
  -- the bound on the samples is in the schema of the response.
  pub record FitsCandidate (digest : DoubleChancePayload F → String) (a : KairosAnalysisResponse F)
      : Type 0 where
    pub hexadecimal : (p : DoubleChancePayload F) → is_sha256_hex (digest p) ≡ true
    pub likely :
        (p : KairosMarketProbabilities F)
        → a.market_probabilities ≡ some p
        → (is_unit p.home_or_draw ≡ true)
          × (is_unit p.away_or_draw ≡ true)
          × (is_unit p.home_or_away ≡ true)
    pub quality : is_between (fl.lit 0 0) (fl.lit 100 0) a.data_quality_score ≡ true
    pub confidence : is_between (fl.lit 0 0) (fl.lit 650 1) a.confidence_score ≡ true
    pub few_samples : min a.home_sample_size a.away_sample_size ≤ 50

  best-is_unit :
      (p : KairosMarketProbabilities F)
      → is_unit p.home_or_draw ≡ true
      → is_unit p.away_or_draw ≡ true
      → is_unit p.home_or_away ≡ true
      → is_unit (best_double_chance p).1 ≡ true
  best-is_unit p home away both =
      better-is_unit (better (home_or_draw, p.home_or_draw) (away_or_draw, p.away_or_draw))
        (home_or_away, p.home_or_away)
        (better-is_unit (home_or_draw, p.home_or_draw) (away_or_draw, p.away_or_draw) home away)
        both
    where
      better-is_unit :
          (a b : Market × F)
          → is_unit a.1 ≡ true
          → is_unit b.1 ≡ true
          → is_unit (better a b).1 ≡ true
      better-is_unit a b x y = elim (Bool-cases (lt a.1 b.1)) [
        | inl less ↦ rw less y
        | inr other ↦ rw other x
      ]

  -- The double chance meets the schema of a candidate.
  double_chance_of-meets :
      (digest : DoubleChancePayload F → String) (a : KairosAnalysisResponse F)
      (p : KairosMarketProbabilities F)
      → a.market_probabilities ≡ some p
      → FitsCandidate digest a
      → meets_candidate_schema (double_chance_of digest a (best_double_chance p)) ≡ true
  unfolding meets_candidate_schema
  double_chance_of-meets digest a p e fits =
      let units = fits.likely p e in
      (all-eq-true (λ b. b)
          (is_unit (best_double_chance p).1
            ∷ is_between (fl.lit 0 0) (fl.lit 100 0) a.data_quality_score
            ∷ is_between (fl.lit 0 0) (fl.lit 650 1) a.confidence_score
            ∷ leb (min a.home_sample_size a.away_sample_size) 50
            ∷ true
            ∷ true
            ∷ true
            ∷ is_sha256_hex (double_chance_of digest a (best_double_chance p)).analysis_hash
            ∷ [])).1
        (
          best-is_unit p units.0 units.1 units.2,
          (
            fits.quality,
            (
              fits.confidence,
              (ground (arith, fits.few_samples), (refl, (refl, (refl, (fits.hexadecimal _, tt))))),
            ),
          ),
        )

  -- The double chance is a candidate where it exists: it reaches the thresholds, and goes back to a
  -- response that is fresh and whose suggestion is no refusal.
  pub IsDouble : KairosAnalysisResponse F → KairosOpportunityCandidate F → Type 0
  IsDouble a c =
      (p : KairosMarketProbabilities F) × (a.market_probabilities ≡ some p)
      × (c.market ≡ (best_double_chance p).0)
      × (c.estimated_probability ≡ (best_double_chance p).1)
      × (a.suggestion_no_bet ≡ false)
      × (a.data_freshness ≡ fresh)

  pub double_chance_candidate-total :
      (digest : DoubleChancePayload F → String) (a : KairosAnalysisResponse F)
      → FitsCandidate digest a
      → (double_chance_candidate digest a ≡ ok none)
        ⊎ ((c : KairosOpportunityCandidate F) × (double_chance_candidate digest a ≡ ok (some c))
            × MeetsThresholds c
            × IsDouble a c)
  unfolding double_chance_candidate IsDouble
  double_chance_candidate-total digest a fits = elim (Option-cases a.market_probabilities) [
    | inl absent ↦ inl (rw absent refl)
    | inr (p, e) ↦
        let met = double_chance_of-meets digest a p e fits in
        let refused = disjunction (
          a.suggestion_no_bet
          ∷ not (is_fresh a.data_freshness)
          ∷ lt a.data_quality_score data_quality_threshold
          ∷ lt a.confidence_score technical_confidence_threshold
          ∷ lt (best_double_chance p).1 probability_threshold
          ∷ []) in
        elim (Bool-cases refused) [
          | inl blocked ↦ inl (rw (e, blocked) refl)
          | inr open_ ↦ inr (
            double_chance_of digest a (best_double_chance p),
            rw (e, open_, met) refl,
            record {
              likely = ground (arith, open_);
              quality = ground (arith, open_);
              confidence = ground (arith, open_);
            },
            (p, e, refl, refl, ground (arith, open_), ground (arith, open_)),
          )
        ]
  ]

  module _ (laws : Laws fl) where
    open laws use {le_trans, le_total}

    -- One component of the sort key, in descending order, before the components behind it.
    lex_trans :
        (x y z : F) (xy yz xz : Bool)
        → (xy ≡ true → yz ≡ true → xz ≡ true)
        → (lt y x || (fl.le y x && xy)) ≡ true
        → (lt z y || (fl.le z y && yz)) ≡ true
        → (lt z x || (fl.le z x && xz)) ≡ true
    lex_trans x y z xy yz xz rest p q = ground (
      arith,
      le_total x y,
      le_total y z,
      le_total x z,
      le_trans x z y,
      le_trans y x z,
      le_trans z y x,
    )

    key_le_total : (a b : KairosOpportunityCandidate F) → (key_le a b ≡ true) ⊎ (key_le b a ≡ true)
    key_le_total a b = ground (
      arith,
      le_total a.estimated_probability b.estimated_probability,
      le_total a.data_quality_score b.data_quality_score,
      le_total a.technical_confidence_score b.technical_confidence_score,
      text_le_total (market_name a.market) (market_name b.market),
    )

    key_le_trans :
        (a b c : KairosOpportunityCandidate F)
        → key_le a b ≡ true
        → key_le b c ≡ true
        → key_le a c ≡ true
    key_le_trans a b c =
        lex_trans a.estimated_probability b.estimated_probability c.estimated_probability _ _ _ (
          lex_trans a.data_quality_score b.data_quality_score c.data_quality_score _ _ _ (
            lex_trans a.technical_confidence_score b.technical_confidence_score
              c.technical_confidence_score _ _ _
              (text_le_trans (market_name a.market) (market_name b.market) (market_name c.market))))

    abbrev analysis_tests : KairosHalfTimeMarketAnalysis F → List Bool
    analysis_tests m =
        is_half_time m.market
        ∷ is_unit_or_none m.estimated_probability
        ∷ is_between (fl.lit 0 1) (fl.lit 850 1) m.data_quality_score
        ∷ is_between (fl.lit 0 1) (fl.lit 650 1) m.technical_confidence_score
        ∷ leb m.sample_size 10
        ∷ leb m.h2h_sample_size 5
        ∷ leb 1 (length m.reasons)
        ∷ leb (length m.reasons) 6
        ∷ leb (length m.guardrails) 6
        ∷ is_sha256_hex m.analysis_hash
        ∷ validate_half_time_gate m
        ∷ []

    schema_parts :
        (m : KairosHalfTimeMarketAnalysis F)
        → meets_analysis_schema m ≡ true
        → All (λ b. b ≡ true) (analysis_tests m)
    unfolding meets_analysis_schema
    schema_parts m schema = (all-eq-true (λ b. b) (analysis_tests m)).0 schema

    candidate_of-meets :
        (m : KairosHalfTimeMarketAnalysis F) (p : F)
        → meets_analysis_schema m ≡ true
        → m.estimated_probability ≡ some p
        → (meets_candidate_schema (candidate_of m p) ≡ true) × (validate_half_time_gate m ≡ true)
    unfolding meets_candidate_schema
    candidate_of-meets m p schema e =
        let (
          half,
          (unit, (quality, (confidence, (sample, (h2h, (one, (six, (few, (hex, (gate, _)))))))))),
        ) =
          schema_parts m schema in
        let size = length-map half_time_reason m.reasons in
        (
          (all-eq-true (λ b. b)
                (is_unit p
                  ∷ is_between (fl.lit 0 0) (fl.lit 100 0) m.data_quality_score
                  ∷ is_between (fl.lit 0 0) (fl.lit 650 1) m.technical_confidence_score
                  ∷ leb m.sample_size 50
                  ∷ leb 1 (length (map half_time_reason m.reasons))
                  ∷ leb (length (map half_time_reason m.reasons)) 6
                  ∷ leb (length m.guardrails) 6
                  ∷ is_sha256_hex m.analysis_hash
                  ∷ [])).1
              (
                rw e at unit,
                (
                  widened (fl.lit 0 1) (fl.lit 0 0) (fl.lit 850 1) (fl.lit 100 0)
                      m.data_quality_score (laws.lit_le 0 0 0 1 (omega arith))
                      (laws.lit_le 850 1 100 0 (omega arith)) quality,
                  (
                    widened (fl.lit 0 1) (fl.lit 0 0) (fl.lit 650 1) (fl.lit 650 1)
                        m.technical_confidence_score (laws.lit_le 0 0 0 1 (omega arith))
                        (laws.lit_le 650 1 650 1 (omega arith)) confidence,
                    (wider m.sample_size sample, (rw size one, (rw size six, (few, (hex, tt))))),
                  ),
                ),
              ),
          gate,
        )
      where
        wider : (n : ℕ) → leb n 10 ≡ true → leb n 50 ≡ true
        wider n h = ground (arith, h)

        widened :
            (a a' b b' x : F)
            → fl.le a' a ≡ true
            → fl.le b b' ≡ true
            → is_between a b x ≡ true
            → is_between a' b' x ≡ true
        widened a a' b b' x p q h =
            let (low, high) = (&&-eq-true (fl.le a x) (fl.le x b)).0 h in
            (&&-eq-true (fl.le a' x) (fl.le x b')).1 (le_trans a' a x p low, le_trans x b b' high q)

    candidate_made :
        (m : KairosHalfTimeMarketAnalysis F) (p : F)
        → m.estimated_probability ≡ some p
        → m.eligible_for_opportunity ≡ true
        → meets_candidate_schema (candidate_of m p) ≡ true
        → half_time_candidate m ≡ ok (candidate_of m p)
    unfolding half_time_candidate
    candidate_made m p e chosen met = rw (half_time_candidate, e) (rw chosen (rw met refl))

    candidate_thresholds :
        (m : KairosHalfTimeMarketAnalysis F) (p : F)
        → m.estimated_probability ≡ some p
        → m.eligible_for_opportunity ≡ true
        → validate_half_time_gate m ≡ true
        → MeetsThresholds (candidate_of m p)
    unfolding validate_half_time_gate
    candidate_thresholds m p e chosen gate = record {
      likely = ground (arith, e, chosen, gate);
      quality = ground (arith, e, chosen, gate);
      confidence = ground (arith, e, chosen, gate);
    }

    half_time_candidate-total :
        (m : KairosHalfTimeMarketAnalysis F)
        → meets_analysis_schema m ≡ true
        → m.eligible_for_opportunity ≡ true
        → (c : KairosOpportunityCandidate F) × (half_time_candidate m ≡ ok c)
          × MeetsThresholds c
          × IsOf m c
    unfolding half_time_candidate validate_half_time_gate
    half_time_candidate-total m schema chosen =
        let (_, (_, (_, (_, (_, (_, (_, (_, (_, (_, (gate_true, _))))))))))) =
          schema_parts m schema in
        elim (Option-cases m.estimated_probability) [
          | inl absent ↦ absurd (ground (arith, absent, chosen, gate_true))
          | inr (p, e) ↦
              let (met, gate) = candidate_of-meets m p schema e in
              (
                candidate_of m p,
                candidate_made m p e chosen met,
                candidate_thresholds m p e chosen gate,
                (refl, e, refl, chosen),
              )
        ]

    half_time_candidates-total :
        (markets : List (KairosHalfTimeMarketAnalysis F))
        → All (λ m. meets_analysis_schema m ≡ true) markets
        → (cs : List (KairosOpportunityCandidate F)) × (half_time_candidates markets ≡ ok cs)
          × All (λ c. MeetsThresholds c × Any (λ m. IsOf m c) markets) cs
    unfolding half_time_candidates
    half_time_candidates-total [] g = ([], refl, tt)
    half_time_candidates-total (m ∷ markets) g =
        let (cs, e, p) = half_time_candidates-total markets g.1 in
        let later = All-map (λ c both. (both.0, inr both.1)) cs p in
        elim (Bool-cases m.eligible_for_opportunity) [
          | inl chosen ↦
              let (c, made, meets, of_m) = half_time_candidate-total m g.0 chosen in
              (c ∷ cs, ground (arith, chosen, made, e), ((meets, inl of_m), later))
          | inr other ↦ (cs, ground (arith, other, e), later)
        ]

    -- Where a candidate comes from: an eligible analysis, or the double chance of the response.
    abbrev pub IsMeant : KairosAnalysisResponse F → KairosOpportunityCandidate F → Type 0
    IsMeant a c = MeetsThresholds c × (Any (λ m. IsOf m c) a.half_time_analysis ⊎ IsDouble a c)

    -- From analyses that meet their schema, and a response whose fields fit a candidate, the
    -- candidates of a match always exist, no constructor raising, in the order of the sort key; and
    -- each reaches the thresholds and is of an eligible analysis, or the double chance of a fresh
    -- response whose suggestion is no refusal.
    pub candidates_of_lem :
        (digest : DoubleChancePayload F → String) (a : KairosAnalysisResponse F)
        → All (λ m. meets_analysis_schema m ≡ true) a.half_time_analysis
        → FitsCandidate digest a
        → (cs : List (KairosOpportunityCandidate F)) × (candidates_of digest a ≡ ok cs)
          × IsSorted key_le cs
          × All (IsMeant a) cs
    unfolding candidates_of
    candidates_of_lem digest a schemas fits =
        let (half, made, meets) = half_time_candidates-total a.half_time_analysis schemas in
        let meant : All (IsMeant a) half = All-map (λ c both. (both.0, inl both.1)) half meets in
        elim (double_chance_candidate-total digest a fits) [
          | inl absent ↦ (
            sorted key_le half,
            rw (made, absent) refl,
            IsSorted-sorted key_le key_le_total key_le_trans half,
            All-sorted key_le (IsMeant a) half meant,
          )
          | inr (c, e, thresholds, double) ↦
              let all_meant =
                (All-append (IsMeant a) half (c ∷ [])).1 (meant, ((thresholds, inr double), tt)) in
              (
                sorted key_le (half ++ (c ∷ [])),
                rw (made, e) refl,
                IsSorted-sorted key_le key_le_total key_le_trans (half ++ (c ∷ [])),
                All-sorted key_le (IsMeant a) (half ++ (c ∷ [])) all_meant,
              )
        ]
