-- ===== src/Opportunity/Contract.antt =====
-- What `KairosOpportunityService.analyze` hands out, against the validator of its schema,
-- `validate_primary_contract` of `KairosMatchOpportunity` in kairos/schemas.py.
use urim_platform.Base.{
  ℕ, suc, ◌+◌, ◌≤◌, String, ◌≡◌, refl, sym, ◌≢◌, inl, inr, Bool, true, false, not, ◌&&◌, ◌||◌, some,
  List, [], ◌∷◌, ◌++◌, map, arith, ltb, leb, if◌then◌else◌, ==_iff, Bool-cases, length, any, all,
  All, length-append, all-eq-true, All-map, ok, All-trivial, is_nil,
}
use mathlib.Core.Option.{some-injective}
use urim_platform.Float.{Float, Laws}
use urim_platform.Observation.{KairosMatchDataset}
use urim_platform.Market.{
  Market, first_half_more_goals, second_half_more_goals, equal_half_goals, first_half_over_0_5,
  second_half_over_0_5, second_half_over_1_5, home_or_draw, away_or_draw, home_or_away, MarketGroup,
  market_group,
}
use urim_platform.Base.Text.{is_goal}
use urim_platform.HalfTime.{
  probability_threshold, data_quality_threshold, technical_confidence_threshold,
  meets_analysis_schema,
}
use urim_platform.Response.{KairosAnalysisResponse, is_fresh, is_blocking}
use urim_platform.Opportunity.Schema.{
  is_text, is_text_or_none, KairosMatchOpportunity, market_number, same_market, no_repeats,
  validate_primary_contract, meets_opportunity_schema,
}
use urim_platform.Opportunity.Model.{
  append_if, is_stale_guardrail, max_below, known_probabilities, insufficient_half_time_data,
  stale_data, low_data_quality, low_technical_confidence, estimated_probability_below_threshold,
  provider_data_partial, half_time_scores, goal_events, h2h, standings, match_statistics,
  KairosOpportunityCandidate, DoubleChancePayload, KairosRejectionReason, critical_guardrail,
  has_reason, distinct_reasons, same_group, group_of, alternatives_of,
}
use urim_platform.Opportunity.Service.{
  rejection_reasons, raw_rejection_reasons, missing_data, opportunity_from, analyze,
}
use urim_platform.Opportunity.Selection.{
  IsUncorrelated, IsUncorrelated-length, alternatives_of_lem, same_group_iff,
}
use urim_platform.Opportunity.Ranking.{MeetsThresholds, FitsCandidate, candidates_of_lem}

market_group-market_number :
    (m : Market)
    → market_group m
      ≡ (if ltb (market_number m) 6 then MarketGroup.half_time else MarketGroup.double_chance)
unfolding market_group
market_group-market_number first_half_more_goals = refl
market_group-market_number second_half_more_goals = refl
market_group-market_number equal_half_goals = refl
market_group-market_number first_half_over_0_5 = refl
market_group-market_number second_half_over_0_5 = refl
market_group-market_number second_half_over_1_5 = refl
market_group-market_number home_or_draw = refl
market_group-market_number away_or_draw = refl
market_group-market_number home_or_away = refl

same_market-group : (a b : Market) → same_market a b ≡ true → market_group a ≡ market_group b
same_market-group a b h =
    let same_number : market_number a ≡ market_number b = (==_iff _ _).0 h in
    rw (market_group-market_number a, market_group-market_number b, same_number)

distinct_reasons-kept :
    (kept reasons : List KairosRejectionReason)
    → is_nil kept ≡ false
    → is_nil (distinct_reasons kept reasons) ≡ false
unfolding distinct_reasons
distinct_reasons-kept kept [] h = h
distinct_reasons-kept kept (r ∷ reasons) h = elim (Bool-cases (has_reason kept r)) [
  | inl old ↦ rw (old, distinct_reasons) (distinct_reasons-kept kept reasons h)
  | inr new ↦
      rw (new, distinct_reasons) (distinct_reasons-kept (kept ++ (r ∷ [])) reasons (not-nil kept r))
]
  where
    not-nil :
        (l : List KairosRejectionReason) (q : KairosRejectionReason)
        → is_nil (l ++ (q ∷ [])) ≡ false
    not-nil [] q = refl
    not-nil (x ∷ l) q = refl

distinct_reasons-start :
    (reasons : List KairosRejectionReason)
    → is_nil reasons ≡ false
    → is_nil (distinct_reasons [] reasons) ≡ false
unfolding distinct_reasons
distinct_reasons-start [] h = cc
distinct_reasons-start (r ∷ reasons) h = distinct_reasons-kept (r ∷ []) reasons refl

length-append_if :
    {A : Type 0} (b : Bool) (r : A) (n : ℕ) (l : List A)
    → length l ≤ n
    → length (append_if b r l) ≤ suc n
length-append_if true r n l h = omega (arith, length-append l (r ∷ []), h)
length-append_if false r n l h = omega (arith, h)

length-distinct_reasons :
    (kept reasons : List KairosRejectionReason)
    → length (distinct_reasons kept reasons) ≤ length kept + length reasons
unfolding distinct_reasons
length-distinct_reasons kept [] = omega arith
length-distinct_reasons kept (r ∷ reasons) = elim (Bool-cases (has_reason kept r)) [
  | inl old ↦ rw old (omega (arith, length-distinct_reasons kept reasons))
  | inr new ↦ rw new (
      omega
        (arith, length-distinct_reasons (kept ++ (r ∷ [])) reasons, length-append kept (r ∷ [])))
]

module _ {F : Type 0} ⦃fl : Float F⦄ where
  -- A match without an opportunity always has a reason.
  rejection_reasons-some : (a : KairosAnalysisResponse F) → is_nil (rejection_reasons a) ≡ false
  unfolding rejection_reasons
  rejection_reasons-some a = elim (Bool-cases (is_nil (raw_rejection_reasons a))) [
    | inl none_ ↦ rw none_ (distinct_reasons-start (critical_guardrail ∷ []) refl)
    | inr some_ ↦ rw some_ (distinct_reasons-start (raw_rejection_reasons a) some_)
  ]

  groups-none :
      (c : KairosOpportunityCandidate F) (cs : List (KairosOpportunityCandidate F))
      → All (λ x. group_of x ≢ group_of c) cs
      → any (same_group (group_of c)) (map market_group (map (λ x. x.market) cs)) ≡ false
  groups-none c [] n = refl
  groups-none c (x ∷ cs) n = elim (Bool-cases (same_group (group_of c) (group_of x))) [
    | inl same ↦ absurd (n.0 (sym ((same_group_iff (group_of c) (group_of x)).0 same)))
    | inr other ↦ rw other (groups-none c cs n.1)
  ]

  markets-none :
      (c : KairosOpportunityCandidate F) (cs : List (KairosOpportunityCandidate F))
      → All (λ x. group_of x ≢ group_of c) cs
      → any (same_market c.market) (map (λ x. x.market) cs) ≡ false
  markets-none c [] n = refl
  markets-none c (x ∷ cs) n = elim (Bool-cases (same_market c.market x.market)) [
    | inl same ↦ absurd (n.0 (sym (same_market-group c.market x.market same)))
    | inr other ↦ rw other (markets-none c cs n.1)
  ]

  groups-no_repeats :
      (cs : List (KairosOpportunityCandidate F))
      → IsUncorrelated cs
      → no_repeats same_group (map market_group (map (λ c. c.market) cs)) ≡ true
  groups-no_repeats [] u = refl
  groups-no_repeats (c ∷ cs) u = rw (groups-none c cs u.0) (groups-no_repeats cs u.1)

  markets-no_repeats :
      (cs : List (KairosOpportunityCandidate F))
      → IsUncorrelated cs
      → no_repeats same_market (map (λ c. c.market) cs) ≡ true
  markets-no_repeats [] u = refl
  markets-no_repeats (c ∷ cs) u = rw (markets-none c cs u.0) (markets-no_repeats cs u.1)

  pub opportunity_from-contract :
      {V : Type 0} (d : KairosMatchDataset V) (a : KairosAnalysisResponse F)
      (cs : List (KairosOpportunityCandidate F))
      → validate_primary_contract (opportunity_from d a cs) ≡ true
  unfolding validate_primary_contract opportunity_from
  opportunity_from-contract d a [] =
      elim (Bool-cases (all (λ m. m.insufficient_data) a.half_time_analysis)) [
        | inl b ↦ ground (arith, b, rejection_reasons-some a)
        | inr b ↦ ground (arith, b, rejection_reasons-some a)
      ]
  opportunity_from-contract d a (c ∷ cs) =
      let u = (alternatives_of_lem (λ _. Unit) c cs (All-trivial cs)).0 in
      ground (
        arith,
        groups-no_repeats (c ∷ alternatives_of (c ∷ cs)) u,
        markets-no_repeats (c ∷ alternatives_of (c ∷ cs)) u,
      )

  -- What holds of every candidate holds of those shown, and one alternative at most is shown.
  pub shown :
      {V : Type 0} (P : KairosOpportunityCandidate F → Type 0) (d : KairosMatchDataset V)
      (a : KairosAnalysisResponse F) (cs : List (KairosOpportunityCandidate F))
      → All P cs
      → ((c : KairosOpportunityCandidate F)
          → (opportunity_from d a cs).primary_analysis ≡ some c
          → P c)
        × All P (opportunity_from d a cs).alternative_analyses
        × (length (opportunity_from d a cs).alternative_analyses ≤ 1)
  unfolding opportunity_from
  shown P d a [] m = (λ c e. absurd (ground (arith, e)), tt, omega arith)
  shown P d a (p ∷ cs) m =
      let (u, all_meet) = alternatives_of_lem P p cs m.1 in
      (
        λ c e. rw (sym (some-injective p c e)) m.0,
        all_meet,
        omega (arith, IsUncorrelated-length (p ∷ alternatives_of (p ∷ cs)) u),
      )

  length-raw_rejection_reasons :
      (a : KairosAnalysisResponse F) → length (raw_rejection_reasons a) ≤ 7
  unfolding raw_rejection_reasons
  length-raw_rejection_reasons a =
      let markets = a.half_time_analysis in
      let b1 = not (is_nil markets) && all (λ m. m.insufficient_data) markets in
      let b2 =
        not (is_fresh a.data_freshness) || any (λ m. any is_stale_guardrail m.guardrails) markets in
      let b3 = max_below (map (λ m. m.data_quality_score) markets) data_quality_threshold in
      let b4 =
        max_below (map (λ m. m.technical_confidence_score) markets)
          technical_confidence_threshold in
      let b5 = max_below (known_probabilities markets) probability_threshold in
      let b6 =
        any (λ w. is_blocking w.severity) a.warnings
        || any (λ m. any (λ g. not (is_stale_guardrail g)) m.guardrails) markets in
      let l1 = append_if b1 insufficient_half_time_data [] in
      let l2 = append_if b2 stale_data l1 in
      let l3 = append_if b3 low_data_quality l2 in
      let l4 = append_if b4 low_technical_confidence l3 in
      let l5 = append_if b5 estimated_probability_below_threshold l4 in
      let l6 = append_if b6 critical_guardrail l5 in
      length-append_if (any not a.availability) provider_data_partial 6 l6 (
        length-append_if b6 critical_guardrail 5 l5 (
          length-append_if b5 estimated_probability_below_threshold 4 l4 (
            length-append_if b4 low_technical_confidence 3 l3 (
              length-append_if b3 low_data_quality 2 l2 (
                length-append_if b2 stale_data 1 l1
                  (length-append_if b1 insufficient_half_time_data 0 [] (omega arith)))))))

  length-rejection_reasons : (a : KairosAnalysisResponse F) → length (rejection_reasons a) ≤ 8
  unfolding rejection_reasons
  length-rejection_reasons a =
      let raw = raw_rejection_reasons a in
      let some_raw = if is_nil raw then critical_guardrail ∷ [] else raw in
      let few : length some_raw ≤ 7 = ground (arith, length-raw_rejection_reasons a) in
      omega (arith, length-distinct_reasons [] some_raw, few)

  length-missing_data :
      {V : Type 0} (d : KairosMatchDataset V) (a : KairosAnalysisResponse F)
      → length (missing_data d a) ≤ 5
  unfolding missing_data
  length-missing_data d a =
      let markets = a.half_time_analysis in
      let b1 = not (is_nil markets) && all (λ m. m.insufficient_data) markets in
      let b2 = not (any (λ e. is_goal e.event_type) d.events) in
      let l1 = append_if b1 half_time_scores [] in
      let l2 = append_if b2 goal_events l1 in
      let l3 = append_if (ltb (length d.h2h_history) 3) h2h l2 in
      let l4 = append_if (ltb (length d.standings) 2) standings l3 in
      length-append_if (is_nil d.statistics) match_statistics 4 l4 (
        length-append_if (ltb (length d.standings) 2) standings 3 l3 (
          length-append_if (ltb (length d.h2h_history) 3) h2h 2 l2 (
            length-append_if b2 goal_events 1 l1
              (length-append_if b1 half_time_scores 0 [] (omega arith)))))

  -- The fields that are copied, and the lengths of those that are made.
  opportunity_from-fields :
      {V : Type 0} (d : KairosMatchDataset V) (a : KairosAnalysisResponse F)
      (cs : List (KairosOpportunityCandidate F))
      → let o = opportunity_from d a cs in
        ((o.provider_match_id ≡ d.target.provider_match_id)
          × (o.home_team_name ≡ d.target.home_team_name)
          × (o.away_team_name ≡ d.target.away_team_name)
          × (o.competition_name ≡ d.target.competition_name)
          × (o.evaluated_markets ≡ a.half_time_analysis))
        × ((length o.alternative_analyses ≤ 1)
            × (length o.rejection_reasons ≤ 8)
            × (length o.missing_data ≤ 5))
  unfolding opportunity_from
  opportunity_from-fields d a [] = (
    (refl, refl, refl, refl, refl),
    (omega arith, length-rejection_reasons a, length-missing_data d a),
  )
  opportunity_from-fields d a (p ∷ cs) = (
    (refl, refl, refl, refl, refl),
    (
      (shown (λ _. Unit) d a (p ∷ cs) (All-trivial (p ∷ cs))).2,
      omega arith,
      length-missing_data d a,
    ),
  )

  -- What the fields of the target and of the response have to be for an opportunity.
  pub record FitsOpportunity {V : Type 0} (d : KairosMatchDataset V) (a : KairosAnalysisResponse F)
      : Type 0 where
    pub identified : 1 ≤ d.target.provider_match_id
    pub home_named : is_text 200 d.target.home_team_name ≡ true
    pub away_named : is_text 200 d.target.away_team_name ≡ true
    pub competition_named : is_text_or_none 240 d.target.competition_name ≡ true
    pub few_markets : length a.half_time_analysis ≤ 6

  pub opportunity_from-meets :
      {V : Type 0} (d : KairosMatchDataset V) (a : KairosAnalysisResponse F)
      (cs : List (KairosOpportunityCandidate F))
      → FitsOpportunity d a
      → meets_opportunity_schema (opportunity_from d a cs) ≡ true
  unfolding meets_opportunity_schema
  opportunity_from-meets d a cs fits =
      let o = opportunity_from d a cs in
      let (same, one) = opportunity_from-fields d a cs in
      (all-eq-true (λ b. b)
          (leb 1 o.provider_match_id
            ∷ is_text 200 o.home_team_name
            ∷ is_text 200 o.away_team_name
            ∷ is_text_or_none 240 o.competition_name
            ∷ leb (length o.alternative_analyses) 2
            ∷ leb (length o.evaluated_markets) 6
            ∷ leb (length o.rejection_reasons) 8
            ∷ leb (length o.missing_data) 5
            ∷ validate_primary_contract o
            ∷ [])).1
        (
          rw same.0 (ground (arith, fits.identified)),
          (
            rw same.1 fits.home_named,
            (
              rw same.2 fits.away_named,
              (
                rw same.3 fits.competition_named,
                (
                  ground (arith, one.0),
                  (
                    rw same.4 (ground (arith, fits.few_markets)),
                    (
                      ground (arith, one.1),
                      (ground (arith, one.2), (opportunity_from-contract d a cs, tt)),
                    ),
                  ),
                ),
              ),
            ),
          ),
        )

  module _ (laws : Laws fl) where
    -- When the half-time analyses of the response meet their schema, and the fields of the response
    -- and of the target are in the limits of the fields that they are copied to, `analyze` returns,
    -- no constructor raising; what it returns meets its schema with `validate_primary_contract`,
    -- shows candidates that reach the thresholds only, and has one alternative at most.
    pub analyze_lem :
        {V : Type 0} (digest : DoubleChancePayload F → String) (d : KairosMatchDataset V)
        (a : KairosAnalysisResponse F)
        → All (λ m. meets_analysis_schema m ≡ true) a.half_time_analysis
        → FitsCandidate digest a
        → FitsOpportunity d a
        → (o : KairosMatchOpportunity F) × (analyze digest d a ≡ ok o)
          × (meets_opportunity_schema o ≡ true)
          × (validate_primary_contract o ≡ true)
          × ((c : KairosOpportunityCandidate F) → o.primary_analysis ≡ some c → MeetsThresholds c)
          × All MeetsThresholds o.alternative_analyses
          × (length o.alternative_analyses ≤ 1)
    unfolding analyze
    analyze_lem digest d a schemas fits_candidate fits =
        let (cs, made, _, meant) = candidates_of_lem laws digest a schemas fits_candidate in
        let (primary, alternatives, one) =
          shown MeetsThresholds d a cs (All-map (λ c both. both.0) cs meant) in
        let met = opportunity_from-meets d a cs fits in
        (
          opportunity_from d a cs,
          rw (made, met) refl,
          met,
          opportunity_from-contract d a cs,
          primary,
          alternatives,
          one,
        )
