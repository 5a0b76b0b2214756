-- ===== src/Opportunity/Origin.antt =====
-- What the candidates of a match go back to, when its half-time analyses are those of its dataset:
-- the calls from `KairosOpportunityService.analyze` down to `analyze_half_time_markets`.
use urim_platform.Base.{
  ℕ, ◌≤◌, String, ◌≡◌, refl, ◌⊎◌, inl, inr, true, false, some, List, [], ◌∷◌, length, All, Any,
  All-map, ok,
}
use urim_platform.Float.{Float, Laws}
use urim_platform.Observation.{KairosMatchDataset}
use urim_platform.HalfTime.{
  KairosHalfTimeMarketAnalysis, Fingerprint, samples, is_stale, analyze_half_time_markets,
}
use urim_platform.HalfTime.Gate.{IsInRange, IsBacked}
use urim_platform.HalfTime.Run.{
  analyze_half_time_markets-IsInRange, analyze_half_time_markets-IsBacked,
}
use urim_platform.Response.{KairosAnalysisResponse}
use urim_platform.Opportunity.Model.{KairosOpportunityCandidate, DoubleChancePayload}
use urim_platform.Opportunity.Service.{opportunity_from, analyze}
use urim_platform.Opportunity.Ranking.{
  MeetsThresholds, FitsCandidate, IsOf, IsDouble, candidates_of_lem,
}
use urim_platform.Opportunity.Schema.{
  KairosMatchOpportunity, meets_opportunity_schema, validate_primary_contract,
}
use urim_platform.Opportunity.Contract.{
  FitsOpportunity, opportunity_from-meets, shown, opportunity_from-contract,
}

module _ {F V : Type 0} ⦃fl : Float F⦄ (laws : Laws fl) (d : KairosMatchDataset V) (threshold : ℕ)
    (a : KairosAnalysisResponse F) where
  -- The target's data is fresh and both teams have at least three complete matches.
  abbrev pub HasHistory : Type 0
  HasHistory =
      (is_stale fl d threshold ≡ false)
      × (3 ≤ length (samples d.home_history 5))
      × (3 ≤ length (samples d.away_history 5))

  -- The candidate reaches the thresholds, and shows the market, the probability and the hash of an
  -- eligible analysis of a target with that history; or it shows the best double chance of the
  -- response, which is fresh and whose suggestion is no refusal.
  abbrev pub IsGrounded : KairosOpportunityCandidate F → Type 0
  IsGrounded c =
      MeetsThresholds c × ((Any (λ m. IsOf m c) a.half_time_analysis × HasHistory) ⊎ IsDouble a c)

  -- One eligible analysis of the run is enough for the history.
  backed-HasHistory :
      (l : List (KairosHalfTimeMarketAnalysis F))
      → All (λ m. m.eligible_for_opportunity ≡ true → IsBacked d threshold m) l
      → (c : KairosOpportunityCandidate F) → Any (λ m. IsOf m c) l
      → HasHistory
  backed-HasHistory [] h c m = elim m [ ]
  backed-HasHistory (m ∷ l) h c (inl of_m) =
      let back : IsBacked d threshold m = h.0 of_m.3 in
      (back.not_stale, back.home_history, back.away_history)
  backed-HasHistory (m ∷ l) h c (inr later) = backed-HasHistory l h.1 c later

  -- When the response's half-time analyses are those of a run on the dataset, and the fields of
  -- the response and of the target are in the limits of the fields that they are copied to,
  -- `analyze` returns an opportunity that meets its schema with `validate_primary_contract`. Every
  -- candidate that it shows reaches the thresholds, and either shows the market, the probability
  -- and the hash of an eligible analysis of fresh data with three complete matches a team, or is
  -- the best double chance of a fresh response whose suggestion is no refusal.
  pub analyze-IsGrounded :
      (half_digest : Fingerprint F → String) (digest : DoubleChancePayload F → String)
      → analyze_half_time_markets half_digest d threshold ≡ ok a.half_time_analysis
      → FitsCandidate digest a
      → FitsOpportunity d a
      → (o : KairosMatchOpportunity F) × (analyze digest d a ≡ ok o)
        × (meets_opportunity_schema o ≡ true)
        × (validate_primary_contract o ≡ true)
        × ((c : KairosOpportunityCandidate F) → o.primary_analysis ≡ some c → IsGrounded c)
        × All IsGrounded o.alternative_analyses
  unfolding analyze
  analyze-IsGrounded half_digest digest run fits_candidate fits =
      let (_, ranges) =
        analyze_half_time_markets-IsInRange laws half_digest d threshold a.half_time_analysis run in
      let schemas = All-map (λ m (r : IsInRange m). r.schema_met) a.half_time_analysis ranges in
      let backed =
        analyze_half_time_markets-IsBacked laws half_digest d threshold a.half_time_analysis run in
      let (cs, made, _, meant) = candidates_of_lem laws digest a schemas fits_candidate in
      let grounded : All IsGrounded cs =
        All-map
          (λ c (meets, origin). (
            meets,
            elim origin [
              | inl half ↦ inl (half, backed-HasHistory a.half_time_analysis backed c half)
              | inr double ↦ inr double
            ],
          ))
          cs meant in
      let (primary, alternatives, _) = shown IsGrounded d a cs grounded in
      let met = opportunity_from-meets d a cs fits in
      (
        opportunity_from d a cs,
        rw (made, met) refl,
        met,
        opportunity_from-contract d a cs,
        primary,
        alternatives,
      )
