-- ===== src/Opportunity/Schema.antt =====
-- The opportunity of a match as kairos/schemas.py has it: the class `KairosMatchOpportunity`, its
-- fields and its validator `validate_primary_contract`.
use urim_platform.Base.Instant.{DateTime}
use urim_platform.Base.Text.{text_length}
use urim_platform.Market.{
  Market, first_half_more_goals, second_half_more_goals, equal_half_goals, first_half_over_0_5,
  second_half_over_0_5, second_half_over_1_5, home_or_draw, away_or_draw, home_or_away,
  market_group,
}
use urim_platform.HalfTime.{KairosHalfTimeMarketAnalysis}
use urim_platform.Response.{Freshness}
use urim_platform.Opportunity.Model.{
  KairosOpportunityCandidate, Section, SafetyDecision, analysis_allowed, KairosRejectionReason,
  KairosMissingData, same_group,
}
use urim_platform.Base.{
  ℕ, String, Bool, true, false, not, ◌&&◌, ◌||◌, Option, none, some, List, [], ◌∷◌, map, leb, ◌==◌,
  if◌then◌else◌, length, any, conjunction, is_nil,
}

pub record KairosMatchOpportunity (F : Type 0) : Type 0 where
  pub provider_match_id : ℕ
  pub kickoff_at : DateTime
  pub home_team_name : String
  pub away_team_name : String
  pub competition_name : Option String
  pub section : Section
  pub safety_decision : SafetyDecision
  pub primary_analysis : Option (KairosOpportunityCandidate F)
  pub alternative_analyses : List (KairosOpportunityCandidate F)
  pub evaluated_markets : List (KairosHalfTimeMarketAnalysis F)
  pub rejection_reasons : List KairosRejectionReason
  pub missing_data : List KairosMissingData
  pub data_freshness : Freshness

abbrev pub market_number : Market → ℕ
market_number first_half_more_goals = 0
market_number second_half_more_goals = 1
market_number equal_half_goals = 2
market_number first_half_over_0_5 = 3
market_number second_half_over_0_5 = 4
market_number second_half_over_1_5 = 5
market_number home_or_draw = 6
market_number away_or_draw = 7
market_number home_or_away = 8

abbrev pub same_market : Market → Market → Bool
same_market a b = market_number a == market_number b

abbrev is_allowed : SafetyDecision → Bool
is_allowed analysis_allowed = true
is_allowed _ = false

abbrev is_insufficient : SafetyDecision → Bool
is_insufficient SafetyDecision.insufficient_data = true
is_insufficient _ = false

abbrev is_insufficient_section : Section → Bool
is_insufficient_section Section.insufficient_data = true
is_insufficient_section _ = false

-- `len(xs) == len(set(xs))`
abbrev pub no_repeats : {A : Type 0} → (A → A → Bool) → List A → Bool
no_repeats same [] = true
no_repeats same (x ∷ xs) = not (any (same x) xs) && no_repeats same xs

module _ {F : Type 0} where
  abbrev pub selected :
      Option (KairosOpportunityCandidate F) → List (KairosOpportunityCandidate F) → List Market
  selected none alternatives = map (λ c. c.market) alternatives
  selected (some primary) alternatives = primary.market ∷ map (λ c. c.market) alternatives

  abbrev pub is_absent : Option (KairosOpportunityCandidate F) → Bool
  is_absent none = true
  is_absent (some c) = false

  -- `validate_primary_contract`: true where the validator raises nothing.
  unfoldable pub validate_primary_contract : KairosMatchOpportunity F → Bool
  validate_primary_contract o = conjunction (
      (if is_allowed o.safety_decision
        then not (is_absent o.primary_analysis)
        else is_absent o.primary_analysis && is_nil o.alternative_analyses)
      ∷ (if is_allowed o.safety_decision
          then is_nil o.rejection_reasons
          else not (is_nil o.rejection_reasons))
      ∷ (not (is_insufficient o.safety_decision) || is_insufficient_section o.section)
      ∷ no_repeats same_market (selected o.primary_analysis o.alternative_analyses)
      ∷ no_repeats same_group
          (map market_group (selected o.primary_analysis o.alternative_analyses))
      ∷ [])

abbrev pub is_text : (longest : ℕ) → String → Bool
is_text longest s = leb 1 (text_length s) && leb (text_length s) longest

abbrev pub is_text_or_none : (longest : ℕ) → Option String → Bool
is_text_or_none longest none = true
is_text_or_none longest (some s) = is_text longest s

module _ {F : Type 0} where
  -- The fields and the validator: true where the constructor raises nothing.
  unfoldable pub meets_opportunity_schema : KairosMatchOpportunity F → Bool
  unfolding validate_primary_contract
  meets_opportunity_schema o = conjunction (
      leb 1 o.provider_match_id
      ∷ is_text 200 o.home_team_name
      ∷ is_text 200 o.away_team_name
      ∷ is_text_or_none 240 o.competition_name
      ∷ leb (length o.alternative_analyses) 2
      ∷ leb (length o.evaluated_markets) 6
      ∷ leb (length o.rejection_reasons) 8
      ∷ leb (length o.missing_data) 5
      ∷ validate_primary_contract o
      ∷ [])
