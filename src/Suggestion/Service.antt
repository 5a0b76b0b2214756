-- ===== src/Suggestion/Service.antt =====
-- `build_kairos_suggestion` and `_suggestion_reasons` of kairos/suggestions.py. `digest` stands
-- for `sha256` of the JSON text of the decision's payload.
use text.Mathlib.Text.{◌==◌ as str_eq}
use urim_platform.Base.{
  ℕ, String, Bool, true, false, not, ◌||◌, Option, none, some, List, [], ◌∷◌, ◌++◌, map,
  if◌then◌else◌, take, select, disjunction, is_nil,
}
use urim_platform.Base.Instant.{DateTime}
use urim_platform.Float.{Float, lt, fmin, fmax}
use urim_platform.Response.{KairosMarketProbabilities, KairosWarning}
use urim_platform.Suggestion.Model.{
  minimum_suggestion_score, technical_confidence_cap, Candidate, KairosReason, positive, negative,
  neutral, analytical, guardrail, market_signal, quality_limit, reliability_limit, hard_block,
  score_gate, given, KairosSuggestionReason, signal_strength, best_candidate, is_critical_warning,
  is_info, blocking_codes_of, factor_impact, critical_first, ConfidenceLevel, RiskLevel,
  confidence_level, risk_level,
}

-- The arguments of `build_kairos_suggestion`.
pub record SuggestionInput (F : Type 0) : Type 0 where
  pub provider_match_id : ℕ
  pub kickoff_at : DateTime
  pub home_team_name : String
  pub away_team_name : String
  pub market_probabilities : Option (KairosMarketProbabilities F)
  pub confidence_score : F
  pub data_quality_score : F
  pub freshness_status : String
  pub analysis_reasons : List KairosReason
  pub analysis_warnings : List KairosWarning
  pub feature_snapshot_hash : String
  pub competition_name : Option String

-- What the decision's hash is taken of.
pub record DecisionPayload (F : Type 0) : Type 0 where
  pub provider_match_id : ℕ
  pub kickoff_at : DateTime
  pub recommendation : String
  pub recommendation_code : String
  pub kairos_score : F
  pub feature_snapshot_hash : String
  pub reasons : List (KairosSuggestionReason F)

pub record KairosSuggestion (F : Type 0) : Type 0 where
  pub provider_match_id : ℕ
  pub kickoff_at : DateTime
  pub home_team_name : String
  pub away_team_name : String
  pub competition_name : Option String
  pub recommendation : String
  pub recommendation_code : String
  pub kairos_score : F
  pub confidence_level : ConfidenceLevel
  pub risk_level : RiskLevel
  pub no_bet : Bool
  pub reasons : List (KairosSuggestionReason F)
  pub market_probabilities : Option (KairosMarketProbabilities F)
  pub data_quality_score : F
  pub technical_confidence_score : F
  pub feature_snapshot_hash : String
  pub decision_hash : String

abbrev pub is_missing : {A : Type 0} → Option A → Bool
is_missing none = true
is_missing (some a) = false

module _ {F : Type 0} ⦃fl : Float F⦄ where
  -- The reasons about the signal, the quality and the reliability.
  abbrev pub limit_reasons : Option (Candidate F) → Bool → F → F → List (KairosSuggestionReason F)
  limit_reasons candidate no_bet data_quality normalized_reliability =
      (elim candidate [
        | none ↦ []
        | some c ↦
            (record {
              code = "NORMALIZED_MARKET_SIGNAL";
              message = market_signal c.probability c.no_information_probability;
              impact = if no_bet then neutral else positive;
              category = analytical;
              critical = false;
            })
            ∷ []
      ])
      ++ ((record {
        code = "DATA_QUALITY_LIMIT";
        message = quality_limit data_quality;
        impact = if fl.le minimum_suggestion_score data_quality then positive else negative;
        category = analytical;
        critical = false;
      })
          ∷ (record {
            code = "TECHNICAL_RELIABILITY_LIMIT";
            message = reliability_limit normalized_reliability;
            impact =
                if fl.le minimum_suggestion_score normalized_reliability
                then positive
                else negative;
            category = analytical;
            critical = false;
          })
          ∷ [])

  -- Why no recommendation is given.
  abbrev pub block_reasons : Bool → Bool → F → List String → List (KairosSuggestionReason F)
  block_reasons no_bet hard_blocked score blocking_codes =
      if hard_blocked
      then (record {
        code = "NO_BET_HARD_BLOCK";
        message = hard_block blocking_codes;
        impact = negative;
        category = guardrail;
        critical = true;
      })
        ∷ []
      else if no_bet
      then (record {
        code = "NO_BET_SCORE_GATE";
        message = score_gate score minimum_suggestion_score;
        impact = negative;
        category = guardrail;
        critical = true;
      })
        ∷ []
      else []

  abbrev pub factor_reason : Option (Candidate F) → Bool → KairosReason → KairosSuggestionReason F
  factor_reason candidate no_bet reason = record {
    code = reason.code;
    message = given reason.message;
    impact = factor_impact reason.direction candidate no_bet;
    category = analytical;
    critical = false;
  }

  abbrev pub warning_reason : KairosWarning → KairosSuggestionReason F
  warning_reason w = record {
    code = w.code;
    message = given w.message;
    impact = negative;
    category = guardrail;
    critical = is_critical_warning w;
  }

  -- The reasons in the order in which they are appended.
  unfoldable pub appended_reasons :
      Option (Candidate F)
      → (no_bet hard_blocked : Bool) (score quality reliability : F) → List KairosReason
      → List KairosWarning
      → List String
      → List (KairosSuggestionReason F)
  appended_reasons candidate no_bet hard_blocked score quality reliability reasons warnings codes =
      limit_reasons candidate no_bet quality reliability
      ++ (block_reasons no_bet hard_blocked score codes
          ++ (map (factor_reason candidate no_bet) (take 5 reasons)
              ++ map warning_reason (select (λ w. not (is_info w.severity)) warnings)))

  unfoldable pub suggestion_reasons :
      Option (Candidate F)
      → (no_bet hard_blocked : Bool) (score quality reliability : F) → List KairosReason
      → List KairosWarning
      → List String
      → List (KairosSuggestionReason F)
  suggestion_reasons candidate no_bet hard_blocked score quality reliability reasons warnings
        codes =
      take 12 (
        critical_first (
          appended_reasons candidate no_bet hard_blocked score quality reliability reasons warnings
            codes))

  abbrev pub candidate_from : Option (KairosMarketProbabilities F) → Option (Candidate F)
  candidate_from none = none
  candidate_from (some p) = some (best_candidate p)

  unfoldable pub is_hard_blocked : SuggestionInput F → Bool
  is_hard_blocked s = disjunction (
      is_missing s.market_probabilities
      ∷ not (str_eq s.freshness_status "fresh")
      ∷ not (is_nil (blocking_codes_of s.analysis_warnings))
      ∷ [])

  unfoldable pub normalized_reliability : F → F
  normalized_reliability score =
      fl.mul (fmax (fl.lit 0 1) (fmin (fl.div score technical_confidence_cap) (fl.lit 10 1)))
        (fl.lit 1000 1)

  abbrev pub candidate_score : Option (Candidate F) → F
  candidate_score none = fl.lit 0 1
  candidate_score (some c) = fl.mul (signal_strength c) (fl.lit 1000 1)

  unfoldable pub kairos_score_of : SuggestionInput F → F
  kairos_score_of s =
      fl.round
        (fmin (fmin s.data_quality_score (normalized_reliability s.confidence_score))
          (candidate_score (candidate_from s.market_probabilities)))
        1

  abbrev pub is_below_gate : Option (Candidate F) → F → Bool
  is_below_gate none score = true
  is_below_gate (some c) score =
      fl.le (signal_strength c) (fl.lit 0 0) || lt score minimum_suggestion_score

  unfoldable pub is_no_bet : SuggestionInput F → Bool
  is_no_bet s =
      is_hard_blocked s || is_below_gate (candidate_from s.market_probabilities) (kairos_score_of s)

  abbrev pub label_of : Bool → Option (Candidate F) → String
  label_of no_bet none = "NO_BET"
  label_of no_bet (some c) = if no_bet then "NO_BET" else c.label

  abbrev pub code_of : Bool → Option (Candidate F) → String
  code_of no_bet none = "NO_BET"
  code_of no_bet (some c) = if no_bet then "NO_BET" else c.code

  unfoldable pub build_kairos_suggestion :
      (DecisionPayload F → String) → SuggestionInput F → KairosSuggestion F
  build_kairos_suggestion digest s =
      let candidate = candidate_from s.market_probabilities in
      let score = kairos_score_of s in
      let no_bet = is_no_bet s in
      let recommendation = label_of no_bet candidate in
      let recommendation_code = code_of no_bet candidate in
      let reasons =
        suggestion_reasons candidate no_bet (is_hard_blocked s) score s.data_quality_score
          (normalized_reliability s.confidence_score) s.analysis_reasons s.analysis_warnings
          (blocking_codes_of s.analysis_warnings) in
      let payload : DecisionPayload F = record {
        provider_match_id = s.provider_match_id;
        kickoff_at = s.kickoff_at;
        recommendation = recommendation;
        recommendation_code = recommendation_code;
        kairos_score = score;
        feature_snapshot_hash = s.feature_snapshot_hash;
        reasons = reasons;
      } in
      record {
        provider_match_id = s.provider_match_id;
        kickoff_at = s.kickoff_at;
        home_team_name = s.home_team_name;
        away_team_name = s.away_team_name;
        competition_name = s.competition_name;
        recommendation = recommendation;
        recommendation_code = recommendation_code;
        kairos_score = score;
        confidence_level = confidence_level s.confidence_score (is_hard_blocked s);
        risk_level = risk_level no_bet;
        no_bet = no_bet;
        reasons = reasons;
        market_probabilities = s.market_probabilities;
        data_quality_score = fl.round s.data_quality_score 1;
        technical_confidence_score = fl.round s.confidence_score 1;
        feature_snapshot_hash = s.feature_snapshot_hash;
        decision_hash = digest payload;
      }
