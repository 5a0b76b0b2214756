-- ===== src/Suggestion/Tests.antt =====
-- A suggestion, with fractions for floats.
use urim_platform.Suggestion.Service.{
  normalized_reliability, kairos_score_of, is_no_bet, SuggestionInput, DecisionPayload,
  is_hard_blocked, build_kairos_suggestion,
}
use urim_platform.Suggestion.Model.{
  blocking_codes_of, strongest, KairosSuggestionReason, signal_strength, best_candidate,
  first_candidate, further_candidates,
}
use urim_platform.Base.Sort.{sorted}
use urim_platform.Base.{
  ◌≤◌, String, ◌≡◌, refl, true, false, none, some, List, [], ◌∷◌, if◌then◌else◌, length, All, In,
}
use urim_platform.Float.Rational.{Fraction, fractions, fractions-Laws}
use urim_platform.Fixture.{at_time}
use urim_platform.Response.{KairosMarketProbabilities, KairosWarning, blocking}
use urim_platform.Suggestion.Best.{best_candidate_lem}
use urim_platform.Suggestion.Reasons.{
  IsCriticalFirst, HasCategory, build_kairos_suggestion-IsCriticalFirst,
}
use urim_platform.Suggestion.Contract.{
  validate_recommendation_contract, IsSupported, build_kairos_suggestion_lem,
  build_kairos_suggestion-IsSupported,
}

abbrev digest : DecisionPayload Fraction → String
digest p = "digest"

abbrev probabilities : KairosMarketProbabilities Fraction
probabilities = record {
  home_win = fractions.lit 80 2;
  draw = fractions.lit 15 2;
  away_win = fractions.lit 5 2;
  home_or_draw = fractions.lit 95 2;
  away_or_draw = fractions.lit 20 2;
  home_or_away = fractions.lit 85 2;
  over_2_5 = fractions.lit 50 2;
  under_2_5 = fractions.lit 50 2;
  btts = fractions.lit 50 2;
}

abbrev input : List KairosWarning → SuggestionInput Fraction
input warnings = record {
  provider_match_id = 200;
  kickoff_at = at_time 2000;
  home_team_name = "Home";
  away_team_name = "Away";
  market_probabilities = some probabilities;
  confidence_score = fractions.lit 600 1;
  data_quality_score = fractions.lit 800 1;
  freshness_status = "fresh";
  analysis_reasons = [];
  analysis_warnings = warnings;
  feature_snapshot_hash = "snapshot";
  competition_name = none;
}

abbrev late : KairosWarning
late = record { code = "LATE"; message = "late"; severity = blocking }

best-code : (best_candidate probabilities).code ≡ "HOME_OR_DRAW"
unfolding best_candidate strongest signal_strength
best-code = refl

best_candidate_lem_example :
    In
      (best_candidate probabilities)
      (first_candidate probabilities ∷ further_candidates probabilities)
    × All
        (λ c.
          fractions.le (signal_strength c) (signal_strength (best_candidate probabilities)) ≡ true)
        (first_candidate probabilities ∷ further_candidates probabilities)
best_candidate_lem_example = best_candidate_lem fractions-Laws probabilities

build_kairos_suggestion_lem_example :
    (validate_recommendation_contract (build_kairos_suggestion digest (input [])) ≡ true)
    × (fractions.le
          (build_kairos_suggestion digest (input [])).kairos_score
          (build_kairos_suggestion digest (input [])).data_quality_score
        ≡ true)
build_kairos_suggestion_lem_example = build_kairos_suggestion_lem fractions-Laws digest (input [])

input-recommended : (build_kairos_suggestion digest (input [])).no_bet ≡ false
unfolding build_kairos_suggestion is_no_bet is_hard_blocked blocking_codes_of sorted signal_strength
    best_candidate strongest kairos_score_of normalized_reliability
input-recommended = refl

build_kairos_suggestion-IsSupported_example :
    IsSupported (input []) (build_kairos_suggestion digest (input []))
build_kairos_suggestion-IsSupported_example =
    build_kairos_suggestion-IsSupported digest (input []) input-recommended

build_kairos_suggestion-IsCriticalFirst_example :
    (length (build_kairos_suggestion digest (input (late ∷ []))).reasons ≤ 12)
    × IsCriticalFirst (build_kairos_suggestion digest (input (late ∷ []))).reasons
    × All HasCategory (build_kairos_suggestion digest (input (late ∷ []))).reasons
    × ((build_kairos_suggestion digest (input (late ∷ []))).no_bet ≡ true
        → (r : KairosSuggestionReason Fraction) × (rest : List (KairosSuggestionReason Fraction))
          × ((build_kairos_suggestion digest (input (late ∷ []))).reasons ≡ r ∷ rest)
          × (r.critical ≡ true)
          × (r.code ≡ (
              if is_hard_blocked (input (late ∷ []))
              then "NO_BET_HARD_BLOCK"
              else "NO_BET_SCORE_GATE")))
    × ((build_kairos_suggestion digest (input (late ∷ []))).no_bet ≡ false
        → All
            (λ r. r.critical ≡ false)
            (build_kairos_suggestion digest (input (late ∷ []))).reasons)
build_kairos_suggestion-IsCriticalFirst_example =
    build_kairos_suggestion-IsCriticalFirst digest (input (late ∷ []))
