-- ===== src/Suggestion/Contract.antt =====
-- What `build_kairos_suggestion` hands out, against `validate_recommendation_contract` of
-- `KairosSuggestion` in kairos/schemas.py.
use text.Mathlib.Text.{◌==◌ as str_eq}
use text.Mathlib.TextEquality.{eq_iff}
use urim_platform.Base.{
  String, ◌≡◌, refl, Bool, true, false, not, ◌&&◌, Option, none, some, [], ◌∷◌, arith, ||-eq-false,
  conjunction, is_nil,
}
use urim_platform.Float.{Float, Laws, lt, of_nat, fmin, fmin-le_left}
use urim_platform.Response.{KairosMarketProbabilities}
use urim_platform.Suggestion.Model.{
  blocking_codes_of, Candidate, minimum_suggestion_score, signal_strength, best_candidate,
  first_candidate, further_candidates,
}
use urim_platform.Suggestion.Service.{
  candidate_score, SuggestionInput, DecisionPayload, KairosSuggestion, candidate_from, is_missing,
  is_hard_blocked, is_below_gate, is_no_bet, kairos_score_of, label_of, code_of,
  build_kairos_suggestion, normalized_reliability,
}
use urim_platform.Suggestion.Best.{strongest-All}

-- `a != b` of Booleans.
abbrev differ : Bool → Bool → Bool
differ true b = not b
differ false b = b

module _ {F : Type 0} ⦃fl : Float F⦄ where
  -- `validate_recommendation_contract`: true where the validator raises nothing.
  unfoldable pub validate_recommendation_contract : KairosSuggestion F → Bool
  validate_recommendation_contract o = conjunction (
      not (differ o.no_bet (str_eq o.recommendation "NO_BET"))
      ∷ not (differ o.no_bet (str_eq o.recommendation_code "NO_BET"))
      ∷ not (not o.no_bet && is_missing o.market_probabilities)
      ∷ not (not o.no_bet && lt o.kairos_score (of_nat 40))
      ∷ [])

  -- A candidate names a recommendation.
  abbrev IsNamed : Candidate F → Type 0
  IsNamed c = (str_eq c.label "NO_BET" ≡ false) × (str_eq c.code "NO_BET" ≡ false)

  best_candidate-IsNamed : (p : KairosMarketProbabilities F) → IsNamed (best_candidate p)
  unfolding best_candidate
  best_candidate-IsNamed p =
      strongest-All IsNamed (first_candidate p) (further_candidates p) (refl, refl)
        (
          (refl, refl),
          (
            (refl, refl),
            (
              (refl, refl),
              ((refl, refl), ((refl, refl), ((refl, refl), ((refl, refl), ((refl, refl), tt))))),
            ),
          ),
        )

  -- What a recommendation rests on: fresh data without a blocking code, the market's
  -- probabilities, the best candidate of them with a signal, and a score that reaches the gate.
  pub record IsSupported (s : SuggestionInput F) (o : KairosSuggestion F) : Type 0 where
    pub fresh_data : s.freshness_status ≡ "fresh"
    pub no_code : is_nil (blocking_codes_of s.analysis_warnings) ≡ true
    pub known :
        (p : KairosMarketProbabilities F) × (s.market_probabilities ≡ some p)
        × (o.recommendation ≡ (best_candidate p).label)
        × (o.recommendation_code ≡ (best_candidate p).code)
        × (fl.le (signal_strength (best_candidate p)) (fl.lit 0 0) ≡ false)
    pub scored : fl.le minimum_suggestion_score o.kairos_score ≡ true

  open_gate :
      (m : Option (KairosMarketProbabilities F)) (score : F)
      → is_below_gate (candidate_from m) score ≡ false
      → (p : KairosMarketProbabilities F) × (m ≡ some p)
        × (fl.le (signal_strength (best_candidate p)) (fl.lit 0 0) ≡ false)
        × (fl.le minimum_suggestion_score score ≡ true)
  open_gate none score h = cc
  open_gate (some p) score h = (p, refl, ground arith, ground arith)

  -- A recommendation is given only on fresh data without a blocking code, for the strongest of the
  -- nine candidates, with a signal above its reference and a score of 40 at least.
  pub build_kairos_suggestion-IsSupported :
      (digest : DecisionPayload F → String) (s : SuggestionInput F)
      → (build_kairos_suggestion digest s).no_bet ≡ false
      → IsSupported s (build_kairos_suggestion digest s)
  unfolding build_kairos_suggestion is_no_bet is_hard_blocked
  build_kairos_suggestion-IsSupported digest s h =
      let (hard, below) =
        (||-eq-false _
            (is_below_gate (candidate_from s.market_probabilities) (kairos_score_of s))).0
          h in
      let (p, known, signal, score) = open_gate s.market_probabilities (kairos_score_of s) below in
      record {
        fresh_data = ground (arith, hard, eq_iff s.freshness_status "fresh");
        no_code = ground (arith, hard);
        known = (p, known, ground (arith, known, h), ground (arith, known, h), signal);
        scored = score;
      }

module _ {F : Type 0} ⦃fl : Float F⦄ (laws : Laws fl) where
  open laws use {le_trans, lit_le, round_mono}

  contract_of :
      (no_bet : Bool) (m : Option (KairosMarketProbabilities F)) (score : F)
      → (no_bet ≡ false
          → (p : KairosMarketProbabilities F) × (m ≡ some p)
            × (fl.le minimum_suggestion_score score ≡ true))
      → conjunction (
          not (differ no_bet (str_eq (label_of no_bet (candidate_from m)) "NO_BET"))
          ∷ not (differ no_bet (str_eq (code_of no_bet (candidate_from m)) "NO_BET"))
          ∷ not (not no_bet && is_missing m)
          ∷ not (not no_bet && lt score (of_nat 40))
          ∷ [])
        ≡ true
  contract_of true none score h = refl
  contract_of true (some p) score h = refl
  contract_of false m score h =
      let (p, e, high_) = h refl in
      let (named, coded) = best_candidate-IsNamed p in
      let reached : fl.le (of_nat 40) score ≡ true =
        le_trans (of_nat 40) minimum_suggestion_score score (lit_le 40 0 400 1 (omega arith))
          high_ in
      rw (e, named, coded, reached) refl

  -- What `build_kairos_suggestion` returns passes `validate_recommendation_contract`, and its
  -- score is not above the quality that it publishes.
  pub build_kairos_suggestion_lem :
      (digest : DecisionPayload F → String) (s : SuggestionInput F)
      → (validate_recommendation_contract (build_kairos_suggestion digest s) ≡ true)
        × (fl.le
              (build_kairos_suggestion digest s).kairos_score
              (build_kairos_suggestion digest s).data_quality_score
            ≡ true)
  unfolding validate_recommendation_contract build_kairos_suggestion is_no_bet kairos_score_of
  build_kairos_suggestion_lem digest s =
      let reliability = normalized_reliability s.confidence_score in
      let signal = candidate_score (candidate_from s.market_probabilities) in
      (
        contract_of (is_no_bet s) s.market_probabilities (kairos_score_of s) (λ h.
            let (_, below) =
              (||-eq-false (is_hard_blocked s)
                  (is_below_gate (candidate_from s.market_probabilities) (kairos_score_of s))).0
                h in
            let (p, known, _, score) = open_gate s.market_probabilities (kairos_score_of s) below in
            (p, known, score)),
        round_mono _ s.data_quality_score 1 (
            le_trans _ (fmin s.data_quality_score reliability) s.data_quality_score
              (fmin-le_left laws (fmin s.data_quality_score reliability) signal)
              (fmin-le_left laws s.data_quality_score reliability)),
      )
