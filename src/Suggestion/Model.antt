-- ===== src/Suggestion/Model.antt =====
-- The candidates and the reasons of kairos/suggestions.py. A message is a constructor with the
-- numbers that the source formats into its text.
use text.Mathlib.Text.{◌==◌ as str_eq}
use urim_platform.Base.{
  String, Bool, true, false, not, ◌||◌, Option, none, some, List, [], ◌∷◌, ◌++◌, map, if◌then◌else◌,
  select,
}
use urim_platform.Base.Sort.{sorted}
use urim_platform.Base.Text.{text_le}
use urim_platform.Float.{Float, lt, fmin, fmax, of_nat}
use urim_platform.Response.{KairosMarketProbabilities, Severity, info, is_blocking, KairosWarning}

-- The constants of the module.
module _ {F : Type 0} ⦃fl : Float F⦄ where
  abbrev pub minimum_suggestion_score : F
  minimum_suggestion_score = fl.lit 400 1

  abbrev pub technical_confidence_cap : F
  technical_confidence_cap = fl.lit 650 1

pub record Candidate (F : Type 0) : Type 0 where
  pub label : String
  pub code : String
  pub probability : F
  pub no_information_probability : F

pub data Direction : Type 0 where
  home draw away no_direction : Direction

pub record KairosReason : Type 0 where
  pub code : String
  pub message : String
  pub direction : Direction

pub data Impact : Type 0 where
  positive negative neutral : Impact

pub data Category : Type 0 where
  analytical guardrail : Category

pub data Message (F : Type 0) : Type 0 where
  market_signal : F → F → Message F
  quality_limit reliability_limit : F → Message F
  hard_block : List String → Message F
  score_gate : F → F → Message F
  given : String → Message F

pub record KairosSuggestionReason (F : Type 0) : Type 0 where
  pub code : String
  pub message : Message F
  pub impact : Impact
  pub category : Category
  pub critical : Bool

module _ {F : Type 0} ⦃fl : Float F⦄ where
  unfoldable pub signal_strength : Candidate F → F
  signal_strength c = fmax (fl.lit 0 1) (
      fmin (fl.lit 10 1) (
        fl.div (fl.sub c.probability c.no_information_probability)
          (fl.sub (fl.lit 10 1) c.no_information_probability)))

  abbrev pub candidate : String → String → F → F → Candidate F
  candidate label code probability reference = record {
    label = label;
    code = code;
    probability = probability;
    no_information_probability = reference;
  }

  -- The candidates behind the first one, in the order of the code.
  abbrev pub further_candidates : KairosMarketProbabilities F → List (Candidate F)
  further_candidates p =
      candidate "Away Win" "AWAY_WIN" p.away_win (fl.div (of_nat 1) (of_nat 3))
      ∷ candidate "Draw" "DRAW" p.draw (fl.div (of_nat 1) (of_nat 3))
      ∷ candidate "Double Chance" "HOME_OR_DRAW" p.home_or_draw (fl.div (of_nat 2) (of_nat 3))
      ∷ candidate "Double Chance" "AWAY_OR_DRAW" p.away_or_draw (fl.div (of_nat 2) (of_nat 3))
      ∷ candidate "Double Chance" "HOME_OR_AWAY" p.home_or_away (fl.div (of_nat 2) (of_nat 3))
      ∷ candidate "Over 2.5" "OVER_2_5" p.over_2_5 (fl.lit 5 1)
      ∷ candidate "Under 2.5" "UNDER_2_5" p.under_2_5 (fl.lit 5 1)
      ∷ candidate "BTTS" "BTTS" p.btts (fl.lit 5 1)
      ∷ []

  abbrev pub first_candidate : KairosMarketProbabilities F → Candidate F
  first_candidate p = candidate "Home Win" "HOME_WIN" p.home_win (fl.div (of_nat 1) (of_nat 3))

  -- `max` by the key `(signal_strength, -index)`: the first of the strongest.
  unfoldable pub strongest : Candidate F → List (Candidate F) → Candidate F
  strongest best [] = best
  strongest best (c ∷ candidates) =
      strongest (if lt (signal_strength best) (signal_strength c) then c else best) candidates

  unfoldable pub best_candidate : KairosMarketProbabilities F → Candidate F
  best_candidate p = strongest (first_candidate p) (further_candidates p)

abbrev pub is_critical_warning : KairosWarning → Bool
is_critical_warning w = is_blocking w.severity || str_eq w.code "STALE_TARGET_DATA"

abbrev pub is_info : Severity → Bool
is_info info = true
is_info _ = false

-- The codes that block, in order.
unfoldable pub blocking_codes_of : List KairosWarning → List String
blocking_codes_of warnings =
    sorted text_le (map (λ w. w.code) (select is_critical_warning warnings))

-- `direction in favorable`, for the codes that favour a side; `none` for the others.
unfoldable pub favorable : String → Direction → Option Bool
favorable code side =
    if str_eq code "HOME_WIN"
    then some (elim side [ home ↦ true | draw ↦ false | away ↦ false | no_direction ↦ false ])
    else if str_eq code "AWAY_WIN"
    then some (elim side [ home ↦ false | draw ↦ false | away ↦ true | no_direction ↦ false ])
    else if str_eq code "DRAW"
    then some (elim side [ home ↦ false | draw ↦ true | away ↦ false | no_direction ↦ false ])
    else if str_eq code "HOME_OR_DRAW"
    then some (elim side [ home ↦ true | draw ↦ true | away ↦ false | no_direction ↦ false ])
    else if str_eq code "AWAY_OR_DRAW"
    then some (elim side [ home ↦ false | draw ↦ true | away ↦ true | no_direction ↦ false ])
    else if str_eq code "HOME_OR_AWAY"
    then some (elim side [ home ↦ true | draw ↦ false | away ↦ true | no_direction ↦ false ])
    else none

abbrev pub has_no_direction : Direction → Bool
has_no_direction no_direction = true
has_no_direction _ = false

module _ {F : Type 0} where
  unfoldable pub factor_impact : Direction → Option (Candidate F) → Bool → Impact
  factor_impact side none no_bet = neutral
  factor_impact side (some c) no_bet =
      if no_bet || has_no_direction side then neutral else elim (favorable c.code side) [
        | none ↦ neutral
        | some favoured ↦ if favoured then positive else negative
      ]

  -- `[*critical, *remaining]`
  unfoldable pub critical_first : List (KairosSuggestionReason F) → List (KairosSuggestionReason F)
  critical_first reasons = select (λ r. r.critical) reasons ++ select (λ r. not r.critical) reasons

pub data ConfidenceLevel : Type 0 where
  blocked low medium high : ConfidenceLevel

pub data RiskLevel : Type 0 where
  high elevated guarded : RiskLevel

module _ {F : Type 0} ⦃fl : Float F⦄ where
  unfoldable pub confidence_level : F → Bool → ConfidenceLevel
  confidence_level score hard_blocked =
      if hard_blocked
      then blocked
      else if lt score (of_nat 40)
      then low
      else if lt score (of_nat 70)
      then medium
      else ConfidenceLevel.high

abbrev pub risk_level : Bool → RiskLevel
risk_level no_bet = if no_bet then RiskLevel.high else elevated
