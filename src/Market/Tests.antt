-- ===== src/Market/Tests.antt =====
-- The outcomes of one match.
use urim_platform.Market.{
  market_group, success, first_half_more_goals, second_half_more_goals, equal_half_goals,
  second_half_over_1_5, home_or_draw, away_or_draw, home_or_away, evaluate_market_outcome,
}
use urim_platform.Base.{◌≡◌, refl, none, some}
use urim_platform.Base.Int.{pos}
use urim_platform.Fixture.{match_one}
use urim_platform.Match.{half_goal_totals}
use urim_platform.Market.Outcomes.{
  outcome, expected, IsPartition, IsDoubleChance, outcome-IsPartition, outcome-IsDoubleChance,
  evaluate-half_goal_totals,
}

second_half-success :
    outcome (some (pos 0)) (some (pos 0)) (some (pos 2)) (some (pos 1)) second_half_more_goals
    ≡ success
unfolding evaluate_market_outcome
second_half-success = refl

outcome-IsPartition_example :
    IsPartition
      (outcome (some (pos 0)) (some (pos 0)) (some (pos 2)) (some (pos 1)) first_half_more_goals)
      (outcome (some (pos 0)) (some (pos 0)) (some (pos 2)) (some (pos 1)) second_half_more_goals)
      (outcome (some (pos 0)) (some (pos 0)) (some (pos 2)) (some (pos 1)) equal_half_goals)
outcome-IsPartition_example =
    outcome-IsPartition (some (pos 0)) (some (pos 0)) (some (pos 2)) (some (pos 1))

outcome-IsDoubleChance_example :
    IsDoubleChance
      (outcome none none (some (pos 2)) (some (pos 1)) home_or_draw)
      (outcome none none (some (pos 2)) (some (pos 1)) away_or_draw)
      (outcome none none (some (pos 2)) (some (pos 1)) home_or_away)
outcome-IsDoubleChance_example = outcome-IsDoubleChance none none (some (pos 2)) (some (pos 1))

evaluate-half_goal_totals_example :
    evaluate_market_outcome
      (some second_half_over_1_5)
      (some (pos 0))
      (some (pos 0))
      (some (pos 2))
      (some (pos 1))
    ≡ expected second_half_over_1_5 (half_goal_totals match_one)
unfolding market_group
evaluate-half_goal_totals_example =
    evaluate-half_goal_totals match_one second_half_over_1_5 2 1 refl refl
