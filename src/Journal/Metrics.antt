-- ===== src/Journal/Metrics.antt =====
-- `KairosJournalRepository.resolved_metrics` of kairos/journal.py: for each market, how many of its
-- analyses succeeded or failed, and how many succeeded. The names of the markets are in their order
-- as texts.
use text.Mathlib.Text.{◌==◌ as str_eq}
use urim_platform.Float.{Float, of_nat}
use urim_platform.Market.{
  Market, first_half_more_goals, second_half_more_goals, equal_half_goals, first_half_over_0_5,
  second_half_over_0_5, second_half_over_1_5, home_or_draw, away_or_draw, home_or_away, Outcome,
  success, failure, void,
}
use urim_platform.Journal.Model.{JournalRow, JournalState, ResolutionRow}
use urim_platform.Base.{
  ℕ, zero, suc, Bool, true, false, Option, none, some, List, [], ◌∷◌, ◌++◌, map, ◌==◌,
  if◌then◌else◌, length, select,
}

pub record ResolvedMetric (F : Type 0) : Type 0 where
  pub resolved_sample_size : ℕ
  pub success_count : ℕ
  pub observed_hit_rate : Option F

abbrev pub market_rank : Market → ℕ
market_rank away_or_draw = 0
market_rank equal_half_goals = 1
market_rank first_half_more_goals = 2
market_rank first_half_over_0_5 = 3
market_rank home_or_away = 4
market_rank home_or_draw = 5
market_rank second_half_more_goals = 6
market_rank second_half_over_0_5 = 7
market_rank second_half_over_1_5 = 8

abbrev pub markets_by_name : List Market
markets_by_name =
    away_or_draw ∷ equal_half_goals ∷ first_half_more_goals ∷ first_half_over_0_5 ∷ home_or_away
    ∷ home_or_draw ∷ second_half_more_goals ∷ second_half_over_0_5 ∷ second_half_over_1_5 ∷ []

-- `outcome IN ('SUCCESS', 'FAILURE')`
abbrev pub is_decided : Outcome → Bool
is_decided success = true
is_decided failure = true
is_decided void = false

abbrev pub is_success : Outcome → Bool
is_success success = true
is_success _ = false

module _ {F : Type 0} where
  -- The analyses that one resolution is joined with: their markets and its outcome.
  abbrev pub joined_with : List (JournalRow F) → ResolutionRow → List (Market × Outcome)
  joined_with journal r =
      map (λ (row : JournalRow F). (row.market, r.outcome))
        (select (λ row. str_eq row.analysis_id r.analysis_id) journal)

  -- The join, of the resolutions that are decided. Groups do not depend on its order.
  unfoldable pub decided_pairs : List (JournalRow F) → List ResolutionRow → List (Market × Outcome)
  decided_pairs journal [] = []
  decided_pairs journal (r ∷ resolutions) =
      if is_decided r.outcome
      then joined_with journal r ++ decided_pairs journal resolutions
      else decided_pairs journal resolutions

abbrev pub in_group : Market → List (Market × Outcome) → List (Market × Outcome)
in_group market pairs = select (λ p. market_rank market == market_rank p.0) pairs

module _ {F : Type 0} ⦃fl : Float F⦄ where
  -- `round(success_count / sample_size, 4) if sample_size else None`
  abbrev pub hit_rate : (successes size : ℕ) → Option F
  hit_rate successes zero = none
  hit_rate successes (suc n) = some (fl.round (fl.div (of_nat successes) (of_nat (suc n))) 4)

  abbrev pub metric_of : List (Market × Outcome) → ResolvedMetric F
  metric_of group =
      let successes = length (select (λ (p : Market × Outcome). is_success p.1) group) in
      record {
        resolved_sample_size = length group;
        success_count = successes;
        observed_hit_rate = hit_rate successes (length group);
      }

  -- `GROUP BY market ORDER BY market`: no group is empty.
  unfoldable pub metrics_from :
      List Market → List (Market × Outcome) → List (Market × ResolvedMetric F)
  metrics_from [] pairs = []
  metrics_from (market ∷ markets) pairs = elim (length (in_group market pairs) == 0) [
    | true ↦ metrics_from markets pairs
    | false ↦ (market, metric_of (in_group market pairs)) ∷ metrics_from markets pairs
  ]

  unfoldable pub resolved_metrics : JournalState F → List (Market × ResolvedMetric F)
  unfolding decided_pairs metrics_from
  resolved_metrics s = metrics_from markets_by_name (decided_pairs s.journal s.resolutions)
