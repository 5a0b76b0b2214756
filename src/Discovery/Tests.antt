-- ===== src/Discovery/Tests.antt =====
-- A day with fixtures of two competitions, one of which is no league.
use urim_platform.Fixture.{at_time}
use urim_platform.Base.Int.{pos}
use urim_platform.Discovery.Recent.{RecentRow, select_recent_matches_for_statistics}
use urim_platform.Base.Sort.{sorted, insert_sorted}
use urim_platform.Discovery.Model.{
  DiscoveryError, funnel_inputs_invalid, FixtureRow, CompetitionMetadata, SeasonMetadata, mapping,
  NormalizationResult, total,
}
use urim_platform.Discovery.Plan.{DiscoveryPlan, rows_of, build_discovery_plan, window_of}
use urim_platform.Discovery.Funnel.{RetentionFunnel, rejected, build_retention_funnel}
use urim_platform.Discovery.Bounded.{cost, build_discovery_plan_lem}
use urim_platform.Discovery.Suitable.{IsSuitable}
use urim_platform.Discovery.Reconciled.{IsAllocated, build_retention_funnel_lem}
use urim_platform.Base.{
  ℕ, ◌+◌, ◌≤◌, ◌<◌, String, ◌≡◌, refl, ◌⊎◌, true, false, none, some, List, [], ◌∷◌, arith, length,
  All, Result, ok, err,
}

abbrev fixture : (match_id competition_id kickoff : ℕ) → FixtureRow
fixture match_id competition_id kickoff = record {
  provider_match_id = match_id;
  status_short = some "NS";
  kickoff_at = some (at_time kickoff);
  provider_competition_id = some competition_id;
  season = some 2025;
}

abbrev fixtures : NormalizationResult FixtureRow
fixtures = record {
  rows = fixture 1 39 2000 ∷ fixture 2 39 2100 ∷ fixture 3 40 2000 ∷ fixture 4 39 500 ∷ [];
  rejected_count = 1;
  rejection_reasons = ("fixture_missing_teams", 1) ∷ [];
}

abbrev competition : ℕ → String → CompetitionMetadata
competition id kind = record { provider_competition_id = some id; kind = some kind }

abbrev competitions : NormalizationResult CompetitionMetadata
competitions = record {
  rows = competition 39 " League" ∷ competition 40 "Cup" ∷ [];
  rejected_count = 0;
  rejection_reasons = [];
}

abbrev season : ℕ → SeasonMetadata
season id = record {
  provider_competition_id = some id;
  year = some 2025;
  coverage = mapping true (some (true, false));
}

abbrev seasons : NormalizationResult SeasonMetadata
seasons = record { rows = season 39 ∷ season 40 ∷ []; rejected_count = 0; rejection_reasons = [] }

abbrev result : Result DiscoveryError DiscoveryPlan
result = build_discovery_plan fixtures competitions seasons (39 ∷ []) 4 (at_time 1000) 5 none none

abbrev summary : Result DiscoveryError DiscoveryPlan → List ℕ
summary (err e) = []
summary (ok plan) =
    length plan.competitions ∷ length (rows_of plan.competitions) ∷ total plan.ignored_reasons ∷ []

-- Two fixtures of the league are kept; the cup's, the past one and the rejected one are counted.
summary_day : summary result ≡ 1 ∷ 2 ∷ 3 ∷ []
unfolding build_discovery_plan rows_of insert_sorted
summary_day = refl

build_discovery_plan_lem_example :
    (plan : DiscoveryPlan) × (build_discovery_plan fixtures competitions seasons
        (39 ∷ [])
        4
        (at_time 1000)
        5
        none
        none
      ≡ ok plan)
    × (cost plan.competitions ≤ 4)
    × ((length plan.competitions ≤ 1) ⊎ (cost plan.competitions + 1 ≤ 4))
    × (length plan.competitions ≤ 5)
    × All
        (λ c.
          All
            (IsSuitable competitions.rows seasons.rows
              (at_time 1000)
              none
              c.provider_competition_id
              c.season)
            c.fixture_rows)
        plan.competitions
    × (length (rows_of plan.competitions) + total plan.ignored_reasons
        ≡ length fixtures.rows + fixtures.rejected_count)
unfolding window_of total
build_discovery_plan_lem_example =
    build_discovery_plan_lem fixtures competitions seasons (39 ∷ []) 4 (at_time 1000) 5 none none
      none (omega arith) (omega arith) refl refl refl (omega arith)

build_retention_funnel_lem_example :
    ((2 ≤ 5)
      × (f : RetentionFunnel) × (build_retention_funnel 5 2 (("fixture_not_future", 2) ∷ []) ≡ ok f)
      × (f.fixtures_received ≡ 5)
      × (f.retained ≡ 2)
      × (5 ≡ 2 + rejected f)
      × IsAllocated (("fixture_not_future", 2) ∷ []) f)
    ⊎ ((5 < 2)
        × (build_retention_funnel 5 2 (("fixture_not_future", 2) ∷ []) ≡ err funnel_inputs_invalid))
build_retention_funnel_lem_example = build_retention_funnel_lem 5 2 (("fixture_not_future", 2) ∷ [])

abbrev recent : (match_id kickoff home away : ℕ) → RecentRow
recent match_id kickoff home away = record {
  provider_match_id = some match_id;
  kickoff_at = some (at_time kickoff);
  home_team_provider_id = some home;
  away_team_provider_id = some away;
}

abbrev recent_rows : List RecentRow
recent_rows = recent 1 100 7 9 ∷ recent 2 300 7 8 ∷ recent 3 200 8 9 ∷ recent 4 400 9 10 ∷ []

-- The latest match of both teams, then the one before of each.
recent_two :
    select_recent_matches_for_statistics recent_rows (8 ∷ 7 ∷ []) (pos 2) ≡ some (ok (2 ∷ 1 ∷ []))
unfolding select_recent_matches_for_statistics sorted insert_sorted
recent_two = refl
