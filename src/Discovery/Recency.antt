-- ===== src/Discovery/Recency.antt =====
-- `select_recent_matches_for_statistics` of sports_data/discovery.py: which matches it selects.
use urim_platform.Base.Instant.{DateTime}
use urim_platform.Base.Sort.{sorted}
use urim_platform.Discovery.Recent.{RecentRow, dated, DatedRow, latest_first, plays_in}
use urim_platform.Base.{ℕ, ◌≡◌, true, some, List, Any}

-- The row has the identifier, a kickoff and one of the teams.
abbrev pub IsRecent : List ℕ → ℕ → RecentRow → Type 0
IsRecent target_team_ids id r =
    (r.provider_match_id ≡ some id)
    × ((time : DateTime) × (r.kickoff_at ≡ some time))
    × Any (λ team_id. plays_in team_id r ≡ true) target_team_ids

module _ (rows : List RecentRow) (target_team_ids : List ℕ) where
  abbrev ordered : List DatedRow
  ordered = sorted latest_first (dated rows)

  -- Some row has the identifier, a kickoff and one of the teams.
  abbrev pub IsRecentMatch : ℕ → Type 0
  IsRecentMatch id = Any (IsRecent target_team_ids id) rows
