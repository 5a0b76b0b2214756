-- ===== src/Repository/Sample.antt =====
-- A small database for the tests: one match to come, one played, and a later correction of it.
use urim_platform.Repository.Queries.{Database}
use urim_platform.Base.Int.{pos}
use urim_platform.Fixture.{at_time}
use urim_platform.Repository.Rows.{
  flag_list, SourceRow, MatchRow, StandingRow, StatisticRow, EventRow, TextFunctions,
}
use urim_platform.Repository.Stored.{IsKept, IsKeptDatabase}
use urim_platform.Repository.Found.{KeepsStatuses}
use urim_platform.Repository.Daily.{KeepsScheduled}
use urim_platform.Base.{ℕ, String, refl, true, none, some, [], ◌∷◌, arith}

abbrev pub row : String → ℕ → SourceRow
row id created = record {
  id = id;
  provider = "api-football";
  provider_event_id = id;
  observed_at = at_time 500;
  available_at = at_time 510;
  fetched_at = at_time 520;
  created_at = at_time created;
  source_version = "v1";
  quality_flags = flag_list (some "complete" ∷ []);
  raw_hash = "0123456789abcdef0123456789abcdef0123456789abcdef0123456789abcdef";
  freshness_status = "fresh";
}

abbrev pub match_row : SourceRow → (match_id kickoff : ℕ) → String → MatchRow
match_row source match_id kickoff status = record {
  source = source;
  provider_match_id = match_id;
  provider_competition_id = 39;
  season = 2025;
  kickoff_at = at_time kickoff;
  status_short = status;
  home_team_provider_id = 1;
  home_team_name = "Home";
  away_team_provider_id = 2;
  away_team_name = "Away";
  goals_home = some (pos 2);
  goals_away = some (pos 1);
  score_halftime_home = some (pos 0);
  score_halftime_away = some (pos 0);
  score_fulltime_home = some (pos 2);
  score_fulltime_away = some (pos 1);
}

abbrev pub first_row : MatchRow
first_row = match_row (row "first" 530) 101 100 "FT"

-- The same match, stored later: the correction is not visible at 1000.
abbrev pub corrected_row : MatchRow
corrected_row = match_row (row "corrected" 1500) 101 100 "PEN"

abbrev pub target_row : MatchRow
target_row = match_row (row "target" 530) 200 2000 "NS"

abbrev pub standing_row : StandingRow
standing_row = record {
  source = row "standing" 530;
  provider_competition_id = 39;
  season = 2025;
  provider_team_id = 1;
  rank = 1;
  points = none;
  played = none;
  goals_diff = none;
}

abbrev pub statistic_row : StatisticRow ℕ
statistic_row = record {
  source = row "statistic" 530;
  provider_match_id = 101;
  provider_team_id = 1;
  statistic_type = "corners";
  statistic_value = 7;
}

abbrev pub event_row : EventRow
event_row = record {
  source = row "event" 530;
  provider_match_id = 101;
  provider_team_id = some 1;
  event_type = "goal";
  detail = none;
  elapsed = some (pos 70);
  extra = none;
}

abbrev pub database : Database ℕ
database = record {
  matches = first_row ∷ target_row ∷ [];
  competitions =
      record { source = row "league" 530; provider_competition_id = 39; name = "League" } ∷ [];
  standings = standing_row ∷ [];
  statistics = statistic_row ∷ [];
  events = event_row ∷ [];
}

abbrev pub gained : Database ℕ
gained = record {
  matches = corrected_row ∷ [];
  competitions = [];
  standings = [];
  statistics = [];
  events = [];
}

-- Texts that have neither capitals nor spaces round them stay as they are.
abbrev pub plain : TextFunctions
plain = record {
  upper = λ s. s;
  strip = λ s. s;
  sql_lower = λ s. s;
  sql_trim = λ s. s;
  collate_le = λ a b. true;
}

pub plain_keeps : KeepsStatuses plain
plain_keeps = record { full_time = refl; extra_time = refl; penalties = refl }

pub plain_scheduled : KeepsScheduled plain
plain_scheduled = record { not_started = refl; to_be_defined = refl }

pub IsKept-row : (id : String) → IsKept (row id 530)
IsKept-row id = record {
  stored = record {
    observed_aware = refl;
    available_aware = refl;
    fetched_aware = refl;
    created_aware = refl;
    observed_first = omega arith;
    available_next = omega arith;
  };
  flags_listed = (omega arith, (λ e. cc, tt));
}

pub database_stored : IsKeptDatabase database
database_stored = record {
  matches_stored = (
    record {
      source_stored = IsKept-row "first";
      kickoff_aware = refl;
      teams_differ = λ e. omega arith;
    },
    (
      record {
        source_stored = IsKept-row "target";
        kickoff_aware = refl;
        teams_differ = λ e. omega arith;
      },
      tt,
    ),
  );
  standings_stored = (IsKept-row "standing", tt);
  statistics_stored = (IsKept-row "statistic", tt);
  events_stored = (IsKept-row "event", tt);
}
