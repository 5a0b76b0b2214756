-- ===== src/Fixture.antt =====
-- A small match with its history, for the tests of the components.
use urim_platform.Base.{ℕ, String, true, none, some, [], ◌∷◌}
use urim_platform.Base.Instant.{DateTime}
use urim_platform.Base.Int.{pos}
use urim_platform.Observation.{
  SourceObservation, MatchObservation, EventObservation, KairosMatchDataset,
}

abbrev pub at_time : ℕ → DateTime
at_time n = record { aware = true; instant = n }

abbrev pub source : String → SourceObservation
source identity = record {
  observation_id = identity;
  provider = "api-football";
  provider_event_id = "fixture";
  observed_at = at_time 500;
  available_at = at_time 510;
  fetched_at = at_time 520;
  created_at = at_time 530;
  source_version = "v1";
  quality_flags = [];
  raw_hash = "0123456789abcdef0123456789abcdef0123456789abcdef0123456789abcdef";
  freshness_status = "fresh";
}

-- A completed match between teams 1 and 2: its goals in the first half and in all.
abbrev pub played : String → (match_id kickoff h1 a1 h2 a2 : ℕ) → MatchObservation
played identity match_id kickoff h1 a1 h2 a2 = record {
  source = source identity;
  provider_match_id = match_id;
  provider_competition_id = 39;
  season = 2025;
  kickoff_at = at_time kickoff;
  status_short = "FT";
  home_team_provider_id = 1;
  home_team_name = "Home";
  away_team_provider_id = 2;
  away_team_name = "Away";
  goals_home = some (pos h2);
  goals_away = some (pos a2);
  score_fulltime_home = some (pos h2);
  score_fulltime_away = some (pos a2);
  score_halftime_home = some (pos h1);
  score_halftime_away = some (pos a1);
  competition_name = none;
}

abbrev pub match_one : MatchObservation
match_one = played "one" 101 100 0 0 2 1

abbrev pub match_two : MatchObservation
match_two = played "two" 102 200 1 0 2 2

abbrev pub match_three : MatchObservation
match_three = played "three" 103 300 0 1 3 1

abbrev pub target : MatchObservation
target = record {
  source = source "target";
  provider_match_id = 200;
  provider_competition_id = 39;
  season = 2025;
  kickoff_at = at_time 2000;
  status_short = "NS";
  home_team_provider_id = 1;
  home_team_name = "Home";
  away_team_provider_id = 2;
  away_team_name = "Away";
  goals_home = none;
  goals_away = none;
  score_fulltime_home = none;
  score_fulltime_away = none;
  score_halftime_home = none;
  score_halftime_away = none;
  competition_name = none;
}

abbrev pub goal : EventObservation
goal = record {
  source = source "goal";
  provider_match_id = 101;
  provider_team_id = some 1;
  event_type = "Goal";
  detail = none;
  elapsed = some (pos 70);
  extra = none;
}

-- Both teams met three times, so that the histories share their matches and their sources.
abbrev pub dataset : KairosMatchDataset ℕ
dataset = record {
  as_of = at_time 1000;
  target = target;
  home_history = match_one ∷ match_two ∷ match_three ∷ [];
  away_history = match_one ∷ match_two ∷ match_three ∷ [];
  standings = [];
  statistics = [];
  events = goal ∷ [];
  h2h_history = match_one ∷ [];
}

abbrev pub some_hash : String
some_hash = "0123456789abcdef0123456789abcdef0123456789abcdef0123456789abcdef"
