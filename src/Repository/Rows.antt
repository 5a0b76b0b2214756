-- ===== src/Repository/Rows.antt =====
-- The rows of the observation tables of db/models.py, and their reading into observations: the
-- `_…_from_row` functions of kairos/repository.py. A column of the type `datetime` holds one, and a
-- nullable integer is an optional integer, so `_datetime` and `_optional_int` change nothing.
use urim_platform.Base.{
  ℕ, String, Bool, Option, none, some, List, [], ◌∷◌, ltb, if◌then◌else◌, length, Result, ok, err,
  ◌>>=◌,
}
use urim_platform.Base.Int.{ℤ}
use urim_platform.Base.Text.{is_blank}
use urim_platform.Base.Instant.{DateTime}
use urim_platform.Observation.{
  SourceObservation, MatchObservation, StandingObservation, StatisticObservation, EventObservation,
}

pub data RepositoryError : Type 0 where
  recent_window_outside_range expected_bounded_string_quality_flags : RepositoryError
  daily_bounds_must_be_aware daily_bounds_invalid daily_limit_outside_range : RepositoryError

-- The JSON of `quality_flags`: null, a list of texts and other values (`none`), or another value.
pub data StoredFlags : Type 0 where
  absent : StoredFlags
  other_value : StoredFlags
  flag_list : List (Option String) → StoredFlags

-- The columns that all observation tables share.
pub record SourceRow : Type 0 where
  pub id : String
  pub provider : String
  pub provider_event_id : String
  pub observed_at : DateTime
  pub available_at : DateTime
  pub fetched_at : DateTime
  pub created_at : DateTime
  pub source_version : String
  pub quality_flags : StoredFlags
  pub raw_hash : String
  pub freshness_status : String

pub record MatchRow : Type 0 where
  pub source : SourceRow
  pub provider_match_id : ℕ
  pub provider_competition_id : ℕ
  pub season : ℕ
  pub kickoff_at : DateTime
  pub status_short : String
  pub home_team_provider_id : ℕ
  pub home_team_name : String
  pub away_team_provider_id : ℕ
  pub away_team_name : String
  pub goals_home : Option ℤ
  pub goals_away : Option ℤ
  pub score_halftime_home : Option ℤ
  pub score_halftime_away : Option ℤ
  pub score_fulltime_home : Option ℤ
  pub score_fulltime_away : Option ℤ

pub record CompetitionRow : Type 0 where
  pub source : SourceRow
  pub provider_competition_id : ℕ
  pub name : String

pub record StandingRow : Type 0 where
  pub source : SourceRow
  pub provider_competition_id : ℕ
  pub season : ℕ
  pub provider_team_id : ℕ
  pub rank : ℕ
  pub points : Option ℤ
  pub played : Option ℤ
  pub goals_diff : Option ℤ

pub record StatisticRow (V : Type 0) : Type 0 where
  pub source : SourceRow
  pub provider_match_id : ℕ
  pub provider_team_id : ℕ
  pub statistic_type : String
  pub statistic_value : V

pub record EventRow : Type 0 where
  pub source : SourceRow
  pub provider_match_id : ℕ
  pub provider_team_id : Option ℕ
  pub event_type : String
  pub detail : Option String
  pub elapsed : Option ℤ
  pub extra : Option ℤ

-- Python's `str.upper` and `str.strip`, SQL's `lower` and `trim`, and the order of its texts.
pub record TextFunctions : Type 0 where
  pub upper : String → String
  pub strip : String → String
  pub sql_lower : String → String
  pub sql_trim : String → String
  pub collate_le : String → String → Bool

-- `tuple(quality_flags)`, unless some flag is not a text.
unfoldable pub texts : List (Option String) → Option (List String)
texts [] = some []
texts (none ∷ flags) = none
texts (some flag ∷ flags) = elim (texts flags) [ none ↦ none | some rest ↦ some (flag ∷ rest) ]

unfoldable pub flags_from : StoredFlags → Result RepositoryError (List String)
unfolding texts
flags_from absent = ok []
flags_from other_value = err expected_bounded_string_quality_flags
flags_from (flag_list flags) =
    if ltb 32 (length flags)
    then err expected_bounded_string_quality_flags
    else elim (texts flags) [
      | none ↦ err expected_bounded_string_quality_flags
      | some names ↦ ok names
    ]

abbrev pub source_of : SourceRow → List String → SourceObservation
source_of row flags = record {
  observation_id = row.id;
  provider = row.provider;
  provider_event_id = row.provider_event_id;
  observed_at = row.observed_at;
  available_at = row.available_at;
  fetched_at = row.fetched_at;
  created_at = row.created_at;
  source_version = row.source_version;
  quality_flags = flags;
  raw_hash = row.raw_hash;
  freshness_status = row.freshness_status;
}

unfoldable pub source_from_row : SourceRow → Result RepositoryError SourceObservation
unfolding flags_from
source_from_row row = flags_from row.quality_flags >>= λ flags. ok (source_of row flags)

module _ (text : TextFunctions) where
  -- The name of the competition that the row was joined with, if it is not blank.
  abbrev pub name_from : Option String → Option String
  name_from none = none
  name_from (some raw) = if is_blank raw then none else some (text.strip raw)

  -- The competition's name is `none` where the query selects no such column.
  abbrev pub match_of : MatchRow → Option String → SourceObservation → MatchObservation
  match_of row competition source = record {
    source = source;
    provider_match_id = row.provider_match_id;
    provider_competition_id = row.provider_competition_id;
    season = row.season;
    kickoff_at = row.kickoff_at;
    status_short = text.upper row.status_short;
    home_team_provider_id = row.home_team_provider_id;
    home_team_name = row.home_team_name;
    away_team_provider_id = row.away_team_provider_id;
    away_team_name = row.away_team_name;
    goals_home = row.goals_home;
    goals_away = row.goals_away;
    score_fulltime_home = row.score_fulltime_home;
    score_fulltime_away = row.score_fulltime_away;
    score_halftime_home = row.score_halftime_home;
    score_halftime_away = row.score_halftime_away;
    competition_name = name_from competition;
  }

  unfoldable pub match_from_row : MatchRow → Option String → Result RepositoryError MatchObservation
  unfolding source_from_row
  match_from_row row competition =
      source_from_row row.source >>= λ source. ok (match_of row competition source)

abbrev pub standing_of : StandingRow → SourceObservation → StandingObservation
standing_of row source = record {
  source = source;
  provider_team_id = row.provider_team_id;
  rank = row.rank;
  points = row.points;
  played = row.played;
  goals_diff = row.goals_diff;
}

unfoldable pub standing_from_row : StandingRow → Result RepositoryError StandingObservation
unfolding source_from_row
standing_from_row row = source_from_row row.source >>= λ source. ok (standing_of row source)

abbrev pub statistic_of : {V : Type 0} → StatisticRow V → SourceObservation → StatisticObservation V
statistic_of row source = record {
  source = source;
  provider_match_id = row.provider_match_id;
  provider_team_id = row.provider_team_id;
  statistic_type = row.statistic_type;
  statistic_value = row.statistic_value;
}

unfoldable pub statistic_from_row :
    {V : Type 0} → StatisticRow V → Result RepositoryError (StatisticObservation V)
unfolding source_from_row
statistic_from_row row = source_from_row row.source >>= λ source. ok (statistic_of row source)

abbrev pub event_of : EventRow → SourceObservation → EventObservation
event_of row source = record {
  source = source;
  provider_match_id = row.provider_match_id;
  provider_team_id = row.provider_team_id;
  event_type = row.event_type;
  detail = row.detail;
  elapsed = row.elapsed;
  extra = row.extra;
}

unfoldable pub event_from_row : EventRow → Result RepositoryError EventObservation
unfolding source_from_row
event_from_row row = source_from_row row.source >>= λ source. ok (event_of row source)
