-- ===== src/Repository/Load.antt =====
-- `load_match_dataset`, `load_match_dataset_for_target` and `list_target_matches_as_of` of
-- kairos/repository.py.
use urim_platform.Base.Distinct.{distinct}
use urim_platform.Base.Instant.{DateTime, before, until}
use urim_platform.Base.Sort.{sorted}
use urim_platform.Dataset.{contains_text, team_ids}
use urim_platform.Observation.{MatchObservation, KairosMatchDataset}
use urim_platform.Repository.Rows.{
  TextFunctions, RepositoryError, MatchRow, recent_window_outside_range, daily_bounds_must_be_aware,
  daily_bounds_invalid, daily_limit_outside_range,
}
use urim_platform.Repository.Latest.{latest_as_of}
use urim_platform.Repository.Queries.{
  Database, joined, same_match, earliest_kickoff_first, match_as_of, team_history, h2h_history,
  standings_as_of, statistics_as_of, card_events_as_of,
}
use urim_platform.Base.{
  ℕ, ◌*◌, Bool, not, ◌&&◌, ◌||◌, Option, none, some, List, [], ◌∷◌, ◌++◌, map, ltb, leb, take,
  select, conjunction, Result, ok, ◌>>=◌, ◌>>◌, raise_if, traverse,
}

abbrev pub history_query_multiplier : ℕ
history_query_multiplier = 4

abbrev pub max_recent_window : ℕ
max_recent_window = 25

abbrev pub max_daily_target_matches : ℕ
max_daily_target_matches = 16

abbrev pub max_h2h_matches : ℕ
max_h2h_matches = 10

-- The matches whose statistics and events are read: those of the two recent windows.
unfoldable pub feature_match_ids : ℕ → (home away : List MatchObservation) → List ℕ
unfolding distinct sorted
feature_match_ids recent_window home away =
    sorted leb (
      distinct
        (map (λ m. m.provider_match_id) (take recent_window home ++ take recent_window away)))

module _ (text : TextFunctions) {V : Type 0} (db : Database V) (as_of : DateTime) where
  unfoldable pub load_match_dataset_for_target :
      MatchObservation → ℕ → Result RepositoryError (KairosMatchDataset V)
  load_match_dataset_for_target target recent_window = do
    raise_if (ltb recent_window 1 || ltb max_recent_window recent_window)
        recent_window_outside_range
    let history_limit = recent_window * history_query_multiplier
    home ← team_history text db as_of target.home_team_provider_id target history_limit
    away ← team_history text db as_of target.away_team_provider_id target history_limit
    let match_ids = feature_match_ids recent_window home away
    standings ← standings_as_of text db as_of target (team_ids target)
    statistics ← statistics_as_of text db as_of match_ids (team_ids target)
    events ← card_events_as_of text db as_of match_ids (team_ids target)
    h2h ← h2h_history text db as_of target max_h2h_matches
    ok (record {
      as_of = as_of;
      target = target;
      home_history = home;
      away_history = away;
      standings = standings;
      statistics = statistics;
      events = events;
      h2h_history = h2h;
    })

  -- `None` if the target is not known, and the dataset otherwise.
  unfoldable pub load_found :
      ℕ → Option MatchObservation → Result RepositoryError (Option (KairosMatchDataset V))
  load_found recent_window none = ok none
  load_found recent_window (some target) =
      load_match_dataset_for_target target recent_window >>= λ d. ok (some d)

  unfoldable pub load_match_dataset : ℕ → ℕ → Result RepositoryError (Option (KairosMatchDataset V))
  unfolding match_as_of load_found
  load_match_dataset match_id recent_window = do
    raise_if (ltb recent_window 1 || ltb max_recent_window recent_window)
        recent_window_outside_range
    target ← match_as_of text db as_of match_id
    load_found recent_window target

  abbrev pub in_bounds : (starts_at ends_at : DateTime) → MatchRow → Bool
  in_bounds starts_at ends_at row = until starts_at row.kickoff_at && before row.kickoff_at ends_at

  -- The rows of the daily targets, in the order and up to the limit of the statement.
  unfoldable pub target_rows : (starts_at ends_at : DateTime) → ℕ → List MatchRow
  unfolding latest_as_of sorted
  target_rows starts_at ends_at limit = take limit (
      sorted earliest_kickoff_first (
        select
          (λ r. conjunction (
            in_bounds starts_at ends_at r
            ∷ before as_of r.kickoff_at
            ∷ contains_text ("NS" ∷ "TBD" ∷ []) r.status_short
            ∷ []))
          (latest_as_of (λ r. r.source) same_match as_of (in_bounds starts_at ends_at) db.matches)))

  unfoldable pub list_target_matches_as_of :
      (starts_at ends_at : DateTime) → ℕ → Result RepositoryError (List MatchObservation)
  list_target_matches_as_of starts_at ends_at limit = do
    raise_if (not starts_at.aware || not ends_at.aware) daily_bounds_must_be_aware
    raise_if (until ends_at starts_at) daily_bounds_invalid
    raise_if (ltb limit 1 || ltb max_daily_target_matches limit) daily_limit_outside_range
    traverse (joined text db as_of) (target_rows starts_at ends_at limit)
