-- ===== src/Repository/Queries.antt =====
-- The queries of `KairosRepository`: what each selects, in which order and up to which limit.
-- SQL compares times by their instants. A `text` supplies the functions of Python and SQL on texts.
use text.Mathlib.Text.{◌==◌ as str_eq}
use urim_platform.Base.Instant.{DateTime, before}
use urim_platform.Base.Sort.{sorted}
use urim_platform.Dataset.{contains, contains_text, team_ids}
use urim_platform.Observation.{
  MatchObservation, StandingObservation, StatisticObservation, EventObservation,
}
use urim_platform.Repository.Rows.{
  TextFunctions, RepositoryError, MatchRow, CompetitionRow, StandingRow, StatisticRow, EventRow,
  match_from_row, standing_from_row, statistic_from_row, event_from_row,
}
use urim_platform.Repository.Latest.{latest_as_of, visible_rows}
use urim_platform.Base.{
  ℕ, ◌*◌, String, Bool, true, false, not, ◌&&◌, ◌||◌, Option, none, some, List, [], ◌∷◌, map, ltb,
  leb, ◌==◌, if◌then◌else◌, length, take, select, conjunction, Result, ok, ◌>>=◌, is_nil, traverse,
}

pub record Database (V : Type 0) : Type 0 where
  pub matches : List MatchRow
  pub competitions : List CompetitionRow
  pub standings : List StandingRow
  pub statistics : List (StatisticRow V)
  pub events : List EventRow

abbrev pub completed_match_statuses : List String
completed_match_statuses = "AET" ∷ "FT" ∷ "PEN" ∷ []

abbrev pub max_kairos_events_per_match : ℕ
max_kairos_events_per_match = 96

abbrev pub kairos_statistic_types : List String
kairos_statistic_types =
    "ball possession" ∷ "corner kicks" ∷ "corners" ∷ "possession" ∷ "red card" ∷ "red cards"
    ∷ "shots on goal" ∷ "shots on target" ∷ "shots total" ∷ "total shots" ∷ "yellow card"
    ∷ "yellow cards" ∷ []

abbrev pub same_match : MatchRow → MatchRow → Bool
same_match a b = a.provider_match_id == b.provider_match_id

abbrev pub same_competition : CompetitionRow → CompetitionRow → Bool
same_competition a b = a.provider_competition_id == b.provider_competition_id

abbrev pub same_standing : StandingRow → StandingRow → Bool
same_standing a b =
    a.provider_competition_id == b.provider_competition_id
    && (a.season == b.season && a.provider_team_id == b.provider_team_id)

abbrev pub same_statistic : {V : Type 0} → StatisticRow V → StatisticRow V → Bool
same_statistic a b =
    a.provider_match_id == b.provider_match_id
    && (a.provider_team_id == b.provider_team_id && str_eq a.statistic_type b.statistic_type)

abbrev pub same_event : EventRow → EventRow → Bool
same_event a b = str_eq a.source.provider_event_id b.source.provider_event_id

-- `ORDER BY kickoff_at DESC, provider_match_id DESC`
abbrev pub latest_kickoff_first : MatchRow → MatchRow → Bool
latest_kickoff_first a b =
    before b.kickoff_at a.kickoff_at
    || (a.kickoff_at.instant == b.kickoff_at.instant && leb b.provider_match_id a.provider_match_id)

-- `ORDER BY kickoff_at, provider_match_id`
abbrev pub earliest_kickoff_first : MatchRow → MatchRow → Bool
earliest_kickoff_first a b =
    before a.kickoff_at b.kickoff_at
    || (a.kickoff_at.instant == b.kickoff_at.instant && leb a.provider_match_id b.provider_match_id)

abbrev first_name : List CompetitionRow → Option String
first_name [] = none
first_name (row ∷ rows) = some row.name

-- A nullable team is among the teams: `NULL IN (…)` does not hold.
abbrev pub team_in : List ℕ → Option ℕ → Bool
team_in teams none = false
team_in teams (some team) = contains teams team

module _ (text : TextFunctions) {V : Type 0} (db : Database V) (as_of : DateTime) where
  -- The outer join with the latest observation of the competition.
  unfoldable pub competition_name : ℕ → Option String
  unfolding latest_as_of
  competition_name competition_id = first_name (
      select (λ c. c.provider_competition_id == competition_id)
        (latest_as_of (λ c. c.source) same_competition as_of (λ _. true) db.competitions))

  abbrev pub joined : MatchRow → Result RepositoryError MatchObservation
  joined row = match_from_row text row (competition_name row.provider_competition_id)

  -- `.mappings().first()`, and the row found.
  unfoldable pub first_match : List MatchRow → Result RepositoryError (Option MatchObservation)
  unfolding match_from_row competition_name
  first_match [] = ok none
  first_match (row ∷ rows) = joined row >>= λ m. ok (some m)

  unfoldable pub match_as_of : ℕ → Result RepositoryError (Option MatchObservation)
  unfolding latest_as_of first_match
  match_as_of match_id = first_match (
      select (λ r. r.provider_match_id == match_id)
        (latest_as_of (λ r. r.source) same_match as_of (λ r. r.provider_match_id == match_id)
          db.matches))

  -- The conditions on a completed match before the target, in its competition.
  unfoldable pub is_earlier : MatchObservation → MatchRow → Bool
  is_earlier target row = conjunction (
      (row.provider_competition_id == target.provider_competition_id)
      ∷ before row.kickoff_at as_of
      ∷ before row.kickoff_at target.kickoff_at
      ∷ contains_text completed_match_statuses row.status_short
      ∷ [])

  unfoldable pub in_team_scope : ℕ → MatchObservation → MatchRow → Bool
  unfolding is_earlier
  in_team_scope team_id target row = conjunction (
      is_earlier target row
      ∷ (row.season == target.season)
      ∷ (row.home_team_provider_id == team_id || row.away_team_provider_id == team_id)
      ∷ [])

  unfoldable pub in_h2h_scope : MatchObservation → MatchRow → Bool
  unfolding is_earlier
  in_h2h_scope target row = conjunction (
      is_earlier target row
      ∷ contains (team_ids target) row.home_team_provider_id
      ∷ contains (team_ids target) row.away_team_provider_id
      ∷ [])

  -- The statement that both histories share: some observation of the match is in scope, and so is
  -- the latest one.
  unfoldable pub history_rows : (MatchRow → Bool) → MatchObservation → ℕ → List MatchRow
  unfolding latest_as_of visible_rows sorted
  history_rows in_scope target limit =
      let candidate_match_ids =
        map (λ r. r.provider_match_id)
          (select in_scope (visible_rows (λ (r : MatchRow). r.source) as_of db.matches)) in
      take limit (
        sorted latest_kickoff_first (
          select (λ r. not (r.provider_match_id == target.provider_match_id) && in_scope r)
            (latest_as_of (λ r. r.source) same_match as_of
              (λ r. contains candidate_match_ids r.provider_match_id) db.matches)))

  unfoldable pub team_history :
      ℕ → MatchObservation → ℕ → Result RepositoryError (List MatchObservation)
  unfolding history_rows in_team_scope match_from_row
  team_history team_id target limit =
      traverse (λ row. match_from_row text row none)
        (history_rows (in_team_scope team_id target) target limit)

  unfoldable pub h2h_history : MatchObservation → ℕ → Result RepositoryError (List MatchObservation)
  unfolding history_rows in_h2h_scope match_from_row
  h2h_history target limit =
      traverse (λ row. match_from_row text row none)
        (history_rows (in_h2h_scope target) target limit)

  abbrev pub in_standing_scope : MatchObservation → List ℕ → StandingRow → Bool
  in_standing_scope target teams row = conjunction (
      (row.provider_competition_id == target.provider_competition_id)
      ∷ (row.season == target.season)
      ∷ contains teams row.provider_team_id
      ∷ [])

  unfoldable pub standings_as_of :
      MatchObservation → List ℕ → Result RepositoryError (List StandingObservation)
  unfolding latest_as_of sorted standing_from_row
  standings_as_of target teams = traverse standing_from_row (
      sorted (λ a b. leb a.provider_team_id b.provider_team_id)
        (select (in_standing_scope target teams) (
          latest_as_of (λ r. r.source) same_standing as_of (in_standing_scope target teams)
            db.standings)))

  abbrev pub in_statistic_scope : List ℕ → List ℕ → StatisticRow V → Bool
  in_statistic_scope match_ids teams row = conjunction (
      contains match_ids row.provider_match_id
      ∷ contains teams row.provider_team_id
      ∷ contains_text kairos_statistic_types (text.sql_lower (text.sql_trim row.statistic_type))
      ∷ [])

  -- `ORDER BY provider_match_id, provider_team_id, statistic_type`
  abbrev pub statistic_le : StatisticRow V → StatisticRow V → Bool
  statistic_le a b =
      ltb a.provider_match_id b.provider_match_id
      || (a.provider_match_id == b.provider_match_id
          && (ltb a.provider_team_id b.provider_team_id
              || (a.provider_team_id == b.provider_team_id
                  && text.collate_le a.statistic_type b.statistic_type)))

  unfoldable pub statistics_as_of :
      List ℕ → List ℕ → Result RepositoryError (List (StatisticObservation V))
  unfolding latest_as_of sorted statistic_from_row
  statistics_as_of match_ids teams =
      if is_nil match_ids
      then ok []
      else traverse statistic_from_row (
          take (length match_ids * length teams * length kairos_statistic_types) (
            sorted statistic_le (
              select (in_statistic_scope match_ids teams) (
                latest_as_of (λ r. r.source) same_statistic as_of
                  (in_statistic_scope match_ids teams) db.statistics))))

  abbrev pub in_event_scope : List ℕ → List ℕ → EventRow → Bool
  in_event_scope match_ids teams row = conjunction (
      contains match_ids row.provider_match_id
      ∷ team_in teams row.provider_team_id
      ∷ contains_text ("card" ∷ "goal" ∷ []) (text.sql_lower row.event_type)
      ∷ [])

  -- `ORDER BY provider_match_id, provider_event_id`
  abbrev pub event_le : EventRow → EventRow → Bool
  event_le a b =
      ltb a.provider_match_id b.provider_match_id
      || (a.provider_match_id == b.provider_match_id
          && text.collate_le a.source.provider_event_id b.source.provider_event_id)

  unfoldable pub card_events_as_of :
      List ℕ → List ℕ → Result RepositoryError (List EventObservation)
  unfolding latest_as_of sorted event_from_row
  card_events_as_of match_ids teams =
      if is_nil match_ids
      then ok []
      else traverse event_from_row (
          take (length match_ids * max_kairos_events_per_match) (
            sorted event_le (
              select (in_event_scope match_ids teams) (
                latest_as_of (λ r. r.source) same_event as_of (in_event_scope match_ids teams)
                  db.events))))
