-- ===== src/Repository/Replay.antt =====
-- An analysis can be repeated: rows that are stored later do not change what was loaded.
use mathlib.Core.Path.{fun_ext}
use mathlib.Core.List.{append-nil}
use urim_platform.Base.Instant.{DateTime}
use urim_platform.Base.Select.{select-append}
use urim_platform.Observation.{MatchObservation}
use urim_platform.Repository.Rows.{
  match_from_row, TextFunctions, SourceRow, MatchRow, CompetitionRow, StandingRow, StatisticRow,
  EventRow,
}
use urim_platform.Repository.Latest.{is_visible, is_newer, visible_rows, latest_as_of}
use urim_platform.Repository.Queries.{
  Database, competition_name, first_match, match_as_of, history_rows, team_history, h2h_history,
  standings_as_of, statistics_as_of, card_events_as_of, same_match, in_team_scope, in_h2h_scope,
  is_earlier, joined, same_competition, same_standing, same_statistic, same_event,
}
use urim_platform.Repository.Load.{
  load_match_dataset_for_target, load_found, load_match_dataset, list_target_matches_as_of,
  target_rows,
}
use urim_platform.Base.{
  ℕ, ◌<◌, ◌≡◌, refl, ap, ◌∙◌, Bool, false, not, ◌&&◌, ◌||◌, Option, none, some, List, [], ◌∷◌, ◌++◌,
  arith, ◌==◌, any, select, All, All-map, traverse,
}

-- The row was stored after that time.
abbrev pub IsLater : DateTime → SourceRow → Type 0
IsLater as_of row = as_of.instant < row.created_at.instant

-- All that a database has gained was stored after that time.
pub record AreLater {V : Type 0} (as_of : DateTime) (db : Database V) : Type 0 where
  pub matches_later : All (λ (r : MatchRow). IsLater as_of r.source) db.matches
  pub competitions_later : All (λ (r : CompetitionRow). IsLater as_of r.source) db.competitions
  pub standings_later : All (λ (r : StandingRow). IsLater as_of r.source) db.standings
  pub statistics_later : All (λ (r : StatisticRow V). IsLater as_of r.source) db.statistics
  pub events_later : All (λ (r : EventRow). IsLater as_of r.source) db.events

-- No two rows of one identity that were visible at that time tie in the order of the ranking, which
-- has no column that breaks a tie: of rows that tie the database may choose any.
module _ {R : Type 0} (source : R → SourceRow) (same : R → R → Bool) where
  abbrev pub is_tied : R → R → Bool
  is_tied a b =
      same a b && (not (is_newer (source a) (source b)) && not (is_newer (source b) (source a)))

  abbrev pub has_tie : List R → Bool
  has_tie [] = false
  has_tie (r ∷ rows) = any (is_tied r) rows || has_tie rows

  abbrev pub IsRankedByTime : DateTime → List R → Type 0
  IsRankedByTime as_of rows = has_tie (visible_rows source as_of rows) ≡ false

pub record IsUntied {V : Type 0} (as_of : DateTime) (db : Database V) : Type 0 where
  pub matches_untied : IsRankedByTime (λ (r : MatchRow). r.source) same_match as_of db.matches
  pub competitions_untied :
      IsRankedByTime (λ (r : CompetitionRow). r.source) same_competition as_of db.competitions
  pub standings_untied :
      IsRankedByTime (λ (r : StandingRow). r.source) same_standing as_of db.standings
  pub statistics_untied :
      IsRankedByTime (λ (r : StatisticRow V). r.source) same_statistic as_of db.statistics
  pub events_untied : IsRankedByTime (λ (r : EventRow). r.source) same_event as_of db.events

-- The tables only grow.
abbrev pub grown : {V : Type 0} → Database V → Database V → Database V
grown db more = record {
  matches = db.matches ++ more.matches;
  competitions = db.competitions ++ more.competitions;
  standings = db.standings ++ more.standings;
  statistics = db.statistics ++ more.statistics;
  events = db.events ++ more.events;
}

select_none :
    {A : Type 0} (p : A → Bool) (xs : List A) → All (λ x. p x ≡ false) xs → select p xs ≡ []
select_none p [] h = refl
select_none p (x ∷ xs) h = rw h.0 (select_none p xs h.1)

later_hidden :
    (as_of : DateTime) (row : SourceRow) → IsLater as_of row → is_visible as_of row ≡ false
unfolding is_visible
later_hidden as_of row h = ground arith

module _ {R : Type 0} (source : R → SourceRow) (as_of : DateTime) (rows later : List R)
    (h : All (λ r. IsLater as_of (source r)) later) where
  visible_rows-grown : visible_rows source as_of (rows ++ later) ≡ visible_rows source as_of rows
  unfolding visible_rows
  visible_rows-grown =
      select-append (λ r. is_visible as_of (source r)) rows later
      ∙ (ap (λ l. select (λ r. is_visible as_of (source r)) rows ++ l)
            (select_none (λ r. is_visible as_of (source r)) later
              (All-map (λ r. later_hidden as_of (source r)) later h))
          ∙ append-nil _)

  latest_as_of-grown :
      (same : R → R → Bool) (scope : R → Bool)
      → latest_as_of source same as_of scope (rows ++ later)
        ≡ latest_as_of source same as_of scope rows
  unfolding latest_as_of
  latest_as_of-grown same scope = rw visible_rows-grown refl

module _ (text : TextFunctions) {V : Type 0} (db more : Database V) (as_of : DateTime)
    (h : AreLater as_of more) where
  competition_name-grown :
      (id : ℕ) → competition_name text (grown db more) as_of id ≡ competition_name text db as_of id
  unfolding competition_name
  competition_name-grown id =
      rw
        (latest_as_of-grown (λ r. r.source) as_of db.competitions more.competitions
          h.competitions_later _ _)
        refl

  joined-grown : (row : MatchRow) → joined text (grown db more) as_of row ≡ joined text db as_of row
  joined-grown row =
      ap (match_from_row text row) (competition_name-grown row.provider_competition_id)

  first_match-grown :
      (rows : List MatchRow)
      → first_match text (grown db more) as_of rows ≡ first_match text db as_of rows
  unfolding first_match
  first_match-grown [] = refl
  first_match-grown (row ∷ rows) = rw (competition_name-grown row.provider_competition_id) refl

  match_as_of-grown :
      (id : ℕ) → match_as_of text (grown db more) as_of id ≡ match_as_of text db as_of id
  unfolding match_as_of
  match_as_of-grown id =
      rw (latest_as_of-grown (λ r. r.source) as_of db.matches more.matches h.matches_later _ _) (
        first_match-grown (
          select (λ r. r.provider_match_id == id)
            (latest_as_of (λ r. r.source) same_match as_of (λ r. r.provider_match_id == id)
              db.matches)))

  history_rows-grown :
      (scope : MatchRow → Bool) (target : MatchObservation) (limit : ℕ)
      → history_rows text (grown db more) as_of scope target limit
        ≡ history_rows text db as_of scope target limit
  unfolding history_rows
  history_rows-grown scope target limit =
      rw (visible_rows-grown (λ r. r.source) as_of db.matches more.matches h.matches_later) refl

  team_history-grown : team_history text (grown db more) as_of ≡ team_history text db as_of
  unfolding team_history in_team_scope is_earlier
  team_history-grown = fun_ext (λ team. fun_ext (λ target. fun_ext (λ limit.
      ap (traverse (λ row. match_from_row text row none))
        (history_rows-grown (in_team_scope text db as_of team target) target limit))))

  h2h_history-grown : h2h_history text (grown db more) as_of ≡ h2h_history text db as_of
  unfolding h2h_history in_h2h_scope is_earlier
  h2h_history-grown = fun_ext (λ target. fun_ext (λ limit.
      ap (traverse (λ row. match_from_row text row none))
        (history_rows-grown (in_h2h_scope text db as_of target) target limit)))

  standings_as_of-grown : standings_as_of text (grown db more) as_of ≡ standings_as_of text db as_of
  unfolding standings_as_of
  standings_as_of-grown = fun_ext (λ target. fun_ext (λ teams.
      rw
        (latest_as_of-grown (λ r. r.source) as_of db.standings more.standings h.standings_later _ _)
        refl))

  statistics_as_of-grown :
      statistics_as_of text (grown db more) as_of ≡ statistics_as_of text db as_of
  unfolding statistics_as_of
  statistics_as_of-grown = fun_ext (λ ids. fun_ext (λ teams.
      rw
        (latest_as_of-grown (λ r. r.source) as_of db.statistics more.statistics h.statistics_later _
          _)
        refl))

  card_events_as_of-grown :
      card_events_as_of text (grown db more) as_of ≡ card_events_as_of text db as_of
  unfolding card_events_as_of
  card_events_as_of-grown = fun_ext (λ ids. fun_ext (λ teams.
      rw (latest_as_of-grown (λ r. r.source) as_of db.events more.events h.events_later _ _) refl))

  load_for_target-grown :
      (target : MatchObservation) (window : ℕ)
      → load_match_dataset_for_target text (grown db more) as_of target window
        ≡ load_match_dataset_for_target text db as_of target window
  unfolding load_match_dataset_for_target
  load_for_target-grown target window =
      rw
        (
          team_history-grown, standings_as_of-grown, statistics_as_of-grown,
          card_events_as_of-grown, h2h_history-grown,
        )
        refl

  load_found-grown :
      (window : ℕ) (target : Option MatchObservation)
      → load_found text (grown db more) as_of window target ≡ load_found text db as_of window target
  unfolding load_found
  load_found-grown window none = refl
  load_found-grown window (some target) = rw (load_for_target-grown target window) refl

  -- An analysis is reproducible: whatever rows the tables have gained, if all of them were stored
  -- after the time of analysis, then a load and the list of daily targets as of that time give what
  -- they gave before, errors included. This is said of tables in which no two rows of one identity
  -- that were visible at that time tie in the order of the ranking: the code's ROW_NUMBER leaves it
  -- to the database which of two such rows is taken.
  pub load_match_dataset-IsReproducible :
      IsUntied as_of db
      → (match_id window limit : ℕ) (starts_at ends_at : DateTime)
      → (load_match_dataset text (grown db more) as_of match_id window
          ≡ load_match_dataset text db as_of match_id window)
        × (list_target_matches_as_of text (grown db more) as_of starts_at ends_at limit
            ≡ list_target_matches_as_of text db as_of starts_at ends_at limit)
  unfolding load_match_dataset list_target_matches_as_of target_rows
  load_match_dataset-IsReproducible untied match_id window limit starts_at ends_at = (
    rw (match_as_of-grown match_id, fun_ext (load_found-grown window)) refl,
    rw
        (
          latest_as_of-grown (λ r. r.source) as_of db.matches more.matches h.matches_later _ _,
          fun_ext joined-grown,
        )
        refl,
  )
