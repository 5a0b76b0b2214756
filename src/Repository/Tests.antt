-- ===== src/Repository/Tests.antt =====
-- The loads of the sample database.
use urim_platform.Repository.Load.{
  load_match_dataset_for_target, feature_match_ids, load_match_dataset, list_target_matches_as_of,
}
use urim_platform.Repository.Queries.{
  standings_as_of, team_history, statistics_as_of, card_events_as_of, h2h_history, same_match,
  match_as_of, Database,
}
use urim_platform.Base.Sort.{insert_sorted, IsSorted}
use urim_platform.Dataset.{collected, validate_temporal_integrity}
use urim_platform.Dataset.Remember.{IsCompatible}
use urim_platform.Repository.Stored.{IsKnown}
use urim_platform.Repository.Scoped.{IsStoredAfterFetch}
use urim_platform.Dataset.Scope.{IsScoped}
use urim_platform.Fixture.{at_time}
use urim_platform.Observation.{MatchObservation, KairosMatchDataset}
use urim_platform.Repository.Rows.{match_of, source_of, other_value}
use urim_platform.Repository.Latest.{latest_as_of, visible_rows}
use urim_platform.Repository.Rank.{IsEquivalence, IsChosen, IsUnique, IsRanked, latest_as_of_lem}
use urim_platform.Repository.Contract.{load_match_dataset_lem}
use urim_platform.Repository.Replay.{AreLater, IsUntied, grown, load_match_dataset-IsReproducible}
use urim_platform.Repository.Daily.{IsUpcoming, kicks_off_first, list_target_matches_as_of_lem}
use urim_platform.Base.{
  ℕ, ◌*◌, ◌≤◌, ◌≡◌, refl, ◌↔◌, Option, none, some, List, [], ◌∷◌, arith, ◌==◌, length, select, All,
  ok, ◌>>=◌,
}
use urim_platform.Repository.Sample.{
  first_row, corrected_row, target_row, database, gained, plain, plain_keeps, plain_scheduled,
  database_stored,
}
use urim_platform.Repository.Rows.{MatchRow}

abbrev target : MatchObservation
target = match_of plain target_row (some "League") (source_of target_row.source ("complete" ∷ []))

target_found : match_as_of plain database (at_time 1000) 200 ≡ ok (some target)
unfolding match_as_of
target_found = refl

load_match_dataset_lem_example :
    (d : KairosMatchDataset ℕ) × (load_match_dataset plain database (at_time 1000) 200 5
      ≡ ok (some d))
    × (d.target ≡ target)
    × (d.target.provider_match_id ≡ 200)
    × All (IsKnown (at_time 1000)) (collected d)
    × ((validate_temporal_integrity d ≡ ok tt)
        ↔ (IsCompatible (collected d) × All IsStoredAfterFetch (collected d)))
    × IsScoped d
    × (length d.home_history ≤ 5 * 4)
    × (length d.away_history ≤ 5 * 4)
    × (length d.h2h_history ≤ 10)
load_match_dataset_lem_example =
    load_match_dataset_lem plain database (at_time 1000) plain_keeps database_stored refl 200 5
      (λ e. omega arith) (omega arith) (omega arith) target target_found (omega arith)

-- The target was stored with flags that are an object.
abbrev broken_row : MatchRow
broken_row = record target_row { source = record target_row.source { quality_flags = other_value } }

abbrev broken : Database ℕ
broken = record database { matches = broken_row ∷ [] }

-- A load finds the match that both teams played, with its statistic and its event.
abbrev sizes : Option (KairosMatchDataset ℕ) → List ℕ
sizes none = []
sizes (some d) =
    length d.home_history
    ∷ length d.standings
    ∷ length d.statistics
    ∷ length d.events
    ∷ length d.h2h_history
    ∷ []

loaded_sizes :
    (load_match_dataset plain database (at_time 1000) 200 5 >>= λ d. ok (sizes d))
    ≡ ok (1 ∷ 1 ∷ 1 ∷ 1 ∷ 1 ∷ [])
unfolding load_match_dataset load_match_dataset_for_target team_history insert_sorted
    standings_as_of statistics_as_of feature_match_ids card_events_as_of h2h_history
loaded_sizes = refl

gained_later : AreLater (at_time 1000) gained
gained_later = record {
  matches_later = (omega arith, tt);
  competitions_later = tt;
  standings_later = tt;
  statistics_later = tt;
  events_later = tt;
}

database-IsUntied : IsUntied (at_time 1000) database
unfolding visible_rows
database-IsUntied = record {
  matches_untied = refl;
  competitions_untied = refl;
  standings_untied = refl;
  statistics_untied = refl;
  events_untied = refl;
}

load_match_dataset-IsReproducible_example :
    (load_match_dataset plain (grown database gained) (at_time 1000) 200 5
      ≡ load_match_dataset plain database (at_time 1000) 200 5)
    × (list_target_matches_as_of plain
          (grown database gained)
          (at_time 1000)
          (at_time 1500)
          (at_time 3000)
          4
        ≡ list_target_matches_as_of plain database (at_time 1000) (at_time 1500) (at_time 3000) 4)
load_match_dataset-IsReproducible_example =
    load_match_dataset-IsReproducible plain database gained (at_time 1000) gained_later
      database-IsUntied 200 5 4 (at_time 1500) (at_time 3000)

list_target_matches_as_of_lem_example :
    (targets : List MatchObservation) × (list_target_matches_as_of plain database
        (at_time 1000)
        (at_time 1500)
        (at_time 3000)
        4
      ≡ ok targets)
    × (length targets ≤ 4)
    × All (IsUpcoming plain database (at_time 1000) (at_time 1500) (at_time 3000)) targets
    × IsSorted kicks_off_first targets
list_target_matches_as_of_lem_example =
    list_target_matches_as_of_lem plain database (at_time 1000) (at_time 1500) (at_time 3000)
      database_stored plain_scheduled refl refl (omega arith) 4 (omega arith) (omega arith)

same_match-IsEquivalence : IsEquivalence same_match
same_match-IsEquivalence = record {
  reflexive = λ a. ground arith;
  symmetric = λ a b h. ground arith;
  transitive = λ a b c g h. ground arith;
}

latest_as_of_lem_example :
    All
      (IsChosen
        (λ r. r.source)
        (at_time 2000)
        (λ r. r.provider_match_id == 101)
        (first_row ∷ corrected_row ∷ []))
      (latest_as_of
        (λ r. r.source)
        same_match
        (at_time 2000)
        (λ r. r.provider_match_id == 101)
        (first_row ∷ corrected_row ∷ []))
    × IsUnique
        (λ r. r.source)
        same_match
        (latest_as_of
          (λ r. r.source)
          same_match
          (at_time 2000)
          (λ r. r.provider_match_id == 101)
          (first_row ∷ corrected_row ∷ []))
    × All
        (IsRanked
          (λ r. r.source)
          same_match
          (latest_as_of
            (λ r. r.source)
            same_match
            (at_time 2000)
            (λ r. r.provider_match_id == 101)
            (first_row ∷ corrected_row ∷ [])))
        (select
          (λ r. r.provider_match_id == 101)
          (visible_rows (λ r. r.source) (at_time 2000) (first_row ∷ corrected_row ∷ [])))
latest_as_of_lem_example =
    latest_as_of_lem (λ r. r.source) same_match same_match-IsEquivalence (at_time 2000)
      (λ r. r.provider_match_id == 101) (first_row ∷ corrected_row ∷ [])
