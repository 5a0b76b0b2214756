-- ===== src/Repository/Tables.antt =====
-- The queries of standings, statistics and events return what was read from rows in their scope.
use urim_platform.Base.Instant.{DateTime}
use urim_platform.Base.Select.{All-take, All-selected}
use urim_platform.Base.Sort.{All-sorted}
use urim_platform.Dataset.{team_ids}
use urim_platform.Observation.{
  MatchObservation, StandingObservation, StatisticObservation, EventObservation,
}
use urim_platform.Repository.Rows.{
  TextFunctions, SourceRow, standing_of, standing_from_row, statistic_of, statistic_from_row,
  event_of, event_from_row,
}
use urim_platform.Repository.Latest.{latest_as_of}
use urim_platform.Repository.Queries.{
  Database, same_standing, same_statistic, same_event, in_standing_scope, in_statistic_scope,
  in_event_scope, statistic_le, event_le, standings_as_of, statistics_as_of, card_events_as_of,
  kairos_statistic_types, max_kairos_events_per_match,
}
use urim_platform.Repository.Rank.{latest_as_of-All}
use urim_platform.Repository.Stored.{IsKept, IsKeptDatabase, all_sources, In-map, In-append}
use urim_platform.Base.{
  ℕ, ◌*◌, ◌≡◌, refl, inl, inr, Bool, true, List, [], ◌∷◌, map, leb, length, select, All, All-map,
  All-select, ok, All-both, In, All-In,
}
use urim_platform.Repository.Found.{
  IsReadable, rows-IsRead, IsReadStanding, IsReadStatistic, IsReadEvent,
}

module _ (text : TextFunctions) {V : Type 0} (db : Database V) (as_of : DateTime)
    (stored : IsKeptDatabase db) where
  -- The rows of another table that are in scope twice: of the subquery and of the statement.
  scoped_rows :
      {R : Type 0} (source : R → SourceRow) (same : R → R → Bool) (table : List R)
      → ((r : R) → In r table → In (source r) (all_sources db) × IsKept (source r))
      → (scope : R → Bool)
      → All
          (λ r. IsReadable db as_of (source r) × Unit {0} × (scope r ≡ true))
          (select scope (latest_as_of source same as_of scope table))
  scoped_rows source same table each scope =
      All-map
        (λ r (chosen, s).
          let (member, good) = each r chosen.stored in
          (record { in_database = member; visible = chosen.visible; row_stored = good }, tt, s))
        _
        (All-both _ (λ r. scope r ≡ true) _
          (All-select _ scope _ (latest_as_of-All source same as_of scope table))
          (All-selected scope _))

  pub standings_found :
      (target : MatchObservation)
      → (found : List StandingObservation) × (standings_as_of text db as_of target (team_ids target)
          ≡ ok found)
        × All (IsReadStanding text db as_of target) found
  unfolding standings_as_of standing_from_row
  standings_found target =
      let (found, returned, all_read, size) =
        rows-IsRead db as_of standing_of (λ s. s.source) (λ _. Unit {0}) (λ r. r.source)
          standing_from_row (λ row s h. rw h refl) (λ row s. refl)
          (in_standing_scope text db as_of target (team_ids target)) _
          (All-sorted (λ a b. leb a.provider_team_id b.provider_team_id) _ _
            (scoped_rows (λ r. r.source) same_standing db.standings
              (λ r member. (
                In-append r.source (map (λ r. r.source) db.matches) _ (
                    inr (
                      In-append r.source (map (λ r. r.source) db.standings) _
                        (inl (In-map (λ r. r.source) r db.standings member)))),
                All-In (λ r. IsKept r.source) r db.standings member stored.standings_stored,
              ))
              (in_standing_scope text db as_of target (team_ids target)))) in
      (found, returned, all_read)

  pub statistics_found :
      (ids teams : List ℕ)
      → (found : List (StatisticObservation V)) × (statistics_as_of text db as_of ids teams
          ≡ ok found)
        × All (IsReadStatistic text db as_of ids teams) found
  unfolding statistics_as_of statistic_from_row
  statistics_found [] teams = ([], refl, tt)
  statistics_found (i ∷ ids) teams =
      let (found, returned, all_read, size) =
        rows-IsRead db as_of statistic_of (λ s. s.source) (λ _. Unit {0}) (λ r. r.source)
          statistic_from_row (λ row s h. rw h refl) (λ row s. refl)
          (in_statistic_scope text db as_of (i ∷ ids) teams) _
          (All-take _ (length (i ∷ ids) * length teams * length kairos_statistic_types) _ (
            All-sorted (statistic_le text db as_of) _ _ (
              scoped_rows (λ r. r.source) same_statistic db.statistics
                (λ r member. (
                  In-append r.source (map (λ r. r.source) db.matches) _ (
                      inr (
                        In-append r.source (map (λ r. r.source) db.standings) _ (
                          inr (
                            In-append r.source (map (λ r. r.source) db.statistics) _
                              (inl (In-map (λ r. r.source) r db.statistics member)))))),
                  All-In (λ r. IsKept r.source) r db.statistics member stored.statistics_stored,
                ))
                (in_statistic_scope text db as_of (i ∷ ids) teams)))) in
      (found, returned, all_read)

  pub events_found :
      (ids teams : List ℕ)
      → (found : List EventObservation) × (card_events_as_of text db as_of ids teams ≡ ok found)
        × All (IsReadEvent text db as_of ids teams) found
  unfolding card_events_as_of event_from_row
  events_found [] teams = ([], refl, tt)
  events_found (i ∷ ids) teams =
      let (found, returned, all_read, size) =
        rows-IsRead db as_of event_of (λ s. s.source) (λ _. Unit {0}) (λ r. r.source) event_from_row
          (λ row s h. rw h refl) (λ row s. refl) (in_event_scope text db as_of (i ∷ ids) teams) _
          (All-take _ (length (i ∷ ids) * max_kairos_events_per_match) _ (
            All-sorted (event_le text db as_of) _ _ (
              scoped_rows (λ r. r.source) same_event db.events
                (λ r member. (
                  In-append r.source (map (λ r. r.source) db.matches) _ (
                      inr (
                        In-append r.source (map (λ r. r.source) db.standings) _ (
                          inr (
                            In-append r.source (map (λ r. r.source) db.statistics) _
                              (inr (In-map (λ r. r.source) r db.events member)))))),
                  All-In (λ r. IsKept r.source) r db.events member stored.events_stored,
                ))
                (in_event_scope text db as_of (i ∷ ids) teams)))) in
      (found, returned, all_read)
