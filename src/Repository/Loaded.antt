-- ===== src/Repository/Loaded.antt =====
-- What a load returns on a stored database, and where its sources come from.
use urim_platform.Base.Instant.{DateTime}
use urim_platform.Base.Select.{All-mapped}
use urim_platform.Dataset.{team_ids, collected}
use urim_platform.Observation.{MatchObservation, KairosMatchDataset}
use urim_platform.Repository.Rows.{TextFunctions}
use urim_platform.Repository.Queries.{Database, in_team_scope, in_h2h_scope}
use urim_platform.Repository.Load.{
  feature_match_ids, max_recent_window, load_match_dataset_for_target,
}
use urim_platform.Repository.Stored.{IsKeptDatabase, IsFrom}
use urim_platform.Repository.Found.{
  IsPastMatch, in_history, IsReadStanding, IsReadStatistic, IsReadEvent, team_history_found,
  h2h_history_found,
}
use urim_platform.Repository.Tables.{standings_found, statistics_found, events_found}
use urim_platform.Base.{
  ℕ, ◌*◌, ◌≤◌, ◌≡◌, refl, false, ◌||◌, map, arith, ltb, length, All, All-map, All-append, ok,
}

module _ (text : TextFunctions) {V : Type 0} (db : Database V) (as_of : DateTime) where
  -- How each part of the dataset of a target was read, and how long the histories are at most.
  pub record IsLoaded (target : MatchObservation) (window : ℕ) (d : KairosMatchDataset V)
      : Type 0 where
    pub as_of_given : d.as_of ≡ as_of
    pub target_given : d.target ≡ target
    pub home_read :
        All
          (IsPastMatch text db as_of
            (in_history (in_team_scope text db as_of target.home_team_provider_id target) target))
          d.home_history
    pub away_read :
        All
          (IsPastMatch text db as_of
            (in_history (in_team_scope text db as_of target.away_team_provider_id target) target))
          d.away_history
    pub standings_read : All (IsReadStanding text db as_of target) d.standings
    pub statistics_read :
        All
          (IsReadStatistic text db as_of
            (feature_match_ids window d.home_history d.away_history)
            (team_ids target))
          d.statistics
    pub events_read :
        All
          (IsReadEvent text db as_of
            (feature_match_ids window d.home_history d.away_history)
            (team_ids target))
          d.events
    pub h2h_read :
        All
          (IsPastMatch text db as_of (in_history (in_h2h_scope text db as_of target) target))
          d.h2h_history
    pub home_bounded : length d.home_history ≤ window * 4
    pub away_bounded : length d.away_history ≤ window * 4
    pub h2h_bounded : length d.h2h_history ≤ 10

  pub load_for_target_found :
      IsKeptDatabase db
      → (target : MatchObservation) (window : ℕ) → 1 ≤ window
      → window ≤ 25
      → (d : KairosMatchDataset V) × (load_match_dataset_for_target text db as_of target window
          ≡ ok d)
        × IsLoaded target window d
  unfolding load_match_dataset_for_target
  load_for_target_found stored target window low high =
      let (home, home_is, home_all, home_size) =
        team_history_found text db as_of stored target.home_team_provider_id target (window * 4) in
      let (away, away_is, away_all, away_size) =
        team_history_found text db as_of stored target.away_team_provider_id target (window * 4) in
      let ids = feature_match_ids window home away in
      let (standings, standings_is, standings_all) = standings_found text db as_of stored target in
      let (statistics, statistics_is, statistics_all) =
        statistics_found text db as_of stored ids (team_ids target) in
      let (events, events_is, events_all) =
        events_found text db as_of stored ids (team_ids target) in
      let (h2h, h2h_is, h2h_all, h2h_size) = h2h_history_found text db as_of stored target 10 in
      let in_range : (ltb window 1 || ltb max_recent_window window) ≡ false = ground arith in
      (
        record {
          as_of = as_of;
          target = target;
          home_history = home;
          away_history = away;
          standings = standings;
          statistics = statistics;
          events = events;
          h2h_history = h2h;
        },
        rw (in_range, home_is, away_is, standings_is, statistics_is, events_is, h2h_is) refl,
        record {
          as_of_given = refl;
          target_given = refl;
          home_read = home_all;
          away_read = away_all;
          standings_read = standings_all;
          statistics_read = statistics_all;
          events_read = events_all;
          h2h_read = h2h_all;
          home_bounded = home_size;
          away_bounded = away_size;
          h2h_bounded = h2h_size;
        },
      )

  -- The sources of a loaded dataset were all read from visible rows.
  pub IsLoaded-sources :
      (d : KairosMatchDataset V) (window : ℕ)
      → IsFrom db as_of d.target.source
      → IsLoaded d.target window d
      → All (IsFrom db as_of) (collected d)
  unfolding collected
  IsLoaded-sources d window from l =
      let P = IsFrom db as_of in
      let home : All P (map (λ m. m.source) d.home_history) =
        All-mapped P _ d.home_history (All-map (λ m p. p.source_from) d.home_history l.home_read) in
      let away : All P (map (λ m. m.source) d.away_history) =
        All-mapped P _ d.away_history (All-map (λ m p. p.source_from) d.away_history l.away_read) in
      let standings : All P (map (λ m. m.source) d.standings) =
        All-mapped P _ d.standings (All-map (λ m p. p.source_from) d.standings l.standings_read) in
      let statistics : All P (map (λ m. m.source) d.statistics) =
        All-mapped P _ d.statistics
          (All-map (λ m p. p.source_from) d.statistics l.statistics_read) in
      let events : All P (map (λ m. m.source) d.events) =
        All-mapped P _ d.events (All-map (λ m p. p.source_from) d.events l.events_read) in
      let h2h : All P (map (λ m. m.source) d.h2h_history) =
        All-mapped P _ d.h2h_history (All-map (λ m p. p.source_from) d.h2h_history l.h2h_read) in
      (
        from,
        (All-append P _ _).1 (
          home,
          (All-append P _ _).1 (
            away,
            (All-append P _ _).1
                (standings, (All-append P _ _).1 (statistics, (All-append P _ _).1 (events, h2h))),
          ),
        ),
      )
