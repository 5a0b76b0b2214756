-- ===== src/Repository/Scoped.antt =====
-- A loaded dataset is one that the checks of `KairosMatchDataset` accept.
use urim_platform.Base.Instant.{DateTime}
use urim_platform.Dataset.{collected, all_history}
use urim_platform.Dataset.Scope.{Plays, IsScoped}
use urim_platform.Dataset.Temporal.{IsTimely, IsTemporallySound}
use urim_platform.Dataset.Remember.{IsCompatible}
use urim_platform.Observation.{SourceObservation, KairosMatchDataset}
use urim_platform.Repository.Rows.{TextFunctions}
use urim_platform.Repository.Queries.{Database}
use urim_platform.Repository.Stored.{IsFrom, IsKnown, IsFrom-IsKnown}
use urim_platform.Repository.Found.{KeepsStatuses}
use urim_platform.Repository.Sound.{
  feature_match_ids-Any, IsEarlier, IsPastMatch-team, IsPastMatch-h2h, IsReadEvent-team,
  IsReadStatistic-team, IsReadStanding-team,
}
use urim_platform.Base.{ℕ, ◌≤◌, ◌<◌, ◌≡◌, ◌≢◌, true, All, All-map, All-append, All-both}
use urim_platform.Repository.Loaded.{IsLoaded, IsLoaded-sources}

-- The row was stored when it had been fetched, which no constraint of the tables asks for.
abbrev pub IsStoredAfterFetch : SourceObservation → Type 0
IsStoredAfterFetch s = s.fetched_at.instant ≤ s.created_at.instant

IsKnown-IsTimely :
    (as_of : DateTime) (s : SourceObservation)
    → IsKnown as_of s
    → IsStoredAfterFetch s
    → IsTimely as_of s
IsKnown-IsTimely as_of s k ordered = record {
  observed_aware = k.observed_aware;
  available_aware = k.available_aware;
  fetched_aware = k.fetched_aware;
  created_aware = k.created_aware;
  observed_first = k.observed_first;
  available_next = k.available_next;
  fetched_next = ordered;
  created_last = k.created_last;
}

module _ (text : TextFunctions) {V : Type 0} (db : Database V) (as_of : DateTime) where
  module _ (keeps : KeepsStatuses text) (d : KairosMatchDataset V) (window : ℕ)
      (l : IsLoaded text db as_of d.target window d) where
    home-IsEarlier :
        All
          (λ m.
            IsEarlier text keeps db as_of d.target m
            × (m.season ≡ d.target.season)
            × Plays d.target.home_team_provider_id m)
          d.home_history
    home-IsEarlier =
        All-map
          (λ m. IsPastMatch-team text keeps db as_of d.target.home_team_provider_id d.target m)
          d.home_history l.home_read

    away-IsEarlier :
        All
          (λ m.
            IsEarlier text keeps db as_of d.target m
            × (m.season ≡ d.target.season)
            × Plays d.target.away_team_provider_id m)
          d.away_history
    away-IsEarlier =
        All-map
          (λ m. IsPastMatch-team text keeps db as_of d.target.away_team_provider_id d.target m)
          d.away_history l.away_read

    h2h-IsEarlier :
        All
          (λ m.
            IsEarlier text keeps db as_of d.target m
            × Plays d.target.home_team_provider_id m
            × Plays d.target.away_team_provider_id m)
          d.h2h_history
    h2h-IsEarlier =
        All-map (λ m. IsPastMatch-h2h text keeps db as_of d.target m) d.h2h_history l.h2h_read

    All-IsEarlier : All (IsEarlier text keeps db as_of d.target) (all_history d)
    All-IsEarlier =
        let P = IsEarlier text keeps db as_of d.target in
        (All-append P d.home_history _).1 (
          All-map (λ m p. p.0) d.home_history home-IsEarlier,
          (All-append P d.away_history d.h2h_history).1 (
            All-map (λ m p. p.0) d.away_history away-IsEarlier,
            All-map (λ m p. p.0) d.h2h_history h2h-IsEarlier,
          ),
        )

    pub IsLoaded-IsKnown : IsFrom db as_of d.target.source → All (IsKnown as_of) (collected d)
    IsLoaded-IsKnown from =
        All-map (IsFrom-IsKnown db as_of) (collected d)
          (IsLoaded-sources text db as_of d window from l)

    pub IsLoaded-IsTemporallySound :
        IsFrom db as_of d.target.source
        → as_of.aware ≡ true
        → d.target.kickoff_at.aware ≡ true
        → as_of.instant < d.target.kickoff_at.instant
        → IsCompatible (collected d)
        → All IsStoredAfterFetch (collected d)
        → IsTemporallySound d
    IsLoaded-IsTemporallySound from aware kickoff early compatible ordered = record {
      as_of_aware = rw l.as_of_given aware;
      kickoff_aware = kickoff;
      pre_match = rw l.as_of_given early;
      history_past =
          All-map
            (λ m (p : IsEarlier text keeps db as_of d.target m). record {
              kickoff_aware = p.kickoff_aware;
              kickoff_before = rw l.as_of_given p.kickoff_before;
              other_match = p.other_match;
            })
            (all_history d) All-IsEarlier;
      compatible = compatible;
      sources_timely =
          All-map (λ s p. rw l.as_of_given (IsKnown-IsTimely as_of s p.0 p.1)) (collected d)
            (All-both _ _ (collected d) (IsLoaded-IsKnown from) ordered);
    }

    pub IsLoaded-IsScoped :
        d.target.provider_match_id ≢ 0
        → d.target.home_team_provider_id ≢ d.target.away_team_provider_id
        → IsScoped d
    IsLoaded-IsScoped identified differ = record {
      match_identified = identified;
      teams_differ = differ;
      same_season = (All-append _ d.home_history d.away_history).1 (
        All-map (λ m p. (p.0.same_competition, p.1, p.0.completed)) d.home_history home-IsEarlier,
        All-map (λ m p. (p.0.same_competition, p.1, p.0.completed)) d.away_history away-IsEarlier,
      );
      home_plays = All-map (λ m p. p.2) d.home_history home-IsEarlier;
      away_plays = All-map (λ m p. p.2) d.away_history away-IsEarlier;
      encounters =
          All-map (λ m p. (p.0.same_competition, p.1, p.2, p.0.completed)) d.h2h_history
            h2h-IsEarlier;
      standings_scoped =
          All-map (IsReadStanding-team text keeps db as_of d.target) d.standings l.standings_read;
      statistics_scoped =
          All-map
            (λ o p.
              let (listed, plays) = IsReadStatistic-team text keeps db as_of _ d.target o p in
              (feature_match_ids-Any window d.home_history d.away_history _ listed, plays))
            d.statistics l.statistics_read;
      events_scoped =
          All-map
            (λ o p.
              let (listed, plays) = IsReadEvent-team text keeps db as_of _ d.target o p in
              (feature_match_ids-Any window d.home_history d.away_history _ listed, plays))
            d.events l.events_read;
    }
