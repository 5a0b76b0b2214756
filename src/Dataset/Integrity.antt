-- ===== src/Dataset/Integrity.antt =====
-- The scope and the provenance of a dataset: `validate_data_integrity`.
use urim_platform.Base.{
  ℕ, ◌≡◌, Bool, false, not, ◌||◌, Option, some, [], ◌∷◌, arith, ◌==◌, ||-eq-false, All, Any,
  any-eq-false, All-map, disjunction, ok, for_each, raise_if-eq-ok, >>-eq-ok, for_each-eq-ok,
  >>=-eq-ok, All-both, raise_if->>-eq-ok,
}
use urim_platform.Observation.{MatchObservation, KairosMatchDataset}
use urim_platform.Dataset.Checks.{
  contains, team_ids, same_pair, collected, source_observations, team_history, is_completed,
  history_match_ids, team_or_none, check_scopes, check_provenance, validate_data_integrity,
}
use urim_platform.Dataset.Sources.{source_observations-All}
use urim_platform.Dataset.Scope.{
  Plays, IsCompleted, IsProvenanced, IsScoped, contains-Plays, contains-Any, IsCompleted-of_status,
  not-eq-false, every, check_provenance-IsProvenanced,
}

module _ {V : Type 0} (d : KairosMatchDataset V) where
  -- The target's own identity, as the first check leaves it.
  abbrev identity_test : Bool
  identity_test = disjunction (
      (d.target.provider_match_id == 0)
      ∷ (d.target.provider_competition_id == 0)
      ∷ (d.target.home_team_provider_id == 0)
      ∷ (d.target.away_team_provider_id == 0)
      ∷ (d.target.home_team_provider_id == d.target.away_team_provider_id)
      ∷ [])

  season_lem :
      (m : MatchObservation)
      → (not (m.provider_competition_id == d.target.provider_competition_id)
          || not (m.season == d.target.season))
        ≡ false
      → not (is_completed d m) ≡ false
      → (m.provider_competition_id ≡ d.target.provider_competition_id)
        × (m.season ≡ d.target.season)
        × IsCompleted m
  season_lem m h c =
      (ground arith, ground arith, IsCompleted-of_status m (not-eq-false (is_completed d m) c))

  encounter_lem :
      (m : MatchObservation)
      → identity_test ≡ false
      → (not (m.provider_competition_id == d.target.provider_competition_id)
          || (not (same_pair (team_ids m) (team_ids d.target)) || not (is_completed d m)))
        ≡ false
      → (m.provider_competition_id ≡ d.target.provider_competition_id)
        × Plays d.target.home_team_provider_id m
        × Plays d.target.away_team_provider_id m
        × IsCompleted m
  encounter_lem m i h =
      let (comp, rest) =
        (||-eq-false (not (m.provider_competition_id == d.target.provider_competition_id)) _).0 h in
      let (pair, done) =
        (||-eq-false (not (same_pair (team_ids m) (team_ids d.target))) _).0 rest in
      (
        ground (arith, comp),
        ground (arith, pair, i),
        ground (arith, pair, i),
        IsCompleted-of_status m (not-eq-false (is_completed d m) done),
      )

  statistic_lem :
      (match_id team : ℕ)
      → (not (contains (history_match_ids d) match_id) || not (contains (team_ids d.target) team))
        ≡ false
      → Any (λ m. m.provider_match_id ≡ match_id) (team_history d) × Plays team d.target
  statistic_lem match_id team h =
      let (known, plays) = (||-eq-false _ _).0 h in
      (
        contains-Any match_id (team_history d) (not-eq-false _ known),
        contains-Plays team d.target (not-eq-false _ plays),
      )

  event_lem :
      (match_id : ℕ) (team : Option ℕ)
      → (not (contains (history_match_ids d) match_id) || not (team_or_none d team)) ≡ false
      → Any (λ m. m.provider_match_id ≡ match_id) (team_history d)
        × ((t : ℕ) → team ≡ some t → Plays t d.target)
  event_lem match_id team h =
      let (known, plays) = (||-eq-false _ _).0 h in
      (
        contains-Any match_id (team_history d) (not-eq-false _ known),
        λ t e.
            contains-Plays t d.target
              (rw (e, team_or_none) at (not-eq-false (team_or_none d team) plays)),
      )

  check_scopes-IsScoped : check_scopes d ≡ ok tt → IsScoped d
  unfolding check_scopes
  check_scopes-IsScoped h =
      let (identity, h1) = raise_if->>-eq-ok _ _ _ h in
      let (season, h2) = raise_if->>-eq-ok _ _ _ h1 in
      let (home, h3) = raise_if->>-eq-ok _ _ _ h2 in
      let (away, h4) = raise_if->>-eq-ok _ _ _ h3 in
      let (done, h5) = raise_if->>-eq-ok _ _ _ h4 in
      let (h2h, h6) = raise_if->>-eq-ok _ _ _ h5 in
      let (standing, h7) = raise_if->>-eq-ok _ _ _ h6 in
      let (statistic, h8) = raise_if->>-eq-ok _ _ _ h7 in
      let event = (raise_if-eq-ok _ _).0 h8 in
      record {
        match_identified = ground (arith, identity);
        teams_differ = ground (arith, identity);
        same_season =
            All-map (λ m p. season_lem m p.0 p.1) (team_history d)
              (All-both _ _ (team_history d) ((any-eq-false _ _).0 season)
                ((any-eq-false _ _).0 done));
        home_plays =
            All-map (λ m. contains-Plays d.target.home_team_provider_id m) d.home_history
              (every (λ m. contains (team_ids m) d.target.home_team_provider_id) d.home_history
                home);
        away_plays =
            All-map (λ m. contains-Plays d.target.away_team_provider_id m) d.away_history
              (every (λ m. contains (team_ids m) d.target.away_team_provider_id) d.away_history
                away);
        encounters =
            All-map (λ m. encounter_lem m identity) d.h2h_history ((any-eq-false _ _).0 h2h);
        standings_scoped =
            All-map (λ s. contains-Plays s.provider_team_id d.target) d.standings
              (every (λ s. contains (team_ids d.target) s.provider_team_id) d.standings standing);
        statistics_scoped =
            All-map (λ s. statistic_lem s.provider_match_id s.provider_team_id) d.statistics
              ((any-eq-false _ _).0 statistic);
        events_scoped =
            All-map (λ e. event_lem e.provider_match_id e.provider_team_id) d.events
              ((any-eq-false _ _).0 event);
      }

  -- A dataset that passes the integrity check is about one match: its history is of the same
  -- competition and season, of completed matches in which the team in question plays; encounters
  -- are between the two teams; standings, statistics and events name those teams and matches; and
  -- every collected source has complete provenance.
  pub validate_data_integrity-IsScoped :
      validate_data_integrity d ≡ ok tt → IsScoped d × All IsProvenanced (collected d)
  unfolding validate_data_integrity
  validate_data_integrity-IsScoped h =
      let (scoped, rest) = (>>-eq-ok (check_scopes d) _).0 h in
      let (sources, found, checked) =
        >>=-eq-ok (source_observations d) (λ l. for_each check_provenance l) rest in
      (
        check_scopes-IsScoped scoped,
        (source_observations-All d IsProvenanced sources found).0 (
            All-map check_provenance-IsProvenanced sources
              ((for_each-eq-ok check_provenance sources).0 checked)),
      )
