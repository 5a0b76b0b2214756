-- ===== src/Repository/Sound.antt =====
-- What the rows of the queries say of the observations that are made of them.
use text.Mathlib.TextEquality.{eq_iff}
use mathlib.Core.Path.{subst}
use urim_platform.Base.Distinct.{All-contains, All-distinct}
use urim_platform.Base.Instant.{DateTime}
use urim_platform.Base.Select.{All-take, All-mapped}
use urim_platform.Base.Sort.{All-sorted}
use urim_platform.Dataset.{contains, team_ids}
use urim_platform.Dataset.Scope.{Plays, IsCompleted}
use urim_platform.Observation.{
  SourceObservation, MatchObservation, StandingObservation, StatisticObservation, EventObservation,
}
use urim_platform.Repository.Rows.{TextFunctions, MatchRow, match_of}
use urim_platform.Repository.Queries.{Database, is_earlier, in_team_scope, in_h2h_scope}
use urim_platform.Repository.Load.{feature_match_ids}
use urim_platform.Repository.Stored.{IsStoredMatch}
use urim_platform.Repository.Found.{
  KeepsStatuses, IsPastMatch, in_history, IsReadStanding, IsReadStatistic, IsReadEvent, IsTarget,
}
use urim_platform.Base.{
  ℕ, ◌<◌, ◌≡◌, refl, ◌≢◌, true, false, none, some, List, ◌++◌, arith, leb, ◌==◌, take, All, Any,
  All-map, All-append, In, In-Any, All-In_self,
}

-- What the identifiers listed share holds of any that the list contains.
-- The matches of the feature windows are matches of the histories.
pub feature_match_ids-Any :
    (window : ℕ) (home away : List MatchObservation) (a : ℕ)
    → contains (feature_match_ids window home away) a ≡ true
    → Any (λ m. m.provider_match_id ≡ a) (home ++ away)
unfolding feature_match_ids
feature_match_ids-Any window home away a h =
    let windows : List MatchObservation = take window home ++ take window away in
    let Known : ℕ → Type 0 = λ i. Any (λ m. m.provider_match_id ≡ i) (home ++ away) in
    let each = (All-append (λ m. In m (home ++ away)) home away).0 (All-In_self (home ++ away)) in
    let members : All (λ m. In m (home ++ away)) windows =
      (All-append (λ m. In m (home ++ away)) (take window home) (take window away)).1 (
        All-take (λ m. In m (home ++ away)) window home each.0,
        All-take (λ m. In m (home ++ away)) window away each.1,
      ) in
    let known : All (λ m. Known m.provider_match_id) windows =
      All-map
        (λ m p. In-Any (λ n. n.provider_match_id ≡ m.provider_match_id) m (home ++ away) p refl)
        windows members in
    All-contains Known _ a
      (All-sorted leb Known _
        (All-distinct Known _ (All-mapped Known (λ m. m.provider_match_id) windows known)))
      h

module _ (text : TextFunctions) (keeps : KeepsStatuses text) {V : Type 0} (db : Database V)
    (as_of : DateTime) where
  -- What both histories promise of a match.
  pub record IsEarlier (target m : MatchObservation) : Type 0 where
    pub kickoff_aware : m.kickoff_at.aware ≡ true
    pub kickoff_before : m.kickoff_at.instant < as_of.instant
    pub other_match : m.provider_match_id ≢ target.provider_match_id
    pub same_competition : m.provider_competition_id ≡ target.provider_competition_id
    pub completed : IsCompleted m

  IsEarlier-of_row :
      (target : MatchObservation) (row : MatchRow) (s : SourceObservation)
      → IsStoredMatch row
      → is_earlier text db as_of target row ≡ true
      → (row.provider_match_id == target.provider_match_id) ≡ false
      → IsEarlier target (match_of text row none s)
  unfolding is_earlier
  IsEarlier-of_row target row s good scope other = record {
    kickoff_aware = good.kickoff_aware;
    kickoff_before = ground (arith, scope);
    other_match = λ e. ground (arith, other, e);
    same_competition = ground (arith, scope);
    completed = ground (
      arith,
      scope,
      keeps.full_time,
      keeps.extra_time,
      keeps.penalties,
      eq_iff "FT" row.status_short,
      eq_iff "AET" row.status_short,
      eq_iff "PEN" row.status_short,
    );
  }

  pub IsPastMatch-team :
      (team : ℕ) (target m : MatchObservation)
      → IsPastMatch text db as_of (in_history (in_team_scope text db as_of team target) target) m
      → IsEarlier target m × (m.season ≡ target.season) × Plays team m
  unfolding in_team_scope
  IsPastMatch-team team target m p =
      subst (λ n. IsEarlier target n × (n.season ≡ target.season) × Plays team n) p.copied
        (
          IsEarlier-of_row target p.row m.source p.good (ground (arith, p.in_scope))
              (ground (arith, p.in_scope)),
          ground (arith, p.in_scope),
          ground (arith, p.in_scope),
        )

  pub IsPastMatch-h2h :
      (target m : MatchObservation)
      → IsPastMatch text db as_of (in_history (in_h2h_scope text db as_of target) target) m
      → IsEarlier target m
        × Plays target.home_team_provider_id m
        × Plays target.away_team_provider_id m
  unfolding in_h2h_scope
  IsPastMatch-h2h target m p =
      subst
        (λ n.
          IsEarlier target n
          × Plays target.home_team_provider_id n
          × Plays target.away_team_provider_id n)
        p.copied
        (
          IsEarlier-of_row target p.row m.source p.good (ground (arith, p.in_scope))
              (ground (arith, p.in_scope)),
          ground (arith, p.in_scope, p.good.teams_differ),
          ground (arith, p.in_scope, p.good.teams_differ),
        )

  Plays-team_ids :
      (team : ℕ) (m : MatchObservation) → contains (team_ids m) team ≡ true → Plays team m
  Plays-team_ids team m h = ground arith

  pub IsReadEvent-team :
      (ids : List ℕ) (target : MatchObservation) (e : EventObservation)
      → IsReadEvent text db as_of ids (team_ids target) e
      → (contains ids e.provider_match_id ≡ true)
        × ((team : ℕ) → e.provider_team_id ≡ some team → Plays team target)
  IsReadEvent-team ids target e p =
      subst
        (λ f.
          (contains ids f.provider_match_id ≡ true)
          × ((team : ℕ) → f.provider_team_id ≡ some team → Plays team target))
        p.copied
        (
          ground (arith, p.in_scope),
          λ team found. Plays-team_ids team target (ground (arith, p.in_scope, found)),
        )

  pub IsReadStatistic-team :
      (ids : List ℕ) (target : MatchObservation) (o : StatisticObservation V)
      → IsReadStatistic text db as_of ids (team_ids target) o
      → (contains ids o.provider_match_id ≡ true) × Plays o.provider_team_id target
  IsReadStatistic-team ids target o p =
      subst (λ s. (contains ids s.provider_match_id ≡ true) × Plays s.provider_team_id target)
        p.copied
        (
          ground (arith, p.in_scope),
          Plays-team_ids p.row.provider_team_id target (ground (arith, p.in_scope)),
        )

  pub IsReadStanding-team :
      (target : MatchObservation) (o : StandingObservation)
      → IsReadStanding text db as_of target o
      → Plays o.provider_team_id target
  IsReadStanding-team target o p =
      subst (λ s. Plays s.provider_team_id target) p.copied
        (Plays-team_ids p.row.provider_team_id target (ground (arith, p.in_scope)))

  pub IsTarget-fields :
      (match_id : ℕ) (target : MatchObservation)
      → IsTarget text db as_of match_id target
      → (target.kickoff_at.aware ≡ true)
        × (target.provider_match_id ≡ match_id)
        × (target.home_team_provider_id ≢ target.away_team_provider_id)
  IsTarget-fields match_id target p =
      subst
        (λ m.
          (m.kickoff_at.aware ≡ true)
          × (m.provider_match_id ≡ match_id)
          × (m.home_team_provider_id ≢ m.away_team_provider_id))
        p.copied (p.good.kickoff_aware, ground (arith, p.in_scope), p.good.teams_differ)
