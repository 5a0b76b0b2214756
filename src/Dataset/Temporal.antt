-- ===== src/Dataset/Temporal.antt =====
-- No observation from the future: `validate_temporal_integrity`.
use urim_platform.Dataset.Remember.{IsCompatible}
use urim_platform.Base.{
  ◌≤◌, ◌<◌, ◌≡◌, ◌≢◌, ◌↔◌, true, false, not, List, arith, ◌==◌, any, All, any-eq-false, All-map, ok,
  ◌>>=◌, raise_if, for_each, raise_if-eq-ok, >>-eq-ok, for_each-eq-ok, >>=-eq-ok, All-both,
}
use urim_platform.Base.Instant.{DateTime, until}
use urim_platform.Observation.{SourceObservation, MatchObservation, KairosMatchDataset}
use urim_platform.Dataset.Checks.{
  collected, source_observations, all_history, check_history_match, check_source_times,
  validate_temporal_integrity, target_match_leaked_into_history,
}
use urim_platform.Dataset.Sources.{source_observations_iff, source_observations-All}

-- Observed, then available, then fetched, then stored, and all of that by the time of analysis.
pub record IsTimely (as_of : DateTime) (s : SourceObservation) : Type 0 where
  pub observed_aware : s.observed_at.aware ≡ true
  pub available_aware : s.available_at.aware ≡ true
  pub fetched_aware : s.fetched_at.aware ≡ true
  pub created_aware : s.created_at.aware ≡ true
  pub observed_first : s.observed_at.instant ≤ s.available_at.instant
  pub available_next : s.available_at.instant ≤ s.fetched_at.instant
  pub fetched_next : s.fetched_at.instant ≤ s.created_at.instant
  pub created_last : s.created_at.instant ≤ as_of.instant

-- A match of the history was played before the analysis, and is not the match analysed.
pub record IsPast {V : Type 0} (d : KairosMatchDataset V) (m : MatchObservation) : Type 0 where
  pub kickoff_aware : m.kickoff_at.aware ≡ true
  pub kickoff_before : m.kickoff_at.instant < d.as_of.instant
  pub other_match : m.provider_match_id ≢ d.target.provider_match_id

pub record IsTemporallySound {V : Type 0} (d : KairosMatchDataset V) : Type 0 where
  pub as_of_aware : d.as_of.aware ≡ true
  pub kickoff_aware : d.target.kickoff_at.aware ≡ true
  pub pre_match : d.as_of.instant < d.target.kickoff_at.instant
  pub history_past : All (IsPast d) (all_history d)
  pub compatible : IsCompatible (collected d)
  pub sources_timely : All (IsTimely d.as_of) (collected d)

module _ {V : Type 0} (d : KairosMatchDataset V) where
  check_history_match_iff :
      (m : MatchObservation)
      → (check_history_match d m ≡ ok tt)
        ↔ ((m.kickoff_at.aware ≡ true) × (m.kickoff_at.instant < d.as_of.instant))
  unfolding check_history_match
  check_history_match_iff m = (λ h. (ground arith, ground arith), λ h. ground arith)

  check_source_times_iff :
      (s : SourceObservation) → (check_source_times d s ≡ ok tt) ↔ IsTimely d.as_of s
  unfolding check_source_times
  check_source_times_iff s = (λ h. ground arith, λ h. ground arith)

  no_leak_iff :
      (xs : List MatchObservation)
      → (raise_if
            (any (λ m. m.provider_match_id == d.target.provider_match_id) xs)
            target_match_leaked_into_history
          ≡ ok tt)
        ↔ All (λ m. m.provider_match_id ≢ d.target.provider_match_id) xs
  no_leak_iff xs =
      let test = any-eq-false (λ m. m.provider_match_id == d.target.provider_match_id) xs in
      let raised =
        raise_if-eq-ok (any (λ m. m.provider_match_id == d.target.provider_match_id) xs)
          target_match_leaked_into_history in
      (
        λ h. All-map (λ m e. ground arith) xs (test.0 (raised.0 h)),
        λ h. raised.1 (test.1 (All-map (λ m n. ground arith) xs h)),
      )

  check_sources_iff :
      ((source_observations d >>= λ sources. for_each (check_source_times d) sources) ≡ ok tt)
      ↔ (IsCompatible (collected d) × All (IsTimely d.as_of) (collected d))
  check_sources_iff = (
    λ h.
        let (sources, found, timely) =
          >>=-eq-ok (source_observations d) (λ l. for_each (check_source_times d) l) h in
        (
          (source_observations_iff d).0 (sources, found),
          (source_observations-All d (IsTimely d.as_of) sources found).0 (
              All-map (λ s. (check_source_times_iff s).0) sources
                ((for_each-eq-ok (check_source_times d) sources).0 timely)),
        ),
    λ h.
        let (sources, found) = (source_observations_iff d).1 h.0 in
        rw found (
          (for_each-eq-ok (check_source_times d) sources).1 (
            All-map (λ s. (check_source_times_iff s).1) sources
              ((source_observations-All d (IsTimely d.as_of) sources found).1 h.1))),
  )

  check_histories_iff :
      (xs : List MatchObservation)
      → (for_each (check_history_match d) xs ≡ ok tt)
        ↔ All (λ m. (m.kickoff_at.aware ≡ true) × (m.kickoff_at.instant < d.as_of.instant)) xs
  check_histories_iff xs =
      let each = for_each-eq-ok (check_history_match d) xs in
      (
        λ h. All-map (λ m. (check_history_match_iff m).0) xs (each.0 h),
        λ h. each.1 (All-map (λ m. (check_history_match_iff m).1) xs h),
      )

  -- The temporal check passes exactly on the datasets that are temporally sound: the analysis is
  -- before the kickoff, the history is earlier matches only, sources do not conflict, and each
  -- source was observed, available, fetched and stored in that order by the time of analysis.
  pub validate_temporal_integrity_iff :
      (validate_temporal_integrity d ≡ ok tt) ↔ IsTemporallySound d
  unfolding validate_temporal_integrity
  validate_temporal_integrity_iff = (
    λ h.
        let (aware, h1) = (>>-eq-ok (raise_if (not d.as_of.aware) _) _).0 h in
        let (kickoff, h2) = (>>-eq-ok (raise_if (not d.target.kickoff_at.aware) _) _).0 h1 in
        let (pre, h3) = (>>-eq-ok (raise_if (until d.target.kickoff_at d.as_of) _) _).0 h2 in
        let (leak, h4) = (>>-eq-ok (raise_if (any _ (all_history d)) _) _).0 h3 in
        let (past, timely) = (>>-eq-ok (for_each (check_history_match d) (all_history d)) _).0 h4 in
        let sources = check_sources_iff.0 timely in
        record {
          as_of_aware = ground (arith, aware);
          kickoff_aware = ground (arith, kickoff);
          pre_match = ground (arith, pre);
          history_past =
              All-map
                (λ m (n, c). record { kickoff_aware = c.0; kickoff_before = c.1; other_match = n })
                (all_history d)
                (All-both (λ m. m.provider_match_id ≢ d.target.provider_match_id)
                  (λ m. (m.kickoff_at.aware ≡ true) × (m.kickoff_at.instant < d.as_of.instant))
                  (all_history d) ((no_leak_iff (all_history d)).0 leak)
                  ((check_histories_iff (all_history d)).0 past));
          compatible = sources.0;
          sources_timely = sources.1;
        },
    λ h.
        let leak =
          (no_leak_iff (all_history d)).1
            (All-map (λ m (p : IsPast d m). p.other_match) (all_history d) h.history_past) in
        let past = (check_histories_iff (all_history d)).1 (
          All-map (λ m (p : IsPast d m). (p.kickoff_aware, p.kickoff_before)) (all_history d)
            h.history_past) in
        let timely = check_sources_iff.1 (h.compatible, h.sources_timely) in
        let aware : not d.as_of.aware ≡ false = ground (arith, h.as_of_aware) in
        let kickoff : not d.target.kickoff_at.aware ≡ false = ground (arith, h.kickoff_aware) in
        let pre : until d.target.kickoff_at d.as_of ≡ false = ground (arith, h.pre_match) in
        rw (aware, kickoff, pre) ((>>-eq-ok _ _).1 (leak, (>>-eq-ok _ _).1 (past, timely))),
  )
