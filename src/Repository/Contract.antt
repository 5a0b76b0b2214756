-- ===== src/Repository/Contract.antt =====
-- What `load_match_dataset` promises on a database that keeps its constraints.
use urim_platform.Base.Instant.{DateTime}
use urim_platform.Dataset.{collected, validate_temporal_integrity}
use urim_platform.Dataset.Remember.{IsCompatible}
use urim_platform.Dataset.Scope.{IsScoped}
use urim_platform.Dataset.Temporal.{validate_temporal_integrity_iff}
use urim_platform.Observation.{MatchObservation, KairosMatchDataset}
use urim_platform.Repository.Rows.{TextFunctions}
use urim_platform.Repository.Queries.{Database, match_as_of}
use urim_platform.Repository.Load.{max_recent_window, load_found, load_match_dataset}
use urim_platform.Repository.Stored.{IsKeptDatabase, IsKnown}
use urim_platform.Repository.Found.{KeepsStatuses, IsTarget, match_as_of_found}
use urim_platform.Repository.Sound.{IsTarget-fields}
use urim_platform.Repository.Loaded.{IsLoaded, load_for_target_found}
use urim_platform.Repository.Scoped.{
  IsStoredAfterFetch, IsLoaded-IsKnown, IsLoaded-IsTemporallySound, IsLoaded-IsScoped,
}
use urim_platform.Base.{
  ℕ, ◌*◌, ◌≤◌, ◌<◌, ◌≡◌, refl, sym, ap, ◌∙◌, ◌≢◌, ◌↔◌, inl, inr, true, false, ◌||◌, none, some,
  arith, ltb, length, All, All-map, ok,
}

module _ (text : TextFunctions) {V : Type 0} (db : Database V) (as_of : DateTime) where
  loads :
      IsKeptDatabase db
      → (match_id window : ℕ) → 1 ≤ window
      → window ≤ 25
      → (target : MatchObservation) → match_as_of text db as_of match_id ≡ ok (some target)
      → (d : KairosMatchDataset V) × (load_match_dataset text db as_of match_id window
          ≡ ok (some d))
        × IsLoaded text db as_of target window d
  unfolding load_match_dataset load_found
  loads stored match_id window low high target known =
      let in_range : (ltb window 1 || ltb max_recent_window window) ≡ false = ground arith in
      let (d, returned, loaded) =
        load_for_target_found text db as_of stored target window low high in
      (d, rw (in_range, known, load_found, returned) refl, loaded)

  known-IsTarget :
      IsKeptDatabase db
      → (match_id : ℕ) (target : MatchObservation)
      → match_as_of text db as_of match_id ≡ ok (some target)
      → IsTarget text db as_of match_id target
  known-IsTarget stored match_id target known =
      elim (match_as_of_found text db as_of stored match_id) [
        | inl nothing ↦ absurd (let e : ok none ≡ ok (some target) = sym nothing ∙ known in cc)
        | inr (found, is_found, made) ↦
            let same : found ≡ target = cc (is_found, known) in rw same at made
      ]

  -- On a database that keeps the constraints of its tables and whose flags are lists of at most 32
  -- texts, which no constraint asks for, a load for a known match, with a window from 1 to 25, an
  -- aware time of analysis before the kickoff and an identifier that is not zero, returns a dataset
  -- about that match in which every source was fetched and stored by the time of analysis. It
  -- passes `validate_temporal_integrity` exactly if no two sources are in conflict and each was
  -- stored after it was fetched. It is scoped: the same competition and season, completed matches
  -- of the two teams, statistics and events of those matches only. Each team history has at most
  -- four times the window, the encounters at most 10. `str.upper` is taken to leave FT, AET and PEN
  -- as they are.
  pub load_match_dataset_lem :
      KeepsStatuses text
      → IsKeptDatabase db
      → as_of.aware ≡ true
      → (match_id window : ℕ) → match_id ≢ 0
      → 1 ≤ window
      → window ≤ 25
      → (target : MatchObservation) → match_as_of text db as_of match_id ≡ ok (some target)
      → as_of.instant < target.kickoff_at.instant
      → (d : KairosMatchDataset V) × (load_match_dataset text db as_of match_id window
          ≡ ok (some d))
        × (d.target ≡ target)
        × (d.target.provider_match_id ≡ match_id)
        × All (IsKnown as_of) (collected d)
        × ((validate_temporal_integrity d ≡ ok tt)
            ↔ (IsCompatible (collected d) × All IsStoredAfterFetch (collected d)))
        × IsScoped d
        × (length d.home_history ≤ window * 4)
        × (length d.away_history ≤ window * 4)
        × (length d.h2h_history ≤ 10)
  load_match_dataset_lem keeps stored aware match_id window real low high target known early =
      let (d, returned, loaded) = loads stored match_id window low high target known in
      let made = known-IsTarget stored match_id target known in
      let (kickoff, identity, differ) = IsTarget-fields text keeps db as_of match_id target made in
      let here = loaded.target_given in
      let l : IsLoaded text db as_of d.target window d = rw here loaded in
      (
        d,
        returned,
        here,
        rw here identity,
        IsLoaded-IsKnown text db as_of keeps d window l (rw here made.source_from),
        (
          λ passed.
              let sound = (validate_temporal_integrity_iff d).0 passed in
              (
                sound.compatible,
                All-map (λ s t. t.fetched_next) (collected d) sound.sources_timely,
              ),
          λ (compatible, ordered). (validate_temporal_integrity_iff d).1 (
              IsLoaded-IsTemporallySound text db as_of keeps d window l (rw here made.source_from)
                aware (rw here kickoff) (rw here early) compatible ordered),
        ),
        IsLoaded-IsScoped text db as_of keeps d window l
            (λ e. real (sym identity ∙ (sym (ap (λ m. m.provider_match_id) here) ∙ e)))
            (rw here differ),
        loaded.home_bounded,
        loaded.away_bounded,
        loaded.h2h_bounded,
      )
