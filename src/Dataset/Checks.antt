-- ===== src/Dataset/Checks.antt =====
-- `source_observations`, `validate_temporal_integrity` and `validate_data_integrity`.
-- The code's `isinstance` tests hold by the types of the model.
use text.Mathlib.Text.{◌==◌ as str_eq}
use urim_platform.Base.{
  ℕ, String, Bool, true, not, ◌&&◌, ◌||◌, Option, none, some, List, [], ◌∷◌, ◌++◌, map, ltb, ◌==◌,
  if◌then◌else◌, length, any, all, conjunction, disjunction, Result, ok, err, ◌>>=◌, ◌>>◌, raise_if,
  for_each,
}
use urim_platform.Base.Instant.{before, until}
use urim_platform.Base.Text.{codes, text_length, is_blank, is_hex, text_le}
use urim_platform.Base.Sort.{sorted}
use urim_platform.Observation.{SourceObservation, MatchObservation, KairosMatchDataset, source_eq}

-- `KairosTemporalIntegrityError` and `KairosPreMatchWindowClosedError` refine `KairosDataError`.
pub data KairosError : Type 0 where
  conflicting_source_observation_identity : KairosError
  as_of_must_be_timezone_aware kickoff_must_be_timezone_aware : KairosError
  pre_match_window_closed target_match_leaked_into_history : KairosError
  history_kickoff_must_be_timezone_aware future_history_match_detected : KairosError
  observed_at_must_be_aware available_at_must_be_aware : KairosError
  fetched_at_must_be_aware created_at_must_be_aware : KairosError
  future_available_observation_detected future_fetched_observation_detected : KairosError
  future_persisted_observation_detected observation_temporal_order_invalid : KairosError
  invalid_target_identity history_scope_mismatch home_history_team_mismatch : KairosError
  away_history_team_mismatch history_match_not_completed h2h_history_scope_mismatch : KairosError
  standing_scope_mismatch statistic_scope_mismatch event_scope_mismatch : KairosError
  unexpected_source_provider incomplete_source_provenance : KairosError
  invalid_source_provenance_shape invalid_source_raw_hash validation_error : KairosError

-- `unique.get(identity)`, where each source is stored under its own identity.
unfoldable pub find_source : String → List SourceObservation → Option SourceObservation
find_source identity [] = none
find_source identity (s ∷ unique) =
    if str_eq s.observation_id identity then some s else find_source identity unique

-- `unique[source.observation_id] = source`
unfoldable pub put_source : SourceObservation → List SourceObservation → List SourceObservation
put_source source [] = source ∷ []
put_source source (s ∷ unique) =
    if str_eq s.observation_id source.observation_id
    then source ∷ unique
    else s ∷ put_source source unique

-- One round of the loop that drops repeated sources.
unfoldable pub remember :
    List SourceObservation → SourceObservation → Result KairosError (List SourceObservation)
unfolding find_source put_source source_eq
remember unique source = elim (find_source source.observation_id unique) [
  | none ↦ ok (put_source source unique)
  | some existing ↦
      if source_eq existing source
      then ok (put_source source unique)
      else err conflicting_source_observation_identity
]

unfoldable pub remember_all :
    List SourceObservation → List SourceObservation → Result KairosError (List SourceObservation)
remember_all unique [] = ok unique
remember_all unique (source ∷ sources) =
    remember unique source >>= λ unique'. remember_all unique' sources

abbrev pub by_identity : SourceObservation → SourceObservation → Bool
by_identity a b = text_le a.observation_id b.observation_id

-- A place where a match, a team or a status must be one of those listed.
abbrev pub contains : List ℕ → ℕ → Bool
contains xs a = any (λ x. x == a) xs

abbrev pub contains_text : List String → String → Bool
contains_text xs a = any (λ x. str_eq x a) xs

abbrev pub completed_history_statuses : List String
completed_history_statuses = "FT" ∷ "AET" ∷ "PEN" ∷ []

abbrev pub valid_freshness_statuses : List String
valid_freshness_statuses = "fresh" ∷ "stale" ∷ "unknown" ∷ []

abbrev pub team_ids : MatchObservation → List ℕ
team_ids m = m.home_team_provider_id ∷ m.away_team_provider_id ∷ []

-- `{a, b} != {c, d}`, of sets of two identifiers.
abbrev pub same_pair : List ℕ → List ℕ → Bool
same_pair xs ys = all (contains ys) xs && all (contains xs) ys

module _ {V : Type 0} (d : KairosMatchDataset V) where
  -- The sources of all observations, in the order of the code.
  unfoldable pub collected : List SourceObservation
  collected =
      d.target.source
      ∷ (map (λ m. m.source) d.home_history
          ++ (map (λ m. m.source) d.away_history
              ++ (map (λ s. s.source) d.standings
                  ++ (map (λ s. s.source) d.statistics
                      ++ (map (λ e. e.source) d.events ++ map (λ m. m.source) d.h2h_history)))))

  -- The distinct sources by identity; the same identity with another content is refused.
  unfoldable pub source_observations : Result KairosError (List SourceObservation)
  source_observations = remember_all [] collected >>= λ unique. ok (sorted by_identity unique)

  abbrev pub all_history : List MatchObservation
  all_history = d.home_history ++ (d.away_history ++ d.h2h_history)

  unfoldable pub check_history_match : MatchObservation → Result KairosError (Unit {0})
  check_history_match m = do
    raise_if (not m.kickoff_at.aware) history_kickoff_must_be_timezone_aware
    raise_if (until d.as_of m.kickoff_at) future_history_match_detected

  unfoldable pub check_source_times : SourceObservation → Result KairosError (Unit {0})
  check_source_times s = do
    raise_if (not s.observed_at.aware) observed_at_must_be_aware
    raise_if (not s.available_at.aware) available_at_must_be_aware
    raise_if (not s.fetched_at.aware) fetched_at_must_be_aware
    raise_if (not s.created_at.aware) created_at_must_be_aware
    raise_if (before d.as_of s.available_at) future_available_observation_detected
    raise_if (before d.as_of s.fetched_at) future_fetched_observation_detected
    raise_if (before d.as_of s.created_at) future_persisted_observation_detected
    raise_if
        (not (
          conjunction (
            until s.observed_at s.available_at
            ∷ until s.available_at s.fetched_at
            ∷ until s.fetched_at s.created_at
            ∷ [])))
        observation_temporal_order_invalid

  unfoldable pub validate_temporal_integrity : Result KairosError (Unit {0})
  validate_temporal_integrity = do
    raise_if (not d.as_of.aware) as_of_must_be_timezone_aware
    raise_if (not d.target.kickoff_at.aware) kickoff_must_be_timezone_aware
    raise_if (until d.target.kickoff_at d.as_of) pre_match_window_closed
    raise_if (any (λ m. m.provider_match_id == d.target.provider_match_id) all_history)
        target_match_leaked_into_history
    for_each check_history_match all_history
    sources ← source_observations
    for_each check_source_times sources

  -- `history` in `validate_data_integrity`: the direct encounters are checked by themselves.
  abbrev pub team_history : List MatchObservation
  team_history = d.home_history ++ d.away_history

  abbrev pub is_completed : MatchObservation → Bool
  is_completed m = contains_text completed_history_statuses m.status_short

  abbrev pub history_match_ids : List ℕ
  history_match_ids = map (λ m. m.provider_match_id) team_history

  abbrev pub team_or_none : Option ℕ → Bool
  team_or_none none = true
  team_or_none (some team_id) = contains (team_ids d.target) team_id

  unfoldable pub check_scopes : Result KairosError (Unit {0})
  check_scopes = do
    raise_if
        (disjunction (
          (d.target.provider_match_id == 0)
          ∷ (d.target.provider_competition_id == 0)
          ∷ (d.target.home_team_provider_id == 0)
          ∷ (d.target.away_team_provider_id == 0)
          ∷ (d.target.home_team_provider_id == d.target.away_team_provider_id)
          ∷ []))
        invalid_target_identity
    raise_if
        (any
          (λ m.
            not (m.provider_competition_id == d.target.provider_competition_id)
            || not (m.season == d.target.season))
          team_history)
        history_scope_mismatch
    raise_if (any (λ m. not (contains (team_ids m) d.target.home_team_provider_id)) d.home_history)
        home_history_team_mismatch
    raise_if (any (λ m. not (contains (team_ids m) d.target.away_team_provider_id)) d.away_history)
        away_history_team_mismatch
    raise_if (any (λ m. not (is_completed m)) team_history) history_match_not_completed
    raise_if
        (any
          (λ m.
            not (m.provider_competition_id == d.target.provider_competition_id)
            || (not (same_pair (team_ids m) (team_ids d.target)) || not (is_completed m)))
          d.h2h_history)
        h2h_history_scope_mismatch
    raise_if (any (λ s. not (contains (team_ids d.target) s.provider_team_id)) d.standings)
        standing_scope_mismatch
    raise_if
        (any
          (λ s.
            not (contains history_match_ids s.provider_match_id)
            || not (contains (team_ids d.target) s.provider_team_id))
          d.statistics)
        statistic_scope_mismatch
    raise_if
        (any
          (λ e.
            not (contains history_match_ids e.provider_match_id)
            || not (team_or_none e.provider_team_id))
          d.events)
        event_scope_mismatch

-- The provenance of one source; its lengths are the constants of models.py.
unfoldable pub check_provenance : SourceObservation → Result KairosError (Unit {0})
check_provenance s = do
  raise_if (not (str_eq s.provider "api-football")) unexpected_source_provider
  raise_if (any is_blank (s.observation_id ∷ s.provider_event_id ∷ s.source_version ∷ []))
      incomplete_source_provenance
  raise_if
      (disjunction (
        ltb 80 (text_length s.observation_id)
        ∷ ltb 240 (text_length s.provider_event_id)
        ∷ ltb 80 (text_length s.source_version)
        ∷ ltb 32 (length s.quality_flags)
        ∷ any (λ flag. is_blank flag || ltb 160 (text_length flag)) s.quality_flags
        ∷ not (contains_text valid_freshness_statuses s.freshness_status)
        ∷ []))
      invalid_source_provenance_shape
  raise_if (not (text_length s.raw_hash == 64 && all is_hex (codes s.raw_hash)))
      invalid_source_raw_hash

unfoldable pub validate_data_integrity :
    {V : Type 0} → KairosMatchDataset V → Result KairosError (Unit {0})
validate_data_integrity d = do
  check_scopes d
  sources ← source_observations d
  for_each check_provenance sources
