-- ===== src/Discovery/Model.antt =====
-- The rows that discovery reads, the counter of what it ignores, and the verdict on one fixture.
-- A field that holds a value of another type than the code asks for is `none`.
use text.Mathlib.Text.{◌==◌ as str_eq}
use urim_platform.Base.Instant.{DateTime, before, until}
use urim_platform.Base.Text.{codes, codes_eq, lower, strip}
use urim_platform.Base.{
  ℕ, ◌+◌, String, Bool, true, false, not, ◌&&◌, Option, none, some, List, [], ◌∷◌, map, ◌==◌,
  if◌then◌else◌,
}

pub data DiscoveryError : Type 0 where
  max_competitions_outside_range as_of_must_be_aware : DiscoveryError
  both_bounds_required bounds_must_be_aware bounds_invalid : DiscoveryError
  funnel_inputs_invalid funnel_must_reconcile limit_must_be_non_negative : DiscoveryError
  datetimes_not_comparable : DiscoveryError

pub record FixtureRow : Type 0 where
  pub provider_match_id : ℕ
  pub status_short : Option String
  pub kickoff_at : Option DateTime
  pub provider_competition_id : Option ℕ
  pub season : Option ℕ

pub record CompetitionMetadata : Type 0 where
  pub provider_competition_id : Option ℕ
  pub kind : Option String

-- `coverage`: no mapping, or which of its flags are `True`; `none` where `fixtures` is no mapping.
pub data Coverage : Type 0 where
  no_mapping : Coverage
  mapping : (standings : Bool) → (fixtures : Option (Bool × Bool)) → Coverage

pub record SeasonMetadata : Type 0 where
  pub provider_competition_id : Option ℕ
  pub year : Option ℕ
  pub coverage : Coverage

-- A normalisation counts what it rejected by its reasons.
pub record NormalizationResult (R : Type 0) : Type 0 where
  pub rows : List R
  pub rejected_count : ℕ
  pub rejection_reasons : List (String × ℕ)

-- `counter[reason] += n`, of a `Counter` in insertion order.
unfoldable pub count : String → ℕ → List (String × ℕ) → List (String × ℕ)
count reason n [] = (reason, n) ∷ []
count reason n ((r, m) ∷ counter) =
    if str_eq r reason then (r, m + n) ∷ counter else (r, m) ∷ count reason n counter

-- `counter.update(reasons)`
unfoldable pub count_all : List (String × ℕ) → List (String × ℕ) → List (String × ℕ)
unfolding count
count_all [] counter = counter
count_all ((reason, n) ∷ reasons) counter = count_all reasons (count reason n counter)

-- `sum(counter.values())`
unfoldable pub total : List (String × ℕ) → ℕ
total [] = 0
total ((reason, n) ∷ counter) = n + total counter

abbrev pub is_id : ℕ → Option ℕ → Bool
is_id a none = false
is_id a (some b) = a == b

-- A dictionary that a comprehension builds keeps the last row of a key.
unfoldable pub last_match : {R : Type 0} → (R → Bool) → List R → Option R
last_match p [] = none
last_match p (row ∷ rows) = elim (last_match p rows) [
  | some later ↦ some later
  | none ↦ if p row then some row else none
]

-- `str(kind or "").strip().lower() == "league"`. No letter but ASCII ones has a lower case in that
-- word.
unfoldable pub is_league : Option String → Bool
is_league none = false
is_league (some kind) = codes_eq (map lower (strip kind)) (codes "league")

abbrev pub supports_standings_of : Coverage → Bool
supports_standings_of no_mapping = false
supports_standings_of (mapping standings fixtures) = standings

abbrev pub supports_statistics_of : Coverage → Bool
supports_statistics_of (mapping standings (some (statistics, events))) = statistics
supports_statistics_of (mapping standings none) = false
supports_statistics_of no_mapping = false

abbrev pub supports_events_of : Coverage → Bool
supports_events_of (mapping standings (some (statistics, events))) = events
supports_events_of (mapping standings none) = false
supports_events_of no_mapping = false

-- Why a fixture is passed over, or its competition, its season and what they cover.
pub data Verdict : Type 0 where
  passed_over : String → Verdict
  kept : (competition_id season : ℕ) → Coverage → Verdict

abbrev pub is_scheduled : Option String → Bool
is_scheduled none = false
is_scheduled (some status) = str_eq status "NS"

module _ (competitions : List CompetitionMetadata) (seasons : List SeasonMetadata)
    (as_of : DateTime) (window : Option (DateTime × DateTime)) where
  abbrev pub in_window : DateTime → Bool
  in_window kickoff = elim window [
    | none ↦ true
    | some (starts_at, ends_at) ↦ until starts_at kickoff && before kickoff ends_at
  ]

  abbrev pub competition_of : ℕ → Option CompetitionMetadata
  competition_of id = last_match (λ c. is_id id c.provider_competition_id) competitions

  abbrev pub season_of : ℕ → ℕ → Option SeasonMetadata
  season_of id year =
      last_match (λ s. is_id id s.provider_competition_id && is_id year s.year) seasons

  -- The tests on the coverage of the season.
  unfoldable pub covered : ℕ → ℕ → Coverage → Verdict
  covered competition_id season coverage =
      if not (supports_standings_of coverage) && not (supports_statistics_of coverage)
      then passed_over "insufficient_data_coverage"
      else kept competition_id season coverage

  unfoldable pub known_season : ℕ → ℕ → CompetitionMetadata → Option SeasonMetadata → Verdict
  unfolding covered is_league
  known_season competition_id season competition none = passed_over "season_metadata_unavailable"
  known_season competition_id season competition (some found) =
      if not (is_league competition.kind)
      then passed_over "competition_type_unsupported"
      else covered competition_id season found.coverage

  unfoldable pub known_competition : ℕ → ℕ → Option CompetitionMetadata → Verdict
  unfolding known_season
  known_competition competition_id season none = passed_over "competition_metadata_unavailable"
  known_competition competition_id season (some competition) =
      known_season competition_id season competition (season_of competition_id season)

  unfoldable pub identified : Option ℕ → Option ℕ → Verdict
  unfolding known_competition last_match
  identified (some competition_id) (some season) =
      known_competition competition_id season (competition_of competition_id)
  identified (some competition_id) none = passed_over "fixture_identity_invalid"
  identified none season = passed_over "fixture_identity_invalid"

  -- The tests on the kickoff, then on the rest. A naive kickoff does not come here: its comparison
  -- raises, see `is_incomparable`.
  unfoldable pub timed : FixtureRow → Option DateTime → Verdict
  unfolding identified
  timed row none = passed_over "fixture_not_future"
  timed row (some kickoff) =
      if until kickoff as_of
      then passed_over "fixture_not_future"
      else if not (in_window kickoff)
      then passed_over "fixture_outside_requested_window"
      else identified row.provider_competition_id row.season

  -- One round of the loop over the fixtures.
  unfoldable pub verdict : FixtureRow → Verdict
  unfolding timed
  verdict row =
      if not (is_scheduled row.status_short)
      then passed_over "fixture_status_not_scheduled"
      else timed row row.kickoff_at
