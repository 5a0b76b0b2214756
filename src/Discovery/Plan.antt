-- ===== src/Discovery/Plan.antt =====
-- `build_discovery_plan` of sports_data/discovery.py: the fixtures by competition and season, in
-- the order of their priority, as far as the request budget goes.
use urim_platform.Base.Instant.{DateTime, until}
use urim_platform.Base.Text.{text_le}
use urim_platform.Base.Sort.{sorted}
use urim_platform.Dataset.{contains}
use urim_platform.Discovery.Model.{
  DiscoveryError, datetimes_not_comparable, is_scheduled, max_competitions_outside_range,
  as_of_must_be_aware, bounds_must_be_aware, bounds_invalid, both_bounds_required, FixtureRow,
  CompetitionMetadata, SeasonMetadata, Coverage, NormalizationResult, Verdict, passed_over, kept,
  count, count_all, total, supports_standings_of, supports_statistics_of, supports_events_of,
  verdict,
}
use urim_platform.Base.{
  ℕ, ◌+◌, ◌-◌, String, Bool, false, not, ◌&&◌, ◌||◌, Option, none, some, List, [], ◌∷◌, ◌++◌, ltb,
  leb, ◌==◌, if◌then◌else◌, length, any, Result, ok, err, ◌>>=◌, ◌>>◌, raise_if, is_nil,
}

pub record DiscoveryCompetition : Type 0 where
  pub provider_competition_id : ℕ
  pub season : ℕ
  pub supports_standings : Bool
  pub supports_fixture_statistics : Bool
  pub supports_fixture_events : Bool
  pub fixture_rows : List FixtureRow

abbrev pub enrichment_request_cost : DiscoveryCompetition → ℕ
enrichment_request_cost c = if c.supports_standings then 3 else 2

pub record DiscoveryPlan : Type 0 where
  pub competitions : List DiscoveryCompetition
  pub ignored_reasons : List (String × ℕ)

-- `plan.fixture_rows`
unfoldable pub rows_of : List DiscoveryCompetition → List FixtureRow
rows_of [] = []
rows_of (c ∷ cs) = c.fixture_rows ++ rows_of cs

abbrev pub max_discovery_competitions : ℕ
max_discovery_competitions = 5

-- What was rejected before: by its reasons, and the rest as invalid.
unfoldable pub ignored_before : NormalizationResult FixtureRow → List (String × ℕ)
unfolding count_all total count
ignored_before fixtures =
    if fixtures.rejected_count == 0
    then []
    else if ltb (total fixtures.rejection_reasons) fixtures.rejected_count
    then count "invalid_fixture" (fixtures.rejected_count - total fixtures.rejection_reasons)
        (count_all fixtures.rejection_reasons [])
    else count_all fixtures.rejection_reasons []

abbrev pub made : ℕ → ℕ → Coverage → List FixtureRow → DiscoveryCompetition
made competition_id season coverage rows = record {
  provider_competition_id = competition_id;
  season = season;
  supports_standings = supports_standings_of coverage;
  supports_fixture_statistics = supports_statistics_of coverage;
  supports_fixture_events = supports_events_of coverage;
  fixture_rows = rows;
}

-- `grouped.setdefault(key, []).append(row)` and `capability_index[key] = …`.
unfoldable pub add_row :
    ℕ → ℕ → Coverage → FixtureRow → List DiscoveryCompetition → List DiscoveryCompetition
add_row competition_id season coverage row [] = made competition_id season coverage (row ∷ []) ∷ []
add_row competition_id season coverage row (c ∷ grouped) =
    if c.provider_competition_id == competition_id && c.season == season
    then made competition_id season coverage (c.fixture_rows ++ row ∷ []) ∷ grouped
    else c ∷ add_row competition_id season coverage row grouped

abbrev pub Gathered : Type 0
Gathered = List DiscoveryCompetition × List (String × ℕ)

-- What one verdict does to the groups and to the counter.
unfoldable pub gather_one : FixtureRow → Verdict → Gathered → Gathered
unfolding add_row count
gather_one row (passed_over reason) (grouped, ignored) = (grouped, count reason 1 ignored)
gather_one row (kept competition_id season coverage) (grouped, ignored) =
    (add_row competition_id season coverage row grouped, ignored)

-- The loop over the fixtures.
unfoldable pub gather : (FixtureRow → Verdict) → List FixtureRow → Gathered → Gathered
unfolding gather_one
gather judge [] state = state
gather judge (row ∷ rows) state = gather judge rows (gather_one row (judge row) state)

-- `enumerate(priority_competitions)` into a dictionary: the last index of an identifier.
unfoldable pub rank_from : ℕ → List ℕ → ℕ → Option ℕ
rank_from index [] id = none
rank_from index (p ∷ priorities) id = elim (rank_from (index + 1) priorities id) [
  | some later ↦ some later
  | none ↦ if p == id then some index else none
]

-- `len(priority_rank)`
unfoldable pub distinct_count : List ℕ → ℕ
distinct_count [] = 0
distinct_count (p ∷ priorities) =
    if contains priorities p then distinct_count priorities else distinct_count priorities + 1

-- The first keys of the order: in the priorities or not, and the rank.
unfoldable pub priority_of : List ℕ → ℕ → ℕ × ℕ
unfolding rank_from distinct_count
priority_of priorities id = elim (rank_from 0 priorities id) [
  | some rank ↦ (0, rank)
  | none ↦ (1, distinct_count priorities)
]

-- A comparison of tuples: by this key, then by the rest.
abbrev pub then_by : ℕ → ℕ → Bool → Bool
then_by a b rest = ltb a b || (a == b && rest)

abbrev pub lacks : Bool → ℕ
lacks b = if b then 0 else 1

unfoldable pub candidate_le : List ℕ → DiscoveryCompetition → DiscoveryCompetition → Bool
unfolding priority_of
candidate_le priorities a b =
    let p = priority_of priorities a.provider_competition_id in
    let q = priority_of priorities b.provider_competition_id in
    then_by p.0 q.0 (
      then_by p.1 q.1 (
        then_by (lacks a.supports_fixture_statistics) (lacks b.supports_fixture_statistics) (
          then_by (lacks a.supports_standings) (lacks b.supports_standings) (
            then_by (length b.fixture_rows) (length a.fixture_rows)
              (leb a.provider_competition_id b.provider_competition_id)))))

-- `1 if selected else 0`
abbrev pub reserve : List DiscoveryCompetition → ℕ
reserve selected = if is_nil selected then 0 else 1

-- The loop over the candidates: why a candidate is passed over, or `none` if it is selected.
unfoldable pub refusal : ℕ → DiscoveryCompetition → List DiscoveryCompetition → ℕ → Option String
refusal max_competitions c selected remaining_budget =
    if leb max_competitions (length selected)
    then some "competition_limit"
    else if ltb remaining_budget (enrichment_request_cost c + reserve selected)
    then some "request_budget_competition_limit"
    else none

abbrev pub Selection : Type 0
Selection = List DiscoveryCompetition × ℕ × List (String × ℕ)

unfoldable pub select_one : DiscoveryCompetition → Option String → Selection → Selection
unfolding count
select_one c (some reason) (selected, remaining_budget, ignored) =
    (selected, remaining_budget, count reason (length c.fixture_rows) ignored)
select_one c none (selected, remaining_budget, ignored) =
    (selected ++ c ∷ [], remaining_budget - enrichment_request_cost c, ignored)

unfoldable pub select_all : ℕ → List DiscoveryCompetition → Selection → Selection
unfolding select_one refusal
select_all max_competitions [] state = state
select_all max_competitions (c ∷ cs) state =
    select_all max_competitions cs (select_one c (refusal max_competitions c state.0 state.1) state)

abbrev pub by_reason : String × ℕ → String × ℕ → Bool
by_reason a b = text_le a.0 b.0

-- The window from its two bounds.
unfoldable pub window_of :
    Option DateTime → Option DateTime → Result DiscoveryError (Option (DateTime × DateTime))
window_of none none = ok none
window_of none (some ends_at) = err both_bounds_required
window_of (some starts_at) none = err both_bounds_required
window_of (some starts_at) (some ends_at) = do
  raise_if (not starts_at.aware || not ends_at.aware) bounds_must_be_aware
  raise_if (until ends_at starts_at) bounds_invalid
  ok (some (starts_at, ends_at))

abbrev pub is_naive : Option DateTime → Bool
is_naive none = false
is_naive (some time) = not time.aware

module _ (fixtures : NormalizationResult FixtureRow)
    (competitions : NormalizationResult CompetitionMetadata)
    (seasons : NormalizationResult SeasonMetadata) (priorities : List ℕ) (budget : ℕ)
    (as_of : DateTime) (max_competitions : ℕ) where
  abbrev pub gathered : Option (DateTime × DateTime) → Gathered
  gathered window =
      gather (verdict competitions.rows seasons.rows as_of window) fixtures.rows
        ([], ignored_before fixtures)

  unfoldable pub chosen : Option (DateTime × DateTime) → Selection
  unfolding gather verdict ignored_before select_all sorted candidate_le
  chosen window =
      let state = gathered window in
      select_all max_competitions (sorted (candidate_le priorities) state.0) ([], budget, state.1)

  -- `kickoff_at <= as_of` raises a `TypeError` for a scheduled fixture with a naive kickoff; the
  -- loop has no other exception and no effect that outlives it.
  abbrev pub is_incomparable : FixtureRow → Bool
  is_incomparable row = is_scheduled row.status_short && is_naive row.kickoff_at

  -- The budget is not negative, as its type has it.
  unfoldable pub build_discovery_plan :
      (window_starts_at window_ends_at : Option DateTime) → Result DiscoveryError DiscoveryPlan
  unfolding chosen window_of
  build_discovery_plan window_starts_at window_ends_at = do
    raise_if (ltb max_competitions 1 || ltb max_discovery_competitions max_competitions)
        max_competitions_outside_range
    raise_if (not as_of.aware) as_of_must_be_aware
    window ← window_of window_starts_at window_ends_at
    raise_if (any is_incomparable fixtures.rows) datetimes_not_comparable
    ok (record {
      competitions = (chosen window).0;
      ignored_reasons = sorted by_reason (chosen window).2;
    })
