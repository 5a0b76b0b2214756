-- ===== src/Discovery/Recent.antt =====
-- `select_recent_matches_for_statistics` of sports_data/discovery.py: the latest matches of each
-- team in turn. Kickoffs are compared as instants, so they are all aware or all naive.
use mathlib.Core.Option.{map as option_map}
use urim_platform.Base.Distinct.{distinct}
use urim_platform.Base.Int.{ℤ, pos, negsuc}
use urim_platform.Dataset.{contains}
use urim_platform.Base.Instant.{DateTime, before}
use urim_platform.Base.Sort.{sorted}
use urim_platform.Discovery.Model.{DiscoveryError, limit_must_be_non_negative, is_id}
use urim_platform.Base.{
  ℕ, zero, suc, Bool, true, false, ◌&&◌, ◌||◌, Option, none, some, List, [], ◌∷◌, ◌++◌, map, ltb,
  leb, ◌==◌, if◌then◌else◌, length, select, Result, ok, err,
}

-- A field that holds a value of another type than the code asks for is `none`.
pub record RecentRow : Type 0 where
  pub provider_match_id : Option ℕ
  pub kickoff_at : Option DateTime
  pub home_team_provider_id : Option ℕ
  pub away_team_provider_id : Option ℕ

-- A row with its identifier and its kickoff.
pub record DatedRow : Type 0 where
  pub match_id : ℕ
  pub kickoff : DateTime
  pub row : RecentRow

abbrev pub dated_row : RecentRow → ℕ → DateTime → DatedRow
dated_row r id time = record { match_id = id; kickoff = time; row = r }

unfoldable pub dated : List RecentRow → List DatedRow
dated [] = []
dated (r ∷ rows) = elim r.provider_match_id [
  | none ↦ dated rows
  | some id ↦ elim r.kickoff_at [ none ↦ dated rows | some time ↦ dated_row r id time ∷ dated rows ]
]

-- `sorted(…, key=(kickoff_at, provider_match_id), reverse=True)`, which is stable.
abbrev pub latest_first : DatedRow → DatedRow → Bool
latest_first a b =
    before b.kickoff a.kickoff
    || (a.kickoff.instant == b.kickoff.instant && leb b.match_id a.match_id)

abbrev pub plays_in : ℕ → RecentRow → Bool
plays_in team_id r = is_id team_id r.home_team_provider_id || is_id team_id r.away_team_provider_id

-- The identifiers of the rows of one team, in order.
abbrev pub candidates_of_team : List DatedRow → ℕ → List ℕ
candidates_of_team ordered team_id =
    map (λ d. d.match_id) (select (λ d. plays_in team_id d.row) ordered)

unfoldable pub team_rows : List RecentRow → List ℕ → List (List ℕ)
unfolding dated distinct
team_rows rows target_team_ids =
    map (candidates_of_team (sorted latest_first (dated rows)))
      (sorted leb (distinct target_team_ids))

abbrev pub get_elem? : List ℕ → ℕ → Option ℕ
get_elem? [] n = none
get_elem? (x ∷ xs) zero = some x
get_elem? (x ∷ xs) (suc n) = get_elem? xs n

-- One pass over the teams: `found`, and what is selected after it.
unfoldable pub pass : (limit offset : ℕ) → List (List ℕ) → List ℕ → Bool × List ℕ
pass limit offset [] selected = (false, selected)
pass limit offset (candidates ∷ teams) selected = elim (get_elem? candidates offset) [
  | none ↦ pass limit offset teams selected
  | some match_id ↦ elim (contains selected match_id) [
    | true ↦ (true, (pass limit offset teams selected).1)
    | false ↦ elim (length (selected ++ match_id ∷ []) == limit) [
      | true ↦ (true, selected ++ match_id ∷ [])
      | false ↦ (true, (pass limit offset teams (selected ++ match_id ∷ [])).1)
    ]
  ]
]

-- The loop `while len(selected) < limit`; `none` when the fuel runs out.
unfoldable pub passes : (limit : ℕ) → List (List ℕ) → (fuel offset : ℕ) → List ℕ → Option (List ℕ)
unfolding pass
passes limit teams zero offset selected = none
passes limit teams (suc fuel) offset selected = elim (ltb (length selected) limit) [
  | false ↦ some selected
  | true ↦ elim (pass limit offset teams selected).0 [
    | false ↦ some (pass limit offset teams selected).1
    | true ↦ passes limit teams fuel (suc offset) (pass limit offset teams selected).1
  ]
]

-- `none` when the fuel runs out; a pass per row and one more are enough.
unfoldable pub select_recent_matches_for_statistics :
    List RecentRow → List ℕ → ℤ → Option (Result DiscoveryError (List ℕ))
unfolding passes team_rows
select_recent_matches_for_statistics rows target_team_ids (negsuc n) =
    some (err limit_must_be_non_negative)
select_recent_matches_for_statistics rows target_team_ids (pos limit) =
    if limit == 0
    then some (ok [])
    else option_map ok (passes limit (team_rows rows target_team_ids) (suc (length rows)) 0 [])
