-- ===== src/Match.antt =====
-- The scores of a match: the methods of `MatchObservation` in kairos/models.py.
-- A goal count that the provider left out is `none`; a negative one is refused by the range check.
pub mod Totals
mod Tests
use urim_platform.Base.{
  ℕ, zero, suc, ◌+◌, ◌-◌, ◌*◌, ◌/◌, ◌%◌, ◌^◌, ◌≤◌, ◌<◌, min, max, String, ◌≡◌, refl, sym, ap, ◌∙◌,
  ◌≢◌, ◌↔◌, ◌⊎◌, inl, inr, Bool, true, false, not, ◌&&◌, ◌||◌, Option, none, some, List, [], ◌∷◌,
  ◌++◌, map, arith, ltb, leb, ◌==◌, if◌then◌else◌, ltb→lt, lt→ltb, leb→le, ==_iff, Bool-cases,
  Option-cases, &&-eq-true, ||-eq-false, length, take, any, all, select, All, Any, length-append,
  any-eq-false, all-eq-true, All-map, All-append, All-select, conjunction, disjunction, Result, ok,
  err, ◌>>=◌, ◌>>◌, raise_if, for_each, raise_if-eq-ok, >>-eq-ok, for_each-eq-ok, >>=-eq-ok,
  All-trivial, All-both, raise_if->>-eq-ok, is_nil, In, In-Any, All-In, All-In_self,
}
use urim_platform.Base.Int.{ℤ, pos, negsuc}
use urim_platform.Observation.{MatchObservation}

abbrev pub max_reasonable_goals_per_team : ℕ
max_reasonable_goals_per_team = 100

-- `0 <= goals <= MAX_REASONABLE_GOALS_PER_TEAM`, with the count that passed.
abbrev pub reasonable : Option ℤ → Option ℕ
reasonable none = none
reasonable (some (negsuc n)) = none
reasonable (some (pos n)) = if leb n max_reasonable_goals_per_team then some n else none

-- Both counts of a pair, if both pass.
abbrev pub both_reasonable : Option ℤ → Option ℤ → Option (ℕ × ℕ)
both_reasonable home away = elim (reasonable home) [
  | none ↦ none
  | some h ↦ elim (reasonable away) [ none ↦ none | some a ↦ some (h, a) ]
]

-- The first candidate pair that passes: the full-time score, else the goals.
unfoldable pub fulltime_score : MatchObservation → Option (ℕ × ℕ)
fulltime_score m = elim (both_reasonable m.score_fulltime_home m.score_fulltime_away) [
  | some score ↦ some score
  | none ↦ both_reasonable m.goals_home m.goals_away
]

unfoldable pub halftime_score : MatchObservation → Option (ℕ × ℕ)
halftime_score m = both_reasonable m.score_halftime_home m.score_halftime_away

-- A score as the given team sees it: its own goals first.
abbrev pub oriented : MatchObservation → ℕ → Option (ℕ × ℕ) → Option (ℕ × ℕ)
oriented m team_id none = none
oriented m team_id (some (home_score, away_score)) =
    if team_id == m.home_team_provider_id
    then some (home_score, away_score)
    else if team_id == m.away_team_provider_id
    then some (away_score, home_score)
    else none

unfoldable pub score_for : MatchObservation → ℕ → Option (ℕ × ℕ)
score_for m team_id = oriented m team_id (fulltime_score m)

unfoldable pub halftime_score_for : MatchObservation → ℕ → Option (ℕ × ℕ)
halftime_score_for m team_id = oriented m team_id (halftime_score m)

-- The goals of the two halves, from the half-time and the full-time score.
abbrev pub halves : Option (ℕ × ℕ) → Option (ℕ × ℕ) → Option (ℕ × ℕ)
halves none fulltime = none
halves (some halftime) none = none
halves (some (h1, a1)) (some (h2, a2)) =
    let first_half = h1 + a1 in
    let full_match = h2 + a2 in
    if ltb full_match first_half then none else some (first_half, full_match - first_half)

unfoldable pub half_goal_totals : MatchObservation → Option (ℕ × ℕ)
unfolding halftime_score fulltime_score
half_goal_totals m = halves (halftime_score m) (fulltime_score m)
