-- ===== src/Match/Totals.antt =====
-- What the scores of a match promise: range, orientation, and the split into halves.
use urim_platform.Base.{
  ℕ, ◌+◌, ◌≤◌, ◌≡◌, refl, ◌≢◌, ◌↔◌, inl, inr, Option, none, some, arith, Option-cases,
}
use urim_platform.Base.Int.{ℤ, pos, negsuc}
use urim_platform.Observation.{MatchObservation}
use urim_platform.Match.{
  reasonable, both_reasonable, fulltime_score, halftime_score, score_for, halves, half_goal_totals,
}

reasonable-le : (g : Option ℤ) (n : ℕ) → reasonable g ≡ some n → n ≤ 100
reasonable-le none n h = ground arith
reasonable-le (some (pos k)) n h = ground arith
reasonable-le (some (negsuc k)) n h = ground arith

both_reasonable-le :
    (x y : Option ℤ) (h a : ℕ) → both_reasonable x y ≡ some (h, a) → (h ≤ 100) × (a ≤ 100)
both_reasonable-le x y h a e = elim (Option-cases (reasonable x)) [
  | inl none_x ↦ ground arith
  | inr (n, ex) ↦ elim (Option-cases (reasonable y)) [
    | inl none_y ↦ ground arith
    | inr (k, ey) ↦ ground (arith, reasonable-le x n ex, reasonable-le y k ey)
  ]
]

-- A full-time score is in range: each team has at most 100 goals.
pub fulltime_score-le :
    (m : MatchObservation) (h a : ℕ) → fulltime_score m ≡ some (h, a) → (h ≤ 100) × (a ≤ 100)
unfolding fulltime_score
fulltime_score-le m h a e = ground (
  arith,
  both_reasonable-le m.score_fulltime_home m.score_fulltime_away h a,
  both_reasonable-le m.goals_home m.goals_away h a,
)

-- For the two teams of a match between different teams, the score seen by the away team is the
-- score seen by the home team with its sides swapped, and a third team sees none.
pub score_for_sides :
    (m : MatchObservation) (team_id : ℕ)
    → m.home_team_provider_id ≢ m.away_team_provider_id
    → ((g a : ℕ)
        → (score_for m m.home_team_provider_id ≡ some (g, a))
          ↔ (score_for m m.away_team_provider_id ≡ some (a, g)))
      × (team_id ≢ m.home_team_provider_id
          → team_id ≢ m.away_team_provider_id
          → score_for m team_id ≡ none)
unfolding score_for
score_for_sides m team_id ne = elim (Option-cases (fulltime_score m)) [
  | inl absent ↦ (λ g a. (λ h. ground arith, λ h. ground arith), λ p q. ground arith)
  | inr (score, e) ↦ (λ g a. (λ h. ground arith, λ h. ground arith), λ p q. ground arith)
]

halves_iff :
    (halftime fulltime : Option (ℕ × ℕ)) (first second : ℕ)
    → (halves halftime fulltime ≡ some (first, second)) ↔ (
        (h1 a1 h2 a2 : ℕ) × (halftime ≡ some (h1, a1))
        × (fulltime ≡ some (h2, a2))
        × (first ≡ h1 + a1)
        × (first + second ≡ h2 + a2))
halves_iff none fulltime first second =
    (λ h. ground arith, λ (a, b, c, d, e, f, g, i). ground arith)
halves_iff (some x) none first second =
    (λ h. ground arith, λ (a, b, c, d, e, f, g, i). ground arith)
halves_iff (some (h1, a1)) (some (h2, a2)) first second = (
  λ h. (h1, a1, h2, a2, refl, refl, ground arith, ground arith),
  λ (a, b, c, d, e, f, g, i). ground arith,
)

-- The totals of the halves exist exactly when both scores are known and the half-time total does
-- not exceed the full-time total; then they add up to the goals of the match.
pub half_goal_totals_iff :
    (m : MatchObservation) (first second : ℕ)
    → (half_goal_totals m ≡ some (first, second)) ↔ (
        (h1 a1 h2 a2 : ℕ) × (halftime_score m ≡ some (h1, a1))
        × (fulltime_score m ≡ some (h2, a2))
        × (first ≡ h1 + a1)
        × (first + second ≡ h2 + a2))
unfolding half_goal_totals
half_goal_totals_iff m = halves_iff (halftime_score m) (fulltime_score m)
