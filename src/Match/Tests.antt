-- ===== src/Match/Tests.antt =====
-- The scores of one match.
use urim_platform.Base.{ℕ, ◌+◌, ◌≡◌, ◌↔◌, some}
use urim_platform.Fixture.{match_one}
use urim_platform.Match.{fulltime_score, halftime_score, half_goal_totals}
use urim_platform.Match.Totals.{half_goal_totals_iff}

half_goal_totals_iff_example : (half_goal_totals match_one ≡ some (0, 3)) ↔ (
    (h1 a1 h2 a2 : ℕ) × (halftime_score match_one ≡ some (h1, a1))
    × (fulltime_score match_one ≡ some (h2, a2))
    × (0 ≡ h1 + a1)
    × (0 + 3 ≡ h2 + a2))
half_goal_totals_iff_example = half_goal_totals_iff match_one 0 3
