-- ===== src/Market/Outcomes.antt =====
-- How the outcomes of the markets of one match fit together, and the tie to the observed halves.
use urim_platform.Base.{
  ℕ, ◌+◌, ◌≡◌, refl, ◌⊎◌, inl, inr, true, false, Option, none, some, [], ◌∷◌, arith, ltb, leb,
  if◌then◌else◌, Bool-cases, any,
}
use urim_platform.Base.Int.{ℤ, pos, negsuc}
use urim_platform.Observation.{MatchObservation}
use urim_platform.Match.{reasonable, both_reasonable, halves, half_goal_totals}
use urim_platform.Market.{
  Market, first_half_more_goals, second_half_more_goals, equal_half_goals, home_or_draw,
  away_or_draw, home_or_away, half_time, market_group, Outcome, success, failure, void,
  out_of_range, goals, settled, half_condition, full_condition, half_outcome, settle_halves, settle,
  evaluate_market_outcome,
}

-- Exactly one of three outcomes is a success and the other two are failures.
abbrev pub ExactlyOne : Outcome → Outcome → Outcome → Type 0
ExactlyOne a b c =
    ((a ≡ success) × (b ≡ failure) × (c ≡ failure))
    ⊎ ((a ≡ failure) × (b ≡ success) × (c ≡ failure))
    ⊎ ((a ≡ failure) × (b ≡ failure) × (c ≡ success))

-- The three comparisons of the halves, as `ExactlyOne` or void together.
abbrev pub IsPartition : Outcome → Outcome → Outcome → Type 0
IsPartition a b c = ((a ≡ void) × (b ≡ void) × (c ≡ void)) ⊎ ExactlyOne a b c

half_outcome-IsPartition :
    (f t : ℕ)
    → IsPartition
        (half_outcome first_half_more_goals f t)
        (half_outcome second_half_more_goals f t)
        (half_outcome equal_half_goals f t)
half_outcome-IsPartition f t = ground arith

settle_halves-IsPartition :
    (hh ha : Option ℤ) (t : ℕ)
    → IsPartition
        (settle_halves first_half_more_goals hh ha t)
        (settle_halves second_half_more_goals hh ha t)
        (settle_halves equal_half_goals hh ha t)
settle_halves-IsPartition none ha t = inl (refl, refl, refl)
settle_halves-IsPartition (some h) none t = inl (refl, refl, refl)
settle_halves-IsPartition (some h) (some a) t = half_outcome-IsPartition (goals h + goals a) t

settle-IsPartition :
    (hh ha fh fa : Option ℤ)
    → IsPartition
        (settle (some first_half_more_goals) hh ha fh fa)
        (settle (some second_half_more_goals) hh ha fh fa)
        (settle (some equal_half_goals) hh ha fh fa)
settle-IsPartition hh ha none fa = inl (refl, refl, refl)
settle-IsPartition hh ha (some h) none = inl (refl, refl, refl)
settle-IsPartition hh ha (some h) (some a) = settle_halves-IsPartition hh ha (goals h + goals a)

-- What the double chances may be: all void, or a draw, or one winner.
abbrev pub IsDoubleChance : Outcome → Outcome → Outcome → Type 0
IsDoubleChance hd ad ha =
    ((hd ≡ void) × (ad ≡ void) × (ha ≡ void))
    ⊎ ((hd ≡ success) × (ad ≡ success) × (ha ≡ failure))
    ⊎ ((hd ≡ success) × (ad ≡ failure) × (ha ≡ success))
    ⊎ ((hd ≡ failure) × (ad ≡ success) × (ha ≡ success))

settle-IsDoubleChance :
    (hh ha fh fa : Option ℤ)
    → IsDoubleChance
        (settle (some home_or_draw) hh ha fh fa)
        (settle (some away_or_draw) hh ha fh fa)
        (settle (some home_or_away) hh ha fh fa)
settle-IsDoubleChance hh ha none fa = inl (refl, refl, refl)
settle-IsDoubleChance hh ha (some h) none = inl (refl, refl, refl)
settle-IsDoubleChance hh ha (some h) (some a) = ground arith

-- Both scores of the observed match are in range and the half-time total fits: what the
-- condition of a half-time market says of the observed halves.
abbrev pub expected : Market → Option (ℕ × ℕ) → Outcome
expected market none = void
expected market (some (first, second)) = elim (half_condition market first second) [
  | none ↦ void
  | some condition ↦ settled condition
]

half_time-full_condition :
    (market : Market) (h a : ℕ) → market_group market ≡ half_time → full_condition market h a ≡ none
unfolding market_group
half_time-full_condition first_half_more_goals h a e = refl
half_time-full_condition _ h a e = ground arith

half_outcome-expected :
    (market : Market) (h1 a1 h2 a2 : ℕ)
    → half_outcome market (h1 + a1) (h2 + a2)
      ≡ expected market (halves (some (h1, a1)) (some (h2, a2)))
half_outcome-expected market h1 a1 h2 a2 = elim (Bool-cases (ltb (h2 + a2) (h1 + a1))) [
  | inl more ↦ rw more
  | inr fits ↦ rw fits
]

both_reasonable-pos :
    (x y : Option ℤ) (h a : ℕ)
    → both_reasonable x y ≡ some (h, a)
    → (x ≡ some (pos h)) × (y ≡ some (pos a)) × (leb h 100 ≡ true) × (leb a 100 ≡ true)
both_reasonable-pos none y h a e = cc
both_reasonable-pos (some (negsuc n)) y h a e = cc
both_reasonable-pos (some (pos n)) none h a e = ground arith
both_reasonable-pos (some (pos n)) (some (negsuc k)) h a e = ground arith
both_reasonable-pos (some (pos n)) (some (pos k)) h a e = ground arith

reasonable_pos :
    (n : ℕ)
    → ((ltb 100 n ≡ true) × (reasonable (some (pos n)) ≡ none))
      ⊎ ((ltb 100 n ≡ false) × (reasonable (some (pos n)) ≡ some n))
reasonable_pos n = elim (Bool-cases (ltb 100 n)) [
  | inl more ↦ inl (more, ground arith)
  | inr fits ↦ inr (fits, ground arith)
]

settle-expected :
    (market : Market) (hh ha : Option ℤ) (h2 a2 : ℕ)
    → (if any out_of_range (hh ∷ ha ∷ []) then void else settle_halves market hh ha (h2 + a2))
      ≡ expected market (halves (both_reasonable hh ha) (some (h2, a2)))
settle-expected market none ha h2 a2 = ground arith
settle-expected market (some (negsuc n)) ha h2 a2 = refl
settle-expected market (some (pos n)) none h2 a2 = ground arith
settle-expected market (some (pos n)) (some (negsuc k)) h2 a2 = ground arith
settle-expected market (some (pos n)) (some (pos k)) h2 a2 = elim (reasonable_pos n) [
  | inl (more, no_home) ↦ ground (arith, more, no_home)
  | inr (fits, home) ↦ elim (reasonable_pos k) [
    | inl (more, no_away) ↦ ground (arith, fits, more, home, no_away)
    | inr (fit, away) ↦
        let both : both_reasonable (some (pos n)) (some (pos k)) ≡ some (n, k) =
          ground (arith, home, away) in
        rw (fits, fit, both) (half_outcome-expected market n k h2 a2)
  ]
]

-- A half-time market of a match whose full-time score is stored and in range is settled by the
-- very halves that the analysis observed: void where the observation has none, and otherwise as
-- the market's condition on the goals of the two halves says.
pub evaluate-half_goal_totals :
    (m : MatchObservation) (market : Market) (h a : ℕ)
    → market_group market ≡ half_time
    → both_reasonable m.score_fulltime_home m.score_fulltime_away ≡ some (h, a)
    → evaluate_market_outcome
        (some market)
        m.score_halftime_home
        m.score_halftime_away
        m.score_fulltime_home
        m.score_fulltime_away
      ≡ expected market (half_goal_totals m)
unfolding evaluate_market_outcome half_goal_totals
evaluate-half_goal_totals m market h a grouped full =
    let (home, away, fits_home, fits_away) =
      both_reasonable-pos m.score_fulltime_home m.score_fulltime_away h a full in
    let no_full = half_time-full_condition market h a grouped in
    let halves_case = settle-expected market m.score_halftime_home m.score_halftime_away h a in
    let in_home : ltb 100 h ≡ false = ground (arith, fits_home) in
    let in_away : ltb 100 a ≡ false = ground (arith, fits_away) in
    ground (arith, home, away, no_full, in_home, in_away, halves_case, full)

module _ (hh ha fh fa : Option ℤ) where
  abbrev pub outcome : Market → Outcome
  outcome market = evaluate_market_outcome (some market) hh ha fh fa

  -- "First half", "second half" and "equal" are one partition: all three are void together, or
  -- exactly one of them is a success and the others are failures.
  pub outcome-IsPartition :
      IsPartition
        (outcome first_half_more_goals)
        (outcome second_half_more_goals)
        (outcome equal_half_goals)
  unfolding evaluate_market_outcome
  outcome-IsPartition = elim (Bool-cases (any out_of_range (hh ∷ ha ∷ fh ∷ fa ∷ []))) [
    | inl bad ↦ rw bad (inl (refl, refl, refl))
    | inr good ↦ rw good (settle-IsPartition hh ha fh fa)
  ]

  -- The double chances are void together; otherwise exactly two of the three succeed.
  pub outcome-IsDoubleChance :
      IsDoubleChance (outcome home_or_draw) (outcome away_or_draw) (outcome home_or_away)
  unfolding evaluate_market_outcome
  outcome-IsDoubleChance = elim (Bool-cases (any out_of_range (hh ∷ ha ∷ fh ∷ fa ∷ []))) [
    | inl bad ↦ rw bad (inl (refl, refl, refl))
    | inr good ↦ rw good (settle-IsDoubleChance hh ha fh fa)
  ]
