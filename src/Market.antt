-- ===== src/Market.antt =====
-- The nine markets and how a finished match settles them: `evaluate_market_outcome` of
-- kairos/journal.py and `OPPORTUNITY_MARKET_GROUPS` of kairos/opportunity_config.py.
pub mod Outcomes
mod Tests
use urim_platform.Base.{
  ℕ, zero, suc, ◌+◌, ◌-◌, ◌*◌, ◌/◌, ◌%◌, ◌^◌, ◌≤◌, ◌<◌, min, max, String, ◌≡◌, refl, sym, ap, ◌∙◌,
  ◌≢◌, ◌↔◌, ◌⊎◌, inl, inr, Bool, true, false, not, ◌&&◌, ◌||◌, Option, none, some, List, [], ◌∷◌,
  ◌++◌, map, arith, ltb, leb, ◌==◌, if◌then◌else◌, ltb→lt, lt→ltb, leb→le, ==_iff, Bool-cases,
  Option-cases, &&-eq-true, ||-eq-false, length, take, any, all, select, All, Any, length-append,
  any-eq-false, all-eq-true, All-map, All-append, All-select, conjunction, disjunction, Result, ok,
  err, ◌>>=◌, ◌>>◌, raise_if, for_each, raise_if-eq-ok, >>-eq-ok, for_each-eq-ok, >>=-eq-ok,
  All-trivial, All-both, raise_if->>-eq-ok, is_nil, In, In-Any, All-In, All-In_self,
}
use urim_platform.Base.Int.{ℤ, pos, negsuc}

pub data Market : Type 0 where
  first_half_more_goals second_half_more_goals equal_half_goals : Market
  first_half_over_0_5 second_half_over_0_5 second_half_over_1_5 : Market
  home_or_draw away_or_draw home_or_away : Market

-- `HALF_TIME_MARKETS`
abbrev pub half_time_markets : List Market
half_time_markets =
    first_half_more_goals ∷ second_half_more_goals ∷ equal_half_goals ∷ first_half_over_0_5
    ∷ second_half_over_0_5 ∷ second_half_over_1_5 ∷ []

pub data MarketGroup : Type 0 where
  half_time double_chance : MarketGroup

-- `OPPORTUNITY_MARKET_GROUPS[market]`
unfoldable pub market_group : Market → MarketGroup
market_group home_or_draw = double_chance
market_group away_or_draw = double_chance
market_group home_or_away = double_chance
market_group _ = half_time

pub data Outcome : Type 0 where
  success failure void : Outcome

-- `_optional_int` of a stored score, a number or nothing: a Boolean is no score.
pub data StoredScore : Type 0 where
  absent : StoredScore
  boolean : Bool → StoredScore
  number : ℤ → StoredScore

abbrev pub optional_int : StoredScore → Option ℤ
optional_int absent = none
optional_int (boolean b) = none
optional_int (number n) = some n

-- `value is not None and (value < 0 or value > 100)`
abbrev pub out_of_range : Option ℤ → Bool
out_of_range none = false
out_of_range (some (negsuc n)) = true
out_of_range (some (pos n)) = ltb 100 n

-- A score that has passed the range check.
abbrev pub goals : ℤ → ℕ
goals (pos n) = n
goals (negsuc n) = 0

abbrev pub settled : Bool → Outcome
settled b = if b then success else failure

-- `conditions[market]`; the double chances are settled before.
abbrev pub half_condition : Market → ℕ → ℕ → Option Bool
half_condition first_half_more_goals f s = some (ltb s f)
half_condition second_half_more_goals f s = some (ltb f s)
half_condition equal_half_goals f s = some (f == s)
half_condition first_half_over_0_5 f s = some (leb 1 f)
half_condition second_half_over_0_5 f s = some (leb 1 s)
half_condition second_half_over_1_5 f s = some (leb 2 s)
half_condition _ f s = none

-- The three conditions on the full-time score alone.
abbrev pub full_condition : Market → ℕ → ℕ → Option Bool
full_condition home_or_draw h a = some (leb a h)
full_condition away_or_draw h a = some (leb h a)
full_condition home_or_away h a = some (not (h == a))
full_condition _ h a = none

-- The outcome from the two half totals, with the score at half-time known.
abbrev pub half_outcome : Market → ℕ → ℕ → Outcome
half_outcome market first_half full_match =
    if ltb full_match first_half
    then void
    else elim (half_condition market first_half (full_match - first_half)) [
      | none ↦ void
      | some condition ↦ settled condition
    ]

-- The part behind the half-time check.
abbrev pub settle_halves : Market → Option ℤ → Option ℤ → ℕ → Outcome
settle_halves market none halftime_away full_match = void
settle_halves market (some h) none full_match = void
settle_halves market (some h) (some a) full_match =
    half_outcome market (goals h + goals a) full_match

-- The part behind the full-time check. `none` is a text that names no market.
abbrev pub settle : Option Market → Option ℤ → Option ℤ → Option ℤ → Option ℤ → Outcome
settle market halftime_home halftime_away none fulltime_away = void
settle market halftime_home halftime_away (some h) none = void
settle none halftime_home halftime_away (some h) (some a) = void
settle (some market) halftime_home halftime_away (some h) (some a) =
    elim (full_condition market (goals h) (goals a)) [
      | some condition ↦ settled condition
      | none ↦ settle_halves market halftime_home halftime_away (goals h + goals a)
    ]

unfoldable pub evaluate_market_outcome :
    Option Market → (halftime_home halftime_away fulltime_home fulltime_away : Option ℤ) → Outcome
evaluate_market_outcome market halftime_home halftime_away fulltime_home fulltime_away =
    if any out_of_range (halftime_home ∷ halftime_away ∷ fulltime_home ∷ fulltime_away ∷ [])
    then void
    else settle market halftime_home halftime_away fulltime_home fulltime_away
