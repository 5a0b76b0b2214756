-- ===== src/RateLimit/Calls.antt =====
-- The set of one client after any number of calls, at any times and from any processes: Redis runs
-- each script as one step.
use urim_platform.Base.{ℕ, ◌≤◌, ◌<◌, String}
use urim_platform.RateLimit.{SortedSet, SortedSetLaws, sliding_window}
use urim_platform.RateLimit.Window.{sliding_window_lem}

-- The sets that calls of a limiter lead to.
pub data Reaches {S : Type 0} ⦃set : SortedSet S⦄ (limit : ℕ) (start : S) : S → Type 0 where
  here : Reaches limit start start
  call :
      {s : S} (now : ℕ) (member : String)
      → Reaches limit start s
      → Reaches limit start (sliding_window 60000 limit now member s).0

module _ {S : Type 0} ⦃set : SortedSet S⦄ (laws : SortedSetLaws set) where
  -- However many calls are made, and whatever the clock does, the set of a limiter with a positive
  -- limit never holds more requests than the limit, if it did not at the start.
  pub Reaches-count :
      (limit : ℕ) (start s : S)
      → 0 < limit
      → set.count start ≤ limit
      → Reaches limit start s
      → set.count s ≤ limit
  Reaches-count limit start s positive respected here = respected
  Reaches-count limit start s positive respected (call {s = t} now member before) =
      (sliding_window_lem laws limit now member t positive
        (Reaches-count limit start t positive respected before)).0
