-- ===== src/RateLimit.antt =====
-- The distributed rate limiter: kairos/rate_limit.py. Redis runs the script, so its sorted set is
-- an interface: what `ZREMRANGEBYSCORE`, `ZCARD`, `ZRANGE`, `ZADD` and `PEXPIRE` do to one key.
pub mod Window
pub mod Calls
mod Tests
use urim_platform.Base.{
  ℕ, zero, suc, ◌+◌, ◌-◌, ◌*◌, ◌/◌, ◌%◌, ◌^◌, ◌≤◌, ◌<◌, min, max, String, ◌≡◌, refl, sym, ap, ◌∙◌,
  ◌≢◌, ◌↔◌, ◌⊎◌, inl, inr, Bool, true, false, not, ◌&&◌, ◌||◌, Option, none, some, List, [], ◌∷◌,
  ◌++◌, map, arith, ltb, leb, ◌==◌, if◌then◌else◌, ltb→lt, lt→ltb, leb→le, ==_iff, Bool-cases,
  Option-cases, &&-eq-true, ||-eq-false, length, take, any, all, select, All, Any, length-append,
  any-eq-false, all-eq-true, All-map, All-append, All-select, conjunction, disjunction, Result, ok,
  err, ◌>>=◌, ◌>>◌, raise_if, for_each, raise_if-eq-ok, >>-eq-ok, for_each-eq-ok, >>=-eq-ok,
  All-trivial, All-both, raise_if->>-eq-ok, is_nil, In, In-Any, All-In, All-In_self, traverse,
  traverse-All,
}
use urim_platform.Base.Int.{ℤ, pos, negsuc}
use urim_platform.Base.Text.{codes}

abbrev pub rate_limit_window_seconds : ℕ
rate_limit_window_seconds = 60

pub record SortedSet (S : Type 0) : Type 0 where
  -- Drops the members whose score is at most the given one.
  pub remove_until : ℤ → S → S
  pub count : S → ℕ
  -- The lowest score.
  pub oldest : S → Option ℕ
  pub add : ℕ → String → S → S
  pub expire : ℕ → S → S

abbrev pub minus : ℕ → ℕ → ℤ
minus a b = if leb b a then pos (a - b) else negsuc (b - a - 1)

-- `score > bound`
abbrev pub above : ℤ → ℕ → Bool
above (negsuc n) score = true
above (pos n) score = ltb n score

-- What the theorems rely on, all of it documented of Redis' sorted sets. `scores` lists the scores
-- of the members.
pub record SortedSetLaws {S : Type 0} (set : SortedSet S) : Type 0 where
  pub scores : S → List ℕ
  pub count-scores : (s : S) → set.count s ≡ length (scores s)
  pub scores-remove_until :
      (z : ℤ) (s : S) → scores (set.remove_until z s) ≡ select (above z) (scores s)
  pub oldest-none : (s : S) → set.oldest s ≡ none → scores s ≡ []
  pub oldest-some :
      (s : S) (score : ℕ)
      → set.oldest s ≡ some score
      → In score (scores s) × All (λ other. score ≤ other) (scores s)
  pub count-add :
      (score : ℕ) (member : String) (s : S) → set.count (set.add score member s) ≤ suc (set.count s)
  pub count-expire : (ms : ℕ) (s : S) → set.count (set.expire ms s) ≡ set.count s

-- `window_ms`, or `math.max(1, window_ms - (now_ms - oldest))`.
abbrev pub retry_ms : (window now : ℕ) → Option ℕ → ℕ
retry_ms window now none = window
retry_ms window now (some score) =
    if leb score now then max 1 (window - (now - score)) else max 1 (window + (score - now))

module _ {S : Type 0} ⦃set : SortedSet S⦄ where
  -- The members that are still inside the window.
  abbrev pub trimmed : (window now : ℕ) → S → S
  trimmed window now s = set.remove_until (minus now window) s

  -- `_SLIDING_WINDOW_SCRIPT`: the set that it leaves, and its reply.
  unfoldable pub sliding_window : (window limit now : ℕ) → String → S → S × (ℕ × ℕ)
  sliding_window window limit now member s =
      let kept = trimmed window now s in
      if leb limit (set.count kept)
      then (set.expire window kept, (0, retry_ms window now (set.oldest kept)))
      else (set.expire window (set.add now member kept), (1, 0))

pub data LimiterError : Type 0 where
  scope_must_be_a_key_segment limit_must_be_positive redis_rate_limit_unavailable : LimiterError

pub record RateLimiter : Type 0 where
  pub scope : String
  pub limit : ℕ

abbrev pub positive_limit : String → ℤ → Result LimiterError RateLimiter
positive_limit scope (negsuc n) = err limit_must_be_positive
positive_limit scope (pos n) =
    if n == 0 then err limit_must_be_positive else ok (record { scope = scope; limit = n })

-- `RedisSlidingWindowRateLimiter.__init__`; 58 is the colon.
unfoldable pub new_limiter : String → ℤ → Result LimiterError RateLimiter
new_limiter scope limit =
    if is_nil (codes scope) || any (λ c. c == 58) (codes scope)
    then err scope_must_be_a_key_segment
    else positive_limit scope limit

-- What `client.eval` answers: an error, no sequence, or a sequence, each element of which `int`
-- reads or refuses.
pub data RawResult : Type 0 where
  raised not_a_sequence : RawResult
  sequence : List (Option ℤ) → RawResult

-- The pair that the reply holds, if its numbers are allowed; `none` where an exception is raised.
abbrev pub checked_reply : ℤ → ℤ → Option (Bool × ℕ)
checked_reply (negsuc a) retry = none
checked_reply (pos a) (negsuc r) = none
checked_reply (pos a) (pos r) = if ltb 1 a then none else some (a == 1, r)

unfoldable pub parse_script_result : RawResult → Option (Bool × ℕ)
parse_script_result (sequence (some allowed ∷ some retry ∷ [])) = checked_reply allowed retry
parse_script_result _ = none

-- `math.ceil(ms / 1_000)`: below the clamp at 60 the float division never crosses an integer.
abbrev pub ceil_seconds : ℕ → ℕ
ceil_seconds ms = (ms + 999) / 1000

-- `retry_after`, from the answer of the client on.
unfoldable pub retry_after : RawResult → Result LimiterError (Option ℕ)
unfolding parse_script_result
retry_after raw = elim (parse_script_result raw) [
  | none ↦ err redis_rate_limit_unavailable
  | some (allowed, ms) ↦
      if allowed
      then ok none
      else ok (some (max 1 (min rate_limit_window_seconds (ceil_seconds ms))))
]

-- The reply of the script as the client hands it over.
abbrev pub reply : ℕ × ℕ → RawResult
reply (allowed, ms) = sequence (some (pos allowed) ∷ some (pos ms) ∷ [])
