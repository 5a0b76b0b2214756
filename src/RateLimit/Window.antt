-- ===== src/RateLimit/Window.antt =====
-- What the rate limiter promises: no more requests in a window than the limit.
use urim_platform.Base.{
  ℕ, ◌+◌, ◌-◌, ◌*◌, ◌≤◌, ◌<◌, min, max, String, ◌≡◌, refl, sym, ap, ◌∙◌, ◌⊎◌, inl, inr, Bool, true,
  none, some, List, [], ◌∷◌, arith, ltb, leb, Bool-cases, Option-cases, length, select, All, ok, In,
}
use mathlib.Core.Path.{subst}
use urim_platform.RateLimit.{
  above, rate_limit_window_seconds, SortedSet, SortedSetLaws, retry_ms, trimmed, minus,
  sliding_window, ceil_seconds, reply, retry_after,
}

abbrev wait_seconds : ℕ → ℕ
wait_seconds ms = max 1 (min rate_limit_window_seconds (ceil_seconds ms))

wait_seconds_bounds : (ms : ℕ) → (1 ≤ wait_seconds ms) × (wait_seconds ms ≤ 60)
wait_seconds_bounds ms = (omega arith, omega arith)

reply_allowed : retry_after (reply (1, 0)) ≡ ok none
unfolding retry_after
reply_allowed = refl

reply_denied : (ms : ℕ) → retry_after (reply (0, ms)) ≡ ok (some (wait_seconds ms))
unfolding retry_after
reply_denied ms = refl

-- Waiting for so many seconds is enough for the oldest request to leave the window.
waited :
    (now score : ℕ)
    → score ≤ now
    → score + 60000 ≤ now + wait_seconds (retry_ms 60000 now (some score)) * 1000
waited now score past =
    let before_ : leb score now ≡ true = ground (arith, past) in
    let ms = max 1 (60000 - (now - score)) in
    let step : retry_ms 60000 now (some score) ≡ ms = rw before_ refl in
    rw step (omega (arith, past))

-- A request that was made less than a minute before.
abbrev pub is_recent_score : (now score : ℕ) → Bool
is_recent_score now score = ltb now (score + 60000)

above-is_recent_score : (now score : ℕ) → above (minus now 60000) score ≡ is_recent_score now score
above-is_recent_score now score = elim (Bool-cases (leb 60000 now)) [
  | inl late ↦ rw (late, above) (ground (arith, late))
  | inr early ↦ rw (early, above) (ground (arith, early))
]

select-above :
    (now : ℕ) (scores : List ℕ)
    → select (above (minus now 60000)) scores ≡ select (is_recent_score now) scores
select-above now [] = refl
select-above now (score ∷ scores) =
    rw (above-is_recent_score now score, select-above now scores) refl

length-select : (p : ℕ → Bool) (xs : List ℕ) → length (select p xs) ≤ length xs
length-select p [] = omega arith
length-select p (x ∷ xs) = ground (arith, length-select p xs)

module _ {S : Type 0} ⦃set : SortedSet S⦄ (laws : SortedSetLaws set) where
  open laws use {count-add, count-expire, scores, count-scores, scores-remove_until}

  -- The requests that were made less than a minute before.
  abbrev pub recent_scores : ℕ → S → List ℕ
  recent_scores now s = select (is_recent_score now) (scores s)

  trimmed-scores : (now : ℕ) (s : S) → scores (trimmed 60000 now s) ≡ recent_scores now s
  trimmed-scores now s = scores-remove_until (minus now 60000) s ∙ select-above now (scores s)

  trimmed-count : (now : ℕ) (s : S) → set.count (trimmed 60000 now s) ≡ length (recent_scores now s)
  trimmed-count now s =
      count-scores (trimmed 60000 now s) ∙ ap (λ l. length l) (trimmed-scores now s)

  -- A wait of 1 to 60 seconds, after which the oldest recent request, if not from the future, is
  -- more than a minute old.
  abbrev pub IsWait : ℕ → S → ℕ → Type 0
  IsWait now s seconds =
      (1 ≤ seconds)
      × (seconds ≤ 60)
      × ((oldest : ℕ) × In oldest (recent_scores now s)
          × All (λ other. oldest ≤ other) (recent_scores now s)
          × ((now < oldest) ⊎ (oldest + 60000 ≤ now + seconds * 1000)))

  oldest-IsWait :
      (now : ℕ) (s : S)
      → 0 < length (recent_scores now s)
      → IsWait now s (wait_seconds (retry_ms 60000 now (set.oldest (trimmed 60000 now s))))
  oldest-IsWait now s filled = elim (Option-cases (set.oldest (trimmed 60000 now s))) [
    | inl absent ↦
        let nothing : recent_scores now s ≡ [] =
          sym (trimmed-scores now s) ∙ laws.oldest-none (trimmed 60000 now s) absent in
        absurd (ground (arith, ap (λ (l : List ℕ). length l) nothing, filled))
    | inr (score, found) ↦
        let both = laws.oldest-some (trimmed 60000 now s) score found in
        let ms = retry_ms 60000 now (some score) in
        let (low, high) = wait_seconds_bounds ms in
        let facts : In score (recent_scores now s)
            × All (λ other. score ≤ other) (recent_scores now s) =
          subst (λ l. In score l × All (λ other. score ≤ other) l) (trimmed-scores now s) both in
        subst (λ o. IsWait now s (wait_seconds (retry_ms 60000 now o))) (sym found)
          (
            low,
            high,
            (
              score,
              facts.0,
              facts.1,
              elim (Bool-cases (leb score now)) [
                | inl past ↦ inr (waited now score (ground (arith, past)))
                | inr future ↦ inl (ground (arith, future))
              ],
            ),
          )
  ]

  -- For a positive limit that the set respects, a call leaves a set that respects the limit and is
  -- never unavailable on the script's reply: it lets the request through exactly where fewer than
  -- the limit were made less than a minute before; otherwise it asks for a wait of 1 to 60 seconds,
  -- after which the oldest of those, if not from the future, is at least a minute old.
  pub sliding_window_lem :
      (limit now : ℕ) (member : String) (s : S)
      → 0 < limit
      → set.count s ≤ limit
      → (set.count (sliding_window 60000 limit now member s).0 ≤ limit)
        × (((length (recent_scores now s) < limit)
              × (retry_after (reply (sliding_window 60000 limit now member s).1) ≡ ok none))
            ⊎ ((limit ≤ length (recent_scores now s))
                × ((seconds : ℕ) × (retry_after (reply (sliding_window 60000 limit now member s).1)
                      ≡ ok (some seconds))
                    × IsWait now s seconds)))
  unfolding sliding_window
  sliding_window_lem limit now member s positive respected =
      let kept = trimmed 60000 now s in
      let same = trimmed-count now s in
      let fewer = length-select (is_recent_score now) (scores s) in
      let all_count = count-scores s in
      elim (Bool-cases (leb limit (set.count kept))) [
        | inl full ↦
            let filled : limit ≤ length (recent_scores now s) = ground (arith, full, same) in
            let ms = retry_ms 60000 now (set.oldest kept) in
            rw full (
              omega (arith, count-expire 60000 kept, fewer, respected, same, all_count),
              inr (
                filled,
                (
                  wait_seconds ms,
                  reply_denied ms,
                  oldest-IsWait now s (omega (arith, filled, positive)),
                ),
              ),
            )
        | inr open_ ↦
            let room : set.count kept < limit = ground (arith, open_) in
            rw open_ (
              omega (
                arith,
                count-expire 60000 (set.add now member kept),
                count-add now member kept,
                room,
              ),
              inl (omega (arith, room, same), reply_allowed),
            )
      ]
