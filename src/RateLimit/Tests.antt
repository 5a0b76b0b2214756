-- ===== src/RateLimit/Tests.antt =====
-- The limiter over a list of scores.
use urim_platform.Base.{
  ℕ, ◌≤◌, ◌<◌, min, ◌≡◌, refl, ◌⊎◌, inl, inr, Option, none, some, List, [], ◌∷◌, ◌++◌, arith, leb,
  Bool-cases, Option-cases, length, select, All, length-append, All-map, ok, err, In,
}
use urim_platform.Base.Int.{pos}
use urim_platform.RateLimit.{
  above, SortedSet, SortedSetLaws, limit_must_be_positive, sliding_window, reply, retry_after,
  new_limiter,
}
use urim_platform.RateLimit.Calls.{Reaches, Reaches-count}
use urim_platform.RateLimit.Window.{recent_scores, IsWait, sliding_window_lem}

abbrev lowest : List ℕ → Option ℕ
lowest [] = none
lowest (score ∷ scores) = elim (lowest scores) [
  | none ↦ some score
  | some other ↦ some (min score other)
]

lowest-none : (xs : List ℕ) → lowest xs ≡ none → xs ≡ []
lowest-none [] e = refl
lowest-none (x ∷ xs) e = elim (Option-cases (lowest xs)) [
  | inl absent ↦ absurd (ground (arith, absent, e))
  | inr (y, found) ↦ absurd (ground (arith, found, e))
]

instance abbrev scores_set : SortedSet (List ℕ)
scores_set = record {
  remove_until = λ z scores. select (above z) scores;
  count = λ scores. length scores;
  oldest = lowest;
  add = λ score member scores. scores ++ (score ∷ []);
  expire = λ ms scores. scores;
}

lowest-In : (xs : List ℕ) (x : ℕ) → lowest xs ≡ some x → In x xs × All (λ y. x ≤ y) xs
lowest-In [] x e = absurd (ground (arith, e))
lowest-In (y ∷ ys) x e = elim (Option-cases (lowest ys)) [
  | inl absent ↦
      let same : y ≡ x = ground (arith, absent, e) in
      (inl same, (omega (arith, same), rw (lowest-none ys absent) tt))
  | inr (z, found) ↦
      let least : min y z ≡ x = ground (arith, found, e) in
      let (member, others) = lowest-In ys z found in
      (
        elim (Bool-cases (leb y z)) [
          | inl first ↦ inl (ground (arith, first, least))
          | inr later ↦ let same : z ≡ x = ground (arith, later, least) in inr (rw same at member)
        ],
        (omega (arith, least), All-map (λ w h. omega (arith, h, least)) ys others),
      )
]

scores_set-Laws : SortedSetLaws scores_set
scores_set-Laws = record {
  scores = λ s. s;
  count-scores = λ s. refl;
  scores-remove_until = λ z s. refl;
  oldest-none = lowest-none;
  oldest-some = lowest-In;
  count-add = λ score member scores. omega (arith, length-append scores (score ∷ []));
  count-expire = λ ms scores. refl;
}

no_limit : new_limiter "kairos" (pos 0) ≡ err limit_must_be_positive
unfolding new_limiter
no_limit = refl

-- Two requests are inside the window of a limit of two.
abbrev recent : List ℕ
recent = 70000 ∷ 90000 ∷ []

sliding_window_lem_example :
    (length (sliding_window 60000 2 100000 "member" recent).0 ≤ 2)
    × (((length (recent_scores scores_set-Laws 100000 recent) < 2)
          × (retry_after (reply (sliding_window 60000 2 100000 "member" recent).1) ≡ ok none))
        ⊎ ((2 ≤ length (recent_scores scores_set-Laws 100000 recent))
            × ((seconds : ℕ) × (retry_after
                    (reply (sliding_window 60000 2 100000 "member" recent).1)
                  ≡ ok (some seconds))
                × IsWait scores_set-Laws 100000 recent seconds)))
sliding_window_lem_example =
    sliding_window_lem scores_set-Laws 2 100000 "member" recent (omega arith) (omega arith)

abbrev one_call : List ℕ
one_call = (sliding_window 60000 2 70000 "first" []).0

abbrev two_calls : List ℕ
two_calls = (sliding_window 60000 2 90000 "second" one_call).0

Reaches-count_example : length two_calls ≤ 2
Reaches-count_example =
    Reaches-count scores_set-Laws 2 [] two_calls (omega arith) (omega arith)
      (Reaches.call 90000 "second" (Reaches.call 70000 "first" Reaches.here))
