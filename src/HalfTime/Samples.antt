-- ===== src/HalfTime/Samples.antt =====
-- Which matches the half-time probabilities are taken from, and what they count.
use urim_platform.Base.{
  ℕ, suc, ◌+◌, ◌≤◌, ◌<◌, ◌≡◌, refl, sym, ◌∙◌, ◌≢◌, inl, inr, Bool, true, false, some, List, [], ◌∷◌,
  ◌++◌, arith, ltb, leb, ◌==◌, ==_iff, Bool-cases, Option-cases, length, All, Any, length-append,
  All-map, All-append, In, In-Any, All-In_self,
}
use urim_platform.Observation.{MatchObservation}
use urim_platform.Match.{half_goal_totals}
use urim_platform.Market.{
  Market, first_half_more_goals, second_half_more_goals, equal_half_goals, first_half_over_0_5,
  second_half_over_0_5, second_half_over_1_5, home_or_draw, away_or_draw, home_or_away,
}
use urim_platform.Dataset.{contains}
use urim_platform.HalfTime.Model.{
  HalfSample, samples_from, samples, put_sample, deduplicate_from, deduplicate, count_if,
  favourable, alternatives,
}

-- No match stands twice.
abbrev pub IsUnique : List HalfSample → Type 0
IsUnique [] = Unit
IsUnique (s ∷ l) = All (λ t. t.provider_match_id ≢ s.provider_match_id) l × IsUnique l

-- The sample is the halves of a match of the history.
abbrev pub IsObserved : List MatchObservation → HalfSample → Type 0
IsObserved history s =
    Any
      (λ m.
        (m.provider_match_id ≡ s.provider_match_id)
        × (half_goal_totals m ≡ some (s.first_half_goals, s.second_half_goals)))
      history

-- What the loop of `_samples` keeps true: `seen` lists at least the matches kept.
pub record IsLoop (history : List MatchObservation) (limit : ℕ) (seen : List ℕ)
    (result : List HalfSample) : Type 0 where
  pub bounded : length result ≤ limit
  pub unique : IsUnique result
  pub observed : All (IsObserved history) result
  pub known : All (λ s. contains seen s.provider_match_id ≡ true) result

IsUnique-snoc :
    (l : List HalfSample) (s : HalfSample)
    → IsUnique l
    → All (λ t. t.provider_match_id ≢ s.provider_match_id) l
    → IsUnique (l ++ (s ∷ []))
IsUnique-snoc [] s u n = (tt, tt)
IsUnique-snoc (t ∷ l) s u n = (
  (All-append (λ x. x.provider_match_id ≢ t.provider_match_id) l (s ∷ [])).1
      (u.0, (λ e. n.0 (sym e), tt)),
  IsUnique-snoc l s u.1 n.1,
)

contains-skip : (seen : List ℕ) (a b : ℕ) → contains seen b ≡ true → contains (a ∷ seen) b ≡ true
contains-skip seen a b h = ground arith

contains-here : (seen : List ℕ) (a : ℕ) → contains (a ∷ seen) a ≡ true
contains-here seen a = ground arith

-- One more sample of a match that was not seen.
IsLoop-extend :
    (history : List MatchObservation) (limit : ℕ) (seen : List ℕ) (result : List HalfSample)
    (s : HalfSample)
    → IsLoop history limit seen result
    → length result < limit
    → contains seen s.provider_match_id ≡ false
    → IsObserved history s
    → IsLoop history limit (s.provider_match_id ∷ seen) (result ++ (s ∷ []))
IsLoop-extend history limit seen result s loop room fresh here = record {
  bounded = omega (arith, length-append result (s ∷ []));
  unique =
      IsUnique-snoc result s loop.unique
        (All-map (λ t k e. ground (arith, k, fresh, e)) result loop.known);
  observed = (All-append (IsObserved history) result (s ∷ [])).1 (loop.observed, (here, tt));
  known =
      (All-append (λ t. contains (s.provider_match_id ∷ seen) t.provider_match_id ≡ true) result
          (s ∷ [])).1
        (
          All-map (λ t. contains-skip seen s.provider_match_id t.provider_match_id) result
              loop.known,
          (contains-here seen s.provider_match_id, tt),
        );
}

samples_from-IsLoop :
    (history future : List MatchObservation) (limit : ℕ) (seen : List ℕ) (result : List HalfSample)
    → All (λ m. In m history) future
    → IsLoop history limit seen result
    → length result < limit
    → (seen' : List ℕ) × IsLoop history limit seen' (samples_from limit seen result future)
unfolding samples_from
samples_from-IsLoop history [] limit seen result mem loop room = (seen, loop)
samples_from-IsLoop history (m ∷ future) limit seen result mem loop room =
    elim (Bool-cases (contains seen m.provider_match_id)) [
      | inl old ↦
          rw (old, samples_from)
            (samples_from-IsLoop history future limit seen result mem.1 loop room)
      | inr fresh ↦ elim (Option-cases (half_goal_totals m)) [
        | inl unknown ↦
            rw (fresh, unknown, samples_from)
              (samples_from-IsLoop history future limit seen result mem.1 loop room)
        | inr ((f, g), totals) ↦
            let s : HalfSample = record {
              provider_match_id = m.provider_match_id;
              first_half_goals = f;
              second_half_goals = g;
            } in
            let here : IsObserved history s =
              In-Any
                (λ x.
                  (x.provider_match_id ≡ s.provider_match_id) × (half_goal_totals x ≡ some (f, g)))
                m history mem.0 (refl, totals) in
            let more = IsLoop-extend history limit seen result s loop room fresh here in
            elim (Bool-cases (leb limit (length (result ++ (s ∷ []))))) [
              | inl full ↦ rw (fresh, totals, full, samples_from) (m.provider_match_id ∷ seen, more)
              | inr open_ ↦
                  rw (fresh, totals, open_, samples_from)
                    (samples_from-IsLoop history future limit (m.provider_match_id ∷ seen)
                      (result ++ (s ∷ [])) mem.1 more (ground (arith, open_)))
            ]
      ]
    ]

-- The samples of a history, for a positive limit: at most as many as the limit, no match twice,
-- and each one the halves of a match of that history.
pub samples_lem :
    (history : List MatchObservation) (limit : ℕ)
    → 0 < limit
    → (length (samples history limit) ≤ limit)
      × IsUnique (samples history limit)
      × All (IsObserved history) (samples history limit)
unfolding samples
samples_lem history limit pos =
    let start : IsLoop history limit [] [] = record {
      bounded = omega arith;
      unique = tt;
      observed = tt;
      known = tt;
    } in
    let (seen, loop) =
      samples_from-IsLoop history history limit [] [] (All-In_self history) start pos in
    (loop.bounded, loop.unique, loop.observed)

put_sample-All :
    (P : HalfSample → Type 0) (s : HalfSample) (l : List HalfSample)
    → P s
    → All P l
    → All P (put_sample s l)
unfolding put_sample
put_sample-All P s [] p h = (p, tt)
put_sample-All P s (t ∷ l) p h = ground (arith, put_sample-All P s l p h.1)

put_sample-IsUnique :
    (s : HalfSample) (l : List HalfSample) → IsUnique l → IsUnique (put_sample s l)
unfolding put_sample
put_sample-IsUnique s [] u = (tt, tt)
put_sample-IsUnique s (t ∷ l) u = elim (Bool-cases (t.provider_match_id == s.provider_match_id)) [
  | inl same ↦
      let e : t.provider_match_id ≡ s.provider_match_id = (==_iff _ _).0 same in
      rw same (All-map (λ x n q. n (q ∙ sym e)) l u.0, u.1)
  | inr other ↦ rw other (
    put_sample-All (λ x. x.provider_match_id ≢ t.provider_match_id) s l
        (λ q. ground (arith, other, q)) u.0,
    put_sample-IsUnique s l u.1,
  )
]

length-put_sample :
    (s : HalfSample) (l : List HalfSample) → length (put_sample s l) ≤ suc (length l)
unfolding put_sample
length-put_sample s [] = omega arith
length-put_sample s (t ∷ l) = ground (arith, length-put_sample s l)

-- A sample of the match stands in the list.
abbrev pub HasMatch : ℕ → List HalfSample → Type 0
HasMatch id l = Any (λ s. s.provider_match_id ≡ id) l

put_sample-HasMatch :
    (s : HalfSample) (l : List HalfSample) → HasMatch s.provider_match_id (put_sample s l)
unfolding put_sample
put_sample-HasMatch s [] = inl refl
put_sample-HasMatch s (t ∷ l) = elim (Bool-cases (t.provider_match_id == s.provider_match_id)) [
  | inl same ↦ rw same (inl refl)
  | inr other ↦ rw other (inr (put_sample-HasMatch s l))
]

put_sample-keeps :
    (s : HalfSample) (id : ℕ) (l : List HalfSample) → HasMatch id l → HasMatch id (put_sample s l)
unfolding put_sample
put_sample-keeps s id [] m = elim m [ ]
put_sample-keeps s id (t ∷ l) m = elim (Bool-cases (t.provider_match_id == s.provider_match_id)) [
  | inl same ↦ rw same (put_sample-replaced s t id l (ground (arith, same)) m)
  | inr other ↦ rw other (put_sample-passed s t id l (put_sample-keeps s id l) m)
]
  where
    put_sample-replaced :
        (s t : HalfSample) (id : ℕ) (l : List HalfSample)
        → t.provider_match_id ≡ s.provider_match_id
        → HasMatch id (t ∷ l)
        → HasMatch id (s ∷ l)
    put_sample-replaced s t id l same (inl e) = inl (sym same ∙ e)
    put_sample-replaced s t id l same (inr m) = inr m

    put_sample-passed :
        (s t : HalfSample) (id : ℕ) (l : List HalfSample)
        → (HasMatch id l → HasMatch id (put_sample s l))
        → HasMatch id (t ∷ l)
        → HasMatch id (t ∷ put_sample s l)
    put_sample-passed s t id l more (inl e) = inl e
    put_sample-passed s t id l more (inr m) = inr (more m)

deduplicate_from-keeps :
    (id : ℕ) (unique l : List HalfSample)
    → HasMatch id unique
    → HasMatch id (deduplicate_from unique l)
unfolding deduplicate_from
deduplicate_from-keeps id unique [] m = m
deduplicate_from-keeps id unique (s ∷ l) m =
    deduplicate_from-keeps id (put_sample s unique) l (put_sample-keeps s id unique m)

deduplicate_from-HasMatch :
    (unique l : List HalfSample)
    → All (λ s. HasMatch s.provider_match_id (deduplicate_from unique l)) l
unfolding deduplicate_from
deduplicate_from-HasMatch unique [] = tt
deduplicate_from-HasMatch unique (s ∷ l) = (
  deduplicate_from-keeps s.provider_match_id (put_sample s unique) l (put_sample-HasMatch s unique),
  deduplicate_from-HasMatch (put_sample s unique) l,
)

-- Any property of the samples is kept, no match stands twice, and nothing is added.
deduplicate_from_lem :
    (P : HalfSample → Type 0) (unique l : List HalfSample)
    → IsUnique unique
    → All P unique
    → All P l
    → IsUnique (deduplicate_from unique l)
      × All P (deduplicate_from unique l)
      × (length (deduplicate_from unique l) ≤ length unique + length l)
unfolding deduplicate_from
deduplicate_from_lem P unique [] u p q = (u, p, omega arith)
deduplicate_from_lem P unique (s ∷ l) u p q =
    let (u', p', n) =
      deduplicate_from_lem P (put_sample s unique) l (put_sample-IsUnique s unique u)
        (put_sample-All P s unique q.0 p) q.1 in
    (u', p', omega (arith, n, length-put_sample s unique))

-- Merging the histories of both teams counts each match once: no match stands twice, the match of
-- each sample stands in the result, which has no more samples than there were, and a property of
-- all samples is kept.
pub deduplicate_lem :
    (P : HalfSample → Type 0) (l : List HalfSample)
    → All P l
    → IsUnique (deduplicate l)
      × All P (deduplicate l)
      × (length (deduplicate l) ≤ length l)
      × All (λ s. HasMatch s.provider_match_id (deduplicate l)) l
unfolding deduplicate
deduplicate_lem P l p =
    let (u, q, n) = deduplicate_from_lem P [] l tt tt p in
    (u, q, omega (arith, n), deduplicate_from-HasMatch [] l)

-- The three comparisons of the halves are one distribution: with one added to each count, the
-- counts add up to the common denominator, the sample size plus three.
pub favourable_partition :
    (l : List HalfSample)
    → (favourable first_half_more_goals l + 1)
        + (favourable second_half_more_goals l + 1)
        + (favourable equal_half_goals l + 1)
      ≡ length l + alternatives equal_half_goals
favourable_partition [] = omega arith
favourable_partition (s ∷ l) = ground (arith, favourable_partition l)

count_if-le : (p : HalfSample → Bool) (l : List HalfSample) → count_if p l ≤ length l
count_if-le p [] = omega arith
count_if-le p (s ∷ l) = ground (arith, count_if-le p l)

-- The fraction of every market lies strictly between zero and one.
pub favourable_bounds :
    (market : Market) (l : List HalfSample)
    → (0 < favourable market l + 1) × (favourable market l + 1 < length l + alternatives market)
favourable_bounds first_half_more_goals l =
    (omega arith, omega (arith, count_if-le (λ s. ltb s.second_half_goals s.first_half_goals) l))
favourable_bounds second_half_more_goals l =
    (omega arith, omega (arith, count_if-le (λ s. ltb s.first_half_goals s.second_half_goals) l))
favourable_bounds equal_half_goals l =
    (omega arith, omega (arith, count_if-le (λ s. s.first_half_goals == s.second_half_goals) l))
favourable_bounds first_half_over_0_5 l =
    (omega arith, omega (arith, count_if-le (λ s. leb 1 s.first_half_goals) l))
favourable_bounds second_half_over_0_5 l =
    (omega arith, omega (arith, count_if-le (λ s. leb 1 s.second_half_goals) l))
favourable_bounds second_half_over_1_5 l =
    (omega arith, omega (arith, count_if-le (λ s. leb 2 s.second_half_goals) l))
favourable_bounds home_or_draw l = (omega arith, omega arith)
favourable_bounds away_or_draw l = (omega arith, omega arith)
favourable_bounds home_or_away l = (omega arith, omega arith)
