-- ===== src/Discovery/Loop.antt =====
-- The loop of passes: with enough fuel it ends, and where it ends every candidate is selected.
use mathlib.Core.Path.{subst}
use urim_platform.Dataset.{contains}
use urim_platform.Discovery.Recent.{get_elem?, pass, passes}
use urim_platform.Discovery.Passes.{
  IsUnique, IsTaken, pass-IsUnique, pass-keeps, pass-All, pass-IsTaken, pass-found, pass-not_found,
}
use urim_platform.Base.{
  ℕ, zero, suc, ◌+◌, ◌≤◌, ◌<◌, ◌≡◌, refl, ◌∙◌, ◌⊎◌, inl, inr, true, false, none, some, List, [],
  ◌∷◌, arith, ltb, Bool-cases, length, All, All-map, All-both,
}

-- The candidates before the offset are selected.
abbrev IsSeen : ℕ → List ℕ → List ℕ → Type 0
IsSeen offset selected c =
    (k id : ℕ) → k < offset → get_elem? c k ≡ some id → contains selected id ≡ true

IsSeen-All :
    (selected c : List ℕ)
    → ((k id : ℕ) → get_elem? c k ≡ some id → contains selected id ≡ true)
    → All (λ id. contains selected id ≡ true) c
IsSeen-All selected [] h = tt
IsSeen-All selected (x ∷ c) h = (h 0 x refl, IsSeen-All selected c (λ k id. h (suc k) id))

get-before :
    (c : List ℕ) (offset k id : ℕ)
    → get_elem? c offset ≡ none
    → get_elem? c k ≡ some id
    → k < offset
get-before [] offset k id h e = absurd cc
get-before (x ∷ c) zero k id h e = absurd cc
get-before (x ∷ c) (suc offset) zero id h e = omega arith
get-before (x ∷ c) (suc offset) (suc k) id h e = omega (arith, get-before c offset k id h e)

before_or_at : (k n : ℕ) → k < suc n → (k < n) ⊎ (k ≡ n)
before_or_at k n h = elim (Bool-cases (ltb k n)) [
  | inl below ↦ inl (ground (arith, below))
  | inr other ↦ inr (ground (arith, other))
]

module _ (limit : ℕ) where
  IsSeen-next :
      (offset : ℕ) (selected next c : List ℕ)
      → ((id : ℕ) → contains selected id ≡ true → contains next id ≡ true)
      → IsSeen offset selected c × IsTaken limit offset next c
      → IsSeen (suc offset) next c
  IsSeen-next offset selected next c kept both k id before e = elim (before_or_at k offset before) [
    | inl earlier ↦ kept id (both.0 k id earlier e)
    | inr now ↦ both.1 id (subst (λ k. get_elem? c k ≡ some id) now e)
  ]

  module _ (teams : List (List ℕ)) (P : ℕ → Type 0) where
    passes_found :
        (fuel offset : ℕ) (selected : List ℕ)
        → ltb (length selected) limit ≡ true
        → (pass limit offset teams selected).0 ≡ true
        → passes limit teams (suc fuel) offset selected
          ≡ passes limit teams fuel (suc offset) (pass limit offset teams selected).1
    unfolding passes
    passes_found fuel offset selected below found = rw (passes, below, found) refl

    passes_nothing :
        (fuel offset : ℕ) (selected : List ℕ)
        → ltb (length selected) limit ≡ true
        → (pass limit offset teams selected).0 ≡ false
        → passes limit teams (suc fuel) offset selected ≡ some (pass limit offset teams selected).1
    unfolding passes
    passes_nothing fuel offset selected below nothing = rw (passes, below, nothing) refl

    -- No more identifiers than the limit, none twice, each a candidate; and the limit, or every
    -- candidate.
    abbrev pub IsOutcome : List ℕ → Type 0
    IsOutcome ids =
        (length ids ≤ limit)
        × IsUnique ids
        × All P ids
        × ((length ids ≡ limit) ⊎ All (All (λ id. contains ids id ≡ true)) teams)

    all_seen :
        (offset : ℕ) (selected next : List ℕ)
        → All (λ c. get_elem? c offset ≡ none) teams
        → ((id : ℕ) → contains selected id ≡ true → contains next id ≡ true)
        → All (IsSeen offset selected) teams
        → All (All (λ id. contains next id ≡ true)) teams
    all_seen offset selected next past kept seen =
        All-map
          (λ c both.
            IsSeen-All next c
              (λ k id e. kept id (both.1 k id (get-before c offset k id both.0 e) e)))
          teams (All-both (λ c. get_elem? c offset ≡ none) (IsSeen offset selected) teams past seen)

    pub passes-returns :
        (n : ℕ)
        → All (λ c. length c ≤ n) teams
        → All (All P) teams
        → (fuel offset : ℕ) (selected : List ℕ) → 1 ≤ fuel
        → n < fuel + offset
        → length selected ≤ limit
        → IsUnique selected
        → All P selected
        → (length selected < limit → All (IsSeen offset selected) teams)
        → (ids : List ℕ) × (passes limit teams fuel offset selected ≡ some ids) × IsOutcome ids
    unfolding passes
    passes-returns n short sound zero offset selected fueled enough room unique good seen =
        absurd (omega arith)
    passes-returns n short sound (suc fuel) offset selected fueled enough room unique good seen =
        elim (Bool-cases (ltb (length selected) limit)) [
          | inr full ↦
              (selected, rw (passes, full) refl, (room, unique, good, inl (ground (arith, full))))
          | inl below ↦
              let less : length selected < limit = ground (arith, below) in
              let next = (pass limit offset teams selected).1 in
              let kept = λ (id : ℕ). pass-keeps limit offset id teams selected in
              let bounded = pass-IsUnique limit offset teams selected less unique in
              let good' = pass-All limit offset P teams selected sound good in
              elim (Bool-cases (pass limit offset teams selected).0) [
                | inr nothing ↦ (
                  next,
                  passes_nothing fuel offset selected below nothing,
                  (
                    bounded.0,
                    bounded.1,
                    good',
                    inr (
                        all_seen offset selected next
                          (pass-not_found limit offset teams selected nothing) kept (seen less)),
                  ),
                )
                | inl found ↦
                    let inside = pass-found limit offset n teams selected short found in
                    let (ids, returned, outcome) =
                      passes-returns n short sound fuel (suc offset) next (omega arith)
                        (omega arith) bounded.0 bounded.1 good'
                        (λ less'.
                          All-map (λ c both. IsSeen-next offset selected next c kept both) teams
                            (All-both (IsSeen offset selected) (IsTaken limit offset next) teams
                              (seen less) (pass-IsTaken limit offset teams selected less'))) in
                    (ids, passes_found fuel offset selected below found ∙ returned, outcome)
              ]
        ]
