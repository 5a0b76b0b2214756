-- ===== src/Discovery/Passes.antt =====
-- One pass over the teams, and the loop of passes.
use mathlib.Core.Path.{subst}
use mathlib.Core.Option.{some-injective}
use urim_platform.Dataset.{contains}
use urim_platform.Discovery.Recent.{get_elem?, pass}
use urim_platform.Base.{
  ℕ, zero, suc, ◌≤◌, ◌<◌, ◌≡◌, refl, sym, ◌∙◌, inl, inr, Bool, true, false, ◌||◌, none, some, List,
  [], ◌∷◌, ◌++◌, arith, ◌==◌, Bool-cases, Option-cases, length, All, length-append, All-append,
}

-- No identifier twice.
abbrev pub IsUnique : List ℕ → Type 0
IsUnique [] = Unit
IsUnique (x ∷ xs) = (contains xs x ≡ false) × IsUnique xs

contains-append : (xs : List ℕ) (x y : ℕ) → contains (xs ++ x ∷ []) y ≡ (contains xs y || x == y)
contains-append [] x y = ground arith
contains-append (z ∷ xs) x y = ground (arith, contains-append xs x y)

IsUnique-append :
    (xs : List ℕ) (x : ℕ) → IsUnique xs → contains xs x ≡ false → IsUnique (xs ++ x ∷ [])
IsUnique-append [] x h new = (refl, tt)
IsUnique-append (y ∷ xs) x h new = (
  ground (arith, contains-append xs x y, new, h.0),
  IsUnique-append xs x h.1 (ground (arith, new)),
)

length-snoc : (xs : List ℕ) (x : ℕ) → length (xs ++ x ∷ []) ≡ suc (length xs)
length-snoc xs x = omega (arith, length-append xs (x ∷ []))

pub inside : (xs : List ℕ) (k x n : ℕ) → length xs ≤ n → get_elem? xs k ≡ some x → k < n
inside [] k x n h e = cc
inside (y ∷ ys) zero x n h e = omega arith
inside (y ∷ ys) (suc k) x zero h e = absurd (omega arith)
inside (y ∷ ys) (suc k) x (suc n) h e = omega (arith, inside ys k x n (omega arith) e)

pub get-All : (P : ℕ → Type 0) (xs : List ℕ) (n x : ℕ) → All P xs → get_elem? xs n ≡ some x → P x
get-All P [] n x h e = cc
get-All P (y ∷ ys) zero x h e = let same : y ≡ x = cc in rw same at h.0
get-All P (y ∷ ys) (suc n) x h e = get-All P ys n x h.1 e

module _ (limit offset : ℕ) where
  module _ (c : List ℕ) (teams : List (List ℕ)) (selected : List ℕ) where
    pass_absent :
        get_elem? c offset ≡ none
        → pass limit offset (c ∷ teams) selected ≡ pass limit offset teams selected
    unfolding pass
    pass_absent e = rw (pass, e) refl

    module _ (x : ℕ) (e : get_elem? c offset ≡ some x) where
      pass_old :
          contains selected x ≡ true
          → pass limit offset (c ∷ teams) selected ≡ (true, (pass limit offset teams selected).1)
      unfolding pass
      pass_old old = rw (pass, e, old) refl

      pass_full :
          contains selected x ≡ false
          → (length (selected ++ x ∷ []) == limit) ≡ true
          → pass limit offset (c ∷ teams) selected ≡ (true, selected ++ x ∷ [])
      unfolding pass
      pass_full new full = rw (pass, e, new, full) refl

      pass_new :
          contains selected x ≡ false
          → (length (selected ++ x ∷ []) == limit) ≡ false
          → pass limit offset (c ∷ teams) selected
            ≡ (true, (pass limit offset teams (selected ++ x ∷ [])).1)
      unfolding pass
      pass_new new other = rw (pass, e, new, other) refl

  -- What is selected after a pass is no more than the limit, and nothing twice.
  pub pass-IsUnique :
      (teams : List (List ℕ)) (selected : List ℕ)
      → length selected < limit
      → IsUnique selected
      → (length (pass limit offset teams selected).1 ≤ limit)
        × IsUnique (pass limit offset teams selected).1
  unfolding pass
  pass-IsUnique [] selected room unique = (omega arith, unique)
  pass-IsUnique (c ∷ teams) selected room unique = elim (Option-cases (get_elem? c offset)) [
    | inl absent ↦
        rw (pass_absent c teams selected absent) (pass-IsUnique teams selected room unique)
    | inr (id, found) ↦ elim (Bool-cases (contains selected id)) [
      | inl old ↦
          rw (pass_old c teams selected id found old) (pass-IsUnique teams selected room unique)
      | inr new ↦
          let more = IsUnique-append selected id unique new in
          let count = length-snoc selected id in
          elim (Bool-cases (length (selected ++ id ∷ []) == limit)) [
            | inl full ↦
                rw (pass_full c teams selected id found new full) (omega (arith, count), more)
            | inr other ↦
                rw (pass_new c teams selected id found new other)
                  (pass-IsUnique teams (selected ++ id ∷ []) (ground (arith, count, other)) more)
          ]
    ]
  ]

  pub pass-keeps :
      (id : ℕ) (teams : List (List ℕ)) (selected : List ℕ)
      → contains selected id ≡ true
      → contains (pass limit offset teams selected).1 id ≡ true
  unfolding pass
  pass-keeps id [] selected h = h
  pass-keeps id (c ∷ teams) selected h = elim (Option-cases (get_elem? c offset)) [
    | inl absent ↦ rw (pass_absent c teams selected absent) (pass-keeps id teams selected h)
    | inr (x, found) ↦ elim (Bool-cases (contains selected x)) [
      | inl old ↦ rw (pass_old c teams selected x found old) (pass-keeps id teams selected h)
      | inr new ↦
          let still : contains (selected ++ x ∷ []) id ≡ true =
            ground (arith, contains-append selected x id, h) in
          elim (Bool-cases (length (selected ++ x ∷ []) == limit)) [
            | inl full ↦ rw (pass_full c teams selected x found new full) still
            | inr other ↦
                rw (pass_new c teams selected x found new other)
                  (pass-keeps id teams (selected ++ x ∷ []) still)
          ]
    ]
  ]

  pub pass-All :
      (P : ℕ → Type 0) (teams : List (List ℕ)) (selected : List ℕ)
      → All (All P) teams
      → All P selected
      → All P (pass limit offset teams selected).1
  unfolding pass
  pass-All P [] selected ht h = h
  pass-All P (c ∷ teams) selected ht h = elim (Option-cases (get_elem? c offset)) [
    | inl absent ↦ rw (pass_absent c teams selected absent) (pass-All P teams selected ht.1 h)
    | inr (x, found) ↦ elim (Bool-cases (contains selected x)) [
      | inl old ↦ rw (pass_old c teams selected x found old) (pass-All P teams selected ht.1 h)
      | inr new ↦
          let more : All P (selected ++ x ∷ []) =
            (All-append P selected (x ∷ [])).1 (h, (get-All P c offset x ht.0 found, tt)) in
          elim (Bool-cases (length (selected ++ x ∷ []) == limit)) [
            | inl full ↦ rw (pass_full c teams selected x found new full) more
            | inr other ↦
                rw (pass_new c teams selected x found new other)
                  (pass-All P teams (selected ++ x ∷ []) ht.1 more)
          ]
    ]
  ]

  -- The candidate of a team at the offset, if it has one, is selected.
  abbrev pub IsTaken : List ℕ → List ℕ → Type 0
  IsTaken selected c = (id : ℕ) → get_elem? c offset ≡ some id → contains selected id ≡ true

  -- From what a pass has come to, to the pass.
  IsTaken-of_pass :
      (c : List ℕ) (teams : List (List ℕ)) (selected : List ℕ) (r : Bool × List ℕ)
      → pass limit offset (c ∷ teams) selected ≡ r
      → IsTaken r.1 c
      → All (IsTaken r.1) teams
      → All (IsTaken (pass limit offset (c ∷ teams) selected).1) (c ∷ teams)
  IsTaken-of_pass c teams selected r e first others =
      subst (λ (r : Bool × List ℕ). All (IsTaken r.1) (c ∷ teams)) (sym e) (first, others)

  same_candidate :
      (c found : List ℕ) (x : ℕ)
      → get_elem? c offset ≡ some x
      → contains found x ≡ true
      → IsTaken found c
  same_candidate c found x e h id e' =
      let same : x ≡ id = some-injective x id (sym e ∙ e') in
      subst (λ x. contains found x ≡ true) same h

  -- A pass that does not reach the limit takes the candidate of every team.
  pub pass-IsTaken :
      (teams : List (List ℕ)) (selected : List ℕ)
      → length (pass limit offset teams selected).1 < limit
      → All (IsTaken (pass limit offset teams selected).1) teams
  unfolding pass
  pass-IsTaken [] selected room = tt
  pass-IsTaken (c ∷ teams) selected room = elim (Option-cases (get_elem? c offset)) [
    | inl absent ↦
        let eq = pass_absent c teams selected absent in
        IsTaken-of_pass c teams selected (pass limit offset teams selected) eq (λ id e. absurd cc)
          (pass-IsTaken teams selected (rw eq at room))
    | inr (x, found) ↦ elim (Bool-cases (contains selected x)) [
      | inl old ↦
          let eq = pass_old c teams selected x found old in
          IsTaken-of_pass c teams selected (true, (pass limit offset teams selected).1) eq
            (same_candidate c (pass limit offset teams selected).1 x found
              (pass-keeps x teams selected old))
            (pass-IsTaken teams selected (rw eq at room))
      | inr new ↦ elim (Bool-cases (length (selected ++ x ∷ []) == limit)) [
        | inl full ↦
            let short : length (selected ++ x ∷ []) < limit =
              rw (pass_full c teams selected x found new full) at room in
            absurd (ground (arith, short, full))
        | inr other ↦
            let eq = pass_new c teams selected x found new other in
            let more = selected ++ x ∷ [] in
            let in_list : contains more x ≡ true = ground (arith, contains-append selected x x) in
            IsTaken-of_pass c teams selected (true, (pass limit offset teams more).1) eq
              (same_candidate c (pass limit offset teams more).1 x found
                (pass-keeps x teams more in_list))
              (pass-IsTaken teams more (rw eq at room))
      ]
    ]
  ]

  -- A pass that finds nothing is past the end of every team's candidates.
  pub pass-found :
      (n : ℕ) (teams : List (List ℕ)) (selected : List ℕ)
      → All (λ c. length c ≤ n) teams
      → (pass limit offset teams selected).0 ≡ true
      → offset < n
  unfolding pass
  pass-found n [] selected h found = cc
  pass-found n (c ∷ teams) selected h found = elim (Option-cases (get_elem? c offset)) [
    | inl absent ↦
        pass-found n teams selected h.1 (rw (pass_absent c teams selected absent) at found)
    | inr (x, e) ↦ inside c offset x n h.0 e
  ]

  pub pass-not_found :
      (teams : List (List ℕ)) (selected : List ℕ)
      → (pass limit offset teams selected).0 ≡ false
      → All (λ c. get_elem? c offset ≡ none) teams
  unfolding pass
  pass-not_found [] selected h = tt
  pass-not_found (c ∷ teams) selected h = elim (Option-cases (get_elem? c offset)) [
    | inl absent ↦
        (absent, pass-not_found teams selected (rw (pass_absent c teams selected absent) at h))
    | inr (x, e) ↦ elim (Bool-cases (contains selected x)) [
      | inl old ↦ let wrong : true ≡ false = rw (pass_old c teams selected x e old) at h in cc
      | inr new ↦ elim (Bool-cases (length (selected ++ x ∷ []) == limit)) [
        | inl full ↦
            let wrong : true ≡ false = rw (pass_full c teams selected x e new full) at h in cc
        | inr other ↦
            let wrong : true ≡ false = rw (pass_new c teams selected x e new other) at h in cc
      ]
    ]
  ]
