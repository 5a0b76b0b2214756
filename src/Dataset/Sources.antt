-- ===== src/Dataset/Sources.antt =====
-- What `source_observations` returns, and when it raises.
use urim_platform.Base.{
  ◌≡◌, refl, ◌↔◌, ◌⊎◌, inl, inr, none, some, List, [], ◌∷◌, arith, All, All-map, ok, >>=-eq-ok,
  All-trivial, All-both,
}
use urim_platform.Observation.{SourceObservation, KairosMatchDataset}
use urim_platform.Base.Sort.{sorted, All-sorted, All-of_sorted}
use urim_platform.Dataset.Checks.{
  find_source, put_source, remember, remember_all, source_observations, by_identity, collected,
}
use urim_platform.Dataset.Remember.{
  Agree, IsCompatible, IsDistinct, Found, find_source-Found, put_source-All, put_source-IsDistinct,
  remember-ok, remember_all-All, remember-stores,
}

-- Sources that agree with all that is stored and with one another are all stored.
remember_all-IsCompatible :
    (unique sources : List SourceObservation)
    → IsDistinct unique
    → All (λ s. All (Agree s) sources) unique
    → IsCompatible sources
    → (result : List SourceObservation) × (remember_all unique sources ≡ ok result)
unfolding remember_all
remember_all-IsCompatible unique [] d a c = (unique, refl)
remember_all-IsCompatible unique (x ∷ sources) d a c =
    let step = remember-stores unique x d (All-map (λ s p. p.0) unique a) in
    let cond = (remember-ok unique x (put_source x unique) step).0 in
    rw step (
      remember_all-IsCompatible (put_source x unique) sources
        (put_source-IsDistinct x unique cond d)
        ((put_source-All (λ s. All (Agree s) sources) x unique cond).1
          (All-map (λ s p. p.1) unique a, c.0))
        c.1)

-- What is stored agrees with a source that a round then accepted.
Found-Agree :
    (unique : List SourceObservation) (x : SourceObservation)
    → IsDistinct unique
    → (find_source x.observation_id unique ≡ none) ⊎ (find_source x.observation_id unique ≡ some x)
    → All (λ s. Agree s x) unique
Found-Agree unique x d (inl absent) =
    All-map (λ s n p. absurd (n p)) unique
      (rw absent at (find_source-Found x.observation_id unique d))
Found-Agree unique x d (inr found) =
    let here : Found x.observation_id unique (some x) =
      rw found at (find_source-Found x.observation_id unique d) in
    here.1

-- What was stored without a conflict agrees.
IsCompatible-remember_all :
    (unique sources : List SourceObservation) {result : List SourceObservation}
    → IsDistinct unique
    → remember_all unique sources ≡ ok result
    → All (λ s. All (Agree s) sources) unique × IsCompatible sources
unfolding remember_all
IsCompatible-remember_all unique [] d h = (All-map (λ s _. tt) unique (All-trivial unique), tt)
IsCompatible-remember_all unique (x ∷ sources) d h =
    let (next, first, rest) =
      >>=-eq-ok (remember unique x) (λ unique'. remember_all unique' sources) h in
    let (cond, written) = remember-ok unique x next first in
    let ih =
      IsCompatible-remember_all next sources (rw written (put_source-IsDistinct x unique cond d))
        rest in
    let (stored, fresh) =
      (put_source-All (λ s. All (Agree s) sources) x unique cond).0 (rw written at ih.0) in
    (
      All-both (λ s. Agree s x) (λ s. All (Agree s) sources) unique (Found-Agree unique x d cond)
          stored,
      (fresh, ih.1),
    )

module _ {V : Type 0} (d : KairosMatchDataset V) where
  -- `source_observations` succeeds exactly when no two of the collected sources share an identity
  -- and differ elsewhere.
  pub source_observations_iff :
      ((result : List SourceObservation) × (source_observations d ≡ ok result))
      ↔ IsCompatible (collected d)
  unfolding source_observations
  source_observations_iff = (
    λ (result, h).
        let (unique, stored, sorted_eq) =
          >>=-eq-ok (remember_all [] (collected d)) (λ u. ok (sorted by_identity u)) h in
        (IsCompatible-remember_all [] (collected d) tt stored).1,
    λ c.
        let (unique, stored) = remember_all-IsCompatible [] (collected d) tt tt c in
        (sorted by_identity unique, rw stored),
  )

  -- What holds of the returned sources is what holds of the collected ones: none is lost and none
  -- is made up.
  pub source_observations-All :
      (P : SourceObservation → Type 0) (result : List SourceObservation)
      → source_observations d ≡ ok result
      → All P result ↔ All P (collected d)
  unfolding source_observations
  source_observations-All P result h =
      let (unique, stored, same) =
        >>=-eq-ok (remember_all [] (collected d)) (λ u. ok (sorted by_identity u)) h in
      let e : sorted by_identity unique ≡ result = ground (arith, same) in
      let both = remember_all-All P [] (collected d) stored in
      (
        λ p. (both.0 (All-of_sorted by_identity P unique (rw (← e) at p))).1,
        λ p. rw (← e) (All-sorted by_identity P unique (both.1 (tt, p))),
      )
