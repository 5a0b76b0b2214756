-- ===== src/Discovery/Reconciled.antt =====
-- The funnel of the retained and the rejected fixtures.
use urim_platform.Discovery.Funnel.{
  rejected, accepted, allocated, RetentionFunnel, build_retention_funnel, requested, validated,
  competition_codes, season_codes, status_codes, kickoff_codes, team_codes, coverage_codes,
}
use urim_platform.Discovery.Model.{funnel_inputs_invalid}
use urim_platform.Base.{
  ℕ, ◌+◌, ◌-◌, ◌≤◌, ◌<◌, String, ◌≡◌, refl, ◌⊎◌, inl, inr, List, [], ◌∷◌, arith, ltb, leb, ==_iff,
  Bool-cases, ok, err,
}

accepted-le :
    (wanted remaining : ℕ)
    → (accepted wanted remaining ≤ remaining) × (accepted wanted remaining ≤ wanted)
accepted-le wanted remaining = ground arith

accepted_rest : (wanted remaining : ℕ) → remaining - accepted wanted remaining ≡ remaining - wanted
accepted_rest wanted remaining = ground arith

allocated-reconciles :
    (received retained c s st k t cov d : ℕ)
    → retained ≤ received
    → received ≡ retained + rejected (allocated received retained c s st k t cov d)
unfolding allocated
allocated-reconciles received retained c s st k t cov d h =
    let r0 = received - retained in
    let r1 = r0 - accepted c r0 in
    let r2 = r1 - accepted s r1 in
    let r3 = r2 - accepted st r2 in
    let r4 = r3 - accepted k r3 in
    let r5 = r4 - accepted t r4 in
    let r6 = r5 - accepted cov r5 in
    omega (
      arith,
      accepted-le c r0,
      accepted-le s r1,
      accepted-le st r2,
      accepted-le k r3,
      accepted-le t r4,
      accepted-le cov r5,
      accepted-le d r6,
    )

-- Each part of the funnel is at most what its reasons count, and all parts are exactly that, or no
-- fixture is left without a reason.
pub record IsAllocated (reasons : List (String × ℕ)) (f : RetentionFunnel) : Type 0 where
  pub competition_bounded : f.rejected_competition ≤ requested reasons competition_codes
  pub season_bounded : f.rejected_season ≤ requested reasons season_codes
  pub status_bounded : f.rejected_status ≤ requested reasons status_codes
  pub kickoff_bounded : f.rejected_kickoff_window ≤ requested reasons kickoff_codes
  pub teams_bounded : f.rejected_missing_teams ≤ requested reasons team_codes
  pub coverage_bounded : f.rejected_insufficient_coverage ≤ requested reasons coverage_codes
  pub duplicate_bounded : f.rejected_duplicate ≤ requested reasons ("duplicate_fixture" ∷ [])
  pub exact_or_used_up :
      ((f.rejected_competition ≡ requested reasons competition_codes)
        × (f.rejected_season ≡ requested reasons season_codes)
        × (f.rejected_status ≡ requested reasons status_codes)
        × (f.rejected_kickoff_window ≡ requested reasons kickoff_codes)
        × (f.rejected_missing_teams ≡ requested reasons team_codes)
        × (f.rejected_insufficient_coverage ≡ requested reasons coverage_codes)
        × (f.rejected_duplicate ≡ requested reasons ("duplicate_fixture" ∷ [])))
      ⊎ (f.rejected_other ≡ 0)

-- The chain of the calls, by the sum of what they ask for.
exact :
    (c s st k t cov d r0 : ℕ)
    → let r1 = r0 - accepted c r0 in
      let r2 = r1 - accepted s r1 in
      let r3 = r2 - accepted st r2 in
      let r4 = r3 - accepted k r3 in
      let r5 = r4 - accepted t r4 in
      let r6 = r5 - accepted cov r5 in
      ((accepted c r0 ≡ c)
        × (accepted s r1 ≡ s)
        × (accepted st r2 ≡ st)
        × (accepted k r3 ≡ k)
        × (accepted t r4 ≡ t)
        × (accepted cov r5 ≡ cov)
        × (accepted d r6 ≡ d))
      ⊎ (r6 - accepted d r6 ≡ 0)
exact c s st k t cov d r0 =
    let r1 = r0 - accepted c r0 in
    let r2 = r1 - accepted s r1 in
    let r3 = r2 - accepted st r2 in
    let r4 = r3 - accepted k r3 in
    let r5 = r4 - accepted t r4 in
    let r6 = r5 - accepted cov r5 in
    let e1 = accepted_rest c r0 in
    let e2 = accepted_rest s r1 in
    let e3 = accepted_rest st r2 in
    let e4 = accepted_rest k r3 in
    let e5 = accepted_rest t r4 in
    let e6 = accepted_rest cov r5 in
    let e7 = accepted_rest d r6 in
    elim (Bool-cases (leb (c + s + st + k + t + cov + d) r0)) [
      | inr short ↦
          let over : r0 < c + s + st + k + t + cov + d = ground (arith, short) in inr (omega arith)
      | inl enough ↦
          let fits : c + s + st + k + t + cov + d ≤ r0 = ground (arith, enough) in
          let b0 = (accepted-le c r0).0 in
          let b1 = (accepted-le s r1).0 in
          let b2 = (accepted-le st r2).0 in
          let b3 = (accepted-le k r3).0 in
          let b4 = (accepted-le t r4).0 in
          let b5 = (accepted-le cov r5).0 in
          let b6 = (accepted-le d r6).0 in
          inl (
            omega arith,
            omega arith,
            omega arith,
            omega arith,
            omega arith,
            omega arith,
            omega arith,
          )
    ]

validated-ok :
    (f : RetentionFunnel) → f.fixtures_received ≡ f.retained + rejected f → validated f ≡ ok f
unfolding validated
validated-ok f h = rw ((==_iff _ _).1 h) refl

allocated-IsAllocated :
    (received retained : ℕ) (reasons : List (String × ℕ))
    → IsAllocated reasons (
        allocated received retained
          (requested reasons competition_codes)
          (requested reasons season_codes)
          (requested reasons status_codes)
          (requested reasons kickoff_codes)
          (requested reasons team_codes)
          (requested reasons coverage_codes)
          (requested reasons ("duplicate_fixture" ∷ [])))
unfolding allocated
allocated-IsAllocated received retained reasons =
    let c = requested reasons competition_codes in
    let s = requested reasons season_codes in
    let st = requested reasons status_codes in
    let k = requested reasons kickoff_codes in
    let t = requested reasons team_codes in
    let cov = requested reasons coverage_codes in
    let d = requested reasons ("duplicate_fixture" ∷ []) in
    let r0 = received - retained in
    let r1 = r0 - accepted c r0 in
    let r2 = r1 - accepted s r1 in
    let r3 = r2 - accepted st r2 in
    let r4 = r3 - accepted k r3 in
    let r5 = r4 - accepted t r4 in
    let r6 = r5 - accepted cov r5 in
    record {
      competition_bounded = (accepted-le c r0).1;
      season_bounded = (accepted-le s r1).1;
      status_bounded = (accepted-le st r2).1;
      kickoff_bounded = (accepted-le k r3).1;
      teams_bounded = (accepted-le t r4).1;
      coverage_bounded = (accepted-le cov r5).1;
      duplicate_bounded = (accepted-le d r6).1;
      exact_or_used_up = exact c s st k t cov d r0;
    }

-- A plan's reasons never break the funnel: with no more retained than received, it is built, what
-- was received is what is retained and rejected, each part is at most what its reasons count, and
-- all parts are exactly that or none is without a reason. With more retained it is refused.
pub build_retention_funnel_lem :
    (received retained : ℕ) (reasons : List (String × ℕ))
    → ((retained ≤ received)
        × (f : RetentionFunnel) × (build_retention_funnel received retained reasons ≡ ok f)
        × (f.fixtures_received ≡ received)
        × (f.retained ≡ retained)
        × (received ≡ retained + rejected f)
        × IsAllocated reasons f)
      ⊎ ((received < retained)
          × (build_retention_funnel received retained reasons ≡ err funnel_inputs_invalid))
unfolding build_retention_funnel
build_retention_funnel_lem received retained reasons = elim (Bool-cases (ltb received retained)) [
  | inl more ↦ inr (ground arith, rw more refl)
  | inr enough ↦
      let f =
        allocated received retained (requested reasons competition_codes)
          (requested reasons season_codes) (requested reasons status_codes)
          (requested reasons kickoff_codes) (requested reasons team_codes)
          (requested reasons coverage_codes) (requested reasons ("duplicate_fixture" ∷ [])) in
      let fits : retained ≤ received = ground (arith, enough) in
      let whole = allocated-reconciles received retained _ _ _ _ _ _ _ fits in
      inl (
        fits,
        f,
        rw enough (validated-ok f whole),
        refl,
        refl,
        whole,
        allocated-IsAllocated received retained reasons,
      )
]
