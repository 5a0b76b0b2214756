-- ===== src/Discovery/Bounded.antt =====
-- The plan keeps to its budget, and holds eligible fixtures only.
use urim_platform.Base.Instant.{DateTime}
use urim_platform.Base.Sort.{sorted, All-sorted}
use urim_platform.Discovery.Model.{
  FixtureRow, CompetitionMetadata, SeasonMetadata, Coverage, NormalizationResult, Verdict,
  passed_over, kept, total, verdict,
}
use urim_platform.Discovery.Plan.{
  DiscoveryCompetition, DiscoveryPlan, rows_of, enrichment_request_cost, max_discovery_competitions,
  add_row, gather_one, gather, Gathered, Selection, candidate_le, refusal, reserve, select_one,
  select_all, by_reason, window_of, is_incomparable, gathered, chosen, build_discovery_plan,
  ignored_before,
}
use urim_platform.Discovery.Suitable.{IsSuitable, verdict-IsSuitable}
use urim_platform.Discovery.Conserved.{chosen-accounted, total-sorted}
use urim_platform.Base.{
  ℕ, ◌+◌, ◌-◌, ◌≤◌, ◌≡◌, refl, ◌⊎◌, inl, inr, true, false, not, ◌&&◌, ◌||◌, Option, List, [], ◌∷◌,
  ◌++◌, arith, ltb, leb, ◌==◌, Bool-cases, length, any, All, length-append, All-map, All-append, ok,
}

-- What the enrichment of the competitions costs.
pub cost : List DiscoveryCompetition → ℕ
cost [] = 0
cost (c ∷ cs) = enrichment_request_cost c + cost cs

cost-last :
    (cs : List DiscoveryCompetition) (c : DiscoveryCompetition)
    → cost (cs ++ c ∷ []) ≡ cost cs + enrichment_request_cost c
unfolding cost
cost-last [] c = omega arith
cost-last (d ∷ cs) c = omega (arith, cost-last cs c)

-- All fixtures of the competition were kept for it and its season.
abbrev pub IsEligible : (FixtureRow → Verdict) → DiscoveryCompetition → Type 0
IsEligible judge c =
    All
      (λ row.
        (coverage : Coverage) × (judge row ≡ kept c.provider_competition_id c.season coverage))
      c.fixture_rows

add_row-IsEligible :
    (judge : FixtureRow → Verdict) (id season : ℕ) (coverage : Coverage) (row : FixtureRow)
    → judge row ≡ kept id season coverage
    → (cs : List DiscoveryCompetition) → All (IsEligible judge) cs
    → All (IsEligible judge) (add_row id season coverage row cs)
unfolding add_row
add_row-IsEligible judge id season coverage row e [] h = (((coverage, e), tt), tt)
add_row-IsEligible judge id season coverage row e (c ∷ cs) h =
    elim (Bool-cases (c.provider_competition_id == id && c.season == season)) [
      | inl same ↦
          let id_same : c.provider_competition_id ≡ id = ground (arith, same) in
          let season_same : c.season ≡ season = ground (arith, same) in
          rw same (
            (All-append (λ r. (coverage : Coverage) × (judge r ≡ kept id season coverage))
                  c.fixture_rows (row ∷ [])).1
                (
                  All-map (λ r (found, k). (found, rw (id_same, season_same) at k)) c.fixture_rows
                      h.0,
                  ((coverage, e), tt),
                ),
            h.1,
          )
      | inr other ↦ rw other (h.0, add_row-IsEligible judge id season coverage row e cs h.1)
    ]

gather_one-IsEligible :
    (judge : FixtureRow → Verdict) (row : FixtureRow) (v : Verdict)
    → judge row ≡ v
    → (state : Gathered) → All (IsEligible judge) state.0
    → All (IsEligible judge) (gather_one row v state).0
unfolding gather_one
gather_one-IsEligible judge row (passed_over reason) e (grouped, ignored) h = h
gather_one-IsEligible judge row (kept id season coverage) e (grouped, ignored) h =
    add_row-IsEligible judge id season coverage row e grouped h

gather-IsEligible :
    (judge : FixtureRow → Verdict) (rows : List FixtureRow) (state : Gathered)
    → All (IsEligible judge) state.0
    → All (IsEligible judge) (gather judge rows state).0
unfolding gather
gather-IsEligible judge [] state h = h
gather-IsEligible judge (row ∷ rows) state h =
    gather-IsEligible judge rows (gather_one row (judge row) state)
      (gather_one-IsEligible judge row (judge row) refl state h)

-- What the loop over the candidates keeps.
record IsWithin (budget limit : ℕ) (P : DiscoveryCompetition → Type 0) (state : Selection)
    : Type 0 where
  spent : cost state.0 + state.1 ≡ budget
  limited : length state.0 ≤ limit
  reserved : (length state.0 ≤ 1) ⊎ (1 ≤ state.1)
  eligible : All P state.0

module _ (budget limit : ℕ) (P : DiscoveryCompetition → Type 0) where
  select_one-IsWithin :
      (c : DiscoveryCompetition) (state : Selection)
      → P c
      → IsWithin budget limit P state
      → IsWithin budget limit P (select_one c (refusal limit c state.0 state.1) state)
  unfolding select_one refusal
  select_one-IsWithin c (selected, remaining, ignored) p h =
      elim (Bool-cases (leb limit (length selected))) [
        | inl full ↦ rw full (record {
          spent = h.spent;
          limited = h.limited;
          reserved = h.reserved;
          eligible = h.eligible;
        })
        | inr free ↦
            elim (Bool-cases (ltb remaining (enrichment_request_cost c + reserve selected))) [
              | inl dear ↦
                  rw (free, dear)
                    (record {
                      spent = h.spent;
                      limited = h.limited;
                      reserved = h.reserved;
                      eligible = h.eligible;
                    })
              | inr cheap ↦
                  rw (free, cheap)
                    (record {
                      spent = ground (arith, h.spent, cheap, cost-last selected c);
                      limited = ground (arith, free, length-append selected (c ∷ []));
                      reserved = one_left selected c remaining cheap;
                      eligible = (All-append P selected (c ∷ [])).1 (h.eligible, (p, tt));
                    })
            ]
      ]
    where
      one_left :
          (selected : List DiscoveryCompetition) (c : DiscoveryCompetition) (remaining : ℕ)
          → ltb remaining (enrichment_request_cost c + reserve selected) ≡ false
          → (length (selected ++ c ∷ []) ≤ 1) ⊎ (1 ≤ remaining - enrichment_request_cost c)
      one_left [] c remaining cheap = inl (omega arith)
      one_left (d ∷ selected) c remaining cheap = inr (ground (arith, cheap))

  select_all-IsWithin :
      (cs : List DiscoveryCompetition) (state : Selection)
      → All P cs
      → IsWithin budget limit P state
      → IsWithin budget limit P (select_all limit cs state)
  unfolding select_all
  select_all-IsWithin [] state p h = h
  select_all-IsWithin (c ∷ cs) state p h =
      select_all-IsWithin cs (select_one c (refusal limit c state.0 state.1) state) p.1
        (select_one-IsWithin c state p.0 h)

module _ (fixtures : NormalizationResult FixtureRow)
    (competitions : NormalizationResult CompetitionMetadata)
    (seasons : NormalizationResult SeasonMetadata) (priorities : List ℕ) (budget : ℕ)
    (as_of : DateTime) (max_competitions : ℕ) (window_starts_at window_ends_at : Option DateTime)
    (window : Option (DateTime × DateTime)) where
  chosen-IsWithin :
      IsWithin budget max_competitions
        (IsEligible (verdict competitions.rows seasons.rows as_of window))
        (chosen fixtures competitions seasons priorities budget as_of max_competitions window)
  unfolding chosen cost
  chosen-IsWithin =
      let judge = verdict competitions.rows seasons.rows as_of window in
      let state =
        gathered fixtures competitions seasons priorities budget as_of max_competitions window in
      select_all-IsWithin budget max_competitions (IsEligible judge)
        (sorted (candidate_le priorities) state.0) ([], budget, state.1)
        (All-sorted (candidate_le priorities) (IsEligible judge) state.0
          (gather-IsEligible judge fixtures.rows ([], ignored_before fixtures) tt))
        (record {
          spent = omega arith;
          limited = omega arith;
          reserved = inl (omega arith);
          eligible = tt;
        })

  IsEligible-IsSuitable :
      (c : DiscoveryCompetition)
      → IsEligible (verdict competitions.rows seasons.rows as_of window) c
      → All
          (IsSuitable competitions.rows seasons.rows as_of window c.provider_competition_id
            c.season)
          c.fixture_rows
  IsEligible-IsSuitable c h =
      All-map
        (λ row (coverage, judged).
          verdict-IsSuitable competitions.rows seasons.rows as_of window row
            c.provider_competition_id c.season coverage judged)
        c.fixture_rows h

  -- With a maximum of one to five competitions, an aware time, bounds that are both absent, or
  -- aware and in order, and aware kickoffs of the scheduled fixtures, a plan is built. Its enrichment costs at most the budget, with one request
  -- left for statistics if it has more than one competition; it has at most the maximum of
  -- competitions; all its fixtures are scheduled, after the time and in the window, of the
  -- competition, a league, and of its season, which covers standings or statistics; and, where the
  -- counts of the reasons of the normalisation sum to at most the number it rejected, the
  -- fixtures in the plan and the counts of the ignored ones add up to the fixtures received.
  pub build_discovery_plan_lem :
      1 ≤ max_competitions
      → max_competitions ≤ 5
      → as_of.aware ≡ true
      → window_of window_starts_at window_ends_at ≡ ok window
      → any
          (is_incomparable fixtures competitions seasons priorities budget as_of max_competitions)
          fixtures.rows
        ≡ false
      → total fixtures.rejection_reasons ≤ fixtures.rejected_count
      → (plan : DiscoveryPlan) × (build_discovery_plan fixtures competitions seasons priorities
            budget as_of max_competitions window_starts_at window_ends_at
          ≡ ok plan)
        × (cost plan.competitions ≤ budget)
        × ((length plan.competitions ≤ 1) ⊎ (cost plan.competitions + 1 ≤ budget))
        × (length plan.competitions ≤ max_competitions)
        × All
            (λ c.
              All
                (IsSuitable competitions.rows seasons.rows as_of window c.provider_competition_id
                  c.season)
                c.fixture_rows)
            plan.competitions
        × (length (rows_of plan.competitions) + total plan.ignored_reasons
            ≡ length fixtures.rows + fixtures.rejected_count)
  unfolding build_discovery_plan
  build_discovery_plan_lem low high aware bounds comparable explained =
      let state =
        chosen fixtures competitions seasons priorities budget as_of max_competitions window in
      let within = chosen-IsWithin in
      let in_range : (ltb max_competitions 1 || ltb max_discovery_competitions max_competitions)
          ≡ false =
        ground arith in
      let naive : not as_of.aware ≡ false = ground (arith, aware) in
      (
        record { competitions = state.0; ignored_reasons = sorted by_reason state.2 },
        rw (in_range, naive, bounds, comparable) refl,
        omega (arith, within.spent),
        left_over (length state.0) (cost state.0) state.1 within.reserved within.spent,
        within.limited,
        All-map IsEligible-IsSuitable state.0 within.eligible,
        omega (
          arith,
          total-sorted state.2,
          chosen-accounted fixtures competitions seasons priorities budget as_of max_competitions
              window explained,
        ),
      )
    where
      left_over : (n k r : ℕ) → (n ≤ 1) ⊎ (1 ≤ r) → k + r ≡ budget → (n ≤ 1) ⊎ (k + 1 ≤ budget)
      left_over n k r (inl few) e = inl few
      left_over n k r (inr left) e = inr (omega arith)
