-- ===== src/Discovery/Conserved.antt =====
-- No fixture is lost: each is in the plan or counted with a reason.
use urim_platform.Base.Instant.{DateTime}
use urim_platform.Base.Sort.{sorted, insert_sorted}
use urim_platform.Discovery.Model.{
  FixtureRow, CompetitionMetadata, SeasonMetadata, Coverage, NormalizationResult, Verdict,
  passed_over, kept, count, count_all, total, verdict,
}
use urim_platform.Discovery.Plan.{
  DiscoveryCompetition, rows_of, ignored_before, add_row, gather_one, gather, Gathered, Selection,
  candidate_le, refusal, select_one, select_all, by_reason, gathered, chosen, made,
}
use urim_platform.Base.{
  ℕ, ◌+◌, ◌-◌, ◌≤◌, String, ◌≡◌, refl, inl, inr, Bool, ◌&&◌, Option, none, some, List, [], ◌∷◌,
  ◌++◌, arith, ◌==◌, Bool-cases, length, length-append,
}

total-count :
    (reason : String) (n : ℕ) (c : List (String × ℕ)) → total (count reason n c) ≡ total c + n
unfolding total count
total-count reason n [] = omega arith
total-count reason n ((r, m) ∷ c) = ground (arith, total-count reason n c)

total-count_all :
    (reasons c : List (String × ℕ)) → total (count_all reasons c) ≡ total reasons + total c
unfolding total count_all
total-count_all [] c = omega arith
total-count_all ((r, n) ∷ reasons) c =
    omega (arith, total-count_all reasons (count r n c), total-count r n c)

total-insert_sorted :
    (x : String × ℕ) (c : List (String × ℕ)) → total (insert_sorted by_reason x c) ≡ x.1 + total c
unfolding total insert_sorted
total-insert_sorted x [] = refl
total-insert_sorted x (y ∷ c) = elim (Bool-cases (by_reason x y)) [
  | inl first ↦ rw first refl
  | inr later ↦ rw later (omega (arith, total-insert_sorted x c))
]

pub total-sorted : (c : List (String × ℕ)) → total (sorted by_reason c) ≡ total c
unfolding total sorted
total-sorted [] = refl
total-sorted (x ∷ c) = omega (arith, total-insert_sorted x (sorted by_reason c), total-sorted c)

-- How many fixtures the competitions hold.
abbrev pub held : List DiscoveryCompetition → ℕ
held cs = length (rows_of cs)

held-cons :
    (c : DiscoveryCompetition) (cs : List DiscoveryCompetition)
    → held (c ∷ cs) ≡ length c.fixture_rows + held cs
unfolding rows_of
held-cons c cs = length-append c.fixture_rows (rows_of cs)

held-last :
    (cs : List DiscoveryCompetition) (c : DiscoveryCompetition)
    → held (cs ++ c ∷ []) ≡ held cs + length c.fixture_rows
unfolding rows_of
held-last [] c = omega (arith, length-append c.fixture_rows [])
held-last (d ∷ cs) c = omega (
  arith,
  held-last cs c,
  length-append d.fixture_rows (rows_of (cs ++ c ∷ [])),
  length-append d.fixture_rows (rows_of cs),
)

module _ (le : DiscoveryCompetition → DiscoveryCompetition → Bool) where
  held-insert_sorted :
      (c : DiscoveryCompetition) (cs : List DiscoveryCompetition)
      → held (insert_sorted le c cs) ≡ length c.fixture_rows + held cs
  unfolding insert_sorted
  held-insert_sorted c [] = held-cons c []
  held-insert_sorted c (d ∷ cs) = elim (Bool-cases (le c d)) [
    | inl first ↦ rw first (held-cons c (d ∷ cs))
    | inr later ↦ rw later (
        omega (arith, held-cons d (insert_sorted le c cs), held-cons d cs, held-insert_sorted c cs))
  ]

  held-sorted : (cs : List DiscoveryCompetition) → held (sorted le cs) ≡ held cs
  unfolding sorted
  held-sorted [] = refl
  held-sorted (c ∷ cs) =
      omega (arith, held-insert_sorted c (sorted le cs), held-cons c cs, held-sorted cs)

held-add_row :
    (id season : ℕ) (coverage : Coverage) (row : FixtureRow) (cs : List DiscoveryCompetition)
    → held (add_row id season coverage row cs) ≡ held cs + 1
unfolding add_row rows_of
held-add_row id season coverage row [] = held-cons (made id season coverage (row ∷ [])) []
held-add_row id season coverage row (c ∷ cs) =
    elim (Bool-cases (c.provider_competition_id == id && c.season == season)) [
      | inl same ↦ rw same (
          omega (
            arith,
            held-cons (made id season coverage (c.fixture_rows ++ row ∷ [])) cs,
            held-cons c cs,
            length-append c.fixture_rows (row ∷ []),
          ))
      | inr other ↦ rw other (
          omega (
            arith,
            held-cons c (add_row id season coverage row cs),
            held-cons c cs,
            held-add_row id season coverage row cs,
          ))
    ]

-- What is held and what is counted.
abbrev accounted : Gathered → ℕ
accounted state = held state.0 + total state.1

gather_one-accounted :
    (row : FixtureRow) (v : Verdict) (state : Gathered)
    → accounted (gather_one row v state) ≡ accounted state + 1
unfolding gather_one
gather_one-accounted row (passed_over reason) (grouped, ignored) =
    omega (arith, total-count reason 1 ignored)
gather_one-accounted row (kept id season coverage) (grouped, ignored) =
    omega (arith, held-add_row id season coverage row grouped)

gather-accounted :
    (judge : FixtureRow → Verdict) (rows : List FixtureRow) (state : Gathered)
    → accounted (gather judge rows state) ≡ accounted state + length rows
unfolding gather
gather-accounted judge [] state = omega arith
gather-accounted judge (row ∷ rows) state = omega (
  arith,
  gather-accounted judge rows (gather_one row (judge row) state),
  gather_one-accounted row (judge row) state,
)

abbrev selection_accounted : Selection → ℕ
selection_accounted state = held state.0 + total state.2

select_one-accounted :
    (c : DiscoveryCompetition) (reason : Option String) (state : Selection)
    → selection_accounted (select_one c reason state)
      ≡ selection_accounted state + length c.fixture_rows
unfolding select_one
select_one-accounted c (some reason) (selected, remaining, ignored) =
    omega (arith, total-count reason (length c.fixture_rows) ignored)
select_one-accounted c none (selected, remaining, ignored) = omega (arith, held-last selected c)

select_all-accounted :
    (limit : ℕ) (cs : List DiscoveryCompetition) (state : Selection)
    → selection_accounted (select_all limit cs state) ≡ selection_accounted state + held cs
unfolding select_all rows_of
select_all-accounted limit [] state = omega arith
select_all-accounted limit (c ∷ cs) state = omega (
  arith,
  select_all-accounted limit cs (select_one c (refusal limit c state.0 state.1) state),
  select_one-accounted c (refusal limit c state.0 state.1) state,
  held-cons c cs,
)

total-ignored_before :
    (fixtures : NormalizationResult FixtureRow)
    → total fixtures.rejection_reasons ≤ fixtures.rejected_count
    → total (ignored_before fixtures) ≡ fixtures.rejected_count
unfolding ignored_before total
total-ignored_before fixtures h = ground (
  arith,
  h,
  total-count_all fixtures.rejection_reasons [],
  total-count "invalid_fixture" (fixtures.rejected_count - total fixtures.rejection_reasons)
      (count_all fixtures.rejection_reasons []),
)

module _ (fixtures : NormalizationResult FixtureRow)
    (competitions : NormalizationResult CompetitionMetadata)
    (seasons : NormalizationResult SeasonMetadata) (priorities : List ℕ) (budget : ℕ)
    (as_of : DateTime) (max_competitions : ℕ) where
  pub chosen-accounted :
      (window : Option (DateTime × DateTime))
      → total fixtures.rejection_reasons ≤ fixtures.rejected_count
      → selection_accounted
          (chosen fixtures competitions seasons priorities budget as_of max_competitions window)
        ≡ length fixtures.rows + fixtures.rejected_count
  unfolding chosen rows_of
  chosen-accounted window h =
      let state =
        gathered fixtures competitions seasons priorities budget as_of max_competitions window in
      omega (
        arith,
        select_all-accounted max_competitions (sorted (candidate_le priorities) state.0)
            ([], budget, state.1),
        held-sorted (candidate_le priorities) state.0,
        gather-accounted (verdict competitions.rows seasons.rows as_of window) fixtures.rows
            ([], ignored_before fixtures),
        total-ignored_before fixtures h,
      )
