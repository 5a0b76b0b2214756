-- ===== src/Discovery/Suitable.antt =====
-- What a fixture that the discovery keeps has passed, written without the loop's own tests.
use mathlib.Core.Path.{subst}
use text.Mathlib.TextEquality.{eq_iff}
use urim_platform.Base.Instant.{DateTime, until}
use urim_platform.Discovery.Model.{
  FixtureRow, CompetitionMetadata, SeasonMetadata, Coverage, no_mapping, mapping, passed_over, kept,
  is_id, last_match, is_league, supports_standings_of, supports_statistics_of, is_scheduled,
  in_window, competition_of, season_of, covered, known_season, known_competition, identified, timed,
  verdict,
}
use urim_platform.Base.{
  ℕ, ◌≤◌, ◌<◌, String, ◌≡◌, refl, ap, ◌⊎◌, inl, inr, Bool, true, false, not, ◌&&◌, Option, none,
  some, List, [], ◌∷◌, arith, Bool-cases, Option-cases, &&-eq-true, Any, In, In-Any,
}

last_match-In :
    {R : Type 0} (p : R → Bool) (rows : List R) (r : R)
    → last_match p rows ≡ some r
    → In r rows × (p r ≡ true)
unfolding last_match
last_match-In p [] r h = absurd (ground (arith, h))
last_match-In p (row ∷ rows) r h = elim (Option-cases (last_match p rows)) [
  | inr (later, found) ↦
      let same : later ≡ r = ground (arith, found, h) in
      let (member, holds) = last_match-In p rows later found in
      let both : In later (row ∷ rows) × (p later ≡ true) = (inr member, holds) in
      subst (λ x. In x (row ∷ rows) × (p x ≡ true)) same both
  | inl absent ↦ elim (Bool-cases (p row)) [
    | inl holds ↦
        let same : row ≡ r = ground (arith, absent, holds, h) in (inl same, rw same at holds)
    | inr fails ↦ absurd (ground (arith, absent, fails, h))
  ]
]

is_id-some : (a : ℕ) (o : Option ℕ) → is_id a o ≡ true → o ≡ some a
is_id-some a none h = absurd (ground (arith, h))
is_id-some a (some b) h = let same : b ≡ a = ground (arith, h) in ap (λ (x : ℕ). some x) same

is_scheduled-ns : (status : Option String) → is_scheduled status ≡ true → status ≡ some "NS"
is_scheduled-ns none h = absurd (ground (arith, h))
is_scheduled-ns (some s) h = ap (λ (x : String). some x) ((eq_iff s "NS").0 h)

-- The standings or the statistics of the fixtures are covered.
abbrev pub IsCovered : Coverage → Type 0
IsCovered no_mapping = ⊥
IsCovered (mapping standings none) = standings ≡ true
IsCovered (mapping standings (some (statistics, events))) = (standings ≡ true) ⊎ (statistics ≡ true)

-- The kickoff is after the time and, if there is a window, in it.
abbrev pub IsUpcoming : DateTime → Option (DateTime × DateTime) → DateTime → Type 0
IsUpcoming as_of none kickoff = as_of.instant < kickoff.instant
IsUpcoming as_of (some (starts_at, ends_at)) kickoff =
    (as_of.instant < kickoff.instant)
    × (starts_at.instant ≤ kickoff.instant)
    × (kickoff.instant < ends_at.instant)

-- A scheduled fixture of a league, in time, whose season has standings or statistics.
pub record IsSuitable (competitions : List CompetitionMetadata) (seasons : List SeasonMetadata)
    (as_of : DateTime) (window : Option (DateTime × DateTime)) (id season : ℕ) (row : FixtureRow)
    : Type 0 where
  pub scheduled : row.status_short ≡ some "NS"
  pub upcoming :
      (kickoff : DateTime) × (row.kickoff_at ≡ some kickoff) × IsUpcoming as_of window kickoff
  pub of_competition : row.provider_competition_id ≡ some id
  pub of_season : row.season ≡ some season
  pub of_league :
      Any (λ c. (c.provider_competition_id ≡ some id) × (is_league c.kind ≡ true)) competitions
  pub of_coverage :
      Any
        (λ s. (s.provider_competition_id ≡ some id) × (s.year ≡ some season) × IsCovered s.coverage)
        seasons

verdict-IsCovered :
    (c : Coverage)
    → (not (supports_standings_of c) && not (supports_statistics_of c)) ≡ false
    → IsCovered c
verdict-IsCovered no_mapping h = ground (arith, h)
verdict-IsCovered (mapping standings none) h = ground (arith, h)
verdict-IsCovered (mapping true (some (statistics, events))) h = inl refl
verdict-IsCovered (mapping false (some (statistics, events))) h = inr (ground (arith, h))

not_passed :
    {reason : String} {id season : ℕ} {c : Coverage} → passed_over reason ≡ kept id season c → ⊥
not_passed h = let clash = h in cc

module _ (competitions : List CompetitionMetadata) (seasons : List SeasonMetadata)
    (as_of : DateTime) (window : Option (DateTime × DateTime)) where
  known_season-kept :
      (i y id season : ℕ) (k : CompetitionMetadata) (found : Option SeasonMetadata) (c : Coverage)
      → known_season competitions seasons as_of window i y k found ≡ kept id season c
      → (s : SeasonMetadata) × (found ≡ some s)
        × (is_league k.kind ≡ true)
        × IsCovered s.coverage
        × (i ≡ id)
        × (y ≡ season)
  unfolding known_season covered
  known_season-kept i y id season k none c h = absurd (let clash = h in cc)
  known_season-kept i y id season k (some s) c h = elim (Bool-cases (is_league k.kind)) [
    | inr other ↦ absurd (let clash = rw other at h in cc)
    | inl league ↦
        let h1 = rw league at h in
        elim (Bool-cases
          (not (supports_standings_of s.coverage) && not (supports_statistics_of s.coverage))) [
            | inl bare ↦ absurd (let clash = rw bare at h1 in cc)
            | inr enough ↦
                let same : kept i y s.coverage ≡ kept id season c = rw enough at h1 in
                (s, refl, league, verdict-IsCovered s.coverage enough, cc, cc)
          ]
  ]

  identified-kept :
      (oi oy : Option ℕ) (id season : ℕ) (c : Coverage)
      → identified competitions seasons as_of window oi oy ≡ kept id season c
      → (oi ≡ some id)
        × (oy ≡ some season)
        × Any (λ c. (c.provider_competition_id ≡ some id) × (is_league c.kind ≡ true)) competitions
        × Any
            (λ s.
              (s.provider_competition_id ≡ some id) × (s.year ≡ some season) × IsCovered s.coverage)
            seasons
  unfolding identified known_competition
  identified-kept none oy id season c h = absurd (let clash = h in cc)
  identified-kept (some i) none id season c h = absurd (let clash = h in cc)
  identified-kept (some i) (some y) id season c h =
      elim (Option-cases (competition_of competitions seasons as_of window i)) [
        | inl absent ↦ absurd (let clash = rw absent at h in cc)
        | inr (k, found) ↦
            let h1 = rw found at h in
            let (s, is_season, league, cover, same_i, same_y) =
              known_season-kept i y id season k (season_of competitions seasons as_of window i y) c
                h1 in
            let (in_competitions, is_k) = last_match-In _ competitions k found in
            let (in_seasons, is_s) = last_match-In _ seasons s is_season in
            let (s_id, s_year) =
              (&&-eq-true (is_id i s.provider_competition_id) (is_id y s.year)).0 is_s in
            (
              ap (λ (x : ℕ). some x) same_i,
              ap (λ (x : ℕ). some x) same_y,
              In-Any (λ c. (c.provider_competition_id ≡ some id) × (is_league c.kind ≡ true)) k
                  competitions in_competitions
                  (rw same_i at (is_id-some i k.provider_competition_id is_k), league),
              In-Any
                  (λ s.
                    (s.provider_competition_id ≡ some id)
                    × (s.year ≡ some season)
                    × IsCovered s.coverage)
                  s seasons in_seasons
                  (
                    rw same_i at (is_id-some i s.provider_competition_id s_id),
                    rw same_y at (is_id-some y s.year s_year),
                    cover,
                  ),
            )
      ]

  upcoming_lem :
      (kickoff : DateTime) (w : Option (DateTime × DateTime))
      → until kickoff as_of ≡ false
      → in_window competitions seasons as_of w kickoff ≡ true
      → IsUpcoming as_of w kickoff
  upcoming_lem kickoff none late inside = ground (arith, late)
  upcoming_lem kickoff (some (a, b)) late inside =
      (ground (arith, late), ground (arith, inside), ground (arith, inside))

  -- A fixture that the loop keeps is suitable, for that competition and season.
  pub verdict-IsSuitable :
      (row : FixtureRow) (id season : ℕ) (c : Coverage)
      → verdict competitions seasons as_of window row ≡ kept id season c
      → IsSuitable competitions seasons as_of window id season row
  unfolding verdict timed
  verdict-IsSuitable row id season c h = elim (Bool-cases (is_scheduled row.status_short)) [
    | inr other ↦ absurd (let clash = rw other at h in cc)
    | inl ns ↦
        let h1 = rw ns at h in
        elim (Option-cases row.kickoff_at) [
          | inl absent ↦ absurd (let clash = rw absent at h1 in cc)
          | inr (kickoff, e) ↦
              let h2 = rw e at h1 in
              elim (Bool-cases (until kickoff as_of)) [
                | inl past ↦ absurd (let clash = rw past at h2 in cc)
                | inr late ↦
                    let h3 = rw late at h2 in
                    elim (Bool-cases (in_window competitions seasons as_of window kickoff)) [
                      | inr outside ↦ absurd (let clash = rw outside at h3 in cc)
                      | inl inside ↦
                          let (of_id, of_year, league, cover) =
                            identified-kept row.provider_competition_id row.season id season c
                              (rw inside at h3) in
                          record {
                            scheduled = is_scheduled-ns row.status_short ns;
                            upcoming = (kickoff, e, upcoming_lem kickoff window late inside);
                            of_competition = of_id;
                            of_season = of_year;
                            of_league = league;
                            of_coverage = cover;
                          }
                    ]
              ]
        ]
  ]
