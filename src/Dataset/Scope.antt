-- ===== src/Dataset/Scope.antt =====
-- What a dataset about one match is, and the provenance of a source: the parts of
-- `validate_data_integrity` that concern a single match, team or source.
use text.Mathlib.Text.{◌==◌ as str_eq}
use text.Mathlib.TextEquality.{eq_iff}
use urim_platform.Base.{
  ℕ, ◌≤◌, ◌≡◌, refl, ◌≢◌, ◌⊎◌, inl, inr, Bool, true, false, not, ◌&&◌, ◌||◌, some, List, [], ◌∷◌,
  map, arith, ltb, ◌==◌, ==_iff, Bool-cases, length, any, all, All, Any, any-eq-false, all-eq-true,
  All-map, disjunction, ok, raise_if-eq-ok, raise_if->>-eq-ok,
}
use urim_platform.Base.Text.{codes, text_length, is_blank, is_hex}
use urim_platform.Observation.{SourceObservation, MatchObservation, KairosMatchDataset}
use urim_platform.Dataset.Checks.{
  contains, contains_text, completed_history_statuses, valid_freshness_statuses, team_ids,
  team_history, check_provenance,
}

-- The team plays in the match.
abbrev pub Plays : ℕ → MatchObservation → Type 0
Plays team m = (m.home_team_provider_id ≡ team) ⊎ (m.away_team_provider_id ≡ team)

-- The match has ended, in regular time, extra time or by penalties.
abbrev pub IsCompleted : MatchObservation → Type 0
IsCompleted m = (m.status_short ≡ "FT") ⊎ (m.status_short ≡ "AET") ⊎ (m.status_short ≡ "PEN")

-- The provenance of a source is complete, short enough and hashed.
pub record IsProvenanced (s : SourceObservation) : Type 0 where
  pub provider : s.provider ≡ "api-football"
  pub identified : is_blank s.observation_id ≡ false
  pub event_named : is_blank s.provider_event_id ≡ false
  pub versioned : is_blank s.source_version ≡ false
  pub identity_bounded : text_length s.observation_id ≤ 80
  pub event_bounded : text_length s.provider_event_id ≤ 240
  pub version_bounded : text_length s.source_version ≤ 80
  pub flags_bounded : length s.quality_flags ≤ 32
  pub hash_length : text_length s.raw_hash ≡ 64
  pub hash_digits : All (λ c. is_hex c ≡ true) (codes s.raw_hash)

pub record IsScoped {V : Type 0} (d : KairosMatchDataset V) : Type 0 where
  pub match_identified : d.target.provider_match_id ≢ 0
  pub teams_differ : d.target.home_team_provider_id ≢ d.target.away_team_provider_id
  pub same_season :
      All
        (λ m.
          (m.provider_competition_id ≡ d.target.provider_competition_id)
          × (m.season ≡ d.target.season)
          × IsCompleted m)
        (team_history d)
  pub home_plays : All (Plays d.target.home_team_provider_id) d.home_history
  pub away_plays : All (Plays d.target.away_team_provider_id) d.away_history
  pub encounters :
      All
        (λ m.
          (m.provider_competition_id ≡ d.target.provider_competition_id)
          × Plays d.target.home_team_provider_id m
          × Plays d.target.away_team_provider_id m
          × IsCompleted m)
        d.h2h_history
  pub standings_scoped : All (λ s. Plays s.provider_team_id d.target) d.standings
  pub statistics_scoped :
      All
        (λ s.
          Any (λ m. m.provider_match_id ≡ s.provider_match_id) (team_history d)
          × Plays s.provider_team_id d.target)
        d.statistics
  pub events_scoped :
      All
        (λ e.
          Any (λ m. m.provider_match_id ≡ e.provider_match_id) (team_history d)
          × ((team : ℕ) → e.provider_team_id ≡ some team → Plays team d.target))
        d.events

pub contains-Plays :
    (team : ℕ) (m : MatchObservation) → contains (team_ids m) team ≡ true → Plays team m
contains-Plays team m h = ground arith

pub contains-Any :
    (a : ℕ) (xs : List MatchObservation)
    → contains (map (λ m. m.provider_match_id) xs) a ≡ true
    → Any (λ m. m.provider_match_id ≡ a) xs
contains-Any a [] h = cc
contains-Any a (x ∷ xs) h = elim (Bool-cases (x.provider_match_id == a)) [
  | inl same ↦ inl ((==_iff _ _).0 same)
  | inr other ↦ inr (contains-Any a xs (ground (arith, other, h)))
]

pub IsCompleted-of_status :
    (m : MatchObservation)
    → contains_text completed_history_statuses m.status_short ≡ true
    → IsCompleted m
IsCompleted-of_status m h =
    ground
      (arith, eq_iff "FT" m.status_short, eq_iff "AET" m.status_short, eq_iff "PEN" m.status_short)

pub not-eq-false : (b : Bool) → not b ≡ false → b ≡ true
not-eq-false true h = refl
not-eq-false false h = cc

-- A refusal of `any(not p(x))` leaves `p` for every element.
pub every {ℓ} :
    {A : Type ℓ} (p : A → Bool) (xs : List A)
    → any (λ x. not (p x)) xs ≡ false
    → All (λ x. p x ≡ true) xs
every p xs h = All-map (λ x. not-eq-false (p x)) xs ((any-eq-false (λ x. not (p x)) xs).0 h)

abbrev shape_test : SourceObservation → Bool
shape_test s = disjunction (
    ltb 80 (text_length s.observation_id)
    ∷ ltb 240 (text_length s.provider_event_id)
    ∷ ltb 80 (text_length s.source_version)
    ∷ ltb 32 (length s.quality_flags)
    ∷ any (λ flag. is_blank flag || ltb 160 (text_length flag)) s.quality_flags
    ∷ not (contains_text valid_freshness_statuses s.freshness_status)
    ∷ [])

pub check_provenance-IsProvenanced :
    (s : SourceObservation) → check_provenance s ≡ ok tt → IsProvenanced s
unfolding check_provenance
check_provenance-IsProvenanced s h =
    let (provider, h1) = raise_if->>-eq-ok (not (str_eq s.provider "api-football")) _ _ h in
    let (named, h2) = raise_if->>-eq-ok _ _ _ h1 in
    let (shape, hash) = raise_if->>-eq-ok (shape_test s) _ _ h2 in
    let named_all =
      (any-eq-false is_blank (s.observation_id ∷ s.provider_event_id ∷ s.source_version ∷ [])).0
        named in
    let digits =
      (raise_if-eq-ok (not (text_length s.raw_hash == 64 && all is_hex (codes s.raw_hash))) _).0
        hash in
    record {
      provider = ground (arith, provider, eq_iff s.provider "api-football");
      identified = named_all.0;
      event_named = named_all.1.0;
      versioned = named_all.1.1.0;
      identity_bounded = ground (arith, shape);
      event_bounded = ground (arith, shape);
      version_bounded = ground (arith, shape);
      flags_bounded = ground (arith, shape);
      hash_length = ground (arith, digits);
      hash_digits = (all-eq-true is_hex (codes s.raw_hash)).0 (ground (arith, digits));
    }
