-- ===== src/Observation.antt =====
-- The observations of kairos/models.py: what the provider reported, with its provenance.
-- Provider identifiers, seasons and ranks are non-negative; goals keep their sign, since the code
-- checks it. `V` is the type of a statistic's raw value (`Any` in the source).
use Prim.Native.String.{String}
use text.Mathlib.Text.{◌==◌ as str_eq}
use text.Mathlib.TextEquality.{eq_iff}
use urim_platform.Base.{
  ℕ, String, ◌≡◌, refl, Bool, true, false, ◌&&◌, Option, List, [], ◌∷◌, arith, All, all-eq-true,
  conjunction,
}
use urim_platform.Base.Int.{ℤ}
use urim_platform.Base.Instant.{DateTime, same_time, same_time_sound}

pub record SourceObservation : Type 0 where
  pub observation_id : String
  pub provider : String
  pub provider_event_id : String
  pub observed_at : DateTime
  pub available_at : DateTime
  pub fetched_at : DateTime
  pub created_at : DateTime
  pub source_version : String
  pub quality_flags : List String
  pub raw_hash : String
  pub freshness_status : String

pub record MatchObservation : Type 0 where
  pub source : SourceObservation
  pub provider_match_id : ℕ
  pub provider_competition_id : ℕ
  pub season : ℕ
  pub kickoff_at : DateTime
  pub status_short : String
  pub home_team_provider_id : ℕ
  pub home_team_name : String
  pub away_team_provider_id : ℕ
  pub away_team_name : String
  pub goals_home : Option ℤ
  pub goals_away : Option ℤ
  pub score_fulltime_home : Option ℤ
  pub score_fulltime_away : Option ℤ
  pub score_halftime_home : Option ℤ
  pub score_halftime_away : Option ℤ
  pub competition_name : Option String

pub record StandingObservation : Type 0 where
  pub source : SourceObservation
  pub provider_team_id : ℕ
  pub rank : ℕ
  pub points : Option ℤ
  pub played : Option ℤ
  pub goals_diff : Option ℤ

pub record StatisticObservation (V : Type 0) : Type 0 where
  pub source : SourceObservation
  pub provider_match_id : ℕ
  pub provider_team_id : ℕ
  pub statistic_type : String
  pub statistic_value : V

pub record EventObservation : Type 0 where
  pub source : SourceObservation
  pub provider_match_id : ℕ
  pub provider_team_id : Option ℕ
  pub event_type : String
  pub detail : Option String
  pub elapsed : Option ℤ
  pub extra : Option ℤ

pub record KairosMatchDataset (V : Type 0) : Type 0 where
  pub as_of : DateTime
  pub target : MatchObservation
  pub home_history : List MatchObservation
  pub away_history : List MatchObservation
  pub standings : List StandingObservation
  pub statistics : List (StatisticObservation V)
  pub events : List EventObservation
  pub h2h_history : List MatchObservation

unfoldable pub flags_eq : List String → List String → Bool
flags_eq [] [] = true
flags_eq (x ∷ xs) (y ∷ ys) = str_eq x y && flags_eq xs ys
flags_eq _ _ = false

flags_eq_sound : (xs ys : List String) → flags_eq xs ys ≡ true → xs ≡ ys
unfolding flags_eq
flags_eq_sound [] [] h = refl
flags_eq_sound [] (y ∷ ys) h = ground arith
flags_eq_sound (x ∷ xs) [] h = ground arith
flags_eq_sound (x ∷ xs) (y ∷ ys) h = ground (arith, eq_iff x y, flags_eq_sound xs ys)

flags_eq_refl : (xs : List String) → flags_eq xs xs ≡ true
unfolding flags_eq
flags_eq_refl [] = refl
flags_eq_refl (x ∷ xs) = ground (arith, eq_iff x x, flags_eq_refl xs)

abbrev tests : SourceObservation → SourceObservation → List Bool
tests a b =
    str_eq a.observation_id b.observation_id
    ∷ str_eq a.provider b.provider
    ∷ str_eq a.provider_event_id b.provider_event_id
    ∷ same_time a.observed_at b.observed_at
    ∷ same_time a.available_at b.available_at
    ∷ same_time a.fetched_at b.fetched_at
    ∷ same_time a.created_at b.created_at
    ∷ str_eq a.source_version b.source_version
    ∷ flags_eq a.quality_flags b.quality_flags
    ∷ str_eq a.raw_hash b.raw_hash
    ∷ str_eq a.freshness_status b.freshness_status
    ∷ []

-- The `==` that `@dataclass` derives: field by field.
unfoldable pub source_eq : SourceObservation → SourceObservation → Bool
unfolding flags_eq
source_eq a b = conjunction (tests a b)

same_sources : (a b : SourceObservation) → All (λ t. t ≡ true) (tests a b) → a ≡ b
same_sources a b (h0, (h1, (h2, (h3, (h4, (h5, (h6, (h7, (h8, (h9, (h10, _))))))))))) = λ i.
    record {
      observation_id = ((eq_iff a.observation_id b.observation_id).0 h0) i;
      provider = ((eq_iff a.provider b.provider).0 h1) i;
      provider_event_id = ((eq_iff a.provider_event_id b.provider_event_id).0 h2) i;
      observed_at = (same_time_sound a.observed_at b.observed_at h3) i;
      available_at = (same_time_sound a.available_at b.available_at h4) i;
      fetched_at = (same_time_sound a.fetched_at b.fetched_at h5) i;
      created_at = (same_time_sound a.created_at b.created_at h6) i;
      source_version = ((eq_iff a.source_version b.source_version).0 h7) i;
      quality_flags = (flags_eq_sound a.quality_flags b.quality_flags h8) i;
      raw_hash = ((eq_iff a.raw_hash b.raw_hash).0 h9) i;
      freshness_status = ((eq_iff a.freshness_status b.freshness_status).0 h10) i;
    }

-- Sources that the code takes for equal are equal in every field.
pub source_eq_sound : (a b : SourceObservation) → source_eq a b ≡ true → a ≡ b
unfolding source_eq
source_eq_sound a b h = same_sources a b ((all-eq-true (λ t. t) (tests a b)).0 h)

pub source_eq_refl : (a : SourceObservation) → source_eq a a ≡ true
unfolding source_eq
source_eq_refl a = ground (
  arith,
  eq_iff a.observation_id a.observation_id,
  eq_iff a.provider a.provider,
  eq_iff a.provider_event_id a.provider_event_id,
  eq_iff a.source_version a.source_version,
  eq_iff a.raw_hash a.raw_hash,
  eq_iff a.freshness_status a.freshness_status,
  flags_eq_refl a.quality_flags,
)
