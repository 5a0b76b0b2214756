-- ===== src/Dataset/Tests.antt =====
-- The checks of a dataset, run on one match.
use urim_platform.Dataset.Remember.{IsCompatible}
use urim_platform.Dataset.Sources.{source_observations_iff, source_observations-All}
use urim_platform.Dataset.Temporal.{IsTemporallySound, validate_temporal_integrity_iff}
use urim_platform.Dataset.Scope.{IsScoped, IsProvenanced}
use urim_platform.Dataset.Integrity.{validate_data_integrity-IsScoped}
use urim_platform.Dataset.Checks.{
  check_provenance, remember, remember_all, check_scopes, check_history_match, check_source_times,
  collected, source_observations, validate_temporal_integrity, validate_data_integrity,
}
use urim_platform.Base.Sort.{sorted, insert_sorted}
use urim_platform.Base.{◌≡◌, refl, ◌↔◌, List, [], ◌∷◌, All, ok}
use urim_platform.Observation.{SourceObservation}
use urim_platform.Fixture.{source, dataset}

abbrev distinct : List SourceObservation
distinct = source "goal" ∷ source "one" ∷ source "target" ∷ source "three" ∷ source "two" ∷ []

dataset-sources : source_observations dataset ≡ ok distinct
unfolding source_observations remember_all collected remember sorted insert_sorted
dataset-sources = refl

pub dataset-temporal : validate_temporal_integrity dataset ≡ ok tt
unfolding validate_temporal_integrity source_observations check_history_match remember_all collected
    remember sorted insert_sorted check_source_times
dataset-temporal = refl

pub dataset-integrity : validate_data_integrity dataset ≡ ok tt
unfolding validate_data_integrity source_observations check_scopes remember_all collected remember
    sorted insert_sorted check_provenance
dataset-integrity = refl

source_observations_iff_example :
    ((result : List SourceObservation) × (source_observations dataset ≡ ok result))
    ↔ IsCompatible (collected dataset)
source_observations_iff_example = source_observations_iff dataset

source_observations-All_example :
    All (λ s. s.provider ≡ "api-football") distinct
    ↔ All (λ s. s.provider ≡ "api-football") (collected dataset)
source_observations-All_example =
    source_observations-All dataset (λ s. s.provider ≡ "api-football") distinct dataset-sources

validate_temporal_integrity_iff_example :
    (validate_temporal_integrity dataset ≡ ok tt) ↔ IsTemporallySound dataset
validate_temporal_integrity_iff_example = validate_temporal_integrity_iff dataset

validate_data_integrity-IsScoped_example : IsScoped dataset × All IsProvenanced (collected dataset)
validate_data_integrity-IsScoped_example =
    validate_data_integrity-IsScoped dataset dataset-integrity
