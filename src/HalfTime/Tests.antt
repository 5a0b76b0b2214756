-- ===== src/HalfTime/Tests.antt =====
-- The analysis of one match, with fractions for floats.
use urim_platform.HalfTime.Run.{analyze_half_time_markets-IsBacked}
use urim_platform.HalfTime.Model.{
  HalfSample, samples, deduplicate, Fingerprint, KairosHalfTimeMarketAnalysis,
}
use urim_platform.Base.{◌≤◌, String, ◌≡◌, refl, true, List, [], ◌∷◌, map, arith, length, All, ok}
use urim_platform.Float.Rational.{Fraction, fractions, fractions-Laws}
use urim_platform.Fixture.{some_hash, match_one, match_two, match_three, dataset}
use urim_platform.Market.{half_time_markets}
use urim_platform.Dataset.Tests.{dataset-temporal, dataset-integrity}
use urim_platform.HalfTime.Analyze.{analyze_half_time_markets}
use urim_platform.HalfTime.Samples.{IsUnique, IsObserved, HasMatch, samples_lem, deduplicate_lem}
use urim_platform.HalfTime.Gate.{IsInRange, IsBacked}
use urim_platform.HalfTime.Total.{analyze_half_time_markets_lem}

abbrev digest : Fingerprint Fraction → String
digest f = some_hash

abbrev sample_one : HalfSample
sample_one = record { provider_match_id = 101; first_half_goals = 0; second_half_goals = 3 }

abbrev sample_two : HalfSample
sample_two = record { provider_match_id = 102; first_half_goals = 1; second_half_goals = 3 }

samples-two :
    samples (match_one ∷ match_one ∷ match_two ∷ match_three ∷ []) 2 ≡ sample_one ∷ sample_two ∷ []
unfolding samples
samples-two = refl

samples_lem_example :
    (length (samples (match_one ∷ match_one ∷ match_two ∷ []) 5) ≤ 5)
    × IsUnique (samples (match_one ∷ match_one ∷ match_two ∷ []) 5)
    × All
        (IsObserved (match_one ∷ match_one ∷ match_two ∷ []))
        (samples (match_one ∷ match_one ∷ match_two ∷ []) 5)
samples_lem_example = samples_lem (match_one ∷ match_one ∷ match_two ∷ []) 5 (omega arith)

deduplicate_lem_example :
    IsUnique (deduplicate (sample_one ∷ sample_two ∷ sample_one ∷ []))
    × All (λ s. s.second_half_goals ≡ 3) (deduplicate (sample_one ∷ sample_two ∷ sample_one ∷ []))
    × (length (deduplicate (sample_one ∷ sample_two ∷ sample_one ∷ [])) ≤ 3)
    × All
        (λ s.
          HasMatch s.provider_match_id (deduplicate (sample_one ∷ sample_two ∷ sample_one ∷ [])))
        (sample_one ∷ sample_two ∷ sample_one ∷ [])
deduplicate_lem_example =
    deduplicate_lem (λ s. s.second_half_goals ≡ 3) (sample_one ∷ sample_two ∷ sample_one ∷ [])
      (refl, (refl, (refl, tt)))

analyze_half_time_markets_lem_example :
    (l : List (KairosHalfTimeMarketAnalysis Fraction)) × (analyze_half_time_markets digest dataset
        60
      ≡ ok l)
    × (map (λ a. a.market) l ≡ half_time_markets)
    × All IsInRange l
analyze_half_time_markets_lem_example =
    analyze_half_time_markets_lem digest dataset fractions-Laws (λ f. refl) 60 dataset-temporal
      dataset-integrity (omega arith)

-- What the run returns.
abbrev run :
    (l : List (KairosHalfTimeMarketAnalysis Fraction)) × (analyze_half_time_markets digest dataset
        60
      ≡ ok l)
    × (map (λ a. a.market) l ≡ half_time_markets)
    × All IsInRange l
run =
    analyze_half_time_markets_lem digest dataset fractions-Laws (λ f. refl) 60 dataset-temporal
      dataset-integrity (omega arith)

analyze_half_time_markets-IsBacked_example :
    All (λ a. a.eligible_for_opportunity ≡ true → IsBacked dataset 60 a) run.0
analyze_half_time_markets-IsBacked_example =
    analyze_half_time_markets-IsBacked fractions-Laws digest dataset 60 run.0 run.1
