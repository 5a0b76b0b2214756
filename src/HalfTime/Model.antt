-- ===== src/HalfTime/Model.antt =====
-- The data, the samples and the counts of kairos/half_time.py; the texts of the reasons are their
-- keys.
use urim_platform.Base.{
  ℕ, suc, String, Bool, true, false, not, ◌&&◌, Option, none, some, List, [], ◌∷◌, ◌++◌, ltb, leb,
  ◌==◌, if◌then◌else◌, length,
}
use urim_platform.Base.Int.{ℤ, pos, negsuc}
use urim_platform.Base.Instant.{DateTime}
use urim_platform.Base.Text.{is_goal}
use urim_platform.Observation.{MatchObservation, EventObservation}
use urim_platform.Match.{half_goal_totals}
use urim_platform.Market.{
  Market, first_half_more_goals, second_half_more_goals, equal_half_goals, first_half_over_0_5,
  second_half_over_0_5, second_half_over_1_5,
}
use urim_platform.Dataset.{contains}

-- The constants of opportunity_config.py.
abbrev pub half_time_recent_window : ℕ
half_time_recent_window = 5

abbrev pub half_time_minimum_sample_per_team : ℕ
half_time_minimum_sample_per_team = 3

abbrev pub half_time_h2h_limit : ℕ
half_time_h2h_limit = 5

abbrev pub half_time_h2h_minimum_sample : ℕ
half_time_h2h_minimum_sample = 3

pub record HalfSample : Type 0 where
  pub provider_match_id : ℕ
  pub first_half_goals : ℕ
  pub second_half_goals : ℕ

-- The loop of `_samples`: what was seen, what was kept, and the matches to come.
unfoldable pub samples_from : ℕ → List ℕ → List HalfSample → List MatchObservation → List HalfSample
unfolding half_goal_totals
samples_from limit seen result [] = result
samples_from limit seen result (m ∷ history) = elim (contains seen m.provider_match_id) [
  | true ↦ samples_from limit seen result history
  | false ↦ elim (half_goal_totals m) [
    | none ↦ samples_from limit seen result history
    | some (first, second) ↦
        let sample : HalfSample = record {
          provider_match_id = m.provider_match_id;
          first_half_goals = first;
          second_half_goals = second;
        } in
        let longer = result ++ (sample ∷ []) in
        let rest = samples_from limit (m.provider_match_id ∷ seen) longer history in
        if leb limit (length longer) then longer else rest
  ]
]

unfoldable pub samples : List MatchObservation → ℕ → List HalfSample
unfolding samples_from
samples history limit = samples_from limit [] [] history

-- A dict keeps the place of a key and takes its last value.
unfoldable pub put_sample : HalfSample → List HalfSample → List HalfSample
put_sample sample [] = sample ∷ []
put_sample sample (s ∷ rest) =
    if s.provider_match_id == sample.provider_match_id
    then sample ∷ rest
    else s ∷ put_sample sample rest

unfoldable pub deduplicate_from : List HalfSample → List HalfSample → List HalfSample
unfolding put_sample
deduplicate_from unique [] = unique
deduplicate_from unique (sample ∷ rest) = deduplicate_from (put_sample sample unique) rest

unfoldable pub deduplicate : List HalfSample → List HalfSample
unfolding deduplicate_from
deduplicate = deduplicate_from []

-- `sum(p(sample) for sample in samples)`
abbrev pub count_if : (HalfSample → Bool) → List HalfSample → ℕ
count_if p [] = 0
count_if p (s ∷ rest) = if p s then suc (count_if p rest) else count_if p rest

-- The count behind a market's probability and the number of outcomes that it competes with.
abbrev pub favourable : Market → List HalfSample → ℕ
favourable first_half_more_goals l = count_if (λ s. ltb s.second_half_goals s.first_half_goals) l
favourable second_half_more_goals l = count_if (λ s. ltb s.first_half_goals s.second_half_goals) l
favourable equal_half_goals l = count_if (λ s. s.first_half_goals == s.second_half_goals) l
favourable first_half_over_0_5 l = count_if (λ s. leb 1 s.first_half_goals) l
favourable second_half_over_0_5 l = count_if (λ s. leb 1 s.second_half_goals) l
favourable second_half_over_1_5 l = count_if (λ s. leb 2 s.second_half_goals) l
favourable _ l = 0

abbrev pub alternatives : Market → ℕ
alternatives first_half_more_goals = 3
alternatives second_half_more_goals = 3
alternatives equal_half_goals = 3
alternatives _ = 2

pub data Risk : Type 0 where
  guarded elevated high : Risk

pub data Guardrail : Type 0 where
  stale_source_data insufficient_half_time_history : Guardrail

-- The texts that explain an analysis.
pub data HalfTimeReason : Type 0 where
  history_required : HalfTimeReason
  recent_matches : ℕ → HalfTimeReason
  h2h_ignored h2h_secondary goal_minutes_known goal_minutes_unknown : HalfTimeReason

-- What the analysis hash is taken of.
pub record Fingerprint (F : Type 0) : Type 0 where
  pub as_of : DateTime
  pub market : Market
  pub probability : Option F
  pub quality : F
  pub confidence : F
  pub sample_size : ℕ
  pub h2h_sample_size : ℕ
  pub source_hashes : List String

pub record KairosHalfTimeMarketAnalysis (F : Type 0) : Type 0 where
  pub market : Market
  pub estimated_probability : Option F
  pub data_quality_score : F
  pub technical_confidence_score : F
  pub sample_size : ℕ
  pub h2h_sample_size : ℕ
  pub risk : Risk
  pub reasons : List HalfTimeReason
  pub guardrails : List Guardrail
  pub eligible_for_opportunity : Bool
  pub insufficient_data : Bool
  pub analysis_hash : String

-- What every call of `_analysis` shares.
pub record Evidence (F : Type 0) : Type 0 where
  pub quality : F
  pub confidence : F
  pub sample_size : ℕ
  pub h2h_sample_size : ℕ
  pub insufficient_data : Bool
  pub reasons : List HalfTimeReason
  pub guardrails : List Guardrail

-- The provider's goal minute is known: `elapsed is not None and elapsed >= 0`.
abbrev pub minute_known : Option ℤ → Bool
minute_known none = false
minute_known (some (pos n)) = true
minute_known (some (negsuc n)) = false

-- The size of the set of matches with a timed goal.
abbrev pub goal_event_match_ids : List ℕ → List EventObservation → List ℕ
goal_event_match_ids seen [] = seen
goal_event_match_ids seen (e ∷ events) =
    goal_event_match_ids
      (if (is_goal e.event_type && minute_known e.elapsed)
          && not (contains seen e.provider_match_id)
        then e.provider_match_id ∷ seen
        else seen)
      events
