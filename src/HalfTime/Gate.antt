-- ===== src/HalfTime/Gate.antt =====
-- One analysis of a half-time market: what it is made of, and the validator of its schema,
-- `validate_half_time_gate` of kairos/schemas.py.
use text.Mathlib.Text.{◌==◌ as str_eq}
use text.Mathlib.TextEquality.{eq_iff}
use urim_platform.Base.{
  ℕ, ◌≤◌, String, ◌≡◌, refl, inl, inr, Bool, true, false, not, ◌&&◌, Option, none, some, List, [],
  ◌∷◌, arith, leb, if◌then◌else◌, Bool-cases, ||-eq-false, length, All, all-eq-true, conjunction,
  Result, ok, ◌>>=◌, >>=-eq-ok, is_nil, traverse,
}
use urim_platform.Float.{Float, Laws}
use urim_platform.Observation.{SourceObservation, KairosMatchDataset}
use urim_platform.Market.{Market}
use urim_platform.HalfTime.Model.{
  half_time_recent_window, half_time_minimum_sample_per_team, half_time_h2h_minimum_sample,
  HalfSample, samples, Fingerprint, KairosHalfTimeMarketAnalysis, Evidence,
}
use urim_platform.HalfTime.Scoring.{
  raw_analysis, probability_of, validate_half_time_gate, meets_analysis_schema, validated_analysis,
  is_unit, is_unit_or_none, is_half_time, is_between, analysis, is_eligible, probability_threshold,
  data_quality_threshold, technical_confidence_threshold,
}
use urim_platform.HalfTime.Analyze.{is_stale, market_probability, evidence_of}
use urim_platform.HalfTime.Samples.{favourable_bounds}
use mathlib.Core.Path.{subst}
use urim_platform.Dataset.{source_observations}
use urim_platform.Base.Text.{is_sha256_hex}
use urim_platform.HalfTime.Scores.{quality_score_bounds, technical_confidence_bounds}

-- Results beside the inputs that they came from.
abbrev pub Aligned : {A B : Type 0} → (A → B → Type 0) → List A → List B → Type 0
Aligned R [] [] = Unit
Aligned R [] (y ∷ ys) = ⊥
Aligned R (x ∷ xs) [] = ⊥
Aligned R (x ∷ xs) (y ∷ ys) = R x y × Aligned R xs ys

pub traverse-Aligned :
    {E A B : Type 0} (R : A → B → Type 0) (body : A → Result E B)
    → ((x : A) (y : B) → body x ≡ ok y → R x y)
    → (xs : List A) (ys : List B) → traverse body xs ≡ ok ys
    → Aligned R xs ys
traverse-Aligned R body each [] [] h = tt
traverse-Aligned R body each [] (y ∷ ys) h = ground arith
traverse-Aligned R body each (x ∷ xs) ys h =
    let (y, first, more) = >>=-eq-ok (body x) (λ y. traverse body xs >>= λ ys. ok (y ∷ ys)) h in
    let (rest, found, last) = >>=-eq-ok (traverse body xs) (λ ys. ok (y ∷ ys)) more in
    let same : (y ∷ rest) ≡ ys = ground (arith, last) in
    rw (← same) (each x y first, traverse-Aligned R body each xs rest found)

module _ {F : Type 0} ⦃fl : Float F⦄ where
  -- A probability is handed out only with sufficient data.
  abbrev pub IsHonest : Evidence F → Option F → Type 0
  IsHonest e none = Unit
  IsHonest e (some p) = e.insufficient_data ≡ false

  -- The analysis is made of this evidence and this probability.
  pub record IsMade (e : Evidence F) (market : Market) (probability : Option F)
      (a : KairosHalfTimeMarketAnalysis F) : Type 0 where
    pub market_kept : a.market ≡ market
    pub probability_kept : a.estimated_probability ≡ probability
    pub quality_kept : a.data_quality_score ≡ e.quality
    pub confidence_kept : a.technical_confidence_score ≡ e.confidence
    pub sample_kept : a.sample_size ≡ e.sample_size
    pub h2h_kept : a.h2h_sample_size ≡ e.h2h_sample_size
    pub guardrails_kept : a.guardrails ≡ e.guardrails
    pub insufficient_kept : a.insufficient_data ≡ e.insufficient_data
    pub eligible_is : a.eligible_for_opportunity ≡ is_eligible probability e

  -- What the constructor returns met the schema.
  validated_analysis-ok :
      (m a : KairosHalfTimeMarketAnalysis F)
      → validated_analysis m ≡ ok a
      → (m ≡ a) × (meets_analysis_schema a ≡ true)
  validated_analysis-ok m a h = elim (Bool-cases (meets_analysis_schema m)) [
    | inl met ↦ let same : m ≡ a = ground (arith, met, h) in (same, rw same at met)
    | inr broken ↦ absurd (ground (arith, broken, h))
  ]

  pub raw_analysis-IsMade :
      {V : Type 0} (digest : Fingerprint F → String) (d : KairosMatchDataset V) (e : Evidence F)
      (market : Market) (probability : Option F) (sources : List SourceObservation)
      → IsMade e market probability (raw_analysis digest d e market probability sources)
  raw_analysis-IsMade digest d e market probability sources = record {
    market_kept = refl;
    probability_kept = refl;
    quality_kept = refl;
    confidence_kept = refl;
    sample_kept = refl;
    h2h_kept = refl;
    guardrails_kept = refl;
    insufficient_kept = refl;
    eligible_is = refl;
  }

  pub analysis-IsMade :
      {V : Type 0} (digest : Fingerprint F → String) (d : KairosMatchDataset V) (e : Evidence F)
      (market : Market) (probability : Option F) (a : KairosHalfTimeMarketAnalysis F)
      → analysis digest d e market probability ≡ ok a
      → IsMade e market probability a × (meets_analysis_schema a ≡ true)
  unfolding analysis
  analysis-IsMade digest d e market probability a h =
      let (sources, found, h1) =
        >>=-eq-ok (source_observations d)
          (λ sources. validated_analysis (raw_analysis digest d e market probability sources)) h in
      let (same, met) =
        validated_analysis-ok (raw_analysis digest d e market probability sources) a h1 in
      (
        subst (IsMade e market probability) same
            (raw_analysis-IsMade digest d e market probability sources),
        met,
      )

  pub IsMade-gate :
      (e : Evidence F) (market : Market) (probability : Option F)
      (a : KairosHalfTimeMarketAnalysis F)
      → IsHonest e probability
      → IsMade e market probability a
      → validate_half_time_gate a ≡ true
  unfolding validate_half_time_gate is_eligible
  IsMade-gate e market none a honest made = ground (arith, made.probability_kept, made.eligible_is)
  IsMade-gate e market (some p) a honest made = ground (
    arith, made.probability_kept, made.eligible_is, made.quality_kept, made.confidence_kept,
    made.guardrails_kept, made.insufficient_kept,
  )

  -- The ranges that the schema declares for the fields of an analysis.
  pub record IsInRange (a : KairosHalfTimeMarketAnalysis F) : Type 0 where
    pub quality_low : fl.le (fl.lit 0 1) a.data_quality_score ≡ true
    pub quality_high : fl.le a.data_quality_score (fl.lit 850 1) ≡ true
    pub confidence_low : fl.le (fl.lit 0 1) a.technical_confidence_score ≡ true
    pub confidence_high : fl.le a.technical_confidence_score (fl.lit 650 1) ≡ true
    pub sample_bounded : a.sample_size ≤ 10
    pub h2h_bounded : a.h2h_sample_size ≤ 5
    pub schema_met : meets_analysis_schema a ≡ true
    pub gate_passed : validate_half_time_gate a ≡ true

  -- What makes an analysis eligible for an opportunity.
  pub record IsBacked {V : Type 0} (d : KairosMatchDataset V) (threshold : ℕ)
      (a : KairosHalfTimeMarketAnalysis F) : Type 0 where
    pub fresh_source : d.target.source.freshness_status ≡ "fresh"
    pub not_stale : is_stale fl d threshold ≡ false
    pub home_history : 3 ≤ length (samples d.home_history half_time_recent_window)
    pub away_history : 3 ≤ length (samples d.away_history half_time_recent_window)
    pub likely :
        (p : F) × (a.estimated_probability ≡ some p) × (fl.le probability_threshold p ≡ true)
    pub quality : fl.le data_quality_threshold a.data_quality_score ≡ true
    pub confidence : fl.le technical_confidence_threshold a.technical_confidence_score ≡ true

pub is_stale-fresh :
    {F V : Type 0} (fl : Float F) (d : KairosMatchDataset V) (threshold : ℕ)
    → is_stale fl d threshold ≡ false
    → d.target.source.freshness_status ≡ "fresh"
unfolding is_stale
is_stale-fresh fl d threshold h =
    let (status, age) =
      (||-eq-false (not (str_eq d.target.source.freshness_status "fresh")) _).0 h in
    (eq_iff _ _).0 (ground (arith, status))

-- What `evidence_of` gives, for all that it may be called with.
pub record EvidenceFacts {F : Type 0} ⦃fl : Float F⦄ (home away : List HalfSample) (stale : Bool)
    (e : Evidence F) (probability : Market → Option F) : Type 0 where
  pub quality_low : fl.le (fl.lit 0 1) e.quality ≡ true
  pub quality_high : fl.le e.quality (fl.lit 850 1) ≡ true
  pub confidence_low : fl.le (fl.lit 0 1) e.confidence ≡ true
  pub confidence_high : fl.le e.confidence (fl.lit 650 1) ≡ true
  pub sample_bounded : e.sample_size ≤ 10
  pub h2h_bounded : e.h2h_sample_size ≤ 5
  pub unit : (market : Market) → is_unit_or_none (probability market) ≡ true
  pub some_reasons : 1 ≤ length e.reasons
  pub few_reasons : length e.reasons ≤ 6
  pub few_guardrails : length e.guardrails ≤ 6
  pub honest : (market : Market) → IsHonest e (probability market)
  pub eligible :
      (market : Market)
      → is_eligible (probability market) e ≡ true
      → (stale ≡ false)
        × (3 ≤ length home)
        × (3 ≤ length away)
        × ((p : F) × (probability market ≡ some p)
            × (fl.le probability_threshold p ≡ true)
            × (fl.le data_quality_threshold e.quality ≡ true)
            × (fl.le technical_confidence_threshold e.confidence ≡ true))

-- A conjunction of tests that are all true.
all_true : (bs : List Bool) → All (λ b. b ≡ true) bs → conjunction bs ≡ true
all_true bs h = (all-eq-true (λ b. b) bs).1 h

both_true : {a b : Bool} → a ≡ true → b ≡ true → (a && b) ≡ true
both_true p q = rw (p, q) refl

module _ {F : Type 0} ⦃fl : Float F⦄ (laws : Laws fl) where
  -- The estimated probability of every market lies in the unit interval.
  probability_unit :
      (merged h2h : List HalfSample) (market : Market)
      → is_unit (market_probability {F = F} merged h2h market) ≡ true
  unfolding market_probability probability_of
  probability_unit merged h2h market =
      let low : (l : List HalfSample) → fl.le (fl.lit 0 0) (probability_of l market) ≡ true =
        λ l. laws.div_low _ _ (omega (arith, favourable_bounds market l)) in
      let high : (l : List HalfSample) → fl.le (probability_of l market) (fl.lit 1 0) ≡ true = λ l.
        laws.div_high _ _ (omega (arith, favourable_bounds market l))
          (omega (arith, favourable_bounds market l)) in
      let blended = leb half_time_h2h_minimum_sample (length h2h) in
      let base = probability_of merged market in
      let mean =
        fl.add (fl.mul base (fl.sub (fl.lit 10 1) (fl.lit 10 2)))
          (fl.mul (probability_of h2h market) (fl.lit 10 2)) in
      round-unit (if blended then mean else base)
        (chosen (λ x. fl.le (fl.lit 0 0) x ≡ true) blended mean base
          (laws.mean_low base (probability_of h2h market) (low merged) (low h2h)) (low merged))
        (chosen (λ x. fl.le x (fl.lit 1 0) ≡ true) blended mean base
          (laws.mean_high base (probability_of h2h market) (high merged) (high h2h)) (high merged))
    where
      chosen : (P : F → Type 0) (b : Bool) (x y : F) → P x → P y → P (if b then x else y)
      chosen P true x y p q = p
      chosen P false x y p q = q

      round-unit :
          (x : F)
          → fl.le (fl.lit 0 0) x ≡ true
          → fl.le x (fl.lit 1 0) ≡ true
          → is_unit (fl.round x 6) ≡ true
      round-unit x p q =
          let above : fl.le (fl.lit 0 0) (fl.round x 6) ≡ true =
            rw (laws.round_lit 0 0 6 (omega arith)) at (laws.round_mono (fl.lit 0 0) x 6 p) in
          let below : fl.le (fl.round x 6) (fl.lit 1 0) ≡ true =
            rw (laws.round_lit 1 0 6 (omega arith)) at (laws.round_mono x (fl.lit 1 0) 6 q) in
          both_true above below

  -- The constructor accepts what `_analysis` makes of such an evidence, if the digest is one.
  pub raw_analysis-meets :
      {V : Type 0} (digest : Fingerprint F → String) (d : KairosMatchDataset V)
      (home away : List HalfSample) (stale : Bool) (e : Evidence F)
      (probability : Market → Option F)
      → EvidenceFacts home away stale e probability
      → ((f : Fingerprint F) → is_sha256_hex (digest f) ≡ true)
      → (market : Market) → is_half_time market ≡ true
      → (sources : List SourceObservation)
      → meets_analysis_schema (raw_analysis digest d e market (probability market) sources) ≡ true
  unfolding meets_analysis_schema
  raw_analysis-meets digest d home away stale e probability facts hex market half sources =
      let made = raw_analysis-IsMade digest d e market (probability market) sources in
      let gate = IsMade-gate e market (probability market) _ (facts.honest market) made in
      let raw = raw_analysis digest d e market (probability market) sources in
      all_true
        (is_half_time market
          ∷ is_unit_or_none (probability market)
          ∷ is_between (fl.lit 0 1) (fl.lit 850 1) e.quality
          ∷ is_between (fl.lit 0 1) (fl.lit 650 1) e.confidence
          ∷ leb e.sample_size 10
          ∷ leb e.h2h_sample_size 5
          ∷ leb 1 (length e.reasons)
          ∷ leb (length e.reasons) 6
          ∷ leb (length e.guardrails) 6
          ∷ is_sha256_hex raw.analysis_hash
          ∷ validate_half_time_gate raw
          ∷ [])
        (
          half,
          (
            facts.unit market,
            (
              both_true facts.quality_low facts.quality_high,
              (
                both_true facts.confidence_low facts.confidence_high,
                (
                  ground (arith, facts.sample_bounded),
                  (
                    ground (arith, facts.h2h_bounded),
                    (
                      ground (arith, facts.some_reasons),
                      (
                        ground (arith, facts.few_reasons),
                        (ground (arith, facts.few_guardrails), (hex _, (gate, tt))),
                      ),
                    ),
                  ),
                ),
              ),
            ),
          ),
        )

  pub evidence_lem :
      (home away merged h2h : List HalfSample) (standings goals : ℕ) (stale : Bool)
      → length merged ≤ 10
      → length h2h ≤ 5
      → let r = evidence_of {F = F} home away merged h2h standings goals stale in
        EvidenceFacts home away stale r.0 r.1
  unfolding evidence_of is_eligible
  evidence_lem home away merged h2h standings goals stale small few =
      let quality =
        quality_score_bounds laws (length home) (length away) (length h2h) standings goals stale in
      let confidence =
        technical_confidence_bounds laws (length merged) (length home) (length away) (length h2h)
          stale in
      let zero_high = laws.lit_le 0 1 650 1 (omega arith) in
      let zero_low = laws.lit_le 0 1 0 1 (omega arith) in
      elim (Bool-cases (
        (leb half_time_minimum_sample_per_team (length home)
          && leb half_time_minimum_sample_per_team (length away))
        && not (is_nil merged))) [
          | inl enough ↦ rw enough (record {
            quality_low = quality.0;
            quality_high = quality.1;
            confidence_low = confidence.0;
            confidence_high = confidence.1;
            sample_bounded = small;
            h2h_bounded = few;
            unit = λ market. probability_unit merged h2h market;
            some_reasons = omega arith;
            few_reasons = omega arith;
            few_guardrails = ground arith;
            honest = λ market. refl;
            eligible = λ market h. (
              ground (arith, h),
              ground (arith, enough),
              ground (arith, enough),
              (
                market_probability merged h2h market,
                refl,
                ground (arith, h),
                ground (arith, h),
                ground (arith, h),
              ),
            );
          })
          | inr short ↦ rw short (record {
            quality_low = quality.0;
            quality_high = quality.1;
            confidence_low = zero_low;
            confidence_high = zero_high;
            sample_bounded = small;
            h2h_bounded = few;
            unit = λ market. refl;
            some_reasons = omega arith;
            few_reasons = omega arith;
            few_guardrails = omega arith;
            honest = λ market. tt;
            eligible = λ market h. cc;
          })
        ]
