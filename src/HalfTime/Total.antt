-- ===== src/HalfTime/Total.antt =====
-- When `analyze_half_time_markets` returns, and the validators of what it returns.
use urim_platform.HalfTime.Run.{analyze_half_time_markets-IsInRange, shared, shared_facts}
use urim_platform.Base.{
  ℕ, ◌<◌, String, ◌≡◌, refl, ap, true, List, [], ◌∷◌, map, arith, ◌==◌, All, Result, ok, ◌>>=◌,
  raise_if, raise_if-eq-ok, traverse,
}
use urim_platform.Base.Text.{is_sha256_hex}
use urim_platform.Float.{Float, Laws}
use urim_platform.Observation.{SourceObservation, KairosMatchDataset}
use urim_platform.Market.{Market, half_time_markets}
use urim_platform.Dataset.{
  KairosError, source_observations, validate_temporal_integrity, validate_data_integrity,
}
use urim_platform.Dataset.Temporal.{validate_temporal_integrity_iff}
use urim_platform.Dataset.Sources.{source_observations_iff}
use urim_platform.HalfTime.Model.{Fingerprint, KairosHalfTimeMarketAnalysis}
use urim_platform.HalfTime.Scoring.{analysis, raw_analysis, is_half_time}
use urim_platform.HalfTime.Analyze.{
  lift, freshness_threshold_minutes_must_be_positive, analyze_half_time_markets,
}
use urim_platform.HalfTime.Gate.{IsInRange, raw_analysis-meets}

bind-total {ℓ κ μ} :
    {E : Type ℓ} {A : Type κ} {B : Type μ} (m : Result E A) (f : A → Result E B) {a : A}
    → m ≡ ok a
    → (b : B) × (f a ≡ ok b)
    → (b : B) × ((m >>= f) ≡ ok b)
bind-total m f e (b, h) = (b, rw e h)

lift-total :
    {A : Type 0} (m : Result KairosError A) → (a : A) × (m ≡ ok a) → (a : A) × (lift m ≡ ok a)
lift-total m (a, e) = (a, rw e refl)

-- `sha256(…).hexdigest()` is a text of 64 hexadecimal digits.
abbrev pub IsHexDigest : {A : Type 0} → (A → String) → Type 0
IsHexDigest digest = (x : _) → is_sha256_hex (digest x) ≡ true

-- A loop whose body returns on every element of the list returns.
traverse-total_on :
    {E A B : Type 0} (P : A → Type 0) (body : A → Result E B)
    → ((x : A) → P x → (y : B) × (body x ≡ ok y))
    → (xs : List A) → All P xs
    → (ys : List B) × (traverse body xs ≡ ok ys)
traverse-total_on P body each [] h = ([], refl)
traverse-total_on P body each (x ∷ xs) h =
    let (y, e) = each x h.0 in
    let (ys, es) = traverse-total_on P body each xs h.1 in (y ∷ ys, rw (e, es) refl)

module _ {F V : Type 0} ⦃fl : Float F⦄ (digest : Fingerprint F → String) (d : KairosMatchDataset V)
    (laws : Laws fl) (hex : IsHexDigest digest) where
  analysis-total :
      (threshold : ℕ) (market : Market)
      → is_half_time market ≡ true
      → (sources : List SourceObservation) → source_observations d ≡ ok sources
      → (a : KairosHalfTimeMarketAnalysis F) × (analysis digest d
            (shared laws digest d threshold).0
            market
            ((shared laws digest d threshold).1 market)
          ≡ ok a)
  unfolding analysis
  analysis-total threshold market half sources found =
      let evidence = shared laws digest d threshold in
      let raw = raw_analysis digest d evidence.0 market (evidence.1 market) sources in
      let met =
        raw_analysis-meets laws digest d _ _ _ evidence.0 evidence.1
          (shared_facts laws digest d threshold) hex market half sources in
      bind-total (source_observations d) _ found (raw, rw met refl)

  analyze-total :
      (threshold : ℕ)
      → validate_temporal_integrity d ≡ ok tt
      → validate_data_integrity d ≡ ok tt
      → 0 < threshold
      → (l : List (KairosHalfTimeMarketAnalysis F)) × (analyze_half_time_markets digest d threshold
          ≡ ok l)
  unfolding analyze_half_time_markets
  analyze-total threshold temporal integrity positive =
      let (sources, found) =
        (source_observations_iff d).1 ((validate_temporal_integrity_iff d).0 temporal).compatible in
      let set : raise_if (threshold == 0) freshness_threshold_minutes_must_be_positive ≡ ok tt =
        (raise_if-eq-ok _ _).1 (ground (arith, positive)) in
      bind-total _ _ (ap lift temporal) (
        bind-total _ _ (ap lift integrity) (
          bind-total _ _ set (
            lift-total _ (
              traverse-total_on (λ market. is_half_time market ≡ true) _
                (λ market half. analysis-total threshold market half sources found)
                half_time_markets (refl, (refl, (refl, (refl, (refl, (refl, tt))))))))))

  -- On a dataset that passes both checks, with a positive threshold, the run returns one analysis
  -- for each of the six half-time markets, in their order; each passes the validator of its
  -- schema, and its fields meet the schema, the
  -- probability between 0 and 1 among them, so that no constructor raises. `digest` is taken to give
  -- 64 hexadecimal digits.
  pub analyze_half_time_markets_lem :
      (threshold : ℕ)
      → validate_temporal_integrity d ≡ ok tt
      → validate_data_integrity d ≡ ok tt
      → 0 < threshold
      → (l : List (KairosHalfTimeMarketAnalysis F)) × (analyze_half_time_markets digest d threshold
          ≡ ok l)
        × (map (λ a. a.market) l ≡ half_time_markets)
        × All IsInRange l
  analyze_half_time_markets_lem threshold temporal integrity positive =
      let (l, made) = analyze-total threshold temporal integrity positive in
      let (markets, ranges) = analyze_half_time_markets-IsInRange laws digest d threshold l made in
      (l, made, markets, ranges)
