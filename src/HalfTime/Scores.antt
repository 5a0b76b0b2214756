-- ===== src/HalfTime/Scores.antt =====
-- The two scores of a half-time analysis stay in the ranges of the schema.
use urim_platform.Base.{ℕ, ◌≡◌, Bool, true, arith}
use urim_platform.Float.{Float, Laws, round-clamp}
use urim_platform.HalfTime.Scoring.{
  quality_score, technical_confidence, quality_sum, confidence_sum,
}

module _ {F : Type 0} ⦃fl : Float F⦄ (laws : Laws fl) where
  -- The quality score lies between 0.0 and HALF_TIME_QUALITY_CAP, whatever was counted.
  pub quality_score_bounds :
      (home away h2h standings goals : ℕ) (stale : Bool)
      → (fl.le (fl.lit 0 1) (quality_score home away h2h standings goals stale) ≡ true)
        × (fl.le (quality_score home away h2h standings goals stale) (fl.lit 850 1) ≡ true)
  unfolding quality_score
  quality_score_bounds home away h2h standings goals stale =
      round-clamp laws 0 1 850 1 1 (quality_sum home away h2h standings goals stale) (omega arith)
        (omega arith) (omega arith)

  -- The technical confidence lies between 0.0 and HALF_TIME_CONFIDENCE_CAP.
  pub technical_confidence_bounds :
      (sample home away h2h : ℕ) (stale : Bool)
      → (fl.le (fl.lit 0 1) (technical_confidence sample home away h2h stale) ≡ true)
        × (fl.le (technical_confidence sample home away h2h stale) (fl.lit 650 1) ≡ true)
  unfolding technical_confidence
  technical_confidence_bounds sample home away h2h stale =
      round-clamp laws 0 1 650 1 1 (confidence_sum sample home away h2h stale) (omega arith)
        (omega arith) (omega arith)
