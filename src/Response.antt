-- ===== src/Response.antt =====
-- The parts of the responses of kairos/schemas.py that several components share.
use urim_platform.Base.{ℕ, String, Bool, true, false, Option, List}
use urim_platform.HalfTime.{KairosHalfTimeMarketAnalysis}

pub record KairosMarketProbabilities (F : Type 0) : Type 0 where
  pub home_win : F
  pub draw : F
  pub away_win : F
  pub home_or_draw : F
  pub away_or_draw : F
  pub home_or_away : F
  pub over_2_5 : F
  pub under_2_5 : F
  pub btts : F

pub data Severity : Type 0 where
  info warning blocking : Severity

abbrev pub is_blocking : Severity → Bool
is_blocking blocking = true
is_blocking _ = false

pub record KairosWarning : Type 0 where
  pub code : String
  pub message : String
  pub severity : Severity

pub data Freshness : Type 0 where
  fresh stale : Freshness

abbrev pub is_fresh : Freshness → Bool
is_fresh fresh = true
is_fresh stale = false

-- `KairosAnalysisResponse`, the fields that the opportunities read. The service always fills in
-- the suggestion and the freshness; `availability` holds `available_for_both_teams` by feature.
pub record KairosAnalysisResponse (F : Type 0) : Type 0 where
  pub model_version : String
  pub market_probabilities : Option (KairosMarketProbabilities F)
  pub suggestion_no_bet : Bool
  pub data_freshness : Freshness
  pub data_quality_score : F
  pub confidence_score : F
  pub home_sample_size : ℕ
  pub away_sample_size : ℕ
  pub feature_snapshot_hash : String
  pub warnings : List KairosWarning
  pub availability : List Bool
  pub half_time_analysis : List (KairosHalfTimeMarketAnalysis F)
