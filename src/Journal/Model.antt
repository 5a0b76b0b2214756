-- ===== src/Journal/Model.antt =====
-- The rows of the journal and of the resolutions, and how they are made: `_journal_value` and
-- `_resolution_value` of kairos/journal.py, with the constraints of their tables in db/models.py.
use text.Mathlib.Text.{◌==◌ as str_eq}
use urim_platform.Base.Int.{ℤ}
use urim_platform.Base.Text.{codes}
use urim_platform.Base.Instant.{DateTime, before, until}
use urim_platform.Float.{Float}
use urim_platform.Market.{
  Market, home_or_draw, away_or_draw, home_or_away, Outcome, void, evaluate_market_outcome,
}
use urim_platform.Opportunity.{
  KairosOpportunityCandidate, SafetyDecision, analysis_allowed, KairosMatchOpportunity,
}
use urim_platform.Repository.{MatchRow, api_football_provider}
use urim_platform.Base.{
  ℕ, String, Bool, true, false, ◌&&◌, ◌||◌, Option, some, List, [], ◌∷◌, leb, ◌==◌, if◌then◌else◌,
  length, all, conjunction,
}

pub data JournalError : Type 0 where
  snapshots_must_be_aware_pre_match resolution_as_of_must_be_aware : JournalError
  resolution_limit_outside_range integrity_error datetimes_not_comparable : JournalError

pub record JournalWriteSummary : Type 0 where
  pub received : ℕ
  pub inserted_rows : ℕ
  pub duplicate : ℕ

-- The columns of `kairos_analysis_journal`; the server sets `created_at`.
pub record JournalRow (F : Type 0) : Type 0 where
  pub analysis_id : String
  pub provider_match_id : ℕ
  pub kickoff_at : DateTime
  pub analysis_time : DateTime
  pub model_version : String
  pub market : Market
  pub estimated_probability : F
  pub data_quality_score : F
  pub technical_confidence_score : F
  pub sample_size : ℕ
  pub safety_decision : SafetyDecision
  pub analysis_hash : String
  pub analysis_payload : KairosOpportunityCandidate F
  pub immutable_hash : String
  pub created_at : DateTime

pub record OutcomePayload : Type 0 where
  pub match_kickoff_at : DateTime
  pub score_halftime_home : Option ℤ
  pub score_halftime_away : Option ℤ
  pub score_fulltime_home : Option ℤ
  pub score_fulltime_away : Option ℤ
  pub status_short : String
  pub temporal_mismatch : Bool

-- The columns of `kairos_analysis_resolutions`.
pub record ResolutionRow : Type 0 where
  pub analysis_id : String
  pub provider_match_id : ℕ
  pub market : Market
  pub outcome : Outcome
  pub outcome_available_at : DateTime
  pub resolved_at : DateTime
  pub provider : String
  pub provider_event_id : String
  pub source_version : String
  pub raw_hash : String
  pub outcome_payload : OutcomePayload
  pub immutable_hash : String
  pub created_at : DateTime

pub record JournalState (F : Type 0) : Type 0 where
  pub journal : List (JournalRow F)
  pub resolutions : List ResolutionRow

-- What the hash of a snapshot and of a resolution is taken of.
pub record SnapshotContent (F : Type 0) : Type 0 where
  pub analysis_id : String
  pub analysis_time : DateTime
  pub kickoff_at : DateTime
  pub payload : KairosOpportunityCandidate F

pub record ResolutionContent : Type 0 where
  pub analysis_id : String
  pub outcome : Outcome
  pub outcome_available_at : DateTime
  pub payload : OutcomePayload
  pub raw_hash : String

-- `uuid5` in the journal's namespace, and SHA-256 of the JSON of a content.
pub record Digests (F : Type 0) : Type 0 where
  pub uuid5 : ℕ → Market → String → String
  pub snapshot_hash : SnapshotContent F → String
  pub resolution_hash : ResolutionContent → String

abbrev pub model_version_of : Market → String
model_version_of home_or_draw = "kairos_core_b2_2_v1"
model_version_of away_or_draw = "kairos_core_b2_2_v1"
model_version_of home_or_away = "kairos_core_b2_2_v1"
model_version_of _ = "kairos_half_time_b2_4_v1"

-- `^[0-9a-f]{64}$`
abbrev pub is_sha256 : String → Bool
is_sha256 s =
    length (codes s) == 64
    && all (λ c. (leb b'0' c && leb c b'9') || (leb b'a' c && leb c b'f')) (codes s)

module _ {F : Type 0} (digests : Digests F) (now : DateTime) where
  unfoldable pub journal_value :
      KairosMatchOpportunity F → DateTime → KairosOpportunityCandidate F → JournalRow F
  journal_value opportunity analysis_time candidate =
      let analysis_id =
        digests.uuid5 opportunity.provider_match_id candidate.market candidate.analysis_hash in
      record {
        analysis_id = analysis_id;
        provider_match_id = opportunity.provider_match_id;
        kickoff_at = opportunity.kickoff_at;
        analysis_time = analysis_time;
        model_version = model_version_of candidate.market;
        market = candidate.market;
        estimated_probability = candidate.estimated_probability;
        data_quality_score = candidate.data_quality_score;
        technical_confidence_score = candidate.technical_confidence_score;
        sample_size = candidate.sample_size;
        safety_decision = opportunity.safety_decision;
        analysis_hash = candidate.analysis_hash;
        analysis_payload = candidate;
        immutable_hash = digests.snapshot_hash (record {
          analysis_id = analysis_id;
          analysis_time = analysis_time;
          kickoff_at = opportunity.kickoff_at;
          payload = candidate;
        });
        created_at = now;
      }

  -- The match is not the one that was analysed, or was reported before the kickoff.
  abbrev pub is_mismatch : JournalRow F → MatchRow → Bool
  is_mismatch row match =
      until match.kickoff_at row.analysis_time || before match.source.available_at row.kickoff_at

  abbrev pub outcome_of : JournalRow F → MatchRow → Outcome
  outcome_of row match =
      if is_mismatch row match
      then void
      else evaluate_market_outcome (some row.market) match.score_halftime_home
          match.score_halftime_away match.score_fulltime_home match.score_fulltime_away

  abbrev pub payload_of : JournalRow F → MatchRow → OutcomePayload
  payload_of row match = record {
    match_kickoff_at = match.kickoff_at;
    score_halftime_home = match.score_halftime_home;
    score_halftime_away = match.score_halftime_away;
    score_fulltime_home = match.score_fulltime_home;
    score_fulltime_away = match.score_fulltime_away;
    status_short = match.status_short;
    temporal_mismatch = is_mismatch row match;
  }

  unfoldable pub resolution_value : DateTime → JournalRow F → MatchRow → ResolutionRow
  unfolding evaluate_market_outcome
  resolution_value as_of row match = record {
    analysis_id = row.analysis_id;
    provider_match_id = row.provider_match_id;
    market = row.market;
    outcome = outcome_of row match;
    outcome_available_at = match.source.available_at;
    resolved_at = as_of;
    provider = api_football_provider;
    provider_event_id = match.source.provider_event_id;
    source_version = match.source.source_version;
    raw_hash = match.source.raw_hash;
    outcome_payload = payload_of row match;
    immutable_hash = digests.resolution_hash (record {
      analysis_id = row.analysis_id;
      outcome = outcome_of row match;
      outcome_available_at = match.source.available_at;
      payload = payload_of row match;
      raw_hash = match.source.raw_hash;
    });
    created_at = now;
  }

abbrev pub is_allowed : SafetyDecision → Bool
is_allowed analysis_allowed = true
is_allowed _ = false

module _ {F : Type 0} ⦃fl : Float F⦄ where
  -- The CHECK constraints of the journal that its column types do not give.
  unfoldable pub meets_constraints : JournalRow F → Bool
  meets_constraints row = conjunction (
      until row.analysis_time row.created_at
      ∷ before row.created_at row.kickoff_at
      ∷ fl.le (fl.lit 0 0) row.estimated_probability
      ∷ fl.le row.estimated_probability (fl.lit 1 0)
      ∷ fl.le (fl.lit 0 0) row.data_quality_score
      ∷ fl.le row.data_quality_score (fl.lit 100 0)
      ∷ fl.le (fl.lit 0 0) row.technical_confidence_score
      ∷ fl.le row.technical_confidence_score (fl.lit 65 0)
      ∷ is_sha256 row.analysis_hash
      ∷ is_sha256 row.immutable_hash
      ∷ is_allowed row.safety_decision
      ∷ [])

-- The CHECK constraints of the resolutions.
unfoldable pub meets_resolution_constraints : ResolutionRow → Bool
meets_resolution_constraints row = conjunction (
    until row.outcome_available_at row.resolved_at
    ∷ until row.resolved_at row.created_at
    ∷ is_sha256 row.raw_hash
    ∷ is_sha256 row.immutable_hash
    ∷ [])

-- The unique columns: the analysis and the hash.
abbrev pub journal_conflicts : {F : Type 0} → JournalRow F → JournalRow F → Bool
journal_conflicts a b =
    str_eq a.analysis_id b.analysis_id || str_eq a.immutable_hash b.immutable_hash

abbrev pub resolution_conflicts : ResolutionRow → ResolutionRow → Bool
resolution_conflicts a b =
    str_eq a.analysis_id b.analysis_id || str_eq a.immutable_hash b.immutable_hash
