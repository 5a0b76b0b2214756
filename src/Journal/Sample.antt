-- ===== src/Journal/Sample.antt =====
-- One opportunity, the match that it is about, and digests for the tests.
use urim_platform.Fixture.{at_time}
use urim_platform.Float.Rational.{Fraction, fractions}
use urim_platform.HalfTime.{elevated}
use urim_platform.Market.{Market, second_half_over_0_5, home_or_draw}
use urim_platform.Response.{fresh}
use urim_platform.Opportunity.{
  KairosOpportunityCandidate, KairosMatchOpportunity, Section, analysis_allowed,
}
use urim_platform.Repository.{SourceRow, MatchRow}
use urim_platform.Repository.Sample.{row, match_row}
use urim_platform.Journal.Model.{JournalState, Digests, journal_value}
use urim_platform.Base.{String, none, some, [], ◌∷◌}

abbrev pub first_hash : String
first_hash = "0123456789abcdef0123456789abcdef0123456789abcdef0123456789abcdef"

abbrev pub second_hash : String
second_hash = "1123456789abcdef0123456789abcdef0123456789abcdef0123456789abcdef"

abbrev pub candidate : Market → String → KairosOpportunityCandidate Fraction
candidate market hash = record {
  market = market;
  estimated_probability = fractions.lit 75 2;
  data_quality_score = fractions.lit 800 1;
  technical_confidence_score = fractions.lit 600 1;
  sample_size = 8;
  risk = elevated;
  reasons = [];
  guardrails = [];
  analysis_hash = hash;
}

abbrev pub opportunity : KairosMatchOpportunity Fraction
opportunity = record {
  provider_match_id = 200;
  kickoff_at = at_time 2000;
  home_team_name = "Home";
  away_team_name = "Away";
  competition_name = none;
  section = Section.half_time;
  safety_decision = analysis_allowed;
  primary_analysis = some (candidate second_half_over_0_5 first_hash);
  alternative_analyses = candidate home_or_draw second_hash ∷ [];
  evaluated_markets = [];
  rejection_reasons = [];
  missing_data = [];
  data_freshness = fresh;
}

-- The identifier of an analysis is its hash here, and so are the digests of what is about it.
abbrev pub digests : Digests Fraction
digests = record {
  uuid5 = λ match_id market hash. hash;
  snapshot_hash = λ c. c.analysis_id;
  resolution_hash = λ c. c.analysis_id;
}

abbrev pub empty : JournalState Fraction
empty = record { journal = []; resolutions = [] }

abbrev pub appended_state : JournalState Fraction
appended_state = record {
  journal =
      journal_value digests (at_time 1010) opportunity (at_time 1000)
        (candidate second_half_over_0_5 first_hash)
      ∷ journal_value digests (at_time 1010) opportunity (at_time 1000)
          (candidate home_or_draw second_hash)
      ∷ [];
  resolutions = [];
}

abbrev pub final_source : SourceRow
final_source = record (row "final" 2600) {
  observed_at = at_time 2400;
  available_at = at_time 2500;
  fetched_at = at_time 2550;
}

-- The match was played: nil-nil at the half, and two to one at the end.
abbrev pub final_row : MatchRow
final_row = match_row final_source 200 2000 "FT"
