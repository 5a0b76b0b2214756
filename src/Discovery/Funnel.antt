-- ===== src/Discovery/Funnel.antt =====
-- `build_retention_funnel` and `RetentionFunnel` of sports_data/discovery.py.
use text.Mathlib.Text.{◌==◌ as str_eq}
use urim_platform.Discovery.Model.{DiscoveryError, funnel_inputs_invalid, funnel_must_reconcile}
use urim_platform.Base.{
  ℕ, ◌+◌, ◌-◌, String, List, [], ◌∷◌, ltb, ◌==◌, if◌then◌else◌, Result, ok, err, ◌>>◌, raise_if,
}

pub record RetentionFunnel : Type 0 where
  pub fixtures_received : ℕ
  pub retained : ℕ
  pub rejected_competition : ℕ
  pub rejected_season : ℕ
  pub rejected_status : ℕ
  pub rejected_kickoff_window : ℕ
  pub rejected_missing_teams : ℕ
  pub rejected_insufficient_coverage : ℕ
  pub rejected_duplicate : ℕ
  pub rejected_other : ℕ

abbrev pub rejected : RetentionFunnel → ℕ
rejected f =
    f.rejected_competition + f.rejected_season + f.rejected_status + f.rejected_kickoff_window
    + f.rejected_missing_teams + f.rejected_insufficient_coverage + f.rejected_duplicate
    + f.rejected_other

-- `__post_init__`
unfoldable pub validated : RetentionFunnel → Result DiscoveryError RetentionFunnel
validated f =
    if f.fixtures_received == f.retained + rejected f then ok f else err funnel_must_reconcile

-- `ignored_reasons.get(reason)`, nothing for a missing one.
unfoldable pub reason_count : List (String × ℕ) → String → ℕ
reason_count [] reason = 0
reason_count ((r, n) ∷ reasons) reason = if str_eq r reason then n else reason_count reasons reason

unfoldable pub requested : List (String × ℕ) → List String → ℕ
unfolding reason_count
requested reasons [] = 0
requested reasons (code ∷ codes) = reason_count reasons code + requested reasons codes

-- One call of `allocate`: what it accepts of the rest.
abbrev pub accepted : ℕ → ℕ → ℕ
accepted wanted remaining = if ltb remaining wanted then remaining else wanted

abbrev pub competition_codes : List String
competition_codes =
    "fixture_competition_invalid" ∷ "competition_metadata_unavailable"
    ∷ "competition_type_unsupported" ∷ "competition_limit" ∷ "request_budget_competition_limit" ∷ []

abbrev pub season_codes : List String
season_codes = "fixture_season_invalid" ∷ "season_metadata_unavailable" ∷ []

abbrev pub status_codes : List String
status_codes = "fixture_status_invalid" ∷ "fixture_status_not_scheduled" ∷ []

abbrev pub kickoff_codes : List String
kickoff_codes =
    "fixture_kickoff_invalid" ∷ "fixture_not_future" ∷ "fixture_outside_requested_window" ∷ []

abbrev pub team_codes : List String
team_codes = "fixture_missing_teams" ∷ "fixture_identity_invalid" ∷ "team_metadata_unavailable" ∷ []

abbrev pub coverage_codes : List String
coverage_codes =
    "insufficient_data_coverage" ∷ "recent_results_unavailable" ∷ "insufficient_recent_results" ∷ []

-- The funnel by what each group of reasons asks for, in the order of the calls.
unfoldable pub allocated : (received retained c s st k t cov d : ℕ) → RetentionFunnel
allocated received retained c s st k t cov d =
    let r0 = received - retained in
    let r1 = r0 - accepted c r0 in
    let r2 = r1 - accepted s r1 in
    let r3 = r2 - accepted st r2 in
    let r4 = r3 - accepted k r3 in
    let r5 = r4 - accepted t r4 in
    let r6 = r5 - accepted cov r5 in
    record {
      fixtures_received = received;
      retained = retained;
      rejected_competition = accepted c r0;
      rejected_season = accepted s r1;
      rejected_status = accepted st r2;
      rejected_kickoff_window = accepted k r3;
      rejected_missing_teams = accepted t r4;
      rejected_insufficient_coverage = accepted cov r5;
      rejected_duplicate = accepted d r6;
      rejected_other = r6 - accepted d r6;
    }

unfoldable pub build_retention_funnel :
    (fixtures_received retained : ℕ) → List (String × ℕ) → Result DiscoveryError RetentionFunnel
unfolding validated allocated requested
build_retention_funnel fixtures_received retained reasons =
    raise_if (ltb fixtures_received retained) funnel_inputs_invalid
    >> validated (
        allocated fixtures_received retained (requested reasons competition_codes)
          (requested reasons season_codes) (requested reasons status_codes)
          (requested reasons kickoff_codes) (requested reasons team_codes)
          (requested reasons coverage_codes) (requested reasons ("duplicate_fixture" ∷ [])))
