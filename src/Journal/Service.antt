-- ===== src/Journal/Service.antt =====
-- `append_opportunity` and `resolve_completed` of kairos/journal.py. The time of the server, which
-- stamps what is inserted, is the argument `now`.
use text.Mathlib.Text.{◌==◌ as str_eq}
use urim_platform.Base.Text.{text_le}
use urim_platform.Base.Sort.{sorted}
use urim_platform.Base.Instant.{DateTime, before, until}
use urim_platform.Float.{Float}
use urim_platform.Dataset.{contains_text}
use urim_platform.Opportunity.{
  KairosOpportunityCandidate, analysis_allowed, no_bet, insufficient_data, KairosMatchOpportunity,
  SafetyDecision,
}
use urim_platform.Repository.{MatchRow, same_match, latest_as_of, completed_match_statuses}
use urim_platform.Journal.Store.{inserted}
use urim_platform.Journal.Model.{
  JournalError, datetimes_not_comparable, snapshots_must_be_aware_pre_match,
  resolution_as_of_must_be_aware, resolution_limit_outside_range, integrity_error,
  JournalWriteSummary, JournalRow, ResolutionRow, JournalState, Digests, journal_value,
  resolution_value, meets_constraints, meets_resolution_constraints, journal_conflicts,
  resolution_conflicts,
}
use urim_platform.Base.{
  ℕ, ◌-◌, Bool, true, not, ◌&&◌, ◌||◌, Option, none, some, List, [], ◌∷◌, ◌++◌, map, ltb, ◌==◌,
  if◌then◌else◌, length, take, any, all, conjunction, Result, ok, ◌>>◌, raise_if, is_nil,
}

abbrev pub resolution_limit : ℕ
resolution_limit = 200

abbrev pub nothing_written : JournalWriteSummary
nothing_written = record { received = 0; inserted_rows = 0; duplicate = 0 }

abbrev pub summary : ℕ → ℕ → JournalWriteSummary
summary received inserted_rows = record {
  received = received;
  inserted_rows = inserted_rows;
  duplicate = received - inserted_rows;
}

-- `[primary_analysis]` or `[]`, then the alternatives.
abbrev pub written : {F : Type 0} → KairosMatchOpportunity F → List (KairosOpportunityCandidate F)
written o = elim o.primary_analysis [
  | none ↦ o.alternative_analyses
  | some primary ↦ primary ∷ o.alternative_analyses
]

module _ {F : Type 0} ⦃fl : Float F⦄ (digests : Digests F) (now : DateTime)
    (s : JournalState F) where
  -- The statement; a value that breaks a constraint aborts it.
  unfoldable pub insert_journal :
      List (JournalRow F) → Result JournalError (JournalState F × JournalWriteSummary)
  unfolding inserted meets_constraints
  insert_journal values = do
    raise_if (not (all meets_constraints values)) integrity_error
    let rows = inserted journal_conflicts values s.journal
    ok (record s { journal = s.journal ++ rows }, summary (length values) (length rows))

  -- By the decision of the opportunity: only an allowed analysis is written. The comparison of an
  -- aware time of analysis with a naive kickoff raises a `TypeError`.
  unfoldable pub append_decided :
      SafetyDecision
      → KairosMatchOpportunity F
      → DateTime
      → Result JournalError (JournalState F × JournalWriteSummary)
  append_decided no_bet o analysis_time = ok (s, nothing_written)
  append_decided insufficient_data o analysis_time = ok (s, nothing_written)
  append_decided analysis_allowed o analysis_time =
      raise_if (analysis_time.aware && not o.kickoff_at.aware) datetimes_not_comparable
      >> (raise_if (not analysis_time.aware || until o.kickoff_at analysis_time)
            snapshots_must_be_aware_pre_match
          >> (if is_nil (written o)
              then ok (s, nothing_written)
              else insert_journal (map (journal_value digests now o analysis_time) (written o))))

  unfoldable pub append_opportunity :
      KairosMatchOpportunity F
      → DateTime
      → Result JournalError (JournalState F × JournalWriteSummary)
  unfolding append_decided
  append_opportunity o analysis_time = append_decided o.safety_decision o analysis_time

  unfoldable pub insert_resolutions :
      List ResolutionRow → Result JournalError (JournalState F × JournalWriteSummary)
  unfolding inserted meets_resolution_constraints
  insert_resolutions values = do
    raise_if (not (all meets_resolution_constraints values)) integrity_error
    let rows = inserted resolution_conflicts values s.resolutions
    ok (record s { resolutions = s.resolutions ++ rows }, summary (length values) (length rows))

  -- The outer join finds no resolution of the analysis.
  abbrev pub is_unresolved : JournalRow F → Bool
  is_unresolved row = not (any (λ r. str_eq r.analysis_id row.analysis_id) s.resolutions)

  abbrev pub from_start : Option DateTime → JournalRow F → Bool
  from_start none row = true
  from_start (some starts_at) row = until starts_at row.kickoff_at

  abbrev pub to_end : Option DateTime → JournalRow F → Bool
  to_end none row = true
  to_end (some ends_at) row = before row.kickoff_at ends_at

  module _ (matches : List MatchRow) (as_of : DateTime) (starts_at ends_at : Option DateTime) where
    abbrev pub latest_matches : List MatchRow
    latest_matches = latest_as_of (λ m. m.source) same_match as_of (λ _. true) matches

    -- The conditions of the statement on a row of the journal and a match of the same identifier.
    unfoldable pub is_due : JournalRow F → MatchRow → Bool
    is_due row match = conjunction (
        (match.provider_match_id == row.provider_match_id)
        ∷ is_unresolved row
        ∷ before row.kickoff_at as_of
        ∷ contains_text completed_match_statuses match.status_short
        ∷ from_start starts_at row
        ∷ to_end ends_at row
        ∷ [])

    -- The join of one row of the journal with the latest matches.
    unfoldable pub joined_matches : JournalRow F → List MatchRow → List (JournalRow F × MatchRow)
    unfolding is_due
    joined_matches row [] = []
    joined_matches row (match ∷ others) =
        if is_due row match
        then (row, match) ∷ joined_matches row others
        else joined_matches row others

    unfoldable pub joined_rows : List (JournalRow F) → List (JournalRow F × MatchRow)
    unfolding joined_matches latest_as_of
    joined_rows [] = []
    joined_rows (row ∷ rows) = joined_matches row latest_matches ++ joined_rows rows

    -- `ORDER BY kickoff_at, analysis_id`
    abbrev pub due_first : JournalRow F × MatchRow → JournalRow F × MatchRow → Bool
    due_first a b =
        before (a.0).kickoff_at (b.0).kickoff_at
        || ((a.0).kickoff_at.instant == (b.0).kickoff_at.instant
            && text_le (a.0).analysis_id (b.0).analysis_id)

    unfoldable pub due_rows : ℕ → List (JournalRow F × MatchRow)
    unfolding joined_rows sorted
    due_rows limit = take limit (sorted due_first (joined_rows s.journal))

    -- The statement that inserts the resolutions, if there are any.
    unfoldable pub resolve_due :
        List (JournalRow F × MatchRow) → Result JournalError (JournalState F × JournalWriteSummary)
    resolve_due [] = ok (s, nothing_written)
    resolve_due (due ∷ others) =
        insert_resolutions (map (λ d. resolution_value digests now as_of d.0 d.1) (due ∷ others))

    unfoldable pub resolve_completed :
        ℕ → Result JournalError (JournalState F × JournalWriteSummary)
    resolve_completed limit = do
      raise_if (not as_of.aware) resolution_as_of_must_be_aware
      raise_if (ltb limit 1 || ltb resolution_limit limit) resolution_limit_outside_range
      resolve_due (due_rows limit)
