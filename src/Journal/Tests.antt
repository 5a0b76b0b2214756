-- ===== src/Journal/Tests.antt =====
-- A journal of one opportunity, resolved after its match.
use urim_platform.Journal.Service.{
  insert_resolutions, resolve_due, insert_journal, summary, append_opportunity, resolve_completed,
  joined_rows, due_rows,
}
use urim_platform.Market.{Market, Outcome, success}
use urim_platform.Journal.Model.{
  JournalError, journal_value, JournalState, JournalWriteSummary, ResolutionRow, resolution_value,
  meets_resolution_constraints,
}
use urim_platform.Base.Sort.{insert_sorted}
use urim_platform.Fixture.{at_time}
use urim_platform.Float.Rational.{Fraction, fractions}
use urim_platform.Journal.View.{put_all}
use urim_platform.Journal.Append.{values_of, append_opportunity_lem}
use urim_platform.Journal.Append
use urim_platform.Journal.Refine.{snapshot_of, append_opportunity-IsRefined}
use urim_platform.Journal.Resolve.{resolve_completed_lem}
use urim_platform.Journal.Resolve
use urim_platform.Journal.Metrics.{ResolvedMetric, is_decided, resolved_metrics}
use urim_platform.Journal.Counted.{size_total, IsMetric, resolved_metrics_lem}
use urim_platform.Journal.History.{
  resolved, here, next, appended, IsJournal, IsExtended, Reaches-IsJournal,
}
use urim_platform.Journal.Drain.{resolve_completed-IsComplete}
use urim_platform.Journal.Sample.{digests, opportunity, empty, appended_state, final_row}
use urim_platform.Base.{
  ℕ, ◌≡◌, refl, none, List, [], ◌∷◌, map, arith, length, select, All, Result, ok, err,
}

appended_once :
    append_opportunity digests (at_time 1010) empty opportunity (at_time 1000)
    ≡ ok (appended_state, summary 2 2)
unfolding append_opportunity insert_journal journal_value
appended_once = refl

append_opportunity_lem_example :
    Append.Effect digests
      (at_time 1010)
      empty
      opportunity
      (at_time 1000)
      (append_opportunity digests (at_time 1010) empty opportunity (at_time 1000))
append_opportunity_lem_example =
    append_opportunity_lem digests (at_time 1010) empty opportunity (at_time 1000)

append_opportunity-IsRefined_example :
    (λ k. snapshot_of k appended_state)
    ≡ put_all
        (λ row. row.analysis_id)
        (values_of digests (at_time 1010) opportunity (at_time 1000))
        (λ k. snapshot_of k empty)
append_opportunity-IsRefined_example =
    append_opportunity-IsRefined digests (λ a b same. same) empty tt opportunity refl (at_time 1010)
      (at_time 1000) appended_state (summary 2 2) appended_once

resolve_completed_lem_example :
    Resolve.Effect digests
      (at_time 3010)
      appended_state
      (final_row ∷ [])
      (at_time 3000)
      none
      none
      200
      (resolve_completed digests
        (at_time 3010)
        appended_state
        (final_row ∷ [])
        (at_time 3000)
        none
        none
        200)
resolve_completed_lem_example =
    resolve_completed_lem digests (at_time 3010) appended_state (final_row ∷ []) (at_time 3000) none
      none 200

empty-IsJournal : IsJournal digests empty
empty-IsJournal = record {
  analyses_apart = tt;
  resolutions_apart = tt;
  stored_early = tt;
  analyses_hashed = tt;
  resolutions_known = tt;
  resolutions_hashed = tt;
}

Reaches-IsJournal_example :
    IsJournal digests appended_state × IsExtended digests empty appended_state
Reaches-IsJournal_example =
    Reaches-IsJournal digests
      (next here (appended (at_time 1010) (at_time 1000) opportunity (summary 2 2) appended_once))
      empty-IsJournal

resolve_completed-IsComplete_example :
    (s' : JournalState Fraction) × (sum : JournalWriteSummary) × (resolve_completed digests
        (at_time 3010)
        appended_state
        (final_row ∷ [])
        (at_time 3000)
        none
        none
        200
      ≡ ok (s', sum))
    × (sum.received
        ≡ length (
            joined_rows digests
              (at_time 3010)
              appended_state
              (final_row ∷ [])
              (at_time 3000)
              none
              none
              appended_state.journal))
    × (s'.journal ≡ appended_state.journal)
    × (joined_rows digests (at_time 3010) s' (final_row ∷ []) (at_time 3000) none none s'.journal
        ≡ [])
unfolding joined_rows journal_value due_rows insert_sorted meets_resolution_constraints
    resolution_value
resolve_completed-IsComplete_example =
    resolve_completed-IsComplete digests (at_time 3010) appended_state (final_row ∷ [])
      (at_time 3000) none none (λ a b same. same) tt refl 200 (omega arith) (omega arith)
      (omega arith) refl

abbrev outcomes : Result JournalError (JournalState Fraction × JournalWriteSummary) → List Outcome
outcomes (err e) = []
outcomes (ok (s, sum)) = map (λ r. r.outcome) s.resolutions

-- Both analyses come true: all three goals fell in the second half, and the home team has won.
outcomes_final :
    outcomes (
      resolve_completed digests
        (at_time 3010)
        appended_state
        (final_row ∷ [])
        (at_time 3000)
        none
        none
        200)
    ≡ success ∷ success ∷ []
unfolding resolve_completed resolve_due due_rows journal_value insert_sorted insert_resolutions
    resolution_value
outcomes_final = refl

-- The journal after that resolution.
abbrev resolved_state : JournalState Fraction
unfolding journal_value resolution_value
resolved_state = record appended_state {
  resolutions =
      map (λ row. resolution_value digests (at_time 3010) (at_time 3000) row final_row)
        appended_state.journal;
}

resolved_once :
    resolve_completed digests
      (at_time 3010)
      appended_state
      (final_row ∷ [])
      (at_time 3000)
      none
      none
      200
    ≡ ok (resolved_state, summary 2 2)
unfolding resolve_completed resolve_due due_rows journal_value insert_sorted insert_resolutions
    resolution_value
resolved_once = refl

abbrev sizes : List (Market × ResolvedMetric Fraction) → List (ℕ × ℕ)
sizes metrics = map (λ m. ((m.1).resolved_sample_size, (m.1).success_count)) metrics

-- One analysis of each of two markets, both a success.
metrics_two : sizes (resolved_metrics resolved_state) ≡ (1, 1) ∷ (1, 1) ∷ []
unfolding resolved_metrics journal_value resolution_value
metrics_two = refl

resolved_metrics_lem_example :
    (size_total (resolved_metrics resolved_state)
      ≡ length (select (λ (r : ResolutionRow). is_decided r.outcome) resolved_state.resolutions))
    × All IsMetric (resolved_metrics resolved_state)
resolved_metrics_lem_example = resolved_metrics_lem digests resolved_state (
    (Reaches-IsJournal digests
      (next
        (next here (appended (at_time 1010) (at_time 1000) opportunity (summary 2 2) appended_once))
        (resolved (at_time 3010) (final_row ∷ []) (at_time 3000) none none 200 (summary 2 2)
          resolved_once))
      empty-IsJournal).0)
