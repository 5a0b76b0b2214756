-- ===== src/Journal/Refine.antt =====
-- The journal as a partial map from analysis identifiers to snapshots: an append adds what is
-- absent, and appending again changes nothing.
use mathlib.Core.List.{append-nil}
use urim_platform.Base.Instant.{DateTime, until}
use urim_platform.Base.Select.{All-map_of}
use urim_platform.Float.{Float}
use urim_platform.Opportunity.{analysis_allowed, KairosMatchOpportunity}
use urim_platform.Journal.Store.{inserted}
use urim_platform.Journal.Model.{
  JournalError, JournalRow, JournalState, JournalWriteSummary, Digests, journal_value,
  meets_constraints, journal_conflicts, snapshots_must_be_aware_pre_match,
}
use urim_platform.Journal.Service.{
  nothing_written, written, insert_journal, append_decided, append_opportunity,
}
use urim_platform.Journal.Inserting.{inserted-nil}
use urim_platform.Journal.View.{find, put_all, find-inserted}
use urim_platform.Journal.Append.{IsHashed, IsCollisionFree, values_of, no_values, conflicts-keyed}
use urim_platform.Base.{
  String, ◌≡◌, refl, sym, ap, ◌∙◌, inl, inr, not, ◌&&◌, ◌||◌, Option, ◌++◌, if◌then◌else◌,
  Bool-cases, all, All, Result, ok, err, ◌>>◌, raise_if, is_nil,
}

-- The snapshot of an analysis.
abbrev pub snapshot_of : {F : Type 0} → String → JournalState F → Option (JournalRow F)
snapshot_of analysis_id s = find (λ row. row.analysis_id) analysis_id s.journal

module _ {F : Type 0} ⦃fl : Float F⦄ (digests : Digests F) (s : JournalState F)
    (o : KairosMatchOpportunity F) (now t : DateTime) (s' : JournalState F)
    (sum : JournalWriteSummary) where
  abbrev IsGrown : Type 0
  IsGrown =
      s'.journal ≡ s.journal ++ inserted journal_conflicts (values_of digests now o t) s.journal

  returned_journal :
      (r : JournalState F) (n : JournalWriteSummary)
      → ◌≡◌ {A = Result JournalError (JournalState F × JournalWriteSummary)}
          (ok (r, n))
          (ok (s', sum))
      → s'.journal ≡ r.journal
  returned_journal r n h =
      ap
        (λ (x : Result JournalError (JournalState F × JournalWriteSummary)). elim x [
          | err e ↦ r.journal
          | ok p ↦ (p.0).journal
        ])
        (sym h)

  inserted-journal :
      insert_journal digests now s (values_of digests now o t) ≡ ok (s', sum) → IsGrown
  unfolding insert_journal
  inserted-journal h = elim (Bool-cases (all meets_constraints (values_of digests now o t))) [
    | inr broken ↦ let clash = rw broken at h in cc
    | inl sound ↦ returned_journal _ _ (rw sound at h)
  ]

  compared-journal :
      (raise_if (not t.aware || until o.kickoff_at t) snapshots_must_be_aware_pre_match
          >> (if is_nil (written o)
              then ok (s, nothing_written)
              else insert_journal digests now s (values_of digests now o t)))
        ≡ ok (s', sum)
      → IsGrown
  compared-journal h = elim (Bool-cases (not t.aware || until o.kickoff_at t)) [
    | inl late ↦ let clash = rw late at h in cc
    | inr early ↦
        let rest = rw early at h in
        elim (Bool-cases (is_nil (written o))) [
          | inr some_written ↦ inserted-journal (rw some_written at rest)
          | inl empty ↦
              let same : s'.journal ≡ s.journal =
                returned_journal s nothing_written (rw empty at rest) in
              rw (no_values digests now s o t empty, inserted-nil journal_conflicts s.journal)
                (same ∙ sym (append-nil s.journal))
        ]
  ]

  decided-journal : append_decided digests now s analysis_allowed o t ≡ ok (s', sum) → IsGrown
  unfolding append_decided
  decided-journal h = elim (Bool-cases (t.aware && not o.kickoff_at.aware)) [
    | inl mixed ↦ let clash = rw mixed at h in cc
    | inr comparable ↦ compared-journal (rw comparable at h)
  ]

module _ {F : Type 0} ⦃fl : Float F⦄ (digests : Digests F) (free : IsCollisionFree digests)
    (s : JournalState F) (hashed : All (IsHashed digests) s.journal) (o : KairosMatchOpportunity F)
    (allowed : o.safety_decision ≡ analysis_allowed) where
  -- The journal after an append that returned.
  append-journal :
      (now t : DateTime) (s' : JournalState F) (sum : JournalWriteSummary)
      → append_opportunity digests now s o t ≡ ok (s', sum)
      → s'.journal ≡ s.journal ++ inserted journal_conflicts (values_of digests now o t) s.journal
  unfolding append_opportunity
  append-journal now t s' sum h =
      decided-journal digests s o now t s' sum
        (ap (λ d. append_decided digests now s d o t) (sym allowed) ∙ h)

  values-IsHashed : (now t : DateTime) → All (IsHashed digests) (values_of digests now o t)
  unfolding journal_value
  values-IsHashed now t =
      All-map_of (IsHashed digests) (journal_value digests now o t) (written o) (λ c. refl)

  -- On a journal whose rows carry the hashes of their contents, with no collision of snapshots,
  -- an append of an allowed analysis that returns puts the snapshots of its candidates, in their
  -- order, into the partial map from identifiers to snapshots, each where nothing was before; the
  -- snapshot of any identifier that had one is unchanged.
  pub append_opportunity-IsRefined :
      (now t : DateTime) (s' : JournalState F) (sum : JournalWriteSummary)
      → append_opportunity digests now s o t ≡ ok (s', sum)
      → (λ k. snapshot_of k s')
        ≡ put_all (λ row. row.analysis_id) (values_of digests now o t) (λ k. snapshot_of k s)
  append_opportunity-IsRefined now t s' sum h = rw (append-journal now t s' sum h) (
      find-inserted (λ row. row.analysis_id) journal_conflicts (IsHashed digests)
        (conflicts-keyed digests free) (values_of digests now o t) s.journal (values-IsHashed now t)
        hashed)
