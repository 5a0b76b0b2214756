-- ===== src/Journal/Append.antt =====
-- What `append_opportunity` does to the journal.
use text.Mathlib.Text.{◌==◌ as str_eq}
use text.Mathlib.TextEquality.{eq_iff}
use mathlib.Core.List.{append-nil}
use urim_platform.Base.Instant.{DateTime, until}
use urim_platform.Base.Select.{length-map, is_nil-length}
use urim_platform.Float.{Float}
use urim_platform.Opportunity.{
  KairosOpportunityCandidate, SafetyDecision, analysis_allowed, no_bet, insufficient_data,
  KairosMatchOpportunity,
}
use urim_platform.Journal.Store.{inserted}
use urim_platform.Journal.Model.{
  JournalError, datetimes_not_comparable, snapshots_must_be_aware_pre_match, integrity_error,
  JournalRow, JournalState, JournalWriteSummary, SnapshotContent, Digests, journal_value,
  meets_constraints, journal_conflicts,
}
use urim_platform.Journal.Service.{
  nothing_written, written, insert_journal, append_decided, append_opportunity,
}
use urim_platform.Journal.Inserting.{is_taken, length-inserted, All-inserted, inserted-taken}
use urim_platform.Base.{
  ◌+◌, ◌≤◌, ◌<◌, ◌≡◌, refl, sym, ◌∙◌, ◌≢◌, ◌⊎◌, inl, inr, true, false, not, ◌&&◌, ◌||◌, List, [],
  ◌∷◌, ◌++◌, map, arith, if◌then◌else◌, Bool-cases, length, all, All, all-eq-true, Result, ok, err,
  ◌>>◌, raise_if, is_nil, In, All-In_self,
}

abbrev pub content_of : {F : Type 0} → JournalRow F → SnapshotContent F
content_of row = record {
  analysis_id = row.analysis_id;
  analysis_time = row.analysis_time;
  kickoff_at = row.kickoff_at;
  payload = row.analysis_payload;
}

-- The row carries the hash of its content.
abbrev pub IsHashed : {F : Type 0} → Digests F → JournalRow F → Type 0
IsHashed digests row = row.immutable_hash ≡ digests.snapshot_hash (content_of row)

-- No two snapshots of different analyses have one hash.
abbrev pub IsCollisionFree : {F : Type 0} → Digests F → Type 0
IsCollisionFree {F} digests =
    (a b : SnapshotContent F)
    → digests.snapshot_hash a ≡ digests.snapshot_hash b
    → a.analysis_id ≡ b.analysis_id

pub conflicts-keyed :
    {F : Type 0} (digests : Digests F)
    → IsCollisionFree digests
    → (a b : JournalRow F) → IsHashed digests a
    → IsHashed digests b
    → journal_conflicts a b ≡ str_eq a.analysis_id b.analysis_id
conflicts-keyed digests free a b ha hb =
    elim (Bool-cases (str_eq a.immutable_hash b.immutable_hash)) [
      | inr apart ↦ ground (arith, apart)
      | inl same ↦
          let hashes : a.immutable_hash ≡ b.immutable_hash =
            (eq_iff a.immutable_hash b.immutable_hash).0 same in
          let ids : a.analysis_id ≡ b.analysis_id =
            free (content_of a) (content_of b) (sym ha ∙ (hashes ∙ hb)) in
          ground (arith, same, ids, eq_iff a.analysis_id b.analysis_id)
    ]

module _ {F : Type 0} ⦃fl : Float F⦄ (digests : Digests F) (now : DateTime) where
  abbrev pub values_of : KairosMatchOpportunity F → DateTime → List (JournalRow F)
  values_of o analysis_time = map (journal_value digests now o analysis_time) (written o)

  module _ (s : JournalState F) (o : KairosMatchOpportunity F) (t : DateTime) where
    -- A row that was added is a snapshot of a candidate, stored before the kickoff.
    pub record IsSnapshot (row : JournalRow F) : Type 0 where
      pub of_match : row.provider_match_id ≡ o.provider_match_id
      pub of_kickoff : row.kickoff_at ≡ o.kickoff_at
      pub at_analysis : row.analysis_time ≡ t
      pub analysed_first : row.analysis_time.instant ≤ row.created_at.instant
      pub stored_early : row.created_at.instant < row.kickoff_at.instant
      pub of_candidate : In row.analysis_payload (written o)

    pub record IsAppended (s' : JournalState F) (sum : JournalWriteSummary) : Type 0 where
      pub added : List (JournalRow F)
      pub journal_grown : s'.journal ≡ s.journal ++ added
      pub resolutions_kept : s'.resolutions ≡ s.resolutions
      pub counted : sum.inserted_rows ≡ length added
      pub adds_up : sum.inserted_rows + sum.duplicate ≡ sum.received
      pub snapshots : All IsSnapshot added
      pub all_received :
          (o.safety_decision ≢ analysis_allowed)
          ⊎ ((sum.received ≡ length (written o))
              × All (λ v. is_taken journal_conflicts s'.journal v ≡ true) (values_of o t))

    -- What every result says of the call.
    abbrev pub Effect : Result JournalError (JournalState F × JournalWriteSummary) → Type 0
    Effect (ok (s', sum)) = IsAppended s' sum
    Effect (err e) =
        ((e ≡ datetimes_not_comparable) × (t.aware ≡ true) × (o.kickoff_at.aware ≡ false))
        ⊎ ((e ≡ snapshots_must_be_aware_pre_match)
            × ((t.aware ≡ false) ⊎ (o.kickoff_at.instant ≤ t.instant)))
        ⊎ ((e ≡ integrity_error) × (all meets_constraints (values_of o t) ≡ false))

    unchanged : o.safety_decision ≢ analysis_allowed → IsAppended s nothing_written
    unchanged refused = record {
      added = [];
      journal_grown = sym (append-nil s.journal);
      resolutions_kept = refl;
      counted = refl;
      adds_up = omega arith;
      snapshots = tt;
      all_received = inl refused;
    }

    values-IsSnapshot :
        (cs : List (KairosOpportunityCandidate F))
        → All (λ c. In c (written o)) cs
        → All (λ r. meets_constraints r ≡ true) (map (journal_value digests now o t) cs)
        → All IsSnapshot (map (journal_value digests now o t) cs)
    unfolding journal_value meets_constraints
    values-IsSnapshot [] m h = tt
    values-IsSnapshot (c ∷ cs) m h = (
      record {
        of_match = refl;
        of_kickoff = refl;
        at_analysis = refl;
        analysed_first = ground (arith, h.0);
        stored_early = ground (arith, h.0);
        of_candidate = m.0;
      },
      values-IsSnapshot cs m.1 h.1,
    )

    pub conflicts_self : (v : JournalRow F) → journal_conflicts v v ≡ true
    conflicts_self v = ground (arith, eq_iff v.analysis_id v.analysis_id)

    inserted-Effect : Effect (insert_journal digests now s (values_of o t))
    unfolding insert_journal
    inserted-Effect = elim (Bool-cases (all meets_constraints (values_of o t))) [
      | inr broken ↦ rw broken (inr (inr (refl, broken)))
      | inl sound ↦ rw sound (
          let values = values_of o t in
          let added = inserted journal_conflicts values s.journal in
          let fewer = length-inserted journal_conflicts values s.journal in
          record {
            added = added;
            journal_grown = refl;
            resolutions_kept = refl;
            counted = refl;
            adds_up = omega (arith, fewer);
            snapshots = All-inserted journal_conflicts IsSnapshot values s.journal (
                values-IsSnapshot (written o) (All-In_self (written o))
                  ((all-eq-true meets_constraints values).0 sound));
            all_received = inr (
              length-map (journal_value digests now o t) (written o),
              inserted-taken journal_conflicts conflicts_self values s.journal,
            );
          })
    ]

    pub no_values : is_nil (written o) ≡ true → values_of o t ≡ []
    no_values empty = nothing (written o) empty
      where
        nothing :
            (cs : List (KairosOpportunityCandidate F))
            → is_nil cs ≡ true
            → map (journal_value digests now o t) cs ≡ []
        nothing [] e = refl
        nothing (c ∷ cs) e = cc

    compared :
        o.safety_decision ≡ analysis_allowed
        → Effect (
            raise_if (not t.aware || until o.kickoff_at t) snapshots_must_be_aware_pre_match
            >> (if is_nil (written o)
                then ok (s, nothing_written)
                else insert_journal digests now s (values_of o t)))
    compared e = elim (Bool-cases (not t.aware || until o.kickoff_at t)) [
      | inl late ↦ rw late (inr (inl (refl, ground arith)))
      | inr early ↦ rw early (elim (Bool-cases (is_nil (written o))) [
        | inr some_written ↦ rw some_written inserted-Effect
        | inl empty ↦ rw empty (record {
          added = [];
          journal_grown = sym (append-nil s.journal);
          resolutions_kept = refl;
          counted = refl;
          adds_up = omega arith;
          snapshots = tt;
          all_received = inr (sym (is_nil-length (written o) empty), rw (no_values empty) tt);
        })
      ])
    ]

    decided-Effect :
        (d : SafetyDecision) → o.safety_decision ≡ d → Effect (append_decided digests now s d o t)
    unfolding append_decided
    decided-Effect no_bet e =
        unchanged (λ f. let clash : no_bet ≡ analysis_allowed = sym e ∙ f in cc)
    decided-Effect insufficient_data e =
        unchanged (λ f. let clash : insufficient_data ≡ analysis_allowed = sym e ∙ f in cc)
    decided-Effect analysis_allowed e = elim (Bool-cases (t.aware && not o.kickoff_at.aware)) [
      | inl mixed ↦ rw mixed (inl (refl, ground (arith, mixed), ground (arith, mixed)))
      | inr comparable ↦ rw comparable (compared e)
    ]

    -- Whatever `append_opportunity` is called with, it either raises the error of the comparison of
    -- an aware time of analysis with a naive kickoff; or the error on a naive or late time of
    -- analysis, for such a time; or the error of the database, where a snapshot breaks a
    -- constraint; or it returns. Then the old rows stand first and unchanged, and so do the
    -- resolutions; the counts of inserted and duplicate rows add up to those received; each row
    -- added is a snapshot of a candidate of this match, stored before the kickoff and not before
    -- its analysis; and if the decision allows the analysis, all candidates were received and each
    -- of them is in the table, or one that it is in conflict with.
    pub append_opportunity_lem : Effect (append_opportunity digests now s o t)
    unfolding append_opportunity
    append_opportunity_lem = decided-Effect o.safety_decision refl
