-- ===== src/Journal/History.antt =====
-- The histories of the journal: any appends and resolutions, one after another.
use mathlib.Core.List.{append_assoc, append-nil}
use urim_platform.Base.Instant.{DateTime}
use urim_platform.Float.{Float}
use urim_platform.Opportunity.{KairosMatchOpportunity}
use urim_platform.Repository.{MatchRow}
use urim_platform.Journal.Store.{inserted}
use urim_platform.Journal.Model.{
  JournalRow, JournalState, ResolutionRow, JournalWriteSummary, Digests, meets_constraints,
  journal_conflicts, resolution_conflicts,
}
use urim_platform.Journal.Service.{append_opportunity, resolve_completed}
use urim_platform.Journal.Inserting.{IsApart, inserted-IsApart, All-inserted}
use urim_platform.Journal.Append.{IsHashed}
use urim_platform.Journal.Resolve.{IsHashedResolution, IsSettled}
use urim_platform.Journal.Returned.{IsInsert, decided-IsInsert, IsResolve, IsResolve-of_call}
use urim_platform.Base.{
  ℕ, ◌≤◌, ◌<◌, ◌≡◌, sym, ap, ◌∙◌, inl, inr, true, Option, List, [], ◌∷◌, ◌++◌, arith, All, Any,
  All-map, All-append, ok, In-Any,
}

Any-append : {A : Type 0} (P : A → Type 0) (xs ys : List A) → Any P xs → Any P (xs ++ ys)
Any-append P [] ys h = elim h [ ]
Any-append P (x ∷ xs) ys (inl p) = inl p
Any-append P (x ∷ xs) ys (inr p) = inr (Any-append P xs ys p)

module _ {F : Type 0} ⦃fl : Float F⦄ (digests : Digests F) where
  -- One call that returned, at some time of the server and on some matches.
  pub data Step (s : JournalState F) : JournalState F → Type 0 where
    appended :
        (now t : DateTime) (o : KairosMatchOpportunity F) {s' : JournalState F}
        (sum : JournalWriteSummary)
        → append_opportunity digests now s o t ≡ ok (s', sum)
        → Step s s'
    resolved :
        (now : DateTime) (matches : List MatchRow) (as_of : DateTime)
        (starts_at ends_at : Option DateTime) (limit : ℕ) {s' : JournalState F}
        (sum : JournalWriteSummary)
        → resolve_completed digests now s matches as_of starts_at ends_at limit ≡ ok (s', sum)
        → Step s s'

  pub data Reaches (s : JournalState F) : JournalState F → Type 0 where
    here : Reaches s s
    next : {t u : JournalState F} → Reaches s t → Step t u → Reaches s u

  -- The resolution is of an analysis of the journal, and of its market.
  abbrev pub IsKnown : List (JournalRow F) → ResolutionRow → Type 0
  IsKnown journal r =
      Any (λ row. (row.analysis_id ≡ r.analysis_id) × (row.market ≡ r.market)) journal

  -- No two analyses and no two resolutions agree in an identifier or a hash, each analysis was
  -- stored before its kickoff and not before it was made, each hash of an analysis and of a
  -- resolution is that of its content, and each resolution is of a known analysis.
  pub record IsJournal (s : JournalState F) : Type 0 where
    pub analyses_apart : IsApart journal_conflicts s.journal
    pub resolutions_apart : IsApart resolution_conflicts s.resolutions
    pub stored_early :
        All
          (λ r.
            (r.analysis_time.instant ≤ r.created_at.instant)
            × (r.created_at.instant < r.kickoff_at.instant))
          s.journal
    pub analyses_hashed : All (IsHashed digests) s.journal
    pub resolutions_known : All (IsKnown s.journal) s.resolutions
    pub resolutions_hashed : All (IsHashedResolution digests) s.resolutions

  -- What stood in the tables stands in them, first and in its order.
  pub record IsExtended (s t : JournalState F) : Type 0 where
    pub new_analyses : List (JournalRow F)
    pub new_resolutions : List ResolutionRow
    pub journal_grown : t.journal ≡ s.journal ++ new_analyses
    pub resolutions_grown : t.resolutions ≡ s.resolutions ++ new_resolutions

  constraints-early :
      (r : JournalRow F)
      → meets_constraints r ≡ true
      → (r.analysis_time.instant ≤ r.created_at.instant)
        × (r.created_at.instant < r.kickoff_at.instant)
  unfolding meets_constraints
  constraints-early r h = (ground arith, ground arith)

  IsInsert-IsJournal : (s s' : JournalState F) → IsJournal s → IsInsert digests s s' → IsJournal s'
  IsInsert-IsJournal s s' j i =
      let added = inserted journal_conflicts i.values s.journal in
      record {
        analyses_apart =
            rw i.grown (inserted-IsApart journal_conflicts i.values s.journal j.analyses_apart);
        resolutions_apart = rw i.kept j.resolutions_apart;
        resolutions_hashed = rw i.kept j.resolutions_hashed;
        stored_early = rw i.grown (
            (All-append _ s.journal added).1 (
              j.stored_early,
              All-inserted journal_conflicts _ i.values s.journal
                  (All-map constraints-early i.values i.sound),
            ));
        analyses_hashed = rw i.grown (
            (All-append _ s.journal added).1 (
              j.analyses_hashed,
              All-inserted journal_conflicts (IsHashed digests) i.values s.journal i.hashed,
            ));
        resolutions_known =
            rw (i.kept, i.grown)
              (All-map (λ r known. Any-append _ s.journal added known) s.resolutions
                j.resolutions_known);
      }

  IsResolve-IsJournal :
      (s s' : JournalState F) (now : DateTime) (sum : JournalWriteSummary) (matches : List MatchRow)
      (as_of : DateTime) (starts_at ends_at : Option DateTime)
      → IsJournal s
      → IsResolve digests now s s' sum matches as_of starts_at ends_at
      → IsJournal s'
  IsResolve-IsJournal s s' now sum matches as_of starts_at ends_at j i =
      let added = inserted resolution_conflicts i.values s.resolutions in
      record {
        analyses_apart = rw i.kept j.analyses_apart;
        resolutions_apart =
            rw i.grown
              (inserted-IsApart resolution_conflicts i.values s.resolutions j.resolutions_apart);
        stored_early = rw i.kept j.stored_early;
        resolutions_hashed = rw i.grown (
            (All-append _ s.resolutions added).1 (
              j.resolutions_hashed,
              All-inserted resolution_conflicts (IsHashedResolution digests) i.values s.resolutions
                  i.hashed_contents,
            ));
        analyses_hashed = rw i.kept j.analyses_hashed;
        resolutions_known =
            rw (i.kept, i.grown)
              ((All-append _ s.resolutions added).1 (
                j.resolutions_known,
                All-inserted resolution_conflicts (IsKnown s.journal) i.values s.resolutions (
                    All-map
                      (λ r (p : IsSettled digests now s matches as_of starts_at ends_at r).
                        In-Any (λ row. (row.analysis_id ≡ r.analysis_id) × (row.market ≡ r.market))
                          p.row s.journal p.in_journal (sym p.same_analysis, sym p.same_market))
                      i.values i.settled),
              ));
      }

  Step-IsJournal :
      {s s' : JournalState F} → Step s s' → IsJournal s → IsJournal s' × IsExtended s s'
  unfolding append_opportunity
  Step-IsJournal {s} {s'} (appended now t o sum h) j =
      let i = decided-IsInsert digests now s s' sum o.safety_decision o t h in
      (
        IsInsert-IsJournal s s' j i,
        record {
          new_analyses = inserted journal_conflicts i.values s.journal;
          new_resolutions = [];
          journal_grown = i.grown;
          resolutions_grown = i.kept ∙ sym (append-nil s.resolutions);
        },
      )
  Step-IsJournal {s} {s'} (resolved now matches as_of starts_at ends_at limit sum h) j =
      let i = IsResolve-of_call digests now s s' sum matches as_of starts_at ends_at limit h in
      (
        IsResolve-IsJournal s s' now sum matches as_of starts_at ends_at j i,
        record {
          new_analyses = [];
          new_resolutions = inserted resolution_conflicts i.values s.resolutions;
          journal_grown = i.kept ∙ sym (append-nil s.journal);
          resolutions_grown = i.grown;
        },
      )

  -- Through any history of appends and resolutions that return, on any matches and at any times,
  -- the journal keeps its invariant: no two analyses and no two resolutions agree in an identifier
  -- or a hash, each analysis was stored before its kickoff and not before it was made, each hash
  -- of an analysis and of a resolution is that of its content, and each resolution is of a known
  -- analysis and its market. And the
  -- tables are append-only: what stood in them stands first, unchanged and in its order.
  pub Reaches-IsJournal :
      {s t : JournalState F} → Reaches s t → IsJournal s → IsJournal t × IsExtended s t
  Reaches-IsJournal {s} here j = (
    j,
    record {
      new_analyses = [];
      new_resolutions = [];
      journal_grown = sym (append-nil s.journal);
      resolutions_grown = sym (append-nil s.resolutions);
    },
  )
  Reaches-IsJournal {s} (next r step) j =
      let (before_last, e) = Reaches-IsJournal r j in
      let (after, f) = Step-IsJournal step before_last in
      (
        after,
        record {
          new_analyses = e.new_analyses ++ f.new_analyses;
          new_resolutions = e.new_resolutions ++ f.new_resolutions;
          journal_grown =
              f.journal_grown
              ∙ (ap (λ l. l ++ f.new_analyses) e.journal_grown
                  ∙ append_assoc s.journal e.new_analyses f.new_analyses);
          resolutions_grown =
              f.resolutions_grown
              ∙ (ap (λ l. l ++ f.new_resolutions) e.resolutions_grown
                  ∙ append_assoc s.resolutions e.new_resolutions f.new_resolutions);
        },
      )
