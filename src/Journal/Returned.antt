-- ===== src/Journal/Returned.antt =====
-- What a call that returned has inserted.
use mathlib.Core.List.{append-nil}
use urim_platform.Base.Instant.{DateTime, until}
use urim_platform.Base.Select.{All-map_of}
use urim_platform.Float.{Float}
use urim_platform.Opportunity.{
  SafetyDecision, analysis_allowed, no_bet, insufficient_data, KairosMatchOpportunity,
}
use urim_platform.Repository.{MatchRow}
use urim_platform.Journal.Store.{inserted}
use urim_platform.Journal.Model.{
  integrity_error, datetimes_not_comparable, snapshots_must_be_aware_pre_match,
  resolution_as_of_must_be_aware, resolution_limit_outside_range, JournalRow, JournalState,
  ResolutionRow, JournalWriteSummary, Digests, journal_value, resolution_value, meets_constraints,
  meets_resolution_constraints, journal_conflicts, resolution_conflicts,
}
use urim_platform.Journal.Service.{
  nothing_written, summary, written, insert_journal, append_decided, resolution_limit,
  insert_resolutions, due_rows, resolve_due, resolve_completed,
}
use urim_platform.Journal.Inserting.{inserted-nil}
use urim_platform.Journal.Append.{IsHashed, values_of}
use urim_platform.Journal.Resolve.{
  IsHashedResolution, IsDuePair, due_rows-All, IsSettled, values-IsSettled,
}
use urim_platform.Base.{
  ℕ, ◌≡◌, refl, sym, ap, ◌∙◌, inl, inr, Bool, true, false, not, ◌&&◌, ◌||◌, Option, List, [], ◌∷◌,
  ◌++◌, map, arith, ltb, if◌then◌else◌, Bool-cases, length, all, All, all-eq-true, Result, ok, err,
  ◌>>◌, raise_if, is_nil,
}

-- A guard that was passed was false.
passed :
    {E A : Type 0} (b : Bool) (e : E) (k : Result E A) (a : A)
    → (raise_if b e >> k) ≡ ok a
    → (b ≡ false) × (k ≡ ok a)
passed true e k a h = cc
passed false e k a h = (refl, h)

-- What a call returned.
returned :
    {E S N : Type 0} (r s' : S) (n m : N)
    → ◌≡◌ {A = Result E (S × N)} (ok (r, n)) (ok (s', m))
    → s' ≡ r
returned {E} {S} {N} r s' n m h =
    ap (λ (x : Result E (S × N)). elim x [ err e ↦ r | ok p ↦ p.0 ]) (sym h)

module _ {F : Type 0} ⦃fl : Float F⦄ (digests : Digests F) where
  -- Rows that an append inserts meet the constraints and carry the hashes of their contents.
  pub record IsInsert (s s' : JournalState F) : Type 0 where
    pub values : List (JournalRow F)
    pub grown : s'.journal ≡ s.journal ++ inserted journal_conflicts values s.journal
    pub kept : s'.resolutions ≡ s.resolutions
    pub sound : All (λ r. meets_constraints r ≡ true) values
    pub hashed : All (IsHashed digests) values

  same-IsInsert : (s s' : JournalState F) → s' ≡ s → IsInsert s s'
  same-IsInsert s s' e = record {
    values = [];
    grown =
        ap (λ x. x.journal) e
        ∙ (sym (append-nil s.journal)
            ∙ ap (λ l. s.journal ++ l) (sym (inserted-nil journal_conflicts s.journal)));
    kept = ap (λ x. x.resolutions) e;
    sound = tt;
    hashed = tt;
  }

  module _ (now : DateTime) (s s' : JournalState F) (sum : JournalWriteSummary) where
    inserted-IsInsert :
        (o : KairosMatchOpportunity F) (t : DateTime)
        → insert_journal digests now s (values_of digests now o t) ≡ ok (s', sum)
        → IsInsert s s'
    unfolding insert_journal journal_value
    inserted-IsInsert o t h =
        let values = values_of digests now o t in
        let (sound, wrote) =
          passed (not (all meets_constraints values)) integrity_error
            (ok (
              record s { journal = s.journal ++ inserted journal_conflicts values s.journal },
              summary (length values) (length (inserted journal_conflicts values s.journal)),
            ))
            (s', sum) h in
        let e =
          returned (record s { journal = s.journal ++ inserted journal_conflicts values s.journal })
            s' (summary (length values) (length (inserted journal_conflicts values s.journal))) sum
            wrote in
        record {
          values = values;
          grown = ap (λ x. x.journal) e;
          kept = ap (λ x. x.resolutions) e;
          sound = (all-eq-true meets_constraints values).0 (ground (arith, sound));
          hashed =
              All-map_of (IsHashed digests) (journal_value digests now o t) (written o) (λ c. refl);
        }

    pub decided-IsInsert :
        (d : SafetyDecision) (o : KairosMatchOpportunity F) (t : DateTime)
        → append_decided digests now s d o t ≡ ok (s', sum)
        → IsInsert s s'
    unfolding append_decided
    decided-IsInsert no_bet o t h = same-IsInsert s s' (returned s s' nothing_written sum h)
    decided-IsInsert insufficient_data o t h =
        same-IsInsert s s' (returned s s' nothing_written sum h)
    decided-IsInsert analysis_allowed o t h =
        let (_, h) =
          passed (t.aware && not o.kickoff_at.aware) datetimes_not_comparable
            (raise_if (not t.aware || until o.kickoff_at t) snapshots_must_be_aware_pre_match
              >> (if is_nil (written o)
                  then ok (s, nothing_written)
                  else insert_journal digests now s (values_of digests now o t)))
            (s', sum) h in
        let (early, rest) =
          passed (not t.aware || until o.kickoff_at t) snapshots_must_be_aware_pre_match
            (if is_nil (written o)
              then ok (s, nothing_written)
              else insert_journal digests now s (values_of digests now o t))
            (s', sum) h in
        elim (Bool-cases (is_nil (written o))) [
          | inl empty ↦ same-IsInsert s s' (returned s s' nothing_written sum (rw empty at rest))
          | inr more ↦ inserted-IsInsert o t (rw more at rest)
        ]

    -- The resolutions that a call inserts settle analyses of the journal.
    pub record IsResolve (matches : List MatchRow) (as_of : DateTime)
        (starts_at ends_at : Option DateTime) : Type 0 where
      pub values : List ResolutionRow
      pub grown :
          s'.resolutions ≡ s.resolutions ++ inserted resolution_conflicts values s.resolutions
      pub kept : s'.journal ≡ s.journal
      pub settled : All (IsSettled digests now s matches as_of starts_at ends_at) values
      pub hashed_contents : All (IsHashedResolution digests) values

    due-IsResolve :
        (matches : List MatchRow) (as_of : DateTime) (starts_at ends_at : Option DateTime)
        (due : List (JournalRow F × MatchRow))
        → All (IsDuePair digests now s matches as_of starts_at ends_at) due
        → resolve_due digests now s matches as_of starts_at ends_at due ≡ ok (s', sum)
        → IsResolve matches as_of starts_at ends_at
    unfolding resolve_due insert_resolutions resolution_value
    due-IsResolve matches as_of starts_at ends_at [] d h =
        let e = returned s s' nothing_written sum h in
        record {
          values = [];
          grown =
              ap (λ x. x.resolutions) e
              ∙ (sym (append-nil s.resolutions)
                  ∙ ap (λ l. s.resolutions ++ l)
                      (sym (inserted-nil resolution_conflicts s.resolutions)));
          kept = ap (λ x. x.journal) e;
          settled = tt;
          hashed_contents = tt;
        }
    due-IsResolve matches as_of starts_at ends_at (first ∷ others) d h =
        let values = map (λ p. resolution_value digests now as_of p.0 p.1) (first ∷ others) in
        let (sound, wrote) =
          passed (not (all meets_resolution_constraints values)) integrity_error
            (ok (
              record s {
                resolutions = s.resolutions ++ inserted resolution_conflicts values s.resolutions;
              },
              summary (length values) (length (inserted resolution_conflicts values s.resolutions)),
            ))
            (s', sum) h in
        let e =
          returned
            (record s {
              resolutions = s.resolutions ++ inserted resolution_conflicts values s.resolutions;
            })
            s'
            (summary (length values) (length (inserted resolution_conflicts values s.resolutions)))
            sum wrote in
        record {
          values = values;
          grown = ap (λ x. x.resolutions) e;
          kept = ap (λ x. x.journal) e;
          settled =
              values-IsSettled digests now s matches as_of starts_at ends_at (first ∷ others) d;
          hashed_contents =
              All-map_of (IsHashedResolution digests)
                (λ p. resolution_value digests now as_of p.0 p.1) (first ∷ others) (λ p. refl);
        }

    pub IsResolve-of_call :
        (matches : List MatchRow) (as_of : DateTime) (starts_at ends_at : Option DateTime)
        (limit : ℕ)
        → resolve_completed digests now s matches as_of starts_at ends_at limit ≡ ok (s', sum)
        → IsResolve matches as_of starts_at ends_at
    unfolding resolve_completed
    IsResolve-of_call matches as_of starts_at ends_at limit h =
        let due = due_rows digests now s matches as_of starts_at ends_at limit in
        let rest = resolve_due digests now s matches as_of starts_at ends_at due in
        let (aware, h1) =
          passed (not as_of.aware) resolution_as_of_must_be_aware
            (raise_if (ltb limit 1 || ltb resolution_limit limit) resolution_limit_outside_range
              >> rest)
            (s', sum) h in
        let (inside, h2) =
          passed (ltb limit 1 || ltb resolution_limit limit) resolution_limit_outside_range rest
            (s', sum) h1 in
        due-IsResolve matches as_of starts_at ends_at due
          (due_rows-All digests now s matches as_of starts_at ends_at limit) h2
