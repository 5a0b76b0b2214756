-- ===== src/Journal/Resolve.antt =====
-- What `resolve_completed` settles: analyses of the journal, by visible observations of their
-- matches, and no outcome by what was known before the kickoff.
use text.Mathlib.TextEquality.{eq_iff}
use mathlib.Core.List.{append-nil}
use urim_platform.Base.Instant.{DateTime, before, until}
use urim_platform.Base.Select.{All-mapped, All-take, length-take, length-map}
use urim_platform.Base.Sort.{All-sorted}
use urim_platform.Float.{Float}
use urim_platform.Market.{void, evaluate_market_outcome}
use urim_platform.Repository.{MatchRow, same_match, is_visible}
use urim_platform.Repository.Rank.{latest_as_of-All}
use urim_platform.Journal.Store.{inserted}
use urim_platform.Journal.Model.{
  JournalError, resolution_as_of_must_be_aware, resolution_limit_outside_range, integrity_error,
  JournalRow, JournalState, ResolutionRow, JournalWriteSummary, Digests, ResolutionContent,
  resolution_value, meets_resolution_constraints, resolution_conflicts,
}
use urim_platform.Journal.Service.{
  resolution_limit, insert_resolutions, is_unresolved, is_due, joined_matches, joined_rows,
  latest_matches, due_rows, due_first, resolve_due, resolve_completed,
}
use urim_platform.Journal.Inserting.{length-inserted, All-inserted}
use urim_platform.Base.{
  ℕ, ◌+◌, ◌≤◌, ◌<◌, ◌≡◌, refl, sym, ◌⊎◌, inl, inr, Bool, true, false, not, ◌||◌, Option, some, List,
  [], ◌∷◌, ◌++◌, map, arith, ltb, Bool-cases, length, all, All, All-map, All-append, Result, ok,
  err, ◌>>◌, raise_if, In, All-In, All-In_self,
}

abbrev pub resolution_content : ResolutionRow → ResolutionContent
resolution_content r = record {
  analysis_id = r.analysis_id;
  outcome = r.outcome;
  outcome_available_at = r.outcome_available_at;
  payload = r.outcome_payload;
  raw_hash = r.raw_hash;
}

-- The resolution carries the hash of its content.
abbrev pub IsHashedResolution : {F : Type 0} → Digests F → ResolutionRow → Type 0
IsHashedResolution digests r = r.immutable_hash ≡ digests.resolution_hash (resolution_content r)

module _ {F : Type 0} ⦃fl : Float F⦄ (digests : Digests F) (now : DateTime) (s : JournalState F)
    (matches : List MatchRow) (as_of : DateTime) (starts_at ends_at : Option DateTime) where
  -- An analysis of the journal that was not resolved, and the observation that settles it.
  pub record IsDuePair (p : JournalRow F × MatchRow) : Type 0 where
    pub in_journal : In p.0 s.journal
    pub in_latest : In p.1 (latest_matches digests now s matches as_of starts_at ends_at)
    pub due : is_due digests now s matches as_of starts_at ends_at p.0 p.1 ≡ true

  joined_matches-All :
      (row : JournalRow F)
      → In row s.journal
      → (found : List MatchRow)
      → All (λ m. In m (latest_matches digests now s matches as_of starts_at ends_at)) found
      → All IsDuePair (joined_matches digests now s matches as_of starts_at ends_at row found)
  unfolding joined_matches
  joined_matches-All row member [] h = tt
  joined_matches-All row member (match ∷ others) h =
      elim (Bool-cases (is_due digests now s matches as_of starts_at ends_at row match)) [
        | inl due ↦ rw due (
          record { in_journal = member; in_latest = h.0; due = due },
          joined_matches-All row member others h.1,
        )
        | inr other ↦ rw other (joined_matches-All row member others h.1)
      ]

  pub joined_rows-All :
      (rows : List (JournalRow F))
      → All (λ row. In row s.journal) rows
      → All IsDuePair (joined_rows digests now s matches as_of starts_at ends_at rows)
  unfolding joined_rows
  joined_rows-All [] h = tt
  joined_rows-All (row ∷ rows) h =
      (All-append IsDuePair _ _).1
        (joined_matches-All row h.0 _ (All-In_self _), joined_rows-All rows h.1)

  pub due_rows-All :
      (limit : ℕ) → All IsDuePair (due_rows digests now s matches as_of starts_at ends_at limit)
  unfolding due_rows
  due_rows-All limit = All-take IsDuePair limit _ (
      All-sorted (due_first digests now s matches as_of starts_at ends_at) IsDuePair _
        (joined_rows-All s.journal (All-In_self s.journal)))

  -- An observation of the match that was visible at the time of resolution, in a completed status,
  -- settles the analysis; an outcome but void is that of the market, for a match that kicked off
  -- after the analysis and an observation that came after the kickoff that was analysed.
  pub record IsSettled (r : ResolutionRow) : Type 0 where
    pub row : JournalRow F
    pub match : MatchRow
    pub in_journal : In row s.journal
    pub was_unresolved : is_unresolved digests now s row ≡ true
    pub same_analysis : r.analysis_id ≡ row.analysis_id
    pub same_market : r.market ≡ row.market
    pub observed : In match matches
    pub visible : is_visible as_of match.source ≡ true
    pub of_match : match.provider_match_id ≡ row.provider_match_id
    pub is_over : row.kickoff_at.instant < as_of.instant
    pub completed :
        (match.status_short ≡ "AET") ⊎ (match.status_short ≡ "FT") ⊎ (match.status_short ≡ "PEN")
    pub no_look_ahead :
        (r.outcome ≡ void)
        ⊎ ((row.analysis_time.instant < match.kickoff_at.instant)
            × (row.kickoff_at.instant ≤ match.source.available_at.instant)
            × (r.outcome
                ≡ evaluate_market_outcome
                    (some row.market)
                    match.score_halftime_home
                    match.score_halftime_away
                    match.score_fulltime_home
                    match.score_fulltime_away))

  IsDuePair-IsSettled :
      (p : JournalRow F × MatchRow)
      → IsDuePair p
      → IsSettled (resolution_value digests now as_of p.0 p.1)
  unfolding is_due resolution_value
  IsDuePair-IsSettled (row, match) d =
      let chosen =
        All-In _ match (latest_matches digests now s matches as_of starts_at ends_at) d.in_latest
          (latest_as_of-All (λ m. m.source) same_match as_of (λ _. true) matches) in
      record {
        row = row;
        match = match;
        in_journal = d.in_journal;
        was_unresolved = ground (arith, d.due);
        same_analysis = refl;
        same_market = refl;
        observed = chosen.stored;
        visible = chosen.visible;
        of_match = ground (arith, d.due);
        is_over = ground (arith, d.due);
        completed = ground (
          arith,
          d.due,
          eq_iff "FT" match.status_short,
          eq_iff "AET" match.status_short,
          eq_iff "PEN" match.status_short,
        );
        no_look_ahead =
            elim (Bool-cases (
              until match.kickoff_at row.analysis_time
              || before match.source.available_at row.kickoff_at)) [
                | inl mismatch ↦ rw mismatch (inl refl)
                | inr timely ↦ rw timely (inr (ground arith, ground arith, refl))
              ];
      }

  pub values-IsSettled :
      (due : List (JournalRow F × MatchRow))
      → All IsDuePair due
      → All IsSettled (map (λ d. resolution_value digests now as_of d.0 d.1) due)
  values-IsSettled due h =
      All-mapped IsSettled (λ d. resolution_value digests now as_of d.0 d.1) due
        (All-map IsDuePair-IsSettled due h)

  pub record IsResolved (limit : ℕ) (s' : JournalState F) (sum : JournalWriteSummary) : Type 0 where
    pub added : List ResolutionRow
    pub resolutions_grown : s'.resolutions ≡ s.resolutions ++ added
    pub journal_kept : s'.journal ≡ s.journal
    pub counted : sum.inserted_rows ≡ length added
    pub adds_up : sum.inserted_rows + sum.duplicate ≡ sum.received
    pub bounded : sum.received ≤ limit
    pub settled : All IsSettled added

  -- What every result says of the call.
  abbrev pub Effect : ℕ → Result JournalError (JournalState F × JournalWriteSummary) → Type 0
  Effect limit (ok (s', sum)) = IsResolved limit s' sum
  Effect limit (err e) =
      ((e ≡ resolution_as_of_must_be_aware) × (as_of.aware ≡ false))
      ⊎ ((e ≡ resolution_limit_outside_range) × ((limit ≡ 0) ⊎ (200 < limit)))
      ⊎ ((e ≡ integrity_error)
          × (all meets_resolution_constraints (
                map (λ d. resolution_value digests now as_of d.0 d.1)
                  (due_rows digests now s matches as_of starts_at ends_at limit))
              ≡ false))

  resolve_due-Effect :
      (limit : ℕ) (due : List (JournalRow F × MatchRow))
      → due_rows digests now s matches as_of starts_at ends_at limit ≡ due
      → All IsDuePair due
      → length due ≤ limit
      → Effect limit (resolve_due digests now s matches as_of starts_at ends_at due)
  unfolding resolve_due insert_resolutions
  resolve_due-Effect limit [] e h size = record {
    added = [];
    resolutions_grown = sym (append-nil s.resolutions);
    journal_kept = refl;
    counted = refl;
    adds_up = omega arith;
    bounded = omega arith;
    settled = tt;
  }
  resolve_due-Effect limit (first ∷ others) e h size =
      let values = map (λ d. resolution_value digests now as_of d.0 d.1) (first ∷ others) in
      elim (Bool-cases (all meets_resolution_constraints values)) [
        | inr broken ↦ rw broken (inr (inr (refl, rw e broken)))
        | inl sound ↦ rw sound (record {
          added = inserted resolution_conflicts values s.resolutions;
          resolutions_grown = refl;
          journal_kept = refl;
          counted = refl;
          adds_up = omega (arith, length-inserted resolution_conflicts values s.resolutions);
          bounded =
              rw (length-map (λ d. resolution_value digests now as_of d.0 d.1) (first ∷ others))
                size;
          settled =
              All-inserted resolution_conflicts IsSettled values s.resolutions
                (values-IsSettled (first ∷ others) h);
        })
      ]

  length-due_rows :
      (limit : ℕ) → length (due_rows digests now s matches as_of starts_at ends_at limit) ≤ limit
  unfolding due_rows
  length-due_rows limit = length-take limit _

  guard-Effect :
      (limit : ℕ) (b : Bool) (e : JournalError)
      (k : Result JournalError (JournalState F × JournalWriteSummary))
      → (b ≡ true → Effect limit (err e))
      → (b ≡ false → Effect limit k)
      → Effect limit (raise_if b e >> k)
  guard-Effect limit true e k raised passed = raised refl
  guard-Effect limit false e k raised passed = passed refl

  -- Whatever `resolve_completed` is called with, it raises the error on a naive time or on a limit
  -- outside 1 to 200, for those; or the error of the database, where a resolution breaks a
  -- constraint; or it returns. Then the old resolutions stand first and unchanged, and so does the
  -- journal; the counts add up, and at most the limit was received. Each resolution added is of an
  -- analysis of the journal that had none, by a visible completed observation of its match, and
  -- its outcome is void or the one of the market, for a kickoff after the analysis and an
  -- observation not before the kickoff that was analysed.
  pub resolve_completed_lem :
      (limit : ℕ)
      → Effect limit (resolve_completed digests now s matches as_of starts_at ends_at limit)
  unfolding resolve_completed
  resolve_completed_lem limit =
      guard-Effect limit (not as_of.aware) _ _ (λ naive. inl (refl, ground arith))
        (λ aware.
          guard-Effect limit (ltb limit 1 || ltb resolution_limit limit) _ _
            (λ outside. inr (inl (refl, ground arith)))
            (λ inside.
              resolve_due-Effect limit _ refl (due_rows-All limit) (length-due_rows limit)))
