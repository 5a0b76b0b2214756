-- ===== src/Journal/Drain.antt =====
-- A resolution with a large enough limit leaves nothing that is due.
use text.Mathlib.Text.{◌==◌ as str_eq}
use text.Mathlib.TextEquality.{eq_iff}
use mathlib.Core.Path.{subst}
use mathlib.Core.List.{append-nil}
use urim_platform.Base.Instant.{DateTime}
use urim_platform.Base.Select.{All-map_of, All-unmapped, length-map}
use urim_platform.Base.Sort.{sorted, length-sorted, All-of_sorted}
use urim_platform.Float.{Float}
use urim_platform.Repository.{MatchRow}
use urim_platform.Journal.Store.{inserted}
use urim_platform.Journal.Model.{
  JournalRow, JournalState, ResolutionRow, ResolutionContent, JournalWriteSummary, Digests,
  resolution_value, meets_resolution_constraints, resolution_conflicts,
}
use urim_platform.Journal.Service.{
  nothing_written, summary, resolution_limit, insert_resolutions, is_due, joined_matches,
  joined_rows, latest_matches, due_first, due_rows, resolve_due, resolve_completed,
}
use urim_platform.Journal.Resolve.{resolution_content, IsHashedResolution}
use urim_platform.Journal.Inserting.{
  is_taken, inserted-nil, any-append, All-inserted, inserted-taken,
}
use urim_platform.Journal.View.{has_key, is_taken-has_key}
use urim_platform.Base.{
  ℕ, zero, suc, ◌≤◌, ◌≡◌, refl, sym, ap, ◌∙◌, inl, inr, true, false, not, ◌||◌, Option, List, [],
  ◌∷◌, ◌++◌, map, arith, ltb, Bool-cases, length, take, all, All, All-map, All-append, ok,
}

-- No two resolutions of different analyses have one hash.
abbrev pub HasNoCollision : {F : Type 0} → Digests F → Type 0
HasNoCollision digests =
    (a b : ResolutionContent)
    → digests.resolution_hash a ≡ digests.resolution_hash b
    → a.analysis_id ≡ b.analysis_id

resolutions-keyed :
    {F : Type 0} (digests : Digests F)
    → HasNoCollision digests
    → (a b : ResolutionRow) → IsHashedResolution digests a
    → IsHashedResolution digests b
    → resolution_conflicts a b ≡ str_eq a.analysis_id b.analysis_id
resolutions-keyed digests free a b ha hb =
    elim (Bool-cases (str_eq a.immutable_hash b.immutable_hash)) [
      | inr apart ↦ ground (arith, apart)
      | inl same ↦
          let hashes : a.immutable_hash ≡ b.immutable_hash =
            (eq_iff a.immutable_hash b.immutable_hash).0 same in
          let ids : a.analysis_id ≡ b.analysis_id =
            free (resolution_content a) (resolution_content b) (sym ha ∙ (hashes ∙ hb)) in
          ground (arith, same, ids, eq_iff a.analysis_id b.analysis_id)
    ]

take_whole : {A : Type 0} (n : ℕ) (xs : List A) → length xs ≤ n → take n xs ≡ xs
take_whole zero [] h = refl
take_whole zero (x ∷ xs) h = absurd (omega arith)
take_whole (suc n) [] h = refl
take_whole (suc n) (x ∷ xs) h = ap (λ l. x ∷ l) (take_whole n xs (omega arith))

module _ {F : Type 0} ⦃fl : Float F⦄ (digests : Digests F) (now : DateTime) (s : JournalState F)
    (matches : List MatchRow) (as_of : DateTime) (starts_at ends_at : Option DateTime) where
  abbrev value_of : JournalRow F × MatchRow → ResolutionRow
  value_of p = resolution_value digests now as_of p.0 p.1

  -- The state after the resolutions of what is due.
  abbrev resolved_state : List (JournalRow F × MatchRow) → JournalState F
  resolved_state due = record s {
    resolutions = s.resolutions ++ inserted resolution_conflicts (map value_of due) s.resolutions;
  }

  resolve_due-returns :
      (due : List (JournalRow F × MatchRow))
      → all meets_resolution_constraints (map value_of due) ≡ true
      → (sum : JournalWriteSummary) × (resolve_due digests now s matches as_of starts_at ends_at due
          ≡ ok (resolved_state due, sum))
        × (sum.received ≡ length due)
  unfolding resolve_due insert_resolutions
  resolve_due-returns [] sound = (
    nothing_written,
    rw (inserted-nil resolution_conflicts s.resolutions, append-nil s.resolutions) refl,
    refl,
  )
  resolve_due-returns (first ∷ others) sound = (
    summary (length (map value_of (first ∷ others)))
        (length (inserted resolution_conflicts (map value_of (first ∷ others)) s.resolutions)),
    rw sound refl,
    length-map value_of (first ∷ others),
  )

  module _ (added : List ResolutionRow) where
    abbrev later_state : JournalState F
    later_state = record s { resolutions = s.resolutions ++ added }

    abbrev IsResolvedPair : JournalRow F × MatchRow → Type 0
    IsResolvedPair p =
        has_key (λ r. r.analysis_id) (s.resolutions ++ added) (p.0).analysis_id ≡ true

    not_due :
        (row : JournalRow F) (match : MatchRow)
        → has_key (λ r. r.analysis_id) (s.resolutions ++ added) row.analysis_id ≡ true
        → is_due digests now later_state matches as_of starts_at ends_at row match ≡ false
    unfolding is_due
    not_due row match h = ground (arith, h)

    still_not_due :
        (row : JournalRow F) (match : MatchRow)
        → is_due digests now s matches as_of starts_at ends_at row match ≡ false
        → is_due digests now later_state matches as_of starts_at ends_at row match ≡ false
    unfolding is_due
    still_not_due row match h =
        ground
          (arith, h, any-append (λ r. str_eq r.analysis_id row.analysis_id) s.resolutions added)

    joined_matches-nil :
        (row : JournalRow F) (found : List MatchRow)
        → All IsResolvedPair
            (joined_matches digests now s matches as_of starts_at ends_at row found)
        → joined_matches digests now later_state matches as_of starts_at ends_at row found ≡ []
    unfolding joined_matches
    joined_matches-nil row [] h = refl
    joined_matches-nil row (match ∷ others) h =
        elim (Bool-cases (is_due digests now s matches as_of starts_at ends_at row match)) [
          | inl due ↦
              let both = rw due at h in
              rw (not_due row match both.0) (joined_matches-nil row others both.1)
          | inr other ↦
              rw (still_not_due row match other) (joined_matches-nil row others (rw other at h))
        ]

    joined_rows-nil :
        (rows : List (JournalRow F))
        → All IsResolvedPair (joined_rows digests now s matches as_of starts_at ends_at rows)
        → joined_rows digests now later_state matches as_of starts_at ends_at rows ≡ []
    unfolding joined_rows
    joined_rows-nil [] h = refl
    joined_rows-nil (row ∷ rows) h =
        let parts = (All-append IsResolvedPair _ _).0 h in
        rw
          (joined_matches-nil row (latest_matches digests now s matches as_of starts_at ends_at)
            parts.0)
          (joined_rows-nil rows parts.1)

  value-IsHashed : (p : JournalRow F × MatchRow) → IsHashedResolution digests (value_of p)
  unfolding resolution_value
  value-IsHashed p = refl

  same_id : (p : JournalRow F × MatchRow) → (value_of p).analysis_id ≡ (p.0).analysis_id
  unfolding resolution_value
  same_id p = refl

  all_resolved :
      HasNoCollision digests
      → All (IsHashedResolution digests) s.resolutions
      → (due : List (JournalRow F × MatchRow))
      → All (IsResolvedPair (inserted resolution_conflicts (map value_of due) s.resolutions)) due
  all_resolved free hashed due =
      let values = map value_of due in
      let table = s.resolutions ++ inserted resolution_conflicts values s.resolutions in
      let values_hashed : All (IsHashedResolution digests) values =
        All-map_of (IsHashedResolution digests) value_of due value-IsHashed in
      let table_hashed : All (IsHashedResolution digests) table =
        (All-append (IsHashedResolution digests) s.resolutions _).1 (
          hashed,
          All-inserted resolution_conflicts (IsHashedResolution digests) values s.resolutions
              values_hashed,
        ) in
      All-map
        (λ p (taken : is_taken resolution_conflicts table (value_of p) ≡ true). rw (same_id p) at (
          sym (
            is_taken-has_key (λ r. r.analysis_id) resolution_conflicts (IsHashedResolution digests)
              (resolutions-keyed digests free) table (value_of p) table_hashed (value-IsHashed p))
          ∙ taken))
        due
        (All-unmapped (λ v. is_taken resolution_conflicts table v ≡ true) value_of due
          (inserted-taken resolution_conflicts
            (λ v. ground (arith, eq_iff v.analysis_id v.analysis_id)) values s.resolutions))

  due_rows-sorted :
      (limit : ℕ)
      → length (joined_rows digests now s matches as_of starts_at ends_at s.journal) ≤ limit
      → due_rows digests now s matches as_of starts_at ends_at limit
        ≡ sorted
            (due_first digests now s matches as_of starts_at ends_at)
            (joined_rows digests now s matches as_of starts_at ends_at s.journal)
  unfolding due_rows
  due_rows-sorted limit enough =
      let pairs = joined_rows digests now s matches as_of starts_at ends_at s.journal in
      let order = due_first digests now s matches as_of starts_at ends_at in
      take_whole limit (sorted order pairs) (omega (arith, length-sorted order pairs))

  -- With an aware time, a limit from 1 to 200 that is not below the number of analyses due,
  -- resolutions that meet the constraints of their table, and no collision of their hashes, the
  -- resolution returns, has received every analysis that was due, leaves the journal as it is, and
  -- no analysis is due any more as of that time.
  pub resolve_completed-IsComplete :
      HasNoCollision digests
      → All (IsHashedResolution digests) s.resolutions
      → as_of.aware ≡ true
      → (limit : ℕ) → 1 ≤ limit
      → limit ≤ 200
      → length (joined_rows digests now s matches as_of starts_at ends_at s.journal) ≤ limit
      → all meets_resolution_constraints (
          map
            (λ p. resolution_value digests now as_of p.0 p.1)
            (due_rows digests now s matches as_of starts_at ends_at limit))
        ≡ true
      → (s' : JournalState F) × (sum : JournalWriteSummary) × (resolve_completed digests now s
            matches as_of starts_at ends_at limit
          ≡ ok (s', sum))
        × (sum.received
            ≡ length (joined_rows digests now s matches as_of starts_at ends_at s.journal))
        × (s'.journal ≡ s.journal)
        × (joined_rows digests now s' matches as_of starts_at ends_at s'.journal ≡ [])
  unfolding resolve_completed
  resolve_completed-IsComplete free hashed aware limit low high enough sound =
      let pairs = joined_rows digests now s matches as_of starts_at ends_at s.journal in
      let order = due_first digests now s matches as_of starts_at ends_at in
      let whole = due_rows-sorted limit enough in
      let due = due_rows digests now s matches as_of starts_at ends_at limit in
      let (sum, returned, count) = resolve_due-returns due sound in
      let in_range : (ltb limit 1 || ltb resolution_limit limit) ≡ false = ground arith in
      let naive : not as_of.aware ≡ false = ground (arith, aware) in
      let resolved = all_resolved free hashed due in
      let added = inserted resolution_conflicts (map value_of due) s.resolutions in
      (
        resolved_state due,
        sum,
        rw (naive, in_range) returned,
        count ∙ (ap length whole ∙ length-sorted order pairs),
        refl,
        joined_rows-nil added s.journal (
            All-of_sorted order (IsResolvedPair added) pairs
              (subst (All (IsResolvedPair added)) whole resolved)),
      )
