-- ===== src/Repository/Daily.antt =====
-- The daily targets: what `list_target_matches_as_of` returns.
use text.Mathlib.TextEquality.{eq_iff}
use mathlib.Core.Path.{subst}
use urim_platform.Base.Instant.{DateTime, before, until}
use urim_platform.Base.Select.{length-take, All-take, All-selected}
use urim_platform.Base.Sort.{All-sorted, IsSorted, IsSorted-sorted}
use urim_platform.Observation.{MatchObservation}
use urim_platform.Repository.Rows.{
  TextFunctions, MatchRow, match_of, match_from_row, source_from_row,
}
use urim_platform.Repository.Queries.{
  Database, joined, competition_name, same_match, earliest_kickoff_first,
}
use urim_platform.Repository.Load.{
  in_bounds, max_daily_target_matches, target_rows, list_target_matches_as_of,
}
use urim_platform.Repository.Rank.{latest_as_of-All}
use urim_platform.Repository.Stored.{IsStoredMatch, IsKeptDatabase, IsFrom}
use urim_platform.Repository.Found.{
  IsRead, IsReadable, rows-IsRead, match-IsReadable, match_from_row-read,
}
use urim_platform.Dataset.{contains_text}
use urim_platform.Base.{
  ℕ, zero, suc, ◌≤◌, ◌<◌, ◌≡◌, refl, sym, ap, ◌↔◌, ◌⊎◌, Bool, true, false, not, ◌&&◌, ◌||◌, List,
  [], ◌∷◌, map, arith, ltb, leb, ◌==◌, length, take, All, All-map, All-select, conjunction, Result,
  ok, ◌>>=◌, >>=-eq-ok, All-both, traverse,
}

-- Python's `upper` leaves the statuses of matches to come as they are.
pub record KeepsScheduled (text : TextFunctions) : Type 0 where
  pub not_started : text.upper "NS" ≡ "NS"
  pub to_be_defined : text.upper "TBD" ≡ "TBD"

-- By kickoff, then by identifier.
abbrev key_le : ℕ × ℕ → ℕ × ℕ → Bool
key_le a b = ltb a.0 b.0 || (a.0 == b.0 && leb a.1 b.1)

abbrev row_key : MatchRow → ℕ × ℕ
row_key r = (r.kickoff_at.instant, r.provider_match_id)

abbrev match_key : MatchObservation → ℕ × ℕ
match_key m = (m.kickoff_at.instant, m.provider_match_id)

-- The order of the daily targets.
abbrev pub kicks_off_first : MatchObservation → MatchObservation → Bool
kicks_off_first a b = key_le (match_key a) (match_key b)

-- What a loop returns has the keys of what it ran over.
traverse-key :
    {E A B K : Type 0} (body : A → Result E B) (key : A → K) (new_key : B → K)
    → ((x : A) (y : B) → body x ≡ ok y → new_key y ≡ key x)
    → (xs : List A) (ys : List B) → traverse body xs ≡ ok ys
    → map new_key ys ≡ map key xs
traverse-key body key new_key kept [] ys h = let e : [] ≡ ys = cc in rw (← e) refl
traverse-key body key new_key kept (x ∷ xs) ys h =
    let (y, first, more) = >>=-eq-ok (body x) (λ y. traverse body xs >>= λ ys. ok (y ∷ ys)) h in
    let (rest, found, last) = >>=-eq-ok (traverse body xs) (λ ys. ok (y ∷ ys)) more in
    let same : y ∷ rest ≡ ys = cc in
    rw (← same) (rw (kept x y first, traverse-key body key new_key kept xs rest found) refl)

module _ {A K : Type 0} (key : A → K) (le : K → K → Bool) where
  All-key : (P : K → Type 0) (xs : List A) → All (λ x. P (key x)) xs ↔ All P (map key xs)
  All-key P [] = (λ h. h, λ h. h)
  All-key P (x ∷ xs) = let ih = All-key P xs in (λ h. (h.0, ih.0 h.1), λ h. (h.0, ih.1 h.1))

  IsSorted-key : (xs : List A) → IsSorted (λ a b. le (key a) (key b)) xs ↔ IsSorted le (map key xs)
  IsSorted-key [] = (λ h. h, λ h. h)
  IsSorted-key (x ∷ xs) =
      let ih = IsSorted-key xs in
      let below = All-key (λ k. le (key x) k ≡ true) xs in
      (λ h. (below.0 h.0, ih.0 h.1), λ h. (below.1 h.0, ih.1 h.1))

IsSorted-take :
    {A : Type 0} (le : A → A → Bool) (n : ℕ) (xs : List A)
    → IsSorted le xs
    → IsSorted le (take n xs)
IsSorted-take le zero xs h = tt
IsSorted-take le (suc n) [] h = tt
IsSorted-take le (suc n) (x ∷ xs) h = (All-take _ n xs h.0, IsSorted-take le n xs h.1)

module _ (text : TextFunctions) {V : Type 0} (db : Database V) (as_of : DateTime)
    (starts_at ends_at : DateTime) where
  -- A match to come, between the bounds, that was read from a visible row.
  pub record IsUpcoming (m : MatchObservation) : Type 0 where
    pub starts : starts_at.instant ≤ m.kickoff_at.instant
    pub ends : m.kickoff_at.instant < ends_at.instant
    pub not_begun : as_of.instant < m.kickoff_at.instant
    pub scheduled : (m.status_short ≡ "NS") ⊎ (m.status_short ≡ "TBD")
    pub source_from : IsFrom db as_of m.source

  abbrev in_scope : MatchRow → Bool
  in_scope r = conjunction (
      in_bounds text db as_of starts_at ends_at r
      ∷ before as_of r.kickoff_at
      ∷ contains_text ("NS" ∷ "TBD" ∷ []) r.status_short
      ∷ [])

  abbrev IsTargetRow : MatchObservation → Type 0
  IsTargetRow =
      IsRead db as_of
        (λ row. match_of text row (competition_name text db as_of row.provider_competition_id))
        (λ m. m.source) IsStoredMatch in_scope

  IsTargetRow-IsUpcoming :
      KeepsScheduled text → (m : MatchObservation) → IsTargetRow m → IsUpcoming m
  IsTargetRow-IsUpcoming keeps m p = subst IsUpcoming p.copied (record {
    starts = ground (arith, p.in_scope);
    ends = ground (arith, p.in_scope);
    not_begun = ground (arith, p.in_scope);
    scheduled = ground (
      arith,
      p.in_scope,
      keeps.not_started,
      keeps.to_be_defined,
      eq_iff "NS" p.row.status_short,
      eq_iff "TBD" p.row.status_short,
    );
    source_from = p.source_from;
  })

  joined_key :
      (row : MatchRow) (m : MatchObservation)
      → joined text db as_of row ≡ ok m
      → match_key m ≡ row_key row
  unfolding match_from_row
  joined_key row m h =
      let (source, read, made) =
        >>=-eq-ok (source_from_row row.source)
          (λ source.
            ok (
              match_of text row (competition_name text db as_of row.provider_competition_id)
                source))
          h in
      let same : match_of text row (competition_name text db as_of row.provider_competition_id)
            source
          ≡ m =
        cc in
      ap match_key (sym same)

  key_le_total : (a b : ℕ × ℕ) → (key_le a b ≡ true) ⊎ (key_le b a ≡ true)
  key_le_total (a, b) (c, d) = ground arith

  key_le_trans : (a b c : ℕ × ℕ) → key_le a b ≡ true → key_le b c ≡ true → key_le a c ≡ true
  key_le_trans (a, b) (c, d) (e, f) p q = ground arith

  target_rows-IsSorted :
      (limit : ℕ)
      → IsSorted earliest_kickoff_first (target_rows text db as_of starts_at ends_at limit)
  unfolding target_rows
  target_rows-IsSorted limit = IsSorted-take earliest_kickoff_first limit _ (
      IsSorted-sorted earliest_kickoff_first (λ a b. key_le_total (row_key a) (row_key b))
        (λ a b c. key_le_trans (row_key a) (row_key b) (row_key c)) _)

  length-target_rows :
      (limit : ℕ) → length (target_rows text db as_of starts_at ends_at limit) ≤ limit
  unfolding target_rows
  length-target_rows limit = length-take limit _

  module _ (stored : IsKeptDatabase db) where
    target_rows-All :
        (limit : ℕ)
        → All
            (λ r. IsReadable db as_of r.source × IsStoredMatch r × (in_scope r ≡ true))
            (target_rows text db as_of starts_at ends_at limit)
    unfolding target_rows
    target_rows-All limit = All-take _ limit _ (
        All-sorted earliest_kickoff_first _ _ (
          All-map
            (λ r (chosen, s).
              let (readable, good) =
                match-IsReadable text db as_of stored r chosen.stored chosen.visible in
              (readable, good, s))
            _
            (All-both _ (λ r. in_scope r ≡ true) _
              (All-select _ in_scope _
                (latest_as_of-All (λ r. r.source) same_match as_of _ db.matches))
              (All-selected in_scope _))))

    -- On a database that keeps the constraints of its tables, with flags that are lists of at most 32 texts,
    -- which no constraint asks for, with aware bounds in order and a limit from 1 to
    -- 16, the daily targets are returned: at most as many as the limit, each to kick off within the
    -- bounds and after the time of analysis with a status NS or TBD, read from a row that was
    -- visible at that time, in the order of their kickoffs and then identifiers. `str.upper` is
    -- taken to leave NS and TBD as they are.
    pub list_target_matches_as_of_lem :
        KeepsScheduled text
        → starts_at.aware ≡ true
        → ends_at.aware ≡ true
        → starts_at.instant < ends_at.instant
        → (limit : ℕ) → 1 ≤ limit
        → limit ≤ 16
        → (targets : List MatchObservation) × (list_target_matches_as_of text db as_of starts_at
              ends_at limit
            ≡ ok targets)
          × (length targets ≤ limit)
          × All IsUpcoming targets
          × IsSorted kicks_off_first targets
    unfolding list_target_matches_as_of
    list_target_matches_as_of_lem keeps starts ends order limit low high =
        let rows = target_rows text db as_of starts_at ends_at limit in
        let (targets, returned, all_read, size) =
          rows-IsRead db as_of
            (λ row. match_of text row (competition_name text db as_of row.provider_competition_id))
            (λ m. m.source) IsStoredMatch (λ r. r.source) (joined text db as_of)
            (match_from_row-read text db as_of stored
              (λ row. competition_name text db as_of row.provider_competition_id))
            (λ row s. refl) in_scope rows (target_rows-All limit) in
        let aware : (not starts_at.aware || not ends_at.aware) ≡ false = ground arith in
        let ordered : until ends_at starts_at ≡ false = ground arith in
        let bounded : (ltb limit 1 || ltb max_daily_target_matches limit) ≡ false = ground arith in
        let keys =
          traverse-key (joined text db as_of) row_key match_key joined_key rows targets returned in
        (
          targets,
          rw (aware, ordered, bounded) returned,
          rw size (length-target_rows limit),
          All-map (IsTargetRow-IsUpcoming keeps) targets all_read,
          (IsSorted-key match_key key_le targets).1
              (rw keys ((IsSorted-key row_key key_le rows).0 (target_rows-IsSorted limit))),
        )
