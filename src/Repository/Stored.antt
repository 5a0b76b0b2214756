-- ===== src/Repository/Stored.antt =====
-- What the tables hold: the constraints of db/models.py on a row, and the flags that a load can
-- read, which no constraint asks for. An observation that was read from a visible row was known at
-- the time of the analysis.
use urim_platform.Base.Instant.{DateTime}
use urim_platform.Observation.{SourceObservation}
use urim_platform.Repository.Rows.{
  StoredFlags, absent, other_value, flag_list, SourceRow, MatchRow, StandingRow, StatisticRow,
  EventRow, texts, flags_from, source_of, source_from_row,
}
use urim_platform.Repository.Latest.{is_visible}
use urim_platform.Repository.Queries.{Database}
use urim_platform.Base.{
  ◌≤◌, String, ◌≡◌, refl, ap, ◌≢◌, ◌⊎◌, inl, inr, true, false, Option, none, some, List, [], ◌∷◌,
  ◌++◌, map, arith, ltb, length, All, ok, In,
}

-- Quality flags are written as a list of at most 32 texts.
abbrev pub IsFlagList : StoredFlags → Type 0
IsFlagList absent = Unit
IsFlagList other_value = ⊥
IsFlagList (flag_list flags) = (length flags ≤ 32) × All (λ flag. flag ≢ none) flags

-- The constraints of the tables on the shared columns: they are datetimes with a time zone, and
-- the check on their order holds.
pub record IsStored (row : SourceRow) : Type 0 where
  pub observed_aware : row.observed_at.aware ≡ true
  pub available_aware : row.available_at.aware ≡ true
  pub fetched_aware : row.fetched_at.aware ≡ true
  pub created_aware : row.created_at.aware ≡ true
  pub observed_first : row.observed_at.instant ≤ row.available_at.instant
  pub available_next : row.available_at.instant ≤ row.fetched_at.instant

-- A row that meets the constraints of its table and whose flags can be read.
pub record IsKept (row : SourceRow) : Type 0 where
  pub stored : IsStored row
  pub flags_listed : IsFlagList row.quality_flags

pub record IsStoredMatch (row : MatchRow) : Type 0 where
  pub source_stored : IsKept row.source
  pub kickoff_aware : row.kickoff_at.aware ≡ true
  pub teams_differ : row.home_team_provider_id ≢ row.away_team_provider_id

abbrev pub all_sources : {V : Type 0} → Database V → List SourceRow
all_sources db =
    map (λ r. r.source) db.matches
    ++ (map (λ r. r.source) db.standings
        ++ (map (λ r. r.source) db.statistics ++ map (λ r. r.source) db.events))

pub record IsKeptDatabase {V : Type 0} (db : Database V) : Type 0 where
  pub matches_stored : All IsStoredMatch db.matches
  pub standings_stored : All (λ (r : StandingRow). IsKept r.source) db.standings
  pub statistics_stored : All (λ (r : StatisticRow V). IsKept r.source) db.statistics
  pub events_stored : All (λ (r : EventRow). IsKept r.source) db.events

-- Observed, then available, then fetched, and both fetched and stored by the time of analysis.
pub record IsKnown (as_of : DateTime) (s : SourceObservation) : Type 0 where
  pub observed_aware : s.observed_at.aware ≡ true
  pub available_aware : s.available_at.aware ≡ true
  pub fetched_aware : s.fetched_at.aware ≡ true
  pub created_aware : s.created_at.aware ≡ true
  pub observed_first : s.observed_at.instant ≤ s.available_at.instant
  pub available_next : s.available_at.instant ≤ s.fetched_at.instant
  pub fetched_last : s.fetched_at.instant ≤ as_of.instant
  pub created_last : s.created_at.instant ≤ as_of.instant

texts_total :
    (flags : List (Option String))
    → All (λ flag. flag ≢ none) flags
    → (names : List String) × (texts flags ≡ some names)
unfolding texts
texts_total [] h = ([], refl)
texts_total (none ∷ flags) h = absurd (h.0 refl)
texts_total (some flag ∷ flags) h =
    let (names, found) = texts_total flags h.1 in (flag ∷ names, rw found refl)

flags_from_total :
    (stored : StoredFlags)
    → IsFlagList stored
    → (flags : List String) × (flags_from stored ≡ ok flags)
unfolding flags_from
flags_from_total absent h = ([], refl)
flags_from_total other_value h = elim h [ ]
flags_from_total (flag_list flags) (bounded, written) =
    let (names, found) = texts_total flags written in
    let short : ltb 32 (length flags) ≡ false = ground arith in (names, rw (short, found) refl)

pub In-map : {A B : Type 0} (f : A → B) (a : A) (xs : List A) → In a xs → In (f a) (map f xs)
In-map f a [] m = elim m [ ]
In-map f a (x ∷ xs) (inl e) = inl (ap f e)
In-map f a (x ∷ xs) (inr m) = inr (In-map f a xs m)

pub In-append : {A : Type 0} (a : A) (xs ys : List A) → In a xs ⊎ In a ys → In a (xs ++ ys)
In-append a [] ys (inl m) = elim m [ ]
In-append a [] ys (inr m) = m
In-append a (x ∷ xs) ys (inl (inl e)) = inl e
In-append a (x ∷ xs) ys (inl (inr m)) = inr (In-append a xs ys (inl m))
In-append a (x ∷ xs) ys (inr m) = inr (In-append a xs ys (inr m))

module _ {V : Type 0} (db : Database V) (as_of : DateTime) where
  -- The observation was read from a row of the database that was visible at that time.
  pub record IsFrom (s : SourceObservation) : Type 0 where
    pub row : SourceRow
    pub flags : List String
    pub in_database : In row (all_sources db)
    pub visible : is_visible as_of row ≡ true
    pub row_stored : IsKept row
    pub flags_read : flags_from row.quality_flags ≡ ok flags
    pub copied : source_of row flags ≡ s

  pub source_from_row-IsFrom :
      (row : SourceRow)
      → In row (all_sources db)
      → is_visible as_of row ≡ true
      → IsKept row
      → (s : SourceObservation) × (source_from_row row ≡ ok s) × IsFrom s
  unfolding source_from_row
  source_from_row-IsFrom row member seen stored =
      let (flags, read) = flags_from_total row.quality_flags stored.flags_listed in
      (
        source_of row flags,
        rw read refl,
        record {
          row = row;
          flags = flags;
          in_database = member;
          visible = seen;
          row_stored = stored;
          flags_read = read;
          copied = refl;
        },
      )

  pub IsFrom-IsKnown : (s : SourceObservation) → IsFrom s → IsKnown as_of s
  unfolding is_visible
  IsFrom-IsKnown s f =
      let r = f.row_stored.stored in
      let seen : IsKnown as_of (source_of f.row f.flags) = record {
        observed_aware = r.observed_aware;
        available_aware = r.available_aware;
        fetched_aware = r.fetched_aware;
        created_aware = r.created_aware;
        observed_first = r.observed_first;
        available_next = r.available_next;
        fetched_last = ground (arith, f.visible);
        created_last = ground (arith, f.visible);
      } in
      rw (← f.copied) seen
