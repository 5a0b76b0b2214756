-- ===== src/Repository/Found.antt =====
-- Every query of the repository returns on a stored database, and what it finds was read from rows
-- that were visible and in its scope.
use urim_platform.Base.Instant.{DateTime}
use urim_platform.Base.Select.{length-take, All-take, All-selected}
use urim_platform.Base.Sort.{All-sorted}
use urim_platform.Dataset.{team_ids}
use urim_platform.Observation.{
  SourceObservation, MatchObservation, StandingObservation, StatisticObservation, EventObservation,
}
use urim_platform.Repository.Rows.{
  TextFunctions, SourceRow, MatchRow, RepositoryError, source_from_row, match_of, match_from_row,
  standing_of, statistic_of, event_of,
}
use urim_platform.Repository.Latest.{is_visible}
use urim_platform.Repository.Queries.{
  Database, same_match, in_standing_scope, in_statistic_scope, in_event_scope, latest_kickoff_first,
  in_team_scope, in_h2h_scope, history_rows, team_history, h2h_history, competition_name,
  first_match, match_as_of,
}
use urim_platform.Repository.Rank.{latest_as_of-All}
use urim_platform.Repository.Stored.{
  IsKept, IsStoredMatch, IsKeptDatabase, all_sources, IsFrom, source_from_row-IsFrom, In-map,
  In-append,
}
use urim_platform.Base.{
  ℕ, ◌≤◌, String, ◌≡◌, refl, ap, ◌⊎◌, inl, inr, Bool, true, not, ◌&&◌, Option, none, some, List, [],
  ◌∷◌, map, ◌==◌, length, All, All-map, All-select, Result, ok, All-both, In, All-In, traverse,
  traverse-All,
}

module _ {V : Type 0} (db : Database V) (as_of : DateTime) where
  -- Rows whose observation can be read: visible ones of the database, as it constrains them.
  pub record IsReadable (row : SourceRow) : Type 0 where
    pub in_database : In row (all_sources db)
    pub visible : is_visible as_of row ≡ true
    pub row_stored : IsKept row

  module _ {R O : Type 0} (make : R → SourceObservation → O) (source : O → SourceObservation)
      (Good : R → Type 0) where
    -- The observation was made of a row in scope, with the provenance of a visible row.
    pub record IsRead (scope : R → Bool) (o : O) : Type 0 where
      pub row : R
      pub good : Good row
      pub in_scope : scope row ≡ true
      pub source_from : IsFrom db as_of (source o)
      pub copied : make row (source o) ≡ o

    pub rows-IsRead :
        (source_row : R → SourceRow) (from_row : R → Result RepositoryError O)
        → ((row : R) (s : SourceObservation)
            → source_from_row (source_row row) ≡ ok s
            → from_row row ≡ ok (make row s))
        → ((row : R) (s : SourceObservation) → source (make row s) ≡ s)
        → (scope : R → Bool) (rows : List R)
        → All (λ r. IsReadable (source_row r) × Good r × (scope r ≡ true)) rows
        → (found : List O) × (traverse from_row rows ≡ ok found)
          × All (IsRead scope) found
          × (length found ≡ length rows)
    rows-IsRead source_row from_row law back scope rows h =
        traverse-All {P = λ r. IsReadable (source_row r) × Good r × (scope r ≡ true)}
          {Q = IsRead scope} from_row
          (λ r p.
            let (s, read, from) =
              source_from_row-IsFrom db as_of (source_row r) p.0.in_database p.0.visible
                p.0.row_stored in
            (
              make r s,
              law r s read,
              record {
                row = r;
                good = p.1;
                in_scope = p.2;
                source_from = rw (back r s) from;
                copied = ap (make r) (back r s);
              },
            ))
          rows h

-- Python's `upper` leaves the statuses of completed matches as they are.
pub record KeepsStatuses (text : TextFunctions) : Type 0 where
  pub full_time : text.upper "FT" ≡ "FT"
  pub extra_time : text.upper "AET" ≡ "AET"
  pub penalties : text.upper "PEN" ≡ "PEN"

-- A row of the history is in scope and not of the target.
abbrev pub in_history : (MatchRow → Bool) → MatchObservation → MatchRow → Bool
in_history scope target r = not (r.provider_match_id == target.provider_match_id) && scope r

module _ (text : TextFunctions) {V : Type 0} (db : Database V) (as_of : DateTime) where
  -- Of a match that was read from a row in scope, joined with no competition.
  abbrev pub IsPastMatch : (MatchRow → Bool) → MatchObservation → Type 0
  IsPastMatch scope =
      IsRead db as_of (λ row. match_of text row none) (λ m. m.source) IsStoredMatch scope

  -- Of the target: it is joined with its competition.
  abbrev pub IsTarget : ℕ → MatchObservation → Type 0
  IsTarget match_id =
      IsRead db as_of
        (λ row. match_of text row (competition_name text db as_of row.provider_competition_id))
        (λ m. m.source) IsStoredMatch (λ r. r.provider_match_id == match_id)

  abbrev pub IsReadStanding : MatchObservation → StandingObservation → Type 0
  IsReadStanding target =
      IsRead db as_of standing_of (λ s. s.source) (λ _. Unit {0})
        (in_standing_scope text db as_of target (team_ids target))

  abbrev pub IsReadStatistic : List ℕ → List ℕ → StatisticObservation V → Type 0
  IsReadStatistic ids teams =
      IsRead db as_of statistic_of (λ s. s.source) (λ _. Unit {0})
        (in_statistic_scope text db as_of ids teams)

  abbrev pub IsReadEvent : List ℕ → List ℕ → EventObservation → Type 0
  IsReadEvent ids teams =
      IsRead db as_of event_of (λ s. s.source) (λ _. Unit {0})
        (in_event_scope text db as_of ids teams)

module _ (text : TextFunctions) {V : Type 0} (db : Database V) (as_of : DateTime)
    (stored : IsKeptDatabase db) where
  pub match_from_row-read :
      (name : MatchRow → Option String) (row : MatchRow) (s : SourceObservation)
      → source_from_row row.source ≡ ok s
      → match_from_row text row (name row) ≡ ok (match_of text row (name row) s)
  unfolding match_from_row
  match_from_row-read name row s h = rw h refl

  pub match-IsReadable :
      (row : MatchRow)
      → In row db.matches
      → is_visible as_of row.source ≡ true
      → IsReadable db as_of row.source × IsStoredMatch row
  match-IsReadable row member seen =
      let good = All-In IsStoredMatch row db.matches member stored.matches_stored in
      (
        record {
          in_database =
              In-append row.source (map (λ r. r.source) db.matches) _
                (inl (In-map (λ r. r.source) row db.matches member));
          visible = seen;
          row_stored = good.source_stored;
        },
        good,
      )

  history_rows-All :
      (scope : MatchRow → Bool) (target : MatchObservation) (limit : ℕ)
      → All
          (λ r. IsReadable db as_of r.source × IsStoredMatch r × (in_history scope target r ≡ true))
          (history_rows text db as_of scope target limit)
  unfolding history_rows
  history_rows-All scope target limit = All-take _ limit _ (
      All-sorted latest_kickoff_first _ _ (
        All-map
          (λ r (chosen, s).
            let (readable, good) = match-IsReadable r chosen.stored chosen.visible in
            (readable, good, s))
          _
          (All-both _ (λ r. in_history scope target r ≡ true) _
            (All-select _ (in_history scope target) _
              (latest_as_of-All (λ r. r.source) same_match as_of _ db.matches))
            (All-selected (in_history scope target) _))))

  length-history_rows :
      (scope : MatchRow → Bool) (target : MatchObservation) (limit : ℕ)
      → length (history_rows text db as_of scope target limit) ≤ limit
  unfolding history_rows
  length-history_rows scope target limit = length-take limit _

  history_found :
      (scope : MatchRow → Bool) (target : MatchObservation) (limit : ℕ)
      → (found : List MatchObservation) × (traverse
            (λ row. match_from_row text row none)
            (history_rows text db as_of scope target limit)
          ≡ ok found)
        × All (IsPastMatch text db as_of (in_history scope target)) found
        × (length found ≤ limit)
  history_found scope target limit =
      let (found, returned, all_read, size) =
        rows-IsRead db as_of (λ row. match_of text row none) (λ m. m.source) IsStoredMatch
          (λ r. r.source) (λ row. match_from_row text row none) (match_from_row-read (λ _. none))
          (λ row s. refl) (in_history scope target) _ (history_rows-All scope target limit) in
      (found, returned, all_read, rw size (length-history_rows scope target limit))

  pub team_history_found :
      (team : ℕ) (target : MatchObservation) (limit : ℕ)
      → (found : List MatchObservation) × (team_history text db as_of team target limit ≡ ok found)
        × All
            (IsPastMatch text db as_of
              (in_history (in_team_scope text db as_of team target) target))
            found
        × (length found ≤ limit)
  unfolding team_history
  team_history_found team target limit =
      history_found (in_team_scope text db as_of team target) target limit

  pub h2h_history_found :
      (target : MatchObservation) (limit : ℕ)
      → (found : List MatchObservation) × (h2h_history text db as_of target limit ≡ ok found)
        × All
            (IsPastMatch text db as_of (in_history (in_h2h_scope text db as_of target) target))
            found
        × (length found ≤ limit)
  unfolding h2h_history
  h2h_history_found target limit = history_found (in_h2h_scope text db as_of target) target limit

  first_match_found :
      (match_id : ℕ) (rows : List MatchRow)
      → All
          (λ r.
            IsReadable db as_of r.source
            × IsStoredMatch r
            × ((r.provider_match_id == match_id) ≡ true))
          rows
      → (first_match text db as_of rows ≡ ok none)
        ⊎ ((target : MatchObservation) × (first_match text db as_of rows ≡ ok (some target))
            × IsTarget text db as_of match_id target)
  unfolding first_match match_from_row
  first_match_found match_id [] h = inl refl
  first_match_found match_id (row ∷ rows) ((readable, good, s), _) =
      let (source, read, from) =
        source_from_row-IsFrom db as_of row.source readable.in_database readable.visible
          readable.row_stored in
      inr (
        match_of text row (competition_name text db as_of row.provider_competition_id) source,
        rw read refl,
        record { row = row; good = good; in_scope = s; source_from = from; copied = refl },
      )

  pub match_as_of_found :
      (match_id : ℕ)
      → (match_as_of text db as_of match_id ≡ ok none)
        ⊎ ((target : MatchObservation) × (match_as_of text db as_of match_id ≡ ok (some target))
            × IsTarget text db as_of match_id target)
  unfolding match_as_of
  match_as_of_found match_id = first_match_found match_id _ (
      All-map
        (λ r (chosen, s).
          let (readable, good) = match-IsReadable r chosen.stored chosen.visible in
          (readable, good, s))
        _
        (All-both _ (λ r. (r.provider_match_id == match_id) ≡ true) _
          (All-select _ (λ r. r.provider_match_id == match_id) _
            (latest_as_of-All (λ r. r.source) same_match as_of _ db.matches))
          (All-selected (λ r. r.provider_match_id == match_id) _)))
