-- ===== src/Repository/Latest.antt =====
-- `build_latest_as_of_subquery` of kairos/repository.py, with the filter on `observation_rank = 1`
-- that each query puts on it: of each identity the latest row that was stored by the time of the
-- analysis. `ROW_NUMBER` may take any of the rows that tie; the model takes the first of the table.
use text.Mathlib.Text.{◌==◌ as str_eq}
use urim_platform.Base.{
  String, Bool, ◌&&◌, ◌||◌, List, [], ◌∷◌, ◌==◌, if◌then◌else◌, select, conjunction,
}
use urim_platform.Base.Instant.{DateTime, before, until}
use urim_platform.Repository.Rows.{SourceRow}

abbrev pub api_football_provider : String
api_football_provider = "api-football"

-- The conditions on a row that every subquery has.
unfoldable pub is_visible : DateTime → SourceRow → Bool
is_visible as_of row = conjunction (
    str_eq row.provider api_football_provider
    ∷ until row.available_at as_of
    ∷ until row.fetched_at as_of
    ∷ until row.created_at as_of
    ∷ [])

-- `a` stands before `b` by available_at, fetched_at and created_at, each descending.
abbrev pub is_newer : SourceRow → SourceRow → Bool
is_newer a b =
    before b.available_at a.available_at
    || (b.available_at.instant == a.available_at.instant
        && (before b.fetched_at a.fetched_at
            || (b.fetched_at.instant == a.fetched_at.instant && before b.created_at a.created_at)))

-- `source` reads the shared columns of a row, `same` compares the identity columns.
module _ {R : Type 0} (source : R → SourceRow) where
  unfoldable pub visible_rows : DateTime → List R → List R
  unfolding is_visible
  visible_rows as_of rows = select (λ r. is_visible as_of (source r)) rows

  module _ (same : R → R → Bool) where
    -- Among the rows that rank first, one for each identity, the place of one more row.
    unfoldable pub rank_first : R → List R → List R
    rank_first r [] = r ∷ []
    rank_first r (first ∷ others) =
        if same r first
        then (if is_newer (source first) (source r) then first else r) ∷ others
        else first ∷ rank_first r others

    unfoldable pub ranked_first : List R → List R
    unfolding rank_first
    ranked_first [] = []
    ranked_first (r ∷ rows) = rank_first r (ranked_first rows)

    unfoldable pub latest_as_of : DateTime → (R → Bool) → List R → List R
    unfolding ranked_first visible_rows
    latest_as_of as_of scope rows = ranked_first (select scope (visible_rows as_of rows))
