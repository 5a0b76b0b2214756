-- ===== src/Journal/Store.antt =====
-- `INSERT … ON CONFLICT DO NOTHING RETURNING id` into a table with unique columns.
use urim_platform.Base.{Bool, true, false, List, [], ◌∷◌, ◌++◌, any}

-- `conflicts a b` holds where two rows agree in a unique column.
module _ {R : Type 0} (conflicts : R → R → Bool) where
  -- The rows of the values that are inserted into the table, in their order.
  unfoldable pub inserted : List R → List R → List R
  inserted [] table = []
  inserted (value ∷ values) table = elim (any (λ row. conflicts row value) table) [
    | true ↦ inserted values table
    | false ↦ value ∷ inserted values (table ++ value ∷ [])
  ]
