-- ===== src/Journal/Inserting.antt =====
-- What an insertion that ignores conflicts adds to its table.
use mathlib.Core.Path.{subst}
use mathlib.Core.List.{append_assoc, append-nil}
use urim_platform.Journal.Store.{inserted}
use urim_platform.Base.{
  ◌≤◌, ◌≡◌, refl, sym, ◌∙◌, inl, inr, Bool, true, false, ◌||◌, List, [], ◌∷◌, ◌++◌, arith,
  Bool-cases, ||-eq-false, length, any, All, All-append,
}

pub any-append :
    {A : Type 0} (p : A → Bool) (xs ys : List A) → any p (xs ++ ys) ≡ (any p xs || any p ys)
any-append p [] ys = refl
any-append p (x ∷ xs) ys = ground (arith, any-append p xs ys)

module _ {R : Type 0} (conflicts : R → R → Bool) where
  abbrev pub is_taken : List R → R → Bool
  is_taken table value = any (λ row. conflicts row value) table

  -- No row conflicts with an earlier one.
  abbrev pub IsApart : List R → Type 0
  IsApart [] = Unit
  IsApart (row ∷ rows) = All (λ later. conflicts row later ≡ false) rows × IsApart rows

  pub inserted-nil : (table : List R) → inserted conflicts [] table ≡ []
  unfolding inserted
  inserted-nil table = refl

  pub inserted-skip :
      (v : R) (values table : List R)
      → is_taken table v ≡ true
      → inserted conflicts (v ∷ values) table ≡ inserted conflicts values table
  unfolding inserted
  inserted-skip v values table taken = rw (taken, inserted) refl

  pub inserted-keep :
      (v : R) (values table : List R)
      → is_taken table v ≡ false
      → inserted conflicts (v ∷ values) table ≡ v ∷ inserted conflicts values (table ++ v ∷ [])
  unfolding inserted
  inserted-keep v values table fresh = rw (fresh, inserted) refl

  pub length-inserted :
      (values table : List R) → length (inserted conflicts values table) ≤ length values
  length-inserted [] table = rw (inserted-nil table) (omega arith)
  length-inserted (v ∷ values) table = elim (Bool-cases (is_taken table v)) [
    | inl taken ↦
        rw (inserted-skip v values table taken) (omega (arith, length-inserted values table))
    | inr fresh ↦
        rw (inserted-keep v values table fresh)
          (omega (arith, length-inserted values (table ++ v ∷ [])))
  ]

  pub All-inserted {κ} :
      (P : R → Type κ) (values table : List R)
      → All P values
      → All P (inserted conflicts values table)
  All-inserted P [] table h = rw (inserted-nil table) tt
  All-inserted P (v ∷ values) table h = elim (Bool-cases (is_taken table v)) [
    | inl taken ↦ rw (inserted-skip v values table taken) (All-inserted P values table h.1)
    | inr fresh ↦
        rw (inserted-keep v values table fresh) (h.0, All-inserted P values (table ++ v ∷ []) h.1)
  ]

  IsApart-last :
      (rows : List R) (v : R) → IsApart rows → is_taken rows v ≡ false → IsApart (rows ++ v ∷ [])
  IsApart-last [] v apart fresh = (tt, tt)
  IsApart-last (r ∷ rows) v apart fresh =
      let parts = (||-eq-false (conflicts r v) (is_taken rows v)).0 fresh in
      (
        (All-append (λ later. conflicts r later ≡ false) rows (v ∷ [])).1 (apart.0, (parts.0, tt)),
        IsApart-last rows v apart.1 parts.1,
      )

  pub inserted-IsApart :
      (values table : List R) → IsApart table → IsApart (table ++ inserted conflicts values table)
  inserted-IsApart [] table apart = rw (inserted-nil table, append-nil table) apart
  inserted-IsApart (v ∷ values) table apart = elim (Bool-cases (is_taken table v)) [
    | inl taken ↦ rw (inserted-skip v values table taken) (inserted-IsApart values table apart)
    | inr fresh ↦ rw (inserted-keep v values table fresh) (
        rw append_assoc at
          (inserted-IsApart values (table ++ v ∷ []) (IsApart-last table v apart fresh)))
  ]

  -- Every value is in conflict with a row of the table afterwards: its own, or one before it.
  pub inserted-taken :
      ((v : R) → conflicts v v ≡ true)
      → (values table : List R)
      → All (λ v. is_taken (table ++ inserted conflicts values table) v ≡ true) values
  inserted-taken self [] table = tt
  inserted-taken self (v ∷ values) table =
      let P = λ (added : List R). All (λ u. is_taken (table ++ added) u ≡ true) (v ∷ values) in
      elim (Bool-cases (is_taken table v)) [
        | inl taken ↦ subst P (sym (inserted-skip v values table taken)) (
          rw (any-append (λ row. conflicts row v) table (inserted conflicts values table), taken)
              refl,
          inserted-taken self values table,
        )
        | inr fresh ↦ subst P (sym (inserted-keep v values table fresh)) (
          rw
              (
                any-append (λ row. conflicts row v) table
                    (v ∷ inserted conflicts values (table ++ v ∷ [])),
                fresh,
                self v,
              )
              refl,
          rw append_assoc at (inserted-taken self values (table ++ v ∷ [])),
        )
      ]

  -- Values that all are in conflict with the table leave it as it is.
  pub inserted-none :
      (values table : List R)
      → All (λ v. is_taken table v ≡ true) values
      → inserted conflicts values table ≡ []
  inserted-none [] table h = inserted-nil table
  inserted-none (v ∷ values) table h =
      inserted-skip v values table h.0 ∙ inserted-none values table h.1
