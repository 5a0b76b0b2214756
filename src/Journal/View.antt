-- ===== src/Journal/View.antt =====
-- The abstract view of a table: a partial map from keys to rows, to which an insertion adds what
-- is absent.
use text.Mathlib.Text.{◌==◌ as str_eq}
use text.Mathlib.TextEquality.{eq_iff}
use mathlib.Core.Path.{fun_ext}
use mathlib.Core.List.{append_assoc, append-nil}
use urim_platform.Journal.Store.{inserted}
use urim_platform.Journal.Inserting.{is_taken, inserted-nil, inserted-skip, inserted-keep}
use urim_platform.Base.{
  String, ◌≡◌, refl, sym, ap, ◌∙◌, inl, inr, Bool, true, Option, none, some, List, [], ◌∷◌, ◌++◌,
  arith, if◌then◌else◌, Bool-cases, Option-cases, any, All, All-append,
}

-- The first row, if there is one.
abbrev pub or_else : {R : Type 0} → Option R → Option R → Option R
or_else (some row) other = some row
or_else none other = other

module _ {R : Type 0} (key : R → String) where
  pub find : String → List R → Option R
  find k [] = none
  find k (r ∷ rows) = if str_eq (key r) k then some r else find k rows

  -- The value is put under its key, unless something is there.
  unfoldable pub put_if_absent : R → (String → Option R) → String → Option R
  put_if_absent value view k = or_else (view k) (if str_eq (key value) k then some value else none)

  unfoldable pub put_all : List R → (String → Option R) → String → Option R
  unfolding put_if_absent
  put_all [] view = view
  put_all (value ∷ values) view = put_all values (put_if_absent value view)

  find-last :
      (table : List R) (v : R) (k : String)
      → find k (table ++ v ∷ []) ≡ put_if_absent v (λ j. find j table) k
  unfolding find put_if_absent
  find-last [] v k = refl
  find-last (r ∷ rows) v k = ground (arith, find-last rows v k)

  abbrev pub has_key : List R → String → Bool
  has_key table k = any (λ row. str_eq (key row) k) table

  find-present :
      (table : List R) (k : String) → has_key table k ≡ true → (row : R) × (find k table ≡ some row)
  unfolding find
  find-present [] k h = cc
  find-present (r ∷ rows) k h = elim (Bool-cases (str_eq (key r) k)) [
    | inl here ↦ (r, rw here refl)
    | inr other ↦ let (row, found) = find-present rows k (rw other at h) in (row, rw other found)
  ]

  or_else-found :
      (table : List R) (v : R) (k : String) (row : R)
      → find (key v) table ≡ some row
      → put_if_absent v (λ j. find j table) k ≡ find k table
  unfolding put_if_absent
  or_else-found table v k row found = elim (Bool-cases (str_eq (key v) k)) [
    | inl same ↦
        let e : key v ≡ k = (eq_iff (key v) k).0 same in
        let there : find k table ≡ some row = rw (← e) found in rw there refl
    | inr other ↦ elim (Option-cases (find k table)) [
      | inl nothing ↦ rw (other, nothing) refl
      | inr (there, e) ↦ rw (other, e) refl
    ]
  ]

  put_present :
      (table : List R) (v : R)
      → has_key table (key v) ≡ true
      → put_if_absent v (λ j. find j table) ≡ (λ j. find j table)
  unfolding put_if_absent
  put_present table v h =
      let (row, found) = find-present table (key v) h in
      fun_ext (λ k. or_else-found table v k row found)

  module _ {κ} (conflicts : R → R → Bool) (P : R → Type κ)
      (keyed : (a b : R) → P a → P b → conflicts a b ≡ str_eq (key a) (key b)) where
    pub is_taken-has_key :
        (table : List R) (v : R)
        → All P table
        → P v
        → is_taken conflicts table v ≡ has_key table (key v)
    is_taken-has_key [] v h p = refl
    is_taken-has_key (r ∷ rows) v h p = rw (keyed r v h.0 p, is_taken-has_key rows v h.1 p) refl

    -- An insertion is `put_all` on the view.
    pub find-inserted :
        (values table : List R)
        → All P values
        → All P table
        → (λ k. find k (table ++ inserted conflicts values table))
          ≡ put_all values (λ k. find k table)
    unfolding put_all
    find-inserted [] table hv ht = rw (inserted-nil conflicts table, append-nil table) refl
    find-inserted (v ∷ values) table hv ht = elim (Bool-cases (is_taken conflicts table v)) [
      | inl taken ↦ rw (inserted-skip conflicts v values table taken) (
          find-inserted values table hv.1 ht
          ∙ ap (put_all values)
              (sym (put_present table v (sym (is_taken-has_key table v ht hv.0) ∙ taken))))
      | inr fresh ↦ rw (inserted-keep conflicts v values table fresh) (
          rw append_assoc at (
            find-inserted values (table ++ v ∷ []) hv.1
              ((All-append P table (v ∷ [])).1 (ht, (hv.0, tt))))
          ∙ ap (put_all values) (fun_ext (find-last table v)))
    ]
