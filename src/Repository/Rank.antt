-- ===== src/Repository/Rank.antt =====
-- What the rows of rank one are: of each identity exactly one, the latest that is visible.
use urim_platform.Base.Instant.{DateTime}
use urim_platform.Base.Select.{All-selected}
use urim_platform.Repository.Rows.{SourceRow}
use urim_platform.Repository.Latest.{
  is_visible, is_newer, visible_rows, rank_first, ranked_first, latest_as_of,
}
use urim_platform.Base.{
  ◌≡◌, inl, inr, Bool, true, false, List, [], ◌∷◌, arith, Bool-cases, select, All, Any, All-map,
  All-select, All-both, In, All-In_self,
}

-- What the comparison of identity columns is.
pub record IsEquivalence {R : Type 0} (same : R → R → Bool) : Type 0 where
  pub reflexive : (a : R) → same a a ≡ true
  pub symmetric : (a b : R) → same a b ≡ true → same b a ≡ true
  pub transitive : (a b c : R) → same a b ≡ true → same b c ≡ true → same a c ≡ true

newer_trans :
    (a b c : SourceRow) → is_newer a b ≡ false → is_newer b c ≡ false → is_newer a c ≡ false
newer_trans a b c p q = ground arith

newer_asym : (a b : SourceRow) → is_newer a b ≡ true → is_newer b a ≡ false
newer_asym a b h = ground arith

newer_irrefl : (a : SourceRow) → is_newer a a ≡ false
newer_irrefl a = ground arith

module _ {R : Type 0} (source : R → SourceRow) where
  -- What is visible and in scope of a table, and stands in the table.
  pub record IsChosen (as_of : DateTime) (scope : R → Bool) (rows : List R) (r : R) : Type 0 where
    pub stored : In r rows
    pub visible : is_visible as_of (source r) ≡ true
    pub in_scope : scope r ≡ true

  pub visible_rows-All :
      (P : R → Type 0) (as_of : DateTime) (rows : List R)
      → All P rows
      → All (λ r. P r × (is_visible as_of (source r) ≡ true)) (visible_rows source as_of rows)
  unfolding visible_rows
  visible_rows-All P as_of rows h =
      All-both P (λ r. is_visible as_of (source r) ≡ true) _
        (All-select P (λ r. is_visible as_of (source r)) rows h)
        (All-selected (λ r. is_visible as_of (source r)) rows)

  module _ (same : R → R → Bool) where
    rank_first-All :
        (P : R → Type 0) (r : R) (rows : List R)
        → P r
        → All P rows
        → All P (rank_first source same r rows)
    unfolding rank_first
    rank_first-All P r [] p h = (p, tt)
    rank_first-All P r (first ∷ others) p h = elim (Bool-cases (same r first)) [
      | inl match ↦ rw match (elim (Bool-cases (is_newer (source first) (source r))) [
        | inl newer ↦ rw newer h
        | inr older ↦ rw older (p, h.1)
      ])
      | inr other ↦ rw other (h.0, rank_first-All P r others p h.1)
    ]

    pub ranked_first-All :
        (P : R → Type 0) (rows : List R) → All P rows → All P (ranked_first source same rows)
    unfolding ranked_first
    ranked_first-All P [] h = tt
    ranked_first-All P (r ∷ rows) h =
        rank_first-All P r (ranked_first source same rows) h.0 (ranked_first-All P rows h.1)

    pub latest_as_of-All :
        (as_of : DateTime) (scope : R → Bool) (rows : List R)
        → All (IsChosen as_of scope rows) (latest_as_of source same as_of scope rows)
    unfolding latest_as_of
    latest_as_of-All as_of scope rows =
        let kept = visible_rows-All (λ r. In r rows) as_of rows (All-In_self rows) in
        ranked_first-All (IsChosen as_of scope rows) (select scope (visible_rows source as_of rows))
          (All-map (λ r (p, s). record { stored = p.0; visible = p.1; in_scope = s })
            (select scope (visible_rows source as_of rows))
            (All-both (λ r. In r rows × (is_visible as_of (source r) ≡ true)) (λ r. scope r ≡ true)
              _ (All-select _ scope (visible_rows source as_of rows) kept)
              (All-selected scope (visible_rows source as_of rows))))

    -- The row has a representative of its identity among those, and it is not newer than that.
    abbrev pub IsRanked : List R → R → Type 0
    IsRanked ranked r =
        Any (λ l. (same r l ≡ true) × (is_newer (source r) (source l) ≡ false)) ranked

    -- No identity stands twice.
    abbrev pub IsUnique : List R → Type 0
    IsUnique [] = Unit
    IsUnique (r ∷ rows) = All (λ l. same r l ≡ false) rows × IsUnique rows

    module _ (eq : IsEquivalence same) where
      rank_first-IsRanked_new : (r : R) (rows : List R) → IsRanked (rank_first source same r rows) r
      unfolding rank_first
      rank_first-IsRanked_new r [] = inl (eq.reflexive r, newer_irrefl (source r))
      rank_first-IsRanked_new r (first ∷ others) = elim (Bool-cases (same r first)) [
        | inl match ↦ rw match (elim (Bool-cases (is_newer (source first) (source r))) [
          | inl newer ↦ rw newer (inl (match, newer_asym (source first) (source r) newer))
          | inr older ↦ rw older (inl (eq.reflexive r, newer_irrefl (source r)))
        ])
        | inr other ↦ rw other (inr (rank_first-IsRanked_new r others))
      ]

      rank_first-IsRanked :
          (q r : R) (rows : List R) → IsRanked rows q → IsRanked (rank_first source same r rows) q
      unfolding rank_first
      rank_first-IsRanked q r [] h = elim h [ ]
      rank_first-IsRanked q r (first ∷ others) (inr later) = elim (Bool-cases (same r first)) [
        | inl match ↦ rw match (inr later)
        | inr other ↦ rw other (inr (rank_first-IsRanked q r others later))
      ]
      rank_first-IsRanked q r (first ∷ others) (inl (alike, kept)) =
          elim (Bool-cases (same r first)) [
            | inl match ↦ rw match (elim (Bool-cases (is_newer (source first) (source r))) [
              | inl newer ↦ rw newer (inl (alike, kept))
              | inr older ↦ rw older (
                  inl (
                    eq.transitive q first r alike (eq.symmetric r first match),
                    newer_trans (source q) (source first) (source r) kept older,
                  ))
            ])
            | inr other ↦ rw other (inl (alike, kept))
          ]

      ranked_first-IsRanked : (rows : List R) → All (IsRanked (ranked_first source same rows)) rows
      unfolding ranked_first
      ranked_first-IsRanked [] = tt
      ranked_first-IsRanked (r ∷ rows) = (
        rank_first-IsRanked_new r (ranked_first source same rows),
        All-map (λ q. rank_first-IsRanked q r (ranked_first source same rows)) rows
            (ranked_first-IsRanked rows),
      )

      differs : (a b c : R) → same a b ≡ true → same b c ≡ false → same a c ≡ false
      differs a b c match other = elim (Bool-cases (same a c)) [
        | inl alike ↦
            let wrong : same b c ≡ true = eq.transitive b a c (eq.symmetric a b match) alike in cc
        | inr apart ↦ apart
      ]

      rank_first-IsUnique :
          (r : R) (rows : List R) → IsUnique rows → IsUnique (rank_first source same r rows)
      unfolding rank_first
      rank_first-IsUnique r [] h = (tt, tt)
      rank_first-IsUnique r (first ∷ others) h = elim (Bool-cases (same r first)) [
        | inl match ↦ rw match (elim (Bool-cases (is_newer (source first) (source r))) [
          | inl newer ↦ rw newer h
          | inr older ↦ rw older (All-map (λ l. differs r first l match) others h.0, h.1)
        ])
        | inr other ↦ rw other (
          rank_first-All (λ l. same first l ≡ false) r others
              (elim (Bool-cases (same first r)) [
                | inl alike ↦ let wrong = eq.symmetric first r alike in cc
                | inr apart ↦ apart
              ])
              h.0,
          rank_first-IsUnique r others h.1,
        )
      ]

      ranked_first-IsUnique : (rows : List R) → IsUnique (ranked_first source same rows)
      unfolding ranked_first
      ranked_first-IsUnique [] = tt
      ranked_first-IsUnique (r ∷ rows) =
          rank_first-IsUnique r (ranked_first source same rows) (ranked_first-IsUnique rows)

      -- The latest observations as of a time are rows of the table that were visible then and in
      -- scope, none of an identity twice, and every visible row in scope has one of its identity
      -- among them that it is not newer than, where the comparison of identities is an equivalence.
      pub latest_as_of_lem :
          (as_of : DateTime) (scope : R → Bool) (rows : List R)
          → All (IsChosen as_of scope rows) (latest_as_of source same as_of scope rows)
            × IsUnique (latest_as_of source same as_of scope rows)
            × All
                (IsRanked (latest_as_of source same as_of scope rows))
                (select scope (visible_rows source as_of rows))
      unfolding latest_as_of
      latest_as_of_lem as_of scope rows = (
        latest_as_of-All as_of scope rows,
        ranked_first-IsUnique (select scope (visible_rows source as_of rows)),
        ranked_first-IsRanked (select scope (visible_rows source as_of rows)),
      )
