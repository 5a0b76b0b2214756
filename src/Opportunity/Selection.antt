-- ===== src/Opportunity/Selection.antt =====
-- Which candidates of a match are shown: the best one, and others of other groups.
use urim_platform.Base.{
  ◌≤◌, ◌≡◌, refl, sym, ap, ◌≢◌, ◌↔◌, inl, inr, true, false, List, [], ◌∷◌, ◌++◌, arith, leb,
  Bool-cases, length, any, All, All-map, All-append,
}
use urim_platform.Float.{Float}
use urim_platform.Market.{MarketGroup, half_time, double_chance}
use urim_platform.Opportunity.Model.{
  max_alternatives_per_match, KairosOpportunityCandidate, same_group, group_of, alternatives_from,
  alternatives_of,
}

pub same_group_iff : (g h : MarketGroup) → (same_group g h ≡ true) ↔ (g ≡ h)
same_group_iff half_time half_time = (λ _. refl, λ _. refl)
same_group_iff half_time double_chance = (λ h. cc, λ h. cc)
same_group_iff double_chance half_time = (λ h. cc, λ h. cc)
same_group_iff double_chance double_chance = (λ _. refl, λ _. refl)

two_groups : (a b c : MarketGroup) → a ≢ b → a ≢ c → b ≢ c → ⊥
two_groups a b c p q r = ground arith

used-ne :
    (used : List MarketGroup) (g h : MarketGroup)
    → any (same_group g) used ≡ true
    → any (same_group h) used ≡ false
    → g ≢ h
used-ne used g h p q e = ground (arith, ap (λ x. any (same_group x) used) e)

same_group-any : (used : List MarketGroup) (g : MarketGroup) → any (same_group g) (g ∷ used) ≡ true
same_group-any used g = rw ((same_group_iff g g).1 refl)

any-skip :
    (used : List MarketGroup) (g h : MarketGroup)
    → any (same_group g) used ≡ true
    → any (same_group g) (h ∷ used) ≡ true
any-skip used g h p = ground (arith, p)

module _ {F : Type 0} ⦃fl : Float F⦄ where
  -- No two of the candidates are of one group.
  abbrev pub IsUncorrelated : List (KairosOpportunityCandidate F) → Type 0
  IsUncorrelated [] = Unit
  IsUncorrelated (c ∷ cs) = All (λ x. group_of x ≢ group_of c) cs × IsUncorrelated cs

  pub IsUncorrelated-length :
      (cs : List (KairosOpportunityCandidate F)) → IsUncorrelated cs → length cs ≤ 2
  IsUncorrelated-length [] u = omega arith
  IsUncorrelated-length (a ∷ []) u = omega arith
  IsUncorrelated-length (a ∷ b ∷ []) u = omega arith
  IsUncorrelated-length (a ∷ b ∷ c ∷ cs) u = absurd (
      two_groups (group_of b) (group_of a) (group_of c) u.0.0 (λ e. u.1.0.0 (sym e))
        (λ e. u.0.1.0 (sym e)))

  -- What the loop over the alternatives keeps true.
  record IsLoop (P : KairosOpportunityCandidate F → Type 0) (primary : KairosOpportunityCandidate F)
      (used : List MarketGroup) (kept : List (KairosOpportunityCandidate F)) : Type 0 where
    apart : All (λ x. group_of x ≢ group_of primary) kept
    uncorrelated : IsUncorrelated kept
    known : All (λ x. any (same_group (group_of x)) used ≡ true) kept
    primary_known : any (same_group (group_of primary)) used ≡ true
    from : All P kept

  IsUncorrelated-snoc :
      (cs : List (KairosOpportunityCandidate F)) (c : KairosOpportunityCandidate F)
      → IsUncorrelated cs
      → All (λ x. group_of x ≢ group_of c) cs
      → IsUncorrelated (cs ++ (c ∷ []))
  IsUncorrelated-snoc [] c u n = (tt, tt)
  IsUncorrelated-snoc (x ∷ cs) c u n = (
    (All-append (λ y. group_of y ≢ group_of x) cs (c ∷ [])).1 (u.0, (λ e. n.0 (sym e), tt)),
    IsUncorrelated-snoc cs c u.1 n.1,
  )

  IsLoop-extend :
      (P : KairosOpportunityCandidate F → Type 0) (primary c : KairosOpportunityCandidate F)
      (used : List MarketGroup) (kept : List (KairosOpportunityCandidate F))
      → IsLoop P primary used kept
      → any (same_group (group_of c)) used ≡ false
      → P c
      → IsLoop P primary (group_of c ∷ used) (kept ++ (c ∷ []))
  IsLoop-extend P primary c used kept loop new p = record {
    apart = (All-append (λ x. group_of x ≢ group_of primary) kept (c ∷ [])).1 (
      loop.apart,
      (λ e. used-ne used (group_of primary) (group_of c) loop.primary_known new (sym e), tt),
    );
    uncorrelated =
        IsUncorrelated-snoc kept c loop.uncorrelated
          (All-map (λ x k. used-ne used (group_of x) (group_of c) k new) kept loop.known);
    known =
        (All-append (λ x. any (same_group (group_of x)) (group_of c ∷ used) ≡ true) kept (c ∷ [])).1
          (
            All-map (λ x k. any-skip used (group_of x) (group_of c) k) kept loop.known,
            (same_group-any used (group_of c), tt),
          );
    primary_known = any-skip used (group_of primary) (group_of c) loop.primary_known;
    from = (All-append P kept (c ∷ [])).1 (loop.from, (p, tt));
  }

  alternatives_from-IsLoop :
      (P : KairosOpportunityCandidate F → Type 0) (primary : KairosOpportunityCandidate F)
      (used : List MarketGroup) (kept cs : List (KairosOpportunityCandidate F))
      → IsLoop P primary used kept
      → All P cs
      → (used' : List MarketGroup) × IsLoop P primary used' (alternatives_from used kept cs)
  unfolding alternatives_from
  alternatives_from-IsLoop P primary used kept [] loop p = (used, loop)
  alternatives_from-IsLoop P primary used kept (c ∷ cs) loop p =
      elim (Bool-cases (any (same_group (group_of c)) used)) [
        | inl old ↦
            rw (old, alternatives_from) (alternatives_from-IsLoop P primary used kept cs loop p.1)
        | inr new ↦
            let more = IsLoop-extend P primary c used kept loop new p.0 in
            elim (Bool-cases (leb max_alternatives_per_match (length (kept ++ (c ∷ []))))) [
              | inl full ↦ rw (new, full, alternatives_from) (group_of c ∷ used, more)
              | inr open_ ↦
                  rw (new, open_, alternatives_from)
                    (alternatives_from-IsLoop P primary (group_of c ∷ used) (kept ++ (c ∷ [])) cs
                      more p.1)
            ]
      ]

  -- The primary analysis and its alternatives are of different groups, and what holds of every
  -- candidate holds of each alternative.
  pub alternatives_of_lem :
      (P : KairosOpportunityCandidate F → Type 0) (primary : KairosOpportunityCandidate F)
      (cs : List (KairosOpportunityCandidate F))
      → All P cs
      → IsUncorrelated (primary ∷ alternatives_of (primary ∷ cs))
        × All P (alternatives_of (primary ∷ cs))
  unfolding alternatives_of
  alternatives_of_lem P primary cs p =
      let start : IsLoop P primary (group_of primary ∷ []) [] = record {
        apart = tt;
        uncorrelated = tt;
        known = tt;
        primary_known = same_group-any [] (group_of primary);
        from = tt;
      } in
      let (used, loop) = alternatives_from-IsLoop P primary (group_of primary ∷ []) [] cs start p in
      ((loop.apart, loop.uncorrelated), loop.from)
