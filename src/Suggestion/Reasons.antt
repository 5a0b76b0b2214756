-- ===== src/Suggestion/Reasons.antt =====
-- The reasons of a suggestion: `_suggestion_reasons` of kairos/suggestions.py.
use urim_platform.Base.{
  ℕ, zero, suc, ◌≤◌, String, ◌≡◌, refl, inl, inr, Bool, true, false, not, Option, none, some, List,
  [], ◌∷◌, ◌++◌, map, arith, if◌then◌else◌, Bool-cases, length, take, select, All, All-map,
  All-append, All-select, is_nil,
}
use urim_platform.Float.{Float}
use urim_platform.Response.{KairosWarning}
use urim_platform.Suggestion.Model.{
  Candidate, KairosReason, guardrail, KairosSuggestionReason, is_info, critical_first,
  blocking_codes_of, is_critical_warning,
}
use urim_platform.Suggestion.Service.{
  limit_reasons, block_reasons, factor_reason, warning_reason, appended_reasons, suggestion_reasons,
  build_kairos_suggestion, is_no_bet, DecisionPayload, is_hard_blocked, SuggestionInput,
}
use urim_platform.Base.Select.{
  length-take, All-take, All-selected, All-map_of, All-mapped, All-select_nil, length-map,
  is_nil-length,
}
use urim_platform.Base.Text.{text_le}
use urim_platform.Base.Sort.{sorted, length-sorted}

-- Without a blocking code, no warning is critical.
no_codes :
    (warnings : List KairosWarning)
    → is_nil (blocking_codes_of warnings) ≡ true
    → All (λ w. is_critical_warning w ≡ false) warnings
unfolding blocking_codes_of
no_codes warnings h =
    let codes = map (λ w. w.code) (select is_critical_warning warnings) in
    All-select_nil is_critical_warning warnings (
      omega (
        arith,
        is_nil-length (sorted text_le codes) h,
        length-sorted text_le codes,
        length-map (λ w. w.code) (select is_critical_warning warnings),
      ))

module _ {F : Type 0} where
  -- No critical reason stands behind one that is not.
  abbrev pub IsCriticalFirst : List (KairosSuggestionReason F) → Type 0
  IsCriticalFirst [] = Unit
  IsCriticalFirst (r ∷ reasons) =
      (r.critical ≡ false → All (λ q. q.critical ≡ false) reasons) × IsCriticalFirst reasons

  -- `validate_reason_category` of kairos/schemas.py passes.
  abbrev pub HasCategory : KairosSuggestionReason F → Type 0
  HasCategory r = r.critical ≡ true → r.category ≡ guardrail

  IsCriticalFirst-take :
      (n : ℕ) (reasons : List (KairosSuggestionReason F))
      → IsCriticalFirst reasons
      → IsCriticalFirst (take n reasons)
  IsCriticalFirst-take zero reasons h = tt
  IsCriticalFirst-take (suc n) [] h = tt
  IsCriticalFirst-take (suc n) (r ∷ reasons) h = (
    λ e. All-take (λ q. q.critical ≡ false) n reasons (h.0 e),
    IsCriticalFirst-take n reasons h.1,
  )

  remaining-IsCriticalFirst :
      (reasons : List (KairosSuggestionReason F))
      → All (λ q. q.critical ≡ false) reasons
      → IsCriticalFirst reasons
  remaining-IsCriticalFirst [] h = tt
  remaining-IsCriticalFirst (r ∷ reasons) h = (λ e. h.1, remaining-IsCriticalFirst reasons h.1)

  joined-IsCriticalFirst :
      (xs ys : List (KairosSuggestionReason F))
      → All (λ q. q.critical ≡ true) xs
      → All (λ q. q.critical ≡ false) ys
      → IsCriticalFirst (xs ++ ys)
  joined-IsCriticalFirst [] ys p q = remaining-IsCriticalFirst ys q
  joined-IsCriticalFirst (x ∷ xs) ys p q =
      (λ e. ground (arith, e, p.0), joined-IsCriticalFirst xs ys p.1 q)

  critical_first-IsCriticalFirst :
      (reasons : List (KairosSuggestionReason F)) → IsCriticalFirst (critical_first reasons)
  unfolding critical_first
  critical_first-IsCriticalFirst reasons =
      joined-IsCriticalFirst (select (λ r. r.critical) reasons)
        (select (λ r. not r.critical) reasons) (All-selected (λ r. r.critical) reasons)
        (All-map (λ r e. ground (arith, e)) (select (λ r. not r.critical) reasons)
          (All-selected (λ r. not r.critical) reasons))

  All-critical_first :
      (P : KairosSuggestionReason F → Type 0) (reasons : List (KairosSuggestionReason F))
      → All P reasons
      → All P (critical_first reasons)
  unfolding critical_first
  All-critical_first P reasons h =
      (All-append P (select (λ r. r.critical) reasons) (select (λ r. not r.critical) reasons)).1
        (All-select P (λ r. r.critical) reasons h, All-select P (λ r. not r.critical) reasons h)

module _ {F : Type 0} ⦃fl : Float F⦄ where
  limit_reasons-remaining :
      (c : Option (Candidate F)) (no_bet : Bool) (quality reliability : F)
      → All (λ r. r.critical ≡ false) (limit_reasons c no_bet quality reliability)
  limit_reasons-remaining none no_bet quality reliability = (refl, (refl, tt))
  limit_reasons-remaining (some c) no_bet quality reliability = (refl, (refl, (refl, tt)))

  -- Every reason appended is of a category that may be critical if it is.
  appended_reasons-HasCategory :
      (c : Option (Candidate F)) (no_bet hard_blocked : Bool) (score quality reliability : F)
      (reasons : List KairosReason) (warnings : List KairosWarning) (codes : List String)
      → All HasCategory
          (appended_reasons c no_bet hard_blocked score quality reliability reasons warnings codes)
  unfolding appended_reasons
  appended_reasons-HasCategory c no_bet hard_blocked score quality reliability reasons warnings
        codes =
      (All-append HasCategory (limit_reasons c no_bet quality reliability) _).1 (
        All-map (λ r e h. ground (arith, e, h)) (limit_reasons c no_bet quality reliability)
            (limit_reasons-remaining c no_bet quality reliability),
        (All-append HasCategory (block_reasons no_bet hard_blocked score codes) _).1 (
          blocks,
          (All-append HasCategory (map (factor_reason c no_bet) (take 5 reasons)) _).1 (
            All-map_of HasCategory (factor_reason c no_bet) (take 5 reasons) (λ r h. cc),
            All-map_of HasCategory warning_reason (select (λ w. not (is_info w.severity)) warnings)
                (λ w h. refl),
          ),
        ),
      )
    where
      blocks : All HasCategory (block_reasons no_bet hard_blocked score codes)
      blocks = elim (Bool-cases hard_blocked) [
        | inl hard ↦ rw hard ((λ h. refl), tt)
        | inr soft ↦ elim (Bool-cases no_bet) [
          | inl none_ ↦ rw (soft, none_) ((λ h. refl), tt)
          | inr bet ↦ rw (soft, bet) tt
        ]
      ]

  -- Where a recommendation is given, no reason is critical.
  appended_reasons-remaining :
      (c : Option (Candidate F)) (score quality reliability : F) (reasons : List KairosReason)
      (warnings : List KairosWarning) (codes : List String)
      → All (λ w. is_critical_warning w ≡ false) warnings
      → All
          (λ r. r.critical ≡ false)
          (appended_reasons c false false score quality reliability reasons warnings codes)
  unfolding appended_reasons
  appended_reasons-remaining c score quality reliability reasons warnings codes h =
      (All-append (λ r. r.critical ≡ false) (limit_reasons c false quality reliability) _).1 (
        limit_reasons-remaining c false quality reliability,
        (All-append (λ r. r.critical ≡ false) (map (factor_reason c false) (take 5 reasons)) _).1 (
          All-map_of (λ r. r.critical ≡ false) (factor_reason c false) (take 5 reasons) (λ r. refl),
          All-mapped (λ r. r.critical ≡ false) warning_reason
              (select (λ w. not (is_info w.severity)) warnings)
              (All-select (λ w. is_critical_warning w ≡ false) (λ w. not (is_info w.severity))
                warnings h),
        ),
      )

  -- Where none is given, the first reason says why.
  suggestion_reasons-first :
      (c : Option (Candidate F)) (hard_blocked : Bool) (score quality reliability : F)
      (reasons : List KairosReason) (warnings : List KairosWarning) (codes : List String)
      → (r : KairosSuggestionReason F) × (rest : List (KairosSuggestionReason F))
        × (suggestion_reasons c true hard_blocked score quality reliability reasons warnings codes
            ≡ r ∷ rest)
        × (r.critical ≡ true)
        × (r.code ≡ (if hard_blocked then "NO_BET_HARD_BLOCK" else "NO_BET_SCORE_GATE"))
  unfolding suggestion_reasons appended_reasons critical_first
  suggestion_reasons-first none true score quality reliability reasons warnings codes =
      (_, _, refl, refl, refl)
  suggestion_reasons-first none false score quality reliability reasons warnings codes =
      (_, _, refl, refl, refl)
  suggestion_reasons-first (some c) true score quality reliability reasons warnings codes =
      (_, _, refl, refl, refl)
  suggestion_reasons-first (some c) false score quality reliability reasons warnings codes =
      (_, _, refl, refl, refl)

  not_blocked :
      (s : SuggestionInput F)
      → is_no_bet s ≡ false
      → (is_hard_blocked s ≡ false) × (is_nil (blocking_codes_of s.analysis_warnings) ≡ true)
  unfolding is_no_bet is_hard_blocked
  not_blocked s h = (ground arith, ground arith)

  -- The reasons of a suggestion are at most twelve, the critical ones first, and only guardrails
  -- are critical. Without a recommendation the first reason is critical and says whether the data
  -- or the score forbids one; with a recommendation no reason is critical.
  pub build_kairos_suggestion-IsCriticalFirst :
      (digest : DecisionPayload F → String) (s : SuggestionInput F)
      → (length (build_kairos_suggestion digest s).reasons ≤ 12)
        × IsCriticalFirst (build_kairos_suggestion digest s).reasons
        × All HasCategory (build_kairos_suggestion digest s).reasons
        × ((build_kairos_suggestion digest s).no_bet ≡ true
            → (r : KairosSuggestionReason F) × (rest : List (KairosSuggestionReason F))
              × ((build_kairos_suggestion digest s).reasons ≡ r ∷ rest)
              × (r.critical ≡ true)
              × (r.code ≡ (if is_hard_blocked s then "NO_BET_HARD_BLOCK" else "NO_BET_SCORE_GATE")))
        × ((build_kairos_suggestion digest s).no_bet ≡ false
            → All (λ r. r.critical ≡ false) (build_kairos_suggestion digest s).reasons)
  unfolding build_kairos_suggestion suggestion_reasons
  build_kairos_suggestion-IsCriticalFirst digest s = (
    length-take 12 _,
    IsCriticalFirst-take 12 _ (critical_first-IsCriticalFirst _),
    All-take HasCategory 12 _
        (All-critical_first HasCategory _ (appended_reasons-HasCategory _ _ _ _ _ _ _ _ _)),
    λ h. rw h (suggestion_reasons-first _ (is_hard_blocked s) _ _ _ _ _ _),
    λ h.
        let (soft, no_code) = not_blocked s h in
        rw (h, soft)
          (All-take (λ r. r.critical ≡ false) 12 _
            (All-critical_first (λ r. r.critical ≡ false) _
              (appended_reasons-remaining _ _ _ _ _ _ _ (no_codes s.analysis_warnings no_code)))),
  )
