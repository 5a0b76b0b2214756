-- ===== src/Journal/Counted.antt =====
-- `resolved_metrics` of kairos/journal.py counts each decided resolution once.
use text.Mathlib.Text.{◌==◌ as str_eq}
use text.Mathlib.TextEquality.{eq_iff}
use mathlib.Core.Path.{subst}
use urim_platform.Base.Select.{length-map}
use urim_platform.Float.{Float}
use urim_platform.Market.{
  Market, first_half_more_goals, second_half_more_goals, equal_half_goals, first_half_over_0_5,
  second_half_over_0_5, second_half_over_1_5, home_or_draw, away_or_draw, home_or_away, Outcome,
}
use urim_platform.Journal.Model.{
  JournalRow, JournalState, ResolutionRow, Digests, journal_conflicts,
}
use urim_platform.Journal.Inserting.{IsApart}
use urim_platform.Journal.History.{IsJournal}
use urim_platform.Journal.Metrics.{
  ResolvedMetric, markets_by_name, is_decided, is_success, joined_with, decided_pairs, in_group,
  metrics_from, resolved_metrics, metric_of,
}
use urim_platform.Base.{
  ℕ, suc, ◌+◌, ◌≤◌, String, ◌≡◌, refl, sym, ap, ◌∙◌, inl, inr, true, false, List, [], ◌∷◌, arith,
  ◌==◌, Bool-cases, length, select, All, Any, length-append, All-map,
}

module _ {F : Type 0} where
  others-absent :
      (id : String) (row : JournalRow F) (journal : List (JournalRow F))
      → row.analysis_id ≡ id
      → All (λ later. journal_conflicts row later ≡ false) journal
      → length (select (λ r. str_eq r.analysis_id id) journal) ≡ 0
  others-absent id row [] same apart = refl
  others-absent id row (r ∷ journal) same apart =
      let rest = others-absent id row journal same apart.1 in
      elim (Bool-cases (str_eq r.analysis_id id)) [
        | inr other ↦ rw other rest
        | inl equal ↦
            let ids : row.analysis_id ≡ r.analysis_id =
              same ∙ sym ((eq_iff r.analysis_id id).0 equal) in
            absurd (ground (arith, apart.0, (eq_iff row.analysis_id r.analysis_id).1 ids))
      ]

  -- An identifier that is known stands once in a journal without conflicts.
  known-once :
      (id : String) (journal : List (JournalRow F))
      → IsApart journal_conflicts journal
      → Any (λ row. row.analysis_id ≡ id) journal
      → length (select (λ r. str_eq r.analysis_id id) journal) ≡ 1
  known-once id [] apart known = elim known [ ]
  known-once id (row ∷ journal) apart (inl same) =
      rw ((eq_iff row.analysis_id id).1 same) (ap suc (others-absent id row journal same apart.0))
  known-once id (row ∷ journal) apart (inr later) =
      let once = known-once id journal apart.1 later in
      elim (Bool-cases (str_eq row.analysis_id id)) [
        | inr other ↦ rw other once
        | inl same ↦
            let none_later =
              others-absent id row journal ((eq_iff row.analysis_id id).0 same) apart.0 in
            absurd (omega (arith, once, none_later))
      ]

  pairs-counted :
      (journal : List (JournalRow F)) (resolutions : List ResolutionRow)
      → IsApart journal_conflicts journal
      → All (λ r. Any (λ (row : JournalRow F). row.analysis_id ≡ r.analysis_id) journal) resolutions
      → length (decided_pairs journal resolutions)
        ≡ length (select (λ (r : ResolutionRow). is_decided r.outcome) resolutions)
  unfolding decided_pairs
  pairs-counted journal [] apart known = refl
  pairs-counted journal (r ∷ resolutions) apart known =
      let rest = pairs-counted journal resolutions apart known.1 in
      elim (Bool-cases (is_decided r.outcome)) [
        | inr void ↦ rw void rest
        | inl decided ↦ rw decided (
            omega (
              arith,
              rest,
              length-append (joined_with journal r) (decided_pairs journal resolutions),
              length-map {B = Market × Outcome} (λ (row : JournalRow F). (row.market, r.outcome))
                  (select (λ row. str_eq row.analysis_id r.analysis_id) journal),
              known-once r.analysis_id journal apart known.0,
            ))
      ]

-- The sizes of the groups, added up.
abbrev group_total : List Market → List (Market × Outcome) → ℕ
group_total [] pairs = 0
group_total (market ∷ markets) pairs = length (in_group market pairs) + group_total markets pairs

group_total-length :
    (pairs : List (Market × Outcome)) → group_total markets_by_name pairs ≡ length pairs
group_total-length [] = refl
group_total-length ((away_or_draw, o) ∷ pairs) = omega (arith, group_total-length pairs)
group_total-length ((equal_half_goals, o) ∷ pairs) = omega (arith, group_total-length pairs)
group_total-length ((first_half_more_goals, o) ∷ pairs) = omega (arith, group_total-length pairs)
group_total-length ((first_half_over_0_5, o) ∷ pairs) = omega (arith, group_total-length pairs)
group_total-length ((home_or_away, o) ∷ pairs) = omega (arith, group_total-length pairs)
group_total-length ((home_or_draw, o) ∷ pairs) = omega (arith, group_total-length pairs)
group_total-length ((second_half_more_goals, o) ∷ pairs) = omega (arith, group_total-length pairs)
group_total-length ((second_half_over_0_5, o) ∷ pairs) = omega (arith, group_total-length pairs)
group_total-length ((second_half_over_1_5, o) ∷ pairs) = omega (arith, group_total-length pairs)

successes-le :
    (group : List (Market × Outcome))
    → length (select (λ (p : Market × Outcome). is_success p.1) group) ≤ length group
successes-le [] = omega arith
successes-le (p ∷ group) = ground (arith, successes-le group)

Any-weaken :
    {A : Type 0} (P Q : A → Type 0) → ((x : A) → P x → Q x) → (xs : List A) → Any P xs → Any Q xs
Any-weaken P Q f [] h = elim h [ ]
Any-weaken P Q f (x ∷ xs) (inl p) = inl (f x p)
Any-weaken P Q f (x ∷ xs) (inr m) = inr (Any-weaken P Q f xs m)

module _ {F : Type 0} where
  -- The sample sizes of the metrics, added up.
  abbrev pub size_total : List (Market × ResolvedMetric F) → ℕ
  size_total [] = 0
  size_total (m ∷ metrics) = (m.1).resolved_sample_size + size_total metrics

  -- A sample that is not empty, and no more successes than it has analyses.
  abbrev pub IsMetric : Market × ResolvedMetric F → Type 0
  IsMetric m = (1 ≤ (m.1).resolved_sample_size) × ((m.1).success_count ≤ (m.1).resolved_sample_size)

module _ (F : Type 0) ⦃fl : Float F⦄ where
  module _ (market : Market) (markets : List Market) (pairs : List (Market × Outcome)) where
    abbrev metrics : List Market → List (Market × ResolvedMetric F)
    unfolding metrics_from
    metrics ms = metrics_from ms pairs

    metrics_from-skip :
        (length (in_group market pairs) == 0) ≡ true → metrics (market ∷ markets) ≡ metrics markets
    unfolding metrics_from
    metrics_from-skip e = rw (metrics_from, e) refl

    metrics_from-keep :
        (length (in_group market pairs) == 0) ≡ false
        → metrics (market ∷ markets) ≡ (market, metric_of (in_group market pairs)) ∷ metrics markets
    unfolding metrics_from
    metrics_from-keep e = rw (metrics_from, e) refl

  metrics_from-size_total :
      (markets : List Market) (pairs : List (Market × Outcome))
      → size_total {F = F} (metrics_from markets pairs) ≡ group_total markets pairs
  unfolding metrics_from
  metrics_from-size_total [] pairs = refl
  metrics_from-size_total (market ∷ markets) pairs =
      let rest = metrics_from-size_total markets pairs in
      elim (Bool-cases (length (in_group market pairs) == 0)) [
        | inl nothing ↦
            rw (metrics_from-skip market markets pairs nothing) (ground (arith, nothing, rest))
        | inr other ↦ rw (metrics_from-keep market markets pairs other) (omega (arith, rest))
      ]

  metrics_from-IsMetric :
      (markets : List Market) (pairs : List (Market × Outcome))
      → All (IsMetric {F = F}) (metrics_from markets pairs)
  unfolding metrics_from
  metrics_from-IsMetric [] pairs = tt
  metrics_from-IsMetric (market ∷ markets) pairs =
      let rest = metrics_from-IsMetric markets pairs in
      let group = in_group market pairs in
      elim (Bool-cases (length group == 0)) [
        | inl nothing ↦
            subst (All (IsMetric {F = F})) (sym (metrics_from-skip market markets pairs nothing))
              rest
        | inr other ↦
            subst (All (IsMetric {F = F})) (sym (metrics_from-keep market markets pairs other))
              ((ground (arith, other), successes-le group), rest)
      ]

module _ {F : Type 0} ⦃fl : Float F⦄ where
  -- For a journal with the invariant `IsJournal`, the sample sizes of all markets add up to the number of
  -- resolutions that are a success or a failure; no sample is empty, and none has more successes
  -- than analyses.
  pub resolved_metrics_lem :
      (digests : Digests F) (s : JournalState F)
      → IsJournal digests s
      → (size_total (resolved_metrics s)
          ≡ length (select (λ (r : ResolutionRow). is_decided r.outcome) s.resolutions))
        × All IsMetric (resolved_metrics s)
  unfolding resolved_metrics
  resolved_metrics_lem digests s journal =
      let pairs = decided_pairs s.journal s.resolutions in
      (
        metrics_from-size_total F markets_by_name pairs
            ∙ (group_total-length pairs
                ∙ pairs-counted s.journal s.resolutions journal.analyses_apart (
                    All-map
                      (λ r known.
                        Any-weaken
                          (λ (row : JournalRow F).
                            (row.analysis_id ≡ r.analysis_id) × (row.market ≡ r.market))
                          (λ row. row.analysis_id ≡ r.analysis_id) (λ row both. both.0) s.journal
                          known)
                      s.resolutions journal.resolutions_known)),
        metrics_from-IsMetric F markets_by_name pairs,
      )
