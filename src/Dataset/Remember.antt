-- ===== src/Dataset/Remember.antt =====
-- The loop of `source_observations` that drops repeated sources and refuses conflicting ones.
use text.Mathlib.Text.{◌==◌ as str_eq}
use text.Mathlib.TextEquality.{eq_iff}
use urim_platform.Base.{
  String, ◌≡◌, refl, sym, ap, ◌∙◌, ◌≢◌, ◌↔◌, ◌⊎◌, inl, inr, true, Option, none, some, List, [], ◌∷◌,
  arith, Bool-cases, Option-cases, All, All-map, ok, >>=-eq-ok,
}
use urim_platform.Observation.{SourceObservation, source_eq, source_eq_sound, source_eq_refl}
use urim_platform.Dataset.Checks.{find_source, put_source, remember, remember_all}

-- Two sources with one identity are one source.
abbrev pub Agree : SourceObservation → SourceObservation → Type 0
Agree s t = s.observation_id ≡ t.observation_id → s ≡ t

-- No two of the sources are in conflict.
abbrev pub IsCompatible : List SourceObservation → Type 0
IsCompatible [] = Unit
IsCompatible (s ∷ sources) = All (Agree s) sources × IsCompatible sources

abbrev pub Differs : SourceObservation → SourceObservation → Type 0
Differs s t = s.observation_id ≢ t.observation_id

-- No identity stands twice.
abbrev pub IsDistinct : List SourceObservation → Type 0
IsDistinct [] = Unit
IsDistinct (s ∷ sources) = All (Differs s) sources × IsDistinct sources

-- What the search for an identity found.
abbrev pub Found : String → List SourceObservation → Option SourceObservation → Type 0
Found identity unique none = All (λ s. s.observation_id ≢ identity) unique
Found identity unique (some e) =
    (e.observation_id ≡ identity) × All (λ s. s.observation_id ≡ identity → s ≡ e) unique

Found-cons :
    (identity : String) (s : SourceObservation) (unique : List SourceObservation)
    (o : Option SourceObservation)
    → s.observation_id ≢ identity
    → Found identity unique o
    → Found identity (s ∷ unique) o
Found-cons identity s unique none n f = (n, f)
Found-cons identity s unique (some e) n f = (f.0, ((λ p. absurd (n p)), f.1))

pub find_source-Found :
    (identity : String) (unique : List SourceObservation)
    → IsDistinct unique
    → Found identity unique (find_source identity unique)
unfolding find_source
find_source-Found identity [] d = tt
find_source-Found identity (s ∷ unique) d = elim (Bool-cases (str_eq s.observation_id identity)) [
  | inl here ↦
      let same : s.observation_id ≡ identity = (eq_iff _ _).0 here in
      rw here (same, ((λ _. refl), All-map (λ t n p. absurd (n (same ∙ sym p))) unique d.0))
  | inr past ↦ rw past (
      Found-cons identity s unique (find_source identity unique)
        (λ p. ground (arith, eq_iff s.observation_id identity))
        (find_source-Found identity unique d.1))
]

-- A write where the identity is absent, or holds the same source, adds that source alone.
pub put_source-All :
    (P : SourceObservation → Type 0) (x : SourceObservation) (unique : List SourceObservation)
    → (find_source x.observation_id unique ≡ none) ⊎ (find_source x.observation_id unique ≡ some x)
    → All P (put_source x unique) ↔ (All P unique × P x)
unfolding find_source put_source
put_source-All P x [] h = (λ p. (tt, p.0), λ p. (p.1, tt))
put_source-All P x (s ∷ unique) h = elim (Bool-cases (str_eq s.observation_id x.observation_id)) [
  | inl here ↦
      let same : s ≡ x = ground (arith, here, h) in
      rw (here, same) (λ p. ((p.0, p.1), p.0), λ p. (p.1, p.0.1))
  | inr past ↦
      let ih = put_source-All P x unique (rw (past, find_source) at h) in
      rw past (λ p. ((p.0, (ih.0 p.1).0), (ih.0 p.1).1), λ p. (p.0.0, ih.1 (p.0.1, p.1)))
]

pub put_source-IsDistinct :
    (x : SourceObservation) (unique : List SourceObservation)
    → (find_source x.observation_id unique ≡ none) ⊎ (find_source x.observation_id unique ≡ some x)
    → IsDistinct unique
    → IsDistinct (put_source x unique)
unfolding find_source put_source
put_source-IsDistinct x [] h d = (tt, tt)
put_source-IsDistinct x (s ∷ unique) h d =
    elim (Bool-cases (str_eq s.observation_id x.observation_id)) [
      | inl here ↦
          let same : s ≡ x = ground (arith, here, h) in rw (here, put_source) (rw same at d)
      | inr past ↦
          let h' : (find_source x.observation_id unique ≡ none)
              ⊎ (find_source x.observation_id unique ≡ some x) =
            rw (past, find_source) at h in
          rw past (
            (put_source-All (Differs s) x unique h').1
                (d.0, λ p. ground (arith, eq_iff s.observation_id x.observation_id)),
            put_source-IsDistinct x unique h' d.1,
          )
    ]

-- A round that succeeds has found nothing, or the same source, and writes.
pub remember-ok :
    (unique : List SourceObservation) (x : SourceObservation) (next : List SourceObservation)
    → remember unique x ≡ ok next
    → ((find_source x.observation_id unique ≡ none)
        ⊎ (find_source x.observation_id unique ≡ some x))
      × (next ≡ put_source x unique)
unfolding remember
remember-ok unique x next h = elim (Option-cases (find_source x.observation_id unique)) [
  | inl absent ↦ (inl absent, ground arith)
  | inr (e, found) ↦ elim (Bool-cases (source_eq e x)) [
    | inl same ↦ (inr (found ∙ ap some (source_eq_sound e x same)), ground arith)
    | inr other ↦ ground arith
  ]
]

pub remember_all-All :
    (P : SourceObservation → Type 0) (unique sources : List SourceObservation)
    {result : List SourceObservation}
    → remember_all unique sources ≡ ok result
    → All P result ↔ (All P unique × All P sources)
unfolding remember_all
remember_all-All P unique [] {result} h =
    let same : unique ≡ result = ground (arith, h) in rw (← same) (λ p. (p, tt), λ p. p.0)
remember_all-All P unique (x ∷ sources) h =
    let (next, first, rest) =
      >>=-eq-ok (remember unique x) (λ unique'. remember_all unique' sources) h in
    let (cond, written) = remember-ok unique x next first in
    let ih = remember_all-All P next sources rest in
    let put = put_source-All P x unique cond in
    (
      λ p. (let q = put.0 (rw written at (ih.0 p).0) in (q.0, (q.1, (ih.0 p).1))),
      λ p. ih.1 (rw written (put.1 (p.0, p.1.0)), p.1.1),
    )

pub remember_all-IsDistinct :
    (unique sources : List SourceObservation) {result : List SourceObservation}
    → remember_all unique sources ≡ ok result
    → IsDistinct unique
    → IsDistinct result
unfolding remember_all
remember_all-IsDistinct unique [] {result} h d =
    let same : unique ≡ result = ground (arith, h) in rw same at d
remember_all-IsDistinct unique (x ∷ sources) h d =
    let (next, first, rest) =
      >>=-eq-ok (remember unique x) (λ unique'. remember_all unique' sources) h in
    let (cond, written) = remember-ok unique x next first in
    remember_all-IsDistinct next sources rest (rw written (put_source-IsDistinct x unique cond d))

pub find_source-All :
    (P : SourceObservation → Type 0) (identity : String) (unique : List SourceObservation)
    {e : SourceObservation}
    → find_source identity unique ≡ some e
    → All P unique
    → P e
unfolding find_source
find_source-All P identity [] h p = ground arith
find_source-All P identity (s ∷ unique) {e} h p =
    elim (Bool-cases (str_eq s.observation_id identity)) [
      | inl here ↦ let same : s ≡ e = ground (arith, here, h) in rw same at p.0
      | inr past ↦ find_source-All P identity unique (rw (past, find_source) at h) p.1
    ]

pub remember-stores :
    (unique : List SourceObservation) (x : SourceObservation)
    → IsDistinct unique
    → All (λ s. Agree s x) unique
    → remember unique x ≡ ok (put_source x unique)
unfolding remember
remember-stores unique x d a = elim (Option-cases (find_source x.observation_id unique)) [
  | inl absent ↦ ground (arith, absent)
  | inr (e, found) ↦
      let here : Found x.observation_id unique (some e) =
        rw found at (find_source-Found x.observation_id unique d) in
      let same : e ≡ x = find_source-All (λ s. Agree s x) x.observation_id unique found a here.0 in
      let equal : source_eq e x ≡ true = rw same (source_eq_refl x) in ground (arith, found, equal)
]
