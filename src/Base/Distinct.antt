-- ===== src/Base/Distinct.antt =====
-- Python's `set` of numbers: a list with each once, and membership in one.
use mathlib.Core.Path.{◌≡◌}
use mathlib.Core.Logic.{inl, inr}
use mathlib.Core.Bool.{true}
use mathlib.Core.List.{List, [], ◌∷◌}
use Prim.Native.Nat.{ℕ}
use native.Mathlib.Omega.{arith}
use urim_platform.Base.Tests.{Bool-cases, if◌then◌else◌, ◌==◌, ==_iff}
use urim_platform.Base.Lists.{All, any}

-- `set(ids)`
unfoldable pub distinct : List ℕ → List ℕ
distinct [] = []
distinct (a ∷ ids) = if any (λ x. x == a) ids then distinct ids else a ∷ distinct ids

pub All-contains :
    (P : ℕ → Type 0) (ids : List ℕ) (a : ℕ) → All P ids → any (λ x. x == a) ids ≡ true → P a
All-contains P [] a h found = cc
All-contains P (i ∷ ids) a h found = elim (Bool-cases (i == a)) [
  | inl same ↦ let e : i ≡ a = (==_iff i a).0 same in rw e at (h.0)
  | inr other ↦ All-contains P ids a h.1 (ground (arith, other, found))
]

pub All-distinct : (P : ℕ → Type 0) (ids : List ℕ) → All P ids → All P (distinct ids)
unfolding distinct
All-distinct P [] h = tt
All-distinct P (a ∷ ids) h = ground (arith, All-distinct P ids h.1, h.0)

-- What holds of every element of the set holds of every element of the list.
pub All-of_distinct : (P : ℕ → Type 0) (ids : List ℕ) → All P (distinct ids) → All P ids
unfolding distinct
All-of_distinct P [] h = tt
All-of_distinct P (a ∷ ids) h = elim (Bool-cases (any (λ x. x == a) ids)) [
  | inl again ↦
      let rest = All-of_distinct P ids (rw again at h) in (All-contains P ids a rest again, rest)
  | inr new ↦ let both = rw new at h in (both.0, All-of_distinct P ids both.1)
]
