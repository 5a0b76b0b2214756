-- ===== src/Base/Sort.antt =====
-- Python's `sorted`: stable, by a test `le`. For a total preorder every stable sort is this one.
use Prim.Native.Nat.{suc}
use mathlib.Core.Path.{◌≡◌, refl}
use mathlib.Core.Bool.{Bool, true}
use mathlib.Core.List.{List, [], ◌∷◌}
use native.Mathlib.Omega.{arith}
use mathlib.Core.Logic.{◌⊎◌, inl, inr}
use urim_platform.Base.Tests.{Bool-cases, if◌then◌else◌}
use urim_platform.Base.Lists.{All-map, All, length}

module _ {ℓ} {A : Type ℓ} (le : A → A → Bool) where
  -- Before the first element that is not below `x`.
  unfoldable pub insert_sorted : A → List A → List A
  insert_sorted x [] = x ∷ []
  insert_sorted x (y ∷ ys) = if le x y then x ∷ y ∷ ys else y ∷ insert_sorted x ys

  unfoldable pub sorted : List A → List A
  sorted [] = []
  sorted (x ∷ xs) = insert_sorted x (sorted xs)

  pub All-insert_sorted {κ} :
      (P : A → Type κ) (x : A) (xs : List A) → P x → All P xs → All P (insert_sorted x xs)
  unfolding insert_sorted
  All-insert_sorted P x [] p h = (p, tt)
  All-insert_sorted P x (y ∷ ys) p h = ground (arith, All-insert_sorted P x ys p h.1)

  pub All-sorted {κ} : (P : A → Type κ) (xs : List A) → All P xs → All P (sorted xs)
  unfolding sorted
  All-sorted P [] h = tt
  All-sorted P (x ∷ xs) h = All-insert_sorted P x (sorted xs) h.0 (All-sorted P xs h.1)

  pub length-insert_sorted : (x : A) (xs : List A) → length (insert_sorted x xs) ≡ suc (length xs)
  unfolding insert_sorted
  length-insert_sorted x [] = refl
  length-insert_sorted x (y ∷ ys) = ground (arith, length-insert_sorted x ys)

  pub length-sorted : (xs : List A) → length (sorted xs) ≡ length xs
  unfolding sorted
  length-sorted [] = refl
  length-sorted (x ∷ xs) = ground (arith, length-insert_sorted x (sorted xs), length-sorted xs)

  -- Each element is below all that follow it.
  abbrev pub IsSorted : List A → Type ℓ
  IsSorted [] = Unit
  IsSorted (x ∷ xs) = All (λ y. le x y ≡ true) xs × IsSorted xs

  IsSorted-insert_sorted :
      ((a b : A) → (le a b ≡ true) ⊎ (le b a ≡ true))
      → ((a b c : A) → le a b ≡ true → le b c ≡ true → le a c ≡ true)
      → (x : A) (xs : List A) → IsSorted xs
      → IsSorted (insert_sorted x xs)
  unfolding insert_sorted
  IsSorted-insert_sorted total trans x [] h = (tt, tt)
  IsSorted-insert_sorted total trans x (y ∷ ys) h = elim (Bool-cases (le x y)) [
    | inl p ↦ rw p ((p, All-map (λ z q. trans x y z p q) ys h.0), h)
    | inr n ↦ rw n (
      All-insert_sorted (λ z. le y z ≡ true) x ys (ground (arith, total x y)) h.0,
      IsSorted-insert_sorted total trans x ys h.1,
    )
  ]

  -- For a total preorder the result is in order.
  pub IsSorted-sorted :
      ((a b : A) → (le a b ≡ true) ⊎ (le b a ≡ true))
      → ((a b c : A) → le a b ≡ true → le b c ≡ true → le a c ≡ true)
      → (xs : List A) → IsSorted (sorted xs)
  unfolding sorted
  IsSorted-sorted total trans [] = tt
  IsSorted-sorted total trans (x ∷ xs) =
      IsSorted-insert_sorted total trans x (sorted xs) (IsSorted-sorted total trans xs)

  -- What holds of every element of the result held of every element before.
  All-of_insert_sorted {κ} :
      (P : A → Type κ) (x : A) (xs : List A) → All P (insert_sorted x xs) → P x × All P xs
  unfolding insert_sorted
  All-of_insert_sorted P x [] h = h
  All-of_insert_sorted P x (y ∷ ys) h = elim (Bool-cases (le x y)) [
    | inl p ↦ rw (p, insert_sorted) at h
    | inr n ↦
        let g : P y × All P (insert_sorted x ys) = rw (n, insert_sorted) at h in
        let r = All-of_insert_sorted P x ys g.1 in (r.0, (g.0, r.1))
  ]

  pub All-of_sorted {κ} : (P : A → Type κ) (xs : List A) → All P (sorted xs) → All P xs
  unfolding sorted
  All-of_sorted P [] h = tt
  All-of_sorted P (x ∷ xs) h =
      let r = All-of_insert_sorted P x (sorted xs) h in (r.0, All-of_sorted P xs r.1)
