-- ===== src/Base/Select.antt =====
-- Selecting, taking and mapping, and what they keep.
use Prim.Native.Nat.{ℕ, zero, suc, ◌≤◌}
use mathlib.Core.Path.{◌≡◌, refl}
use mathlib.Core.Logic.{inl, inr}
use mathlib.Core.Bool.{Bool, true, false}
use mathlib.Core.List.{List, [], ◌∷◌, ◌++◌, map}
use native.Mathlib.Omega.{arith}
use urim_platform.Base.Tests.{Bool-cases}
use urim_platform.Base.Lists.{All, length, take, select, is_nil}

pub length-take : {A : Type 0} (n : ℕ) (xs : List A) → length (take n xs) ≤ n
length-take zero xs = omega arith
length-take (suc n) [] = omega arith
length-take (suc n) (x ∷ xs) = omega (arith, length-take n xs)

pub All-take : {A : Type 0} (P : A → Type 0) (n : ℕ) (xs : List A) → All P xs → All P (take n xs)
All-take P zero xs h = tt
All-take P (suc n) [] h = tt
All-take P (suc n) (x ∷ xs) h = (h.0, All-take P n xs h.1)

pub All-selected : {A : Type 0} (p : A → Bool) (xs : List A) → All (λ x. p x ≡ true) (select p xs)
All-selected p [] = tt
All-selected p (x ∷ xs) = elim (Bool-cases (p x)) [
  | inl kept ↦ rw kept (kept, All-selected p xs)
  | inr dropped ↦ rw dropped (All-selected p xs)
]

pub select-append :
    {A : Type 0} (p : A → Bool) (xs ys : List A) → select p (xs ++ ys) ≡ select p xs ++ select p ys
select-append p [] ys = refl
select-append p (x ∷ xs) ys = elim (Bool-cases (p x)) [
  | inl kept ↦ rw (kept, select-append p xs ys)
  | inr dropped ↦ rw (dropped, select-append p xs ys)
]

pub All-map_of {κ} :
    {A B : Type 0} (P : B → Type κ) (f : A → B) (xs : List A)
    → ((x : A) → P (f x))
    → All P (map f xs)
All-map_of P f [] h = tt
All-map_of P f (x ∷ xs) h = (h x, All-map_of P f xs h)

pub All-mapped :
    {A B : Type 0} (P : B → Type 0) (f : A → B) (xs : List A)
    → All (λ x. P (f x)) xs
    → All P (map f xs)
All-mapped P f [] h = tt
All-mapped P f (x ∷ xs) h = (h.0, All-mapped P f xs h.1)

-- A test that selects nothing is false everywhere.
pub All-select_nil :
    {A : Type 0} (p : A → Bool) (xs : List A) → length (select p xs) ≡ 0 → All (λ x. p x ≡ false) xs
All-select_nil p [] h = tt
All-select_nil p (x ∷ xs) h = elim (Bool-cases (p x)) [
  | inl kept ↦ absurd (ground (arith, kept, h))
  | inr dropped ↦ (dropped, All-select_nil p xs (rw dropped at h))
]

pub length-map : {A B : Type 0} (f : A → B) (xs : List A) → length (map f xs) ≡ length xs
length-map f [] = refl
length-map f (x ∷ xs) = omega (arith, length-map f xs)

pub is_nil-length : {A : Type 0} (xs : List A) → is_nil xs ≡ true → length xs ≡ 0
is_nil-length [] h = refl
is_nil-length (x ∷ xs) h = cc

pub All-unmapped {κ} :
    {A B : Type 0} (P : B → Type κ) (f : A → B) (xs : List A)
    → All P (map f xs)
    → All (λ x. P (f x)) xs
All-unmapped P f [] h = tt
All-unmapped P f (x ∷ xs) h = (h.0, All-unmapped P f xs h.1)
