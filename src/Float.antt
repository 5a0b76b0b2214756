-- ===== src/Float.antt =====
-- Python's floats, which the program computes with and does not implement: an interface.
-- `F` stands for the floats that are not NaN; `Laws` says what the theorems rely on, all of it
-- documented of IEEE doubles: the order is total, `round` keeps the order and leaves a literal of
-- no more digits alone, and literals are ordered as the numbers that they write.
pub mod Rational
use urim_platform.Base.{
  ℕ, zero, suc, ◌+◌, ◌-◌, ◌*◌, ◌/◌, ◌%◌, ◌^◌, ◌≤◌, ◌<◌, min, max, String, ◌≡◌, refl, sym, ap, ◌∙◌,
  ◌≢◌, ◌↔◌, ◌⊎◌, inl, inr, Bool, true, false, not, ◌&&◌, ◌||◌, Option, none, some, List, [], ◌∷◌,
  ◌++◌, map, arith, ltb, leb, ◌==◌, if◌then◌else◌, ltb→lt, lt→ltb, leb→le, ==_iff, Bool-cases,
  Option-cases, &&-eq-true, ||-eq-false, length, take, any, all, select, All, Any, length-append,
  any-eq-false, all-eq-true, All-map, All-append, All-select, conjunction, disjunction, Result, ok,
  err, ◌>>=◌, ◌>>◌, raise_if, for_each, raise_if-eq-ok, >>-eq-ok, for_each-eq-ok, >>=-eq-ok,
  All-trivial, All-both, raise_if->>-eq-ok, is_nil, In, In-Any, All-In, All-In_self, traverse,
  traverse-All,
}
use urim_platform.Base.Int.{ℤ}

pub record Float (F : Type 0) : Type 0 where
  -- `lit 725 1` is the literal 72.5.
  pub lit : ℕ → ℕ → F
  pub of_int : ℤ → F
  pub add : F → F → F
  pub sub : F → F → F
  pub mul : F → F → F
  pub div : F → F → F
  pub neg : F → F
  pub exp : F → F
  pub le : F → F → Bool
  pub is_finite : F → Bool
  -- `round(x, digits)`
  pub round : F → ℕ → F
  -- `math.fsum`
  pub fsum : List F → F

module _ {F : Type 0} ⦃fl : Float F⦄ where
  -- `a < b`
  abbrev pub lt : F → F → Bool
  lt a b = not (fl.le b a)

  -- `min(a, b)`: the first, unless the second is smaller.
  abbrev pub fmin : F → F → F
  fmin a b = if lt b a then b else a

  -- `max(a, b)`: the first, unless the second is larger.
  abbrev pub fmax : F → F → F
  fmax a b = if lt a b then b else a

  abbrev pub of_nat : ℕ → F
  of_nat n = fl.lit n 0

pub record Laws {F : Type 0} (fl : Float F) : Type 0 where
  pub le_trans : (a b c : F) → fl.le a b ≡ true → fl.le b c ≡ true → fl.le a c ≡ true
  pub le_total : (a b : F) → (fl.le a b ≡ true) ⊎ (fl.le b a ≡ true)
  pub round_mono : (a b : F) (k : ℕ) → fl.le a b ≡ true → fl.le (fl.round a k) (fl.round b k) ≡ true
  pub round_lit : (m d k : ℕ) → d ≤ k → fl.round (fl.lit m d) k ≡ fl.lit m d
  -- A quotient of natural numbers, the first not above the second, lies in the unit interval; so
  -- does the mean, with the weights 1.0 - 0.10 and 0.10, of two numbers of it.
  pub div_low : (m n : ℕ) → 0 < n → fl.le (fl.lit 0 0) (fl.div (fl.lit m 0) (fl.lit n 0)) ≡ true
  pub div_high :
      (m n : ℕ) → 0 < n → m ≤ n → fl.le (fl.div (fl.lit m 0) (fl.lit n 0)) (fl.lit 1 0) ≡ true
  pub mean_low :
      (p q : F)
      → fl.le (fl.lit 0 0) p ≡ true
      → fl.le (fl.lit 0 0) q ≡ true
      → fl.le
          (fl.lit 0 0)
          (fl.add (fl.mul p (fl.sub (fl.lit 10 1) (fl.lit 10 2))) (fl.mul q (fl.lit 10 2)))
        ≡ true
  pub mean_high :
      (p q : F)
      → fl.le p (fl.lit 1 0) ≡ true
      → fl.le q (fl.lit 1 0) ≡ true
      → fl.le
          (fl.add (fl.mul p (fl.sub (fl.lit 10 1) (fl.lit 10 2))) (fl.mul q (fl.lit 10 2)))
          (fl.lit 1 0)
        ≡ true
  pub lit_le : (m d n e : ℕ) → m * 10 ^ e ≤ n * 10 ^ d → fl.le (fl.lit m d) (fl.lit n e) ≡ true

module _ {F : Type 0} ⦃fl : Float F⦄ (laws : Laws fl) where
  open laws use {le_trans, le_total, round_mono, round_lit, lit_le}

  pub le_refl : (a : F) → fl.le a a ≡ true
  le_refl a = elim (le_total a a) [ inl h ↦ h | inr h ↦ h ]

  pub fmin-le_left : (a b : F) → fl.le (fmin a b) a ≡ true
  fmin-le_left a b = ground (arith, le_total a b, le_refl a)

  pub fmin-le_right : (a b : F) → fl.le (fmin a b) b ≡ true
  fmin-le_right a b = ground (arith, le_total a b, le_refl b)

  pub le-fmin : (x a b : F) → fl.le x a ≡ true → fl.le x b ≡ true → fl.le x (fmin a b) ≡ true
  le-fmin x a b p q = ground arith

  pub fmax-le : (x a b : F) → fl.le a x ≡ true → fl.le b x ≡ true → fl.le (fmax a b) x ≡ true
  fmax-le x a b p q = ground arith

  pub le-fmax_left : (a b : F) → fl.le a (fmax a b) ≡ true
  le-fmax_left a b = ground (arith, le_total a b, le_refl a)

  -- A value clamped to the range between two literals and rounded stays in that range.
  pub round-clamp :
      (m d n e k : ℕ) (x : F)
      → d ≤ k
      → e ≤ k
      → m * 10 ^ e ≤ n * 10 ^ d
      → (fl.le (fl.lit m d) (fl.round (fmax (fl.lit m d) (fmin x (fl.lit n e))) k) ≡ true)
        × (fl.le (fl.round (fmax (fl.lit m d) (fmin x (fl.lit n e))) k) (fl.lit n e) ≡ true)
  round-clamp m d n e k x p q r =
      let low = fl.lit m d in
      let high = fl.lit n e in
      let clamped = fmax low (fmin x high) in
      let above : fl.le low (fl.round clamped k) ≡ true =
        rw (round_lit m d k p) at (round_mono low clamped k (le-fmax_left low (fmin x high))) in
      let below : fl.le (fl.round clamped k) high ≡ true = rw (round_lit n e k q) at (
        round_mono clamped high k
          (fmax-le high low (fmin x high) (lit_le m d n e r) (fmin-le_right x high))) in
      (above, below)
