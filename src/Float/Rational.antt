-- ===== src/Float/Rational.antt =====
-- A model of the interface: non-negative fractions, where subtraction stops at 0 and nothing is
-- rounded. It shows that the laws can hold, and runs the tests.
use native.Mathlib.Nat.{one-le-pow, le_of_mul-le-mul_right, mul-le-mul_right}
use urim_platform.Base.{
  ℕ, suc, ◌+◌, ◌-◌, ◌*◌, ◌^◌, ◌≤◌, ◌<◌, ◌≡◌, refl, Bool, true, List, [], ◌∷◌, arith, leb, leb→le,
}
use urim_platform.Base.Int.{pos, negsuc}
use urim_platform.Float.{Float, Laws}

-- `num / (below + 1)`
pub record Fraction : Type 0 where
  pub num : ℕ
  pub below : ℕ

abbrev pub fraction_le : Fraction → Fraction → Bool
fraction_le a b = leb (a.num * suc b.below) (b.num * suc a.below)

abbrev pub fraction_add : Fraction → Fraction → Fraction
fraction_add a b = record {
  num = a.num * suc b.below + b.num * suc a.below;
  below = suc a.below * suc b.below - 1;
}

abbrev pub fraction_sum : List Fraction → Fraction
fraction_sum [] = record { num = 0; below = 0 }
fraction_sum (a ∷ as_) = fraction_add a (fraction_sum as_)

-- `m / 10 ^ d`
abbrev pub fraction_lit : ℕ → ℕ → Fraction
fraction_lit m d = record { num = m; below = 10 ^ d - 1 }

instance abbrev pub fractions : Float Fraction
fractions = record {
  lit = fraction_lit;
  of_int = λ z. elim z [ pos n ↦ fraction_lit n 0 | negsuc n ↦ fraction_lit 0 0 ];
  add = fraction_add;
  sub = λ a b. record {
    num = a.num * suc b.below - b.num * suc a.below;
    below = suc a.below * suc b.below - 1;
  };
  mul = λ a b. record { num = a.num * b.num; below = suc a.below * suc b.below - 1 };
  div = λ a b. record { num = a.num * suc b.below; below = suc a.below * b.num - 1 };
  neg = λ a. fraction_lit 0 0;
  exp = λ a. fraction_add (fraction_lit 1 0) a;
  le = fraction_le;
  is_finite = λ a. true;
  round = λ a k. a;
  fsum = fraction_sum;
}

fraction_le_trans :
    (a b c : Fraction) → fraction_le a b ≡ true → fraction_le b c ≡ true → fraction_le a c ≡ true
fraction_le_trans a b c p q =
    let first = mul-le-mul_right (suc c.below) (leb→le _ _ p) in
    let second = mul-le-mul_right (suc a.below) (leb→le _ _ q) in
    let both : a.num * suc c.below * suc b.below ≤ c.num * suc a.below * suc b.below =
      omega (arith, first, second) in
    let fits = le_of_mul-le-mul_right both (omega arith) in ground (arith, fits)

pow-pos : (d : ℕ) → 0 < 10 ^ d
pow-pos d = one-le-pow d 10 (omega arith)

fraction_lit-le :
    (m d n e : ℕ)
    → m * 10 ^ e ≤ n * 10 ^ d
    → fraction_le (fraction_lit m d) (fraction_lit n e) ≡ true
fraction_lit-le m d n e h =
    let de : suc (10 ^ d - 1) ≡ 10 ^ d = omega (arith, pow-pos d) in
    let ee : suc (10 ^ e - 1) ≡ 10 ^ e = omega (arith, pow-pos e) in rw (de, ee) (ground (arith, h))

div_high :
    (m n : ℕ)
    → 0 < n
    → m ≤ n
    → fraction_le (fractions.div (fraction_lit m 0) (fraction_lit n 0)) (fraction_lit 1 0) ≡ true
div_high m n positive below = ground (arith, positive, below)

mean_high :
    (p q : Fraction)
    → fraction_le p (fraction_lit 1 0) ≡ true
    → fraction_le q (fraction_lit 1 0) ≡ true
    → fraction_le
        (fractions.add
          (fractions.mul p (fractions.sub (fraction_lit 10 1) (fraction_lit 10 2)))
          (fractions.mul q (fraction_lit 10 2)))
        (fraction_lit 1 0)
      ≡ true
mean_high p q hp hq =
    let first : p.num * suc q.below ≤ suc p.below * suc q.below =
      mul-le-mul_right (suc q.below) (below_one p hp) in
    let second : q.num * suc p.below ≤ suc q.below * suc p.below =
      mul-le-mul_right (suc p.below) (below_one q hq) in
    let pe : suc (suc p.below * 1000 - 1) ≡ suc p.below * 1000 = omega arith in
    let qe : suc (suc q.below * 100 - 1) ≡ suc q.below * 100 = omega arith in
    let de : suc (suc p.below * 1000 * (suc q.below * 100) - 1)
        ≡ suc p.below * 1000 * (suc q.below * 100) =
      omega arith in
    let fits : (p.num * 900 * (suc q.below * 100) + q.num * 10 * (suc p.below * 1000)) * 1
        ≤ 1 * (suc p.below * 1000 * (suc q.below * 100)) =
      omega (arith, first, second) in
    rw (pe, qe, de) (ground (arith, fits))
  where
    below_one : (a : Fraction) → fraction_le a (fraction_lit 1 0) ≡ true → a.num ≤ suc a.below
    below_one a h = ground (arith, h)

pub fractions-Laws : Laws fractions
fractions-Laws = record {
  le_trans = fraction_le_trans;
  le_total = λ a b. ground arith;
  round_mono = λ a b k h. h;
  round_lit = λ m d k h. refl;
  div_low = λ m n positive. ground arith;
  div_high = div_high;
  mean_low = λ p q hp hq. ground arith;
  mean_high = mean_high;
  lit_le = fraction_lit-le;
}
