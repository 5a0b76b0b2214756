-- ===== src/Base/Instant.antt =====
-- Python's `datetime`: whether it carries a usable offset, and the instant in microseconds.
use Prim.Native.Nat.{ℕ, ◌-◌}
use mathlib.Core.Path.{◌≡◌}
use mathlib.Core.Bool.{Bool, true, false, ◌&&◌}
use native.Mathlib.Omega.{arith}
use urim_platform.Base.Int.{ℤ, pos, negsuc}
use urim_platform.Base.Tests.{ltb, leb, ◌==◌, if◌then◌else◌}

pub record DateTime : Type 0 where
  pub aware : Bool
  pub instant : ℕ

-- `a < b`, of two datetimes whose awareness has been checked.
abbrev pub before : DateTime → DateTime → Bool
before a b = ltb a.instant b.instant

-- `a <= b`, likewise.
abbrev pub until : DateTime → DateTime → Bool
until a b = leb a.instant b.instant

-- `a == b`: an aware and a naive datetime are never equal.
abbrev pub same_time : DateTime → DateTime → Bool
same_time a b =
    if a.aware
    then b.aware && a.instant == b.instant
    else if b.aware
    then false
    else a.instant == b.instant

pub same_time_sound : (a b : DateTime) → same_time a b ≡ true → a ≡ b
same_time_sound a b h = ground arith

pub same_time_refl : (a : DateTime) → same_time a a ≡ true
same_time_refl a = ground arith

-- `a - b` in microseconds.
abbrev pub difference : DateTime → DateTime → ℤ
difference a b =
    if leb b.instant a.instant
    then pos (a.instant - b.instant)
    else negsuc (b.instant - a.instant - 1)
