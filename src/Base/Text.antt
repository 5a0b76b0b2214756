-- ===== src/Base/Text.antt =====
-- Texts as Python's `str` reads them: code points, `strip`, `len`, and the order of `sorted`.
use Prim.Native.Char.{code}
use Prim.Native.Nat.{ℕ, ◌+◌}
use Prim.Native.String.{String}
use mathlib.Core.Bool.{Bool, true, false, ◌&&◌, ◌||◌}
use mathlib.Core.Path.{◌≡◌, refl}
use mathlib.Core.Logic.{◌⊎◌, inl, inr}
use native.Mathlib.Omega.{arith}
use mathlib.Core.List.{reverse, map, List, [], ◌∷◌}
use urim_platform.Base.Tests.{if◌then◌else◌, ltb, leb, ◌==◌}
use urim_platform.Base.Lists.{length, all}

-- `String` has its own `[]` and `∷`.
abbrev pub codes : String → List ℕ
codes String.[] = []
codes (String.◌∷◌ c s) = code c ∷ codes s

-- `len(s)`
abbrev pub text_length : String → ℕ
text_length s = length (codes s)

-- The characters that `str.strip()` removes.
abbrev pub is_space : ℕ → Bool
is_space c =
    (leb 9 c && leb c 13)
    || (leb 28 c && leb c 32)
    || c == 133
    || c == 160
    || c == 5760
    || (leb 8192 c && leb c 8202)
    || c == 8232
    || c == 8233
    || c == 8239
    || c == 8287
    || c == 12288

-- `not s.strip()`
abbrev pub is_blank : String → Bool
is_blank s = all is_space (codes s)

abbrev pub is_hex : ℕ → Bool
is_hex c = (leb b'0' c && leb c b'9') || (leb b'a' c && leb c b'f') || (leb b'A' c && leb c b'F')

-- `^[0-9a-fA-F]{64}$`
abbrev pub is_sha256_hex : String → Bool
is_sha256_hex s = length (codes s) == 64 && all is_hex (codes s)

-- `a <= b` on texts, code point by code point.
abbrev pub codes_le : List ℕ → List ℕ → Bool
codes_le [] ys = true
codes_le (x ∷ xs) [] = false
codes_le (x ∷ xs) (y ∷ ys) = ltb x y || (x == y && codes_le xs ys)

abbrev pub text_le : String → String → Bool
text_le a b = codes_le (codes a) (codes b)

codes_le_total : (xs ys : List ℕ) → (codes_le xs ys ≡ true) ⊎ (codes_le ys xs ≡ true)
codes_le_total [] ys = inl refl
codes_le_total (x ∷ xs) [] = inr refl
codes_le_total (x ∷ xs) (y ∷ ys) = ground (arith, codes_le_total xs ys)

codes_le_trans :
    (xs ys zs : List ℕ) → codes_le xs ys ≡ true → codes_le ys zs ≡ true → codes_le xs zs ≡ true
codes_le_trans [] ys zs p q = refl
codes_le_trans (x ∷ xs) [] zs p q = ground arith
codes_le_trans (x ∷ xs) (y ∷ ys) [] p q = ground arith
codes_le_trans (x ∷ xs) (y ∷ ys) (z ∷ zs) p q = ground (arith, codes_le_trans xs ys zs)

pub text_le_total : (a b : String) → (text_le a b ≡ true) ⊎ (text_le b a ≡ true)
text_le_total a b = codes_le_total (codes a) (codes b)

pub text_le_trans : (a b c : String) → text_le a b ≡ true → text_le b c ≡ true → text_le a c ≡ true
text_le_trans a b c = codes_le_trans (codes a) (codes b) (codes c)

abbrev drop_spaces : List ℕ → List ℕ
drop_spaces [] = []
drop_spaces (c ∷ cs) = if is_space c then drop_spaces cs else c ∷ cs

-- `s.strip()`, as code points.
abbrev pub strip : String → List ℕ
strip s = reverse (drop_spaces (reverse (drop_spaces (codes s))))

abbrev pub lower : ℕ → ℕ
lower c = if leb b'A' c && leb c b'Z' then c + 32 else c

abbrev pub codes_eq : List ℕ → List ℕ → Bool
codes_eq [] [] = true
codes_eq (x ∷ xs) (y ∷ ys) = x == y && codes_eq xs ys
codes_eq _ _ = false

-- `s.strip().lower() == "goal"`. No letter but an ASCII one has a lower case in that word.
unfoldable pub is_goal : String → Bool
is_goal s = codes_eq (map lower (strip s)) (codes "goal")

goal_padded : is_goal " Goal" ≡ true
unfolding is_goal
goal_padded = refl
