-- ===== src/Base/Raising.antt =====
-- Raised exceptions as values: `err e` is what `raise` leaves.
use Prim.Native.Nat.{suc}
use mathlib.Core.Path.{◌≡◌, refl, ap}
use mathlib.Core.Logic.{◌↔◌}
use mathlib.Core.Bool.{Bool, true, false}
use mathlib.Core.List.{List, [], ◌∷◌}
use urim_platform.Base.Lists.{All, length}

pub data Result {ℓ κ} (E : Type ℓ) (A : Type κ) : Type (ℓ ⊔ κ) where
  err : E → Result E A
  ok : A → Result E A

-- `if b: raise e`
abbrev pub raise_if {ℓ} : {E : Type ℓ} → Bool → E → Result E (Unit {0})
raise_if true e = err e
raise_if false e = ok tt

infixl 5 ◌>>=◌
abbrev pub ◌>>=◌ {ℓ κ μ} :
    {E : Type ℓ} {A : Type κ} {B : Type μ} → Result E A → (A → Result E B) → Result E B
err raised >>= body = err raised
ok value >>= body = body value

infixl 5 ◌>>◌
abbrev pub ◌>>◌ {ℓ μ} : {E : Type ℓ} {B : Type μ} → Result E (Unit {0}) → Result E B → Result E B
statement >> rest = statement >>= λ done. rest

-- `for x in xs: body(x)`
abbrev pub for_each {ℓ κ} :
    {E : Type ℓ} {A : Type κ} → (A → Result E (Unit {0})) → List A → Result E (Unit {0})
for_each body [] = ok tt
for_each body (x ∷ xs) = body x >> for_each body xs

module _ {ℓ} {E : Type ℓ} where
  pub raise_if-eq-ok : (b : Bool) (e : E) → (raise_if b e ≡ ok tt) ↔ (b ≡ false)
  raise_if-eq-ok true e = (λ h. cc, λ h. cc)
  raise_if-eq-ok false e = (λ _. refl, λ _. refl)

  pub >>-eq-ok : (m k : Result E (Unit {0})) → ((m >> k) ≡ ok tt) ↔ ((m ≡ ok tt) × (k ≡ ok tt))
  >>-eq-ok (ok tt) k = (λ h. (refl, h), λ h. h.1)
  >>-eq-ok (err e) k = (λ h. cc, λ h. cc)

  pub for_each-eq-ok {κ} :
      {A : Type κ} (body : A → Result E (Unit {0})) (xs : List A)
      → (for_each body xs ≡ ok tt) ↔ All (λ x. body x ≡ ok tt) xs
  for_each-eq-ok body [] = (λ _. tt, λ _. refl)
  for_each-eq-ok body (x ∷ xs) =
      let split = >>-eq-ok (body x) (for_each body xs) in
      let ih = for_each-eq-ok body xs in
      (λ h. ((split.0 h).0, ih.0 (split.0 h).1), λ h. split.1 (h.0, ih.1 h.1))

pub >>=-eq-ok {ℓ κ μ} :
    {E : Type ℓ} {A : Type κ} {B : Type μ} (action : Result E A) (body : A → Result E B)
    {result : B}
    → (action >>= body) ≡ ok result
    → (value : A) × (action ≡ ok value) × (body value ≡ ok result)
>>=-eq-ok (err raised) body h = cc
>>=-eq-ok (ok value) body h = (value, refl, h)

-- After a guard that was passed, its test is false and the rest has run.
pub raise_if->>-eq-ok {ℓ} :
    {E : Type ℓ} (b : Bool) (e : E) (k : Result E (Unit {0}))
    → (raise_if b e >> k) ≡ ok tt
    → (b ≡ false) × (k ≡ ok tt)
raise_if->>-eq-ok true e k h = cc
raise_if->>-eq-ok false e k h = (refl, h)

-- `tuple(body(x) for x in xs)`
abbrev pub traverse : {E A B : Type 0} → (A → Result E B) → List A → Result E (List B)
traverse body [] = ok []
traverse body (x ∷ xs) = body x >>= λ y. traverse body xs >>= λ ys. ok (y ∷ ys)

-- A loop whose body returns on each element, with a result of some kind, returns such results.
pub traverse-All {κ} :
    {E A B : Type 0} {P : A → Type κ} {Q : B → Type 0} (body : A → Result E B)
    → ((x : A) → P x → (y : B) × (body x ≡ ok y) × Q y)
    → (xs : List A) → All P xs
    → (ys : List B) × (traverse body xs ≡ ok ys) × All Q ys × (length ys ≡ length xs)
traverse-All body each [] h = ([], refl, tt, refl)
traverse-All body each (x ∷ xs) h =
    let (y, first, good) = each x h.0 in
    let (ys, rest, all_good, size) = traverse-All body each xs h.1 in
    (y ∷ ys, rw (first, rest) refl, (good, all_good), ap suc size)
