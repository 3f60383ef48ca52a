-- ===== src/Common/Results.antt =====
-- Functions that may throw return a result.
use mathlib.Core.Path.{◌≡◌, refl, subst}
use mathlib.Core.Logic.{◌⊎◌, inl, inr}
use mathlib.Core.Bool.{Bool, true, false}
use xcs.Common.Tests.{if◌then◌else◌}

pub data Result {ℓ κ} (E : Type ℓ) (A : Type κ) : Type (ℓ ⊔ κ) where
  ok : A → Result E A
  err : E → Result E A

-- `if (!test) fail(error)`
abbrev pub guard {ℓ} : {E : Type ℓ} → Bool → E → Result E (Unit {0})
guard test error = if test then ok tt else err error

infixl 5 ◌>>=◌ ◌>>◌
-- The rest runs with the value, unless something was thrown.
abbrev pub ◌>>=◌ {ℓ κ μ} :
    {E : Type ℓ} {A : Type κ} {B : Type μ} → Result E A → (A → Result E B) → Result E B
err thrown >>= rest = err thrown
ok value >>= rest = rest value

-- A check that gives no value.
abbrev pub ◌>>◌ {ℓ μ} : {E : Type ℓ} {B : Type μ} → Result E (Unit {0}) → Result E B → Result E B
check >> rest = check >>= λ done. rest

-- Inversion of a successful bind.
pub >>=-eq-ok {ℓ κ μ} :
    {E : Type ℓ} {A : Type κ} {B : Type μ} (run : Result E A) (rest : A → Result E B) {value : B}
    → (run >>= rest) ≡ ok value
    → (first : A) × (run ≡ ok first) × (rest first ≡ ok value)
>>=-eq-ok (err thrown) rest e = cc
>>=-eq-ok (ok first) rest e = (first, refl, e)

pub guard-eq-ok {ℓ κ} :
    {E : Type ℓ} {B : Type κ} (t : Bool) (e : E) (k : Result E B) {b : B}
    → (guard t e >> k) ≡ ok b
    → (t ≡ true) × (k ≡ ok b)
guard-eq-ok true e k h = (refl, h)
guard-eq-ok false e k h = cc

pub Result-cases {ℓ κ} :
    {E : Type ℓ} {A : Type κ} (r : Result E A) → ((a : A) × (r ≡ ok a)) ⊎ ((e : E) × (r ≡ err e))
Result-cases (ok a) = inl (a, refl)
Result-cases (err e) = inr (e, refl)

pub ok-injective {ℓ κ} :
    {E : Type ℓ} {A : Type κ} {a b : A} → ◌≡◌ {A = Result E A} (ok a) (ok b) → a ≡ b
ok-injective h = cc

-- What holds of the value of a run that returns.
abbrev pub Ensures {ℓ κ μ} : {E : Type ℓ} {A : Type κ} → (A → Type μ) → Result E A → Type μ
Ensures P (ok a) = P a
Ensures P (err e) = Unit

module _ {ℓ κ μ ν ξ} {E : Type ℓ} {A : Type κ} {B : Type μ} where
  pub Ensures-bind :
      (P : A → Type ν) (Q : B → Type ξ) (m : Result E A) (f : A → Result E B)
      → Ensures P m
      → ((a : A) → P a → Ensures Q (f a))
      → Ensures Q (m >>= f)
  Ensures-bind P Q (ok a) f h k = k a h
  Ensures-bind P Q (err e) f h k = tt

module _ {ℓ κ μ ξ} {E : Type ℓ} {A : Type κ} {B : Type μ} where
  -- where nothing is needed of the first value
  pub Ensures-then :
      (Q : B → Type ξ) (m : Result E A) (f : A → Result E B)
      → ((a : A) → Ensures Q (f a))
      → Ensures Q (m >>= f)
  Ensures-then Q (ok a) f k = k a
  Ensures-then Q (err e) f k = tt

module _ {ℓ κ μ} {E : Type ℓ} {A : Type κ} where
  pub Ensures-guard :
      (Q : A → Type μ) (t : Bool) (e : E) (k : Result E A)
      → (t ≡ true → Ensures Q k)
      → Ensures Q (guard t e >> k)
  Ensures-guard Q true e k h = h refl
  Ensures-guard Q false e k h = tt

  pub Ensures-at : (P : A → Type μ) (r : Result E A) (a : A) → Ensures P r → r ≡ ok a → P a
  Ensures-at P (ok b) a h e = subst P (ok-injective e) h
  Ensures-at P (err c) a h e = cc

  pub Ensures-of : (P : A → Type μ) (r : Result E A) → ((a : A) → r ≡ ok a → P a) → Ensures P r
  Ensures-of P (ok b) h = h b refl
  Ensures-of P (err c) h = tt

  pub Ensures-both {ν} :
      (P : A → Type μ) (Q : A → Type ν) (r : Result E A)
      → Ensures P r
      → Ensures Q r
      → Ensures (λ a. P a × Q a) r
  Ensures-both P Q (ok a) h k = (h, k)
  Ensures-both P Q (err e) h k = tt

  pub Ensures-if :
      (P : A → Type μ) (t : Bool) (m n : Result E A)
      → (t ≡ true → Ensures P m)
      → (t ≡ false → Ensures P n)
      → Ensures P (if t then m else n)
  Ensures-if P true m n h k = h refl
  Ensures-if P false m n h k = k refl

-- A run that returns.
abbrev pub Returns {ℓ κ} : {E : Type ℓ} {A : Type κ} → Result E A → Type 0
Returns (ok a) = Unit
Returns (err e) = ⊥

pub Returns-value {ℓ κ} :
    {E : Type ℓ} {A : Type κ} (r : Result E A) → Returns r → (a : A) × (r ≡ ok a)
Returns-value (ok a) h = (a, refl)
Returns-value (err e) h = absurd h

pub Returns-of {ℓ κ} : {E : Type ℓ} {A : Type κ} (r : Result E A) (a : A) → r ≡ ok a → Returns r
Returns-of (ok b) a h = tt
Returns-of (err e) a h = cc

module _ {ℓ κ μ} {E : Type ℓ} {A : Type κ} {B : Type μ} where
  pub Returns-bind :
      (m : Result E A) (f : A → Result E B)
      → Returns m
      → ((a : A) → Returns (f a))
      → Returns (m >>= f)
  Returns-bind (ok a) f h k = k a
  Returns-bind (err e) f h k = absurd h

  -- for a rest that returns whatever the value is, or needs only that there is one
  pub Returns-first : (m : Result E A) (f : A → Result E B) → Returns (m >>= f) → Returns m
  Returns-first (ok a) f h = tt
  Returns-first (err e) f h = h

  pub Returns-second :
      (m : Result E A) (f : A → Result E B)
      → Returns (m >>= f)
      → (a : A) × (m ≡ ok a) × Returns (f a)
  Returns-second (ok a) f h = (a, refl, h)
  Returns-second (err e) f h = absurd h

pub Returns-guard {ℓ κ} :
    {E : Type ℓ} {B : Type κ} (t : Bool) (e : E) (k : Result E B)
    → Returns (guard t e >> k)
    → (t ≡ true) × Returns k
Returns-guard true e k h = (refl, h)
Returns-guard false e k h = absurd h

module _ {ℓ κ μ ν} {E : Type ℓ} {A : Type κ} where
  pub Ensures-map :
      (P : A → Type μ) (Q : A → Type ν) (r : Result E A)
      → Ensures P r
      → ((a : A) → P a → Q a)
      → Ensures Q r
  Ensures-map P Q (ok a) h k = k a h
  Ensures-map P Q (err e) h k = tt

pub Ensures-test {ℓ κ} :
    {E : Type ℓ} (P : Type κ) (t : Bool) (e : E) → (t ≡ true → P) → Ensures (λ u. P) (guard t e)
Ensures-test P true e h = h refl
Ensures-test P false e h = tt

pub err-injective {ℓ κ} :
    {E : Type ℓ} {A : Type κ} {d e : E} → ◌≡◌ {A = Result E A} (err d) (err e) → d ≡ e
err-injective h = cc

-- What holds of the value of a run that returns, and of the error of one that throws.
abbrev pub Outcome {ℓ κ μ} :
    {E : Type ℓ} {A : Type κ} → (A → Type μ) → (E → Type μ) → Result E A → Type μ
Outcome P Q (ok a) = P a
Outcome P Q (err e) = Q e

module _ {ℓ κ μ ν} {E : Type ℓ} {A : Type κ} {B : Type μ} where
  pub Outcome-bind :
      (P : A → Type ν) (P' : B → Type ν) (Q : E → Type ν) (m : Result E A) (f : A → Result E B)
      → Outcome P Q m
      → ((a : A) → P a → Outcome P' Q (f a))
      → Outcome P' Q (m >>= f)
  Outcome-bind P P' Q (ok a) f h k = k a h
  Outcome-bind P P' Q (err e) f h k = h

module _ {ℓ κ ν} {E : Type ℓ} {A : Type κ} where
  pub Outcome-guard :
      (P : A → Type ν) (Q : E → Type ν) (t : Bool) (e : E) (k : Result E A)
      → Q e
      → (t ≡ true → Outcome P Q k)
      → Outcome P Q (guard t e >> k)
  Outcome-guard P Q true e k q h = h refl
  Outcome-guard P Q false e k q h = q

  pub Outcome-if :
      (P : A → Type ν) (Q : E → Type ν) (t : Bool) (a : A) (e : E)
      → Q e
      → (t ≡ true → P a)
      → Outcome P Q (if t then ok a else err e)
  Outcome-if P Q true a e q h = h refl
  Outcome-if P Q false a e q h = q

  pub Outcome-join :
      (P : A → Type ν) (Q : E → Type ν) (r : Result E A)
      → Ensures P r
      → Outcome (λ a. Unit) Q r
      → Outcome P Q r
  Outcome-join P Q (ok a) h k = h
  Outcome-join P Q (err e) h k = k

  pub Outcome-Ensures :
      (P : A → Type ν) (Q : E → Type ν) (r : Result E A) → Outcome P Q r → Ensures P r
  Outcome-Ensures P Q (ok a) h = h
  Outcome-Ensures P Q (err e) h = tt

  pub Outcome-at :
      (P : A → Type ν) (Q : E → Type ν) (r : Result E A) (e : E) → Outcome P Q r → r ≡ err e → Q e
  Outcome-at P Q (ok a) e h k = cc
  Outcome-at P Q (err d) e h k = subst Q (err-injective k) h

-- three checks before a value
pub Ensures-guards {ℓ κ μ} :
    {E : Type ℓ} {A : Type κ} (P : A → Type μ) (v : A) (a b c : Bool) (e1 e2 e3 : E)
    → (a ≡ true → P v)
    → Ensures P (guard a e1 >> (guard b e2 >> (guard c e3 >> ok v)))
Ensures-guards P v true true true e1 e2 e3 h = h refl
Ensures-guards P v true true false e1 e2 e3 h = tt
Ensures-guards P v true false c e1 e2 e3 h = tt
Ensures-guards P v false b c e1 e2 e3 h = tt

-- rests that agree
pub >>=-cong {ℓ κ μ} :
    {E : Type ℓ} {A : Type κ} {B : Type μ} (m : Result E A) (f g : A → Result E B)
    → ((a : A) → f a ≡ g a)
    → (m >>= f) ≡ (m >>= g)
>>=-cong (ok a) f g h = h a
>>=-cong (err e) f g h = refl
