-- ===== src/Common/Actions.antt =====
-- Code that has a state and may throw: the state comes back after a throw too, since what was written
-- stays written.
use mathlib.Core.Path.{◌≡◌, refl}
use mathlib.Core.Bool.{Bool}
use xcs.Common.Tests.{if◌then◌else◌}
use xcs.Common.Results.{Result, ok, err}

abbrev pub Action : Type 0 → Type 0 → Type 0 → Type 0
Action W E A = W → Result E A × W

module _ {W E : Type 0} where
  module _ {A : Type 0} where
    abbrev pub pure : A → Action W E A
    pure a w = (ok a, w)

    abbrev pub raise : E → Action W E A
    raise e w = (err e, w)

    abbrev pub gets : (W → A) → Action W E A
    gets f w = (ok (f w), w)

    -- a value that was computed, or its error
    abbrev pub lift : Result E A → Action W E A
    lift r w = (r, w)

  abbrev pub modify : (W → W) → Action W E (Unit {0})
  modify f w = (ok tt, f w)

  abbrev pub raise_unless : Bool → E → Action W E (Unit {0})
  raise_unless test e w = (if test then ok tt else err e, w)

infixl 5 ◌>>=◌ ◌>>◌
abbrev pub ◌>>=◌ : {W E A B : Type 0} → Action W E A → (A → Action W E B) → Action W E B
◌>>=◌ m rest w = let (r, next) = m w in elim r [ ok a ↦ rest a next | err e ↦ (err e, next) ]

abbrev pub ◌>>◌ : {W E A B : Type 0} → Action W E A → Action W E B → Action W E B
m >> k = m >>= λ done. k

-- What holds after a run that returns.
abbrev pub Yields {ℓ} : {W E A : Type 0} → (A → W → Type ℓ) → Result E A × W → Type ℓ
Yields P (ok a, w) = P a w
Yields P (err e, w) = Unit

pub Yields-bind {ℓ κ} :
    {W E A B : Type 0} (P : A → W → Type ℓ) (Q : B → W → Type κ) (m : Action W E A)
    (rest : A → Action W E B) (w : W)
    → Yields P (m w)
    → ((a : A) (next : W) → P a next → Yields Q (rest a next))
    → Yields Q ((m >>= rest) w)
Yields-bind {W = W} {E = E} {A = A} P Q m rest w h k = go (m w) h
  where
    go :
        (r : Result E A × W)
        → Yields P r
        → Yields {E = E} Q (elim r.0 [ ok a ↦ rest a r.1 | err e ↦ (err e, r.1) ])
    go (ok a, next) h = k a next h
    go (err e, next) h = tt

-- where nothing is needed of the first run
pub Yields-then {κ} :
    {W E A B : Type 0} (Q : B → W → Type κ) (m : Action W E A) (rest : A → Action W E B) (w : W)
    → ((a : A) (next : W) → Yields Q (rest a next))
    → Yields Q ((m >>= rest) w)
Yields-then {W = W} {E = E} {A = A} Q m rest w k = go (m w)
  where
    go :
        (r : Result E A × W)
        → Yields {E = E} Q (elim r.0 [ ok a ↦ rest a r.1 | err e ↦ (err e, r.1) ])
    go (ok a, next) = k a next
    go (err e, next) = tt

-- What holds of the state after a run, whether it returns or throws.
abbrev pub Ends {ℓ} : {W E A : Type 0} → (W → Type ℓ) → Result E A × W → Type ℓ
Ends Q (r, w) = Q w

pub Ends-bind {ℓ} :
    {W E A B : Type 0} (Q : W → Type ℓ) (m : Action W E A) (rest : A → Action W E B) (w : W)
    → ((e : E) (next : W) → m w ≡ (err e, next) → Q next)
    → ((a : A) (next : W) → m w ≡ (ok a, next) → Ends Q (rest a next))
    → Ends Q ((m >>= rest) w)
Ends-bind {W = W} {E = E} {A = A} {B = B} Q m rest w h k = go (m w) refl
  where
    go :
        (r : Result E A × W)
        → m w ≡ r
        → Ends {E = E} {A = B} Q (elim r.0 [ ok a ↦ rest a r.1 | err e ↦ (err e, r.1) ])
    go (ok a, next) e = k a next e
    go (err x, next) e = h x next e
