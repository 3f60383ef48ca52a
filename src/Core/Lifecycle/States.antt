-- ===== src/Core/Lifecycle/States.antt =====
-- When a credential is in which state, and how the state moves with time: lifecycle.ts, lines 14
-- to 37.
use mathlib.Core.Option
use mathlib.Core.Path.{subst}
use xcs.Common.{refl, sym, ℕ, ◌≤◌, ◌<◌, ◌≡◌, ◌↔◌, Bool, true, false, Option, none, some, ok, arith}
use xcs.Core.Json.{JsonNumber, natural, other, non_finite}
use xcs.Core.Lifecycle.{
  CredentialLifecycleState, pending, active, expired, deleted, CredentialLifecycleInput,
  project_credential_lifecycle,
}

-- the input for a credential with these properties, at a ledger that closes at `time`
abbrev pub at_time : Bool → Bool → Option ℕ → ℕ → CredentialLifecycleInput
at_time exists accepted expiration time = record {
  object_exists = exists;
  accepted = accepted;
  expiration = Option.map natural expiration;
  close_time = natural time;
}

abbrev pub IsUint32 : ℕ → Type 0
IsUint32 n = n ≤ 0xffff_ffff

abbrev pub IsExpiration : Option ℕ → Type 0
IsExpiration none = Unit
IsExpiration (some e) = IsUint32 e

-- the state of a credential that is on the ledger and has not expired
abbrev pub IsLive : Bool → CredentialLifecycleState → Type 0
IsLive true s = s ≡ active
IsLive false s = s ≡ pending

-- The state that the protocol means.
abbrev pub HasState : Bool → Bool → Option ℕ → ℕ → CredentialLifecycleState → Type 0
HasState false accepted expiration time s = s ≡ deleted
HasState true accepted none time s = IsLive accepted s
HasState true accepted (some e) time expired = e ≤ time
HasState true accepted (some e) time s = (time < e) × IsLive accepted s

at_time_iff :
    (exists accepted : Bool) (expiration : Option ℕ) (time : ℕ) (s : CredentialLifecycleState)
    → (project_credential_lifecycle (at_time exists accepted expiration time) ≡ ok s)
      ↔ (IsUint32 time × IsExpiration expiration × HasState exists accepted expiration time s)
unfolding project_credential_lifecycle
at_time_iff false accepted none time s = ground arith
at_time_iff false accepted (some e) time s = ground arith
at_time_iff true true none time s = ground arith
at_time_iff true false none time s = ground arith
at_time_iff true true (some e) time expired = ground arith
at_time_iff true true (some e) time s = ground arith
at_time_iff true false (some e) time expired = ground arith
at_time_iff true false (some e) time s = ground arith

natural-injective : {a b : ℕ} → ◌≡◌ {A = JsonNumber} (natural a) (natural b) → a ≡ b
natural-injective h = cc

expiration-injective :
    (e f : Option ℕ)
    → ◌≡◌ {A = Option JsonNumber} (Option.map natural f) (Option.map natural e)
    → e ≡ f
expiration-injective none none h = refl
expiration-injective none (some f) h = cc
expiration-injective (some e) none h = cc
expiration-injective (some e) (some f) h = cc

other-expiration :
    (n : JsonNumber) (e : Option ℕ)
    → ◌≡◌ {A = Option JsonNumber} (some n) (Option.map natural e)
    → ((x : ℕ) → n ≡ natural x → ⊥)
    → ⊥
other-expiration n none h k = cc
other-expiration n (some x) h k = k x cc

-- What the protocol means for an input, whatever numbers stand in it: the times are uint32 values, and
-- the state is the one at these times.
pub record Projects (input : CredentialLifecycleInput) (s : CredentialLifecycleState) : Type 0 where
  pub time : ℕ
  pub expiration : Option ℕ
  pub same_time : input.close_time ≡ natural time
  pub same_expiration : input.expiration ≡ Option.map natural expiration
  pub time_max : IsUint32 time
  pub expiration_max : IsExpiration expiration
  pub state : HasState input.object_exists input.accepted expiration time s

module _ (exists accepted : Bool) where
  -- the input with any numbers for times
  abbrev with_times : Option JsonNumber → JsonNumber → CredentialLifecycleInput
  with_times expiration time = record {
    object_exists = exists;
    accepted = accepted;
    expiration = expiration;
    close_time = time;
  }

  -- an input that no projection is for
  refused :
      (expiration : Option JsonNumber) (time : JsonNumber) (s : CredentialLifecycleState)
      → (project_credential_lifecycle (with_times expiration time) ≡ ok s → ⊥)
      → ((n : ℕ) (e : Option ℕ) → time ≡ natural n → expiration ≡ Option.map natural e → ⊥)
      → (project_credential_lifecycle (with_times expiration time) ≡ ok s)
        ↔ Projects (with_times expiration time) s
  refused expiration time s h k =
      (λ e. absurd (h e), λ p. absurd (k p.time p.expiration p.same_time p.same_expiration))

  met :
      (expiration : Option ℕ) (time : ℕ) (s : CredentialLifecycleState)
      → (project_credential_lifecycle (at_time exists accepted expiration time) ≡ ok s)
        ↔ Projects (at_time exists accepted expiration time) s
  met expiration time s =
      let (f, g) = at_time_iff exists accepted expiration time s in
      (
        λ h.
            let (a, b, c) = f h in
            record {
              time = time;
              expiration = expiration;
              same_time = refl;
              same_expiration = refl;
              time_max = a;
              expiration_max = b;
              state = c;
            },
        λ p.
            let same : p.time ≡ time = sym (natural-injective p.same_time) in
            let same_e : p.expiration ≡ expiration =
              expiration-injective p.expiration expiration p.same_expiration in
            g (
              subst IsUint32 same p.time_max,
              subst IsExpiration same_e p.expiration_max,
              subst (λ e. HasState exists accepted e time s) same_e
                  (subst (λ t. HasState exists accepted p.expiration t s) same p.state),
            ),
      )

go :
    (exists accepted : Bool) (expiration : Option JsonNumber) (time : JsonNumber)
    (s : CredentialLifecycleState)
    → (project_credential_lifecycle (with_times exists accepted expiration time) ≡ ok s)
      ↔ Projects (with_times exists accepted expiration time) s
unfolding project_credential_lifecycle
go exists accepted expiration (other k) s =
    refused exists accepted expiration (other k) s (λ h. cc) λ n e h i. cc
go exists accepted expiration non_finite s =
    refused exists accepted expiration non_finite s (λ h. cc) λ n e h i. cc
go exists accepted none (natural n) s = met exists accepted none n s
go exists accepted (some (natural e)) (natural n) s = met exists accepted (some e) n s
go exists accepted (some (other k)) (natural n) s =
    refused exists accepted (some (other k)) (natural n) s (λ h. ground arith)
      λ m e h i. other-expiration (other k) e i (λ x j. cc)
go exists accepted (some non_finite) (natural n) s =
    refused exists accepted (some non_finite) (natural n) s (λ h. ground arith)
      λ m e h i. other-expiration non_finite e i (λ x j. cc)

-- The projection returns exactly for uint32 times, and neither for a negative number, nor for a
-- fraction, nor for one that is not finite; it gives exactly the state that holds: deleted without a
-- ledger object, else expired from the expiration on, else active or pending.
pub lifecycle_iff :
    (input : CredentialLifecycleInput) (s : CredentialLifecycleState)
    → (project_credential_lifecycle input ≡ ok s) ↔ Projects input s
lifecycle_iff input s = go input.object_exists input.accepted input.expiration input.close_time s

-- An expired credential is found expired at every later uint32 close time, as long as its ledger
-- object exists, whether it has been accepted meanwhile or not.
pub lifecycle_final :
    (accepted accepted' : Bool) (expiration : Option ℕ) (time later : ℕ)
    → time ≤ later
    → IsUint32 later
    → project_credential_lifecycle (at_time true accepted expiration time) ≡ ok expired
    → project_credential_lifecycle (at_time true accepted' expiration later) ≡ ok expired
unfolding project_credential_lifecycle
lifecycle_final true accepted' none time later h k e = ground arith
lifecycle_final false accepted' none time later h k e = ground arith
lifecycle_final accepted accepted' (some x) time later h k e = ground arith
