-- ===== src/Indexer/Projection/Known.antt =====
-- Whose schema a credential change of a projection has: apps/indexer/src/project-ledger.ts.
use mathlib.Core.Path.{subst}
use xcs.Common.{
  ℕ, Text, Bool, true, false, ◌||◌, List, [], ◌∷◌, ◌++◌, Option, none, some, ok, ◌≡◌, ◌∙◌, refl,
  text_eq, any, All, All-append, if◌then◌else◌, arith, >>=-eq-ok, ok-injective,
}
use xcs.Core.Libraries.{Libraries}
use xcs.Core.Network.{NetworkProfile}
use xcs.Core.Resolution.{RegisteredSchema}
use xcs.Core.Documents.{DocumentLibraries}
use xcs.Indexer.Types.{LedgerTransaction, ValidatedLedger}
use xcs.Indexer.Continuity.{assert_transaction_ordering}
use xcs.Indexer.Mutations.{CredentialMutation, extract_credential_mutations, is_some}
use xcs.Indexer.Mutations.Sound.{extract_credential_mutations-IsMutation}
use xcs.Indexer.Registration.{
  SchemaRegistrationResult, RegistrationOutcome, accepted, rejected, interpret_schema_registration,
}
use xcs.Indexer.Projection.{
  Catalog, Collected, LedgerProjection, knows, catalog_after, catalog_with, option_list,
  project_transactions, project_ledger,
}

abbrev pub accepts_uid : Text → RegistrationOutcome → Bool
accepts_uid uid (accepted memo registered) = text_eq uid registered.schema_uid
accepts_uid uid (rejected reason memo) = false

-- A schema is in the catalog, or one of the registrations accepts it.
abbrev pub has_source : Catalog → List SchemaRegistrationResult → Text → Bool
has_source catalog registrations uid =
    knows catalog uid || any (λ r. accepts_uid uid r.outcome) registrations

abbrev pub HasSource : Catalog → List SchemaRegistrationResult → CredentialMutation → Type 0
HasSource catalog registrations m = has_source catalog registrations m.schema_uid ≡ true

any-append :
    {A : Type 0} (p : A → Bool) (xs ys : List A) → any p (xs ++ ys) ≡ (any p xs || any p ys)
any-append p [] ys = refl
any-append p (x ∷ xs) ys = ground (arith, any-append p xs ys)

or_nothing : (b : Bool) → b ≡ (b || false)
or_nothing true = refl
or_nothing false = refl

set-is_some :
    (t : Bool) (r : RegisteredSchema) (o : Option RegisteredSchema)
    → is_some (if t then some r else o) ≡ (is_some o || t)
set-is_some true r none = refl
set-is_some true r (some q) = refl
set-is_some false r o = or_nothing (is_some o)

-- The catalog after a registration knows what it knew before and what was accepted.
catalog_after-knows :
    (profile : NetworkProfile) (index i : ℕ) (publisher : Text) (catalog : Catalog)
    (outcome : RegistrationOutcome) (uid : Text)
    → knows (catalog_after profile index catalog i publisher outcome) uid
      ≡ (knows catalog uid || accepts_uid uid outcome)
unfolding catalog_after
catalog_after-knows profile index i publisher catalog (rejected reason memo) uid =
    or_nothing (knows catalog uid)
catalog_after-knows profile index i publisher catalog (accepted memo registered) uid =
    set-is_some (text_eq uid registered.schema_uid) _ (catalog uid)

catalog_with-knows :
    (profile : NetworkProfile) (index : ℕ) (catalog : Catalog)
    (registration : Option SchemaRegistrationResult) (uid : Text)
    → knows (catalog_with profile index catalog registration) uid
      ≡ (knows catalog uid || any (λ r. accepts_uid uid r.outcome) (option_list registration))
unfolding catalog_with
catalog_with-knows profile index catalog none uid = or_nothing (knows catalog uid)
catalog_with-knows profile index catalog (some r) uid =
    catalog_after-knows profile index r.transaction_index r.publisher catalog r.outcome uid
    ∙ or_last (knows catalog uid) (accepts_uid uid r.outcome)
  where
    or_last : (a b : Bool) → (a || b) ≡ (a || (b || false))
    or_last a b = ground arith

-- A source in the next catalog is one in this catalog and the registration.
has_source_step :
    (profile : NetworkProfile) (index : ℕ) (catalog : Catalog)
    (registration : Option SchemaRegistrationResult) (rest : List SchemaRegistrationResult)
    (uid : Text)
    → has_source (catalog_with profile index catalog registration) rest uid ≡ true
    → has_source catalog (option_list registration ++ rest) uid ≡ true
has_source_step profile index catalog registration rest uid h =
    rw (any-append (λ r. accepts_uid uid r.outcome) (option_list registration) rest) (
      regroup (knows catalog uid) (any (λ r. accepts_uid uid r.outcome) (option_list registration))
        (any (λ r. accepts_uid uid r.outcome) rest)
        (rw (catalog_with-knows profile index catalog registration uid) at h))
  where
    regroup : (a b c : Bool) → ((a || b) || c) ≡ true → (a || (b || c)) ≡ true
    regroup a b c k = ground arith

All-map :
    {P Q : CredentialMutation → Type 0} (ms : List CredentialMutation)
    → ((m : CredentialMutation) → P m → Q m)
    → All P ms
    → All Q ms
All-map [] f h = tt
All-map (m ∷ ms) f (a, b) = (f m a, All-map ms f b)

module _ (libraries : Libraries) (documents : DocumentLibraries) (low_bits : ℕ → ℕ)
    (accepts_uri : Text → Bool) (profile : NetworkProfile) (ledger : ValidatedLedger) where
  abbrev projected : Catalog → List LedgerTransaction → Collected
  projected catalog ts =
      project_transactions libraries documents low_bits accepts_uri profile ledger catalog ts

  projected-HasSource :
      (catalog : Catalog) (ts : List LedgerTransaction)
      → All
          (HasSource catalog (projected catalog ts).schema_registrations)
          (projected catalog ts).credential_mutations
  unfolding project_transactions
  projected-HasSource catalog [] = tt
  projected-HasSource catalog (t ∷ ts) =
      let registration =
        interpret_schema_registration libraries documents low_bits profile ledger.ledger_hash
          ledger.ledger_index catalog t in
      let next = catalog_with profile ledger.ledger_index catalog registration in
      let rest =
        project_transactions libraries documents low_bits accepts_uri profile ledger next ts in
      let whole = option_list registration ++ rest.schema_registrations in
      All-append (HasSource catalog whole)
        (extract_credential_mutations libraries accepts_uri (knows next) ledger.close_time
          t).mutations
        rest.credential_mutations
        (All-map _
          (λ m h.
            has_source_step profile ledger.ledger_index catalog registration
              rest.schema_registrations m.schema_uid
              (known_first (knows next m.schema_uid) _ h.schema_known))
          (extract_credential_mutations-IsMutation libraries accepts_uri (knows next)
            ledger.close_time t))
        (All-map rest.credential_mutations
          (λ m h.
            has_source_step profile ledger.ledger_index catalog registration
              rest.schema_registrations m.schema_uid h)
          (projected-HasSource next ts))
    where
      known_first : (a b : Bool) → a ≡ true → (a || b) ≡ true
      known_first a b h = rw h refl

  -- Every credential change of a projection has a schema that was in the catalog before the ledger or
  -- that a registration of the projection accepts.
  pub project_ledger-HasSource :
      (catalog : Catalog) (projection : LedgerProjection)
      → project_ledger libraries documents low_bits accepts_uri profile ledger catalog
        ≡ ok projection
      → All
          (HasSource catalog projection.collected.schema_registrations)
          projection.collected.credential_mutations
  unfolding project_ledger
  project_ledger-HasSource catalog projection h =
      let (u, ordered, e) = >>=-eq-ok (assert_transaction_ordering ledger) _ h in
      let same = ok-injective e in
      subst
        (λ p.
          All (HasSource catalog p.collected.schema_registrations) p.collected.credential_mutations)
        same (projected-HasSource catalog ledger.transactions)
