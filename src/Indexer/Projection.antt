-- ===== src/Indexer/Projection.antt =====
-- apps/indexer/src/project-ledger.ts: what a ledger adds to the tables.
pub mod Known
use xcs.Common.{
  ℕ, ◌+◌, Text, Bool, true, false, List, [], ◌∷◌, ◌++◌, Option, none, some, Result, ok, err,
  text_eq, if◌then◌else◌, ◌>>=◌, ◌>>◌,
}
use xcs.Core.Schema.RoundTrip.{schema_value}
use xcs.Core.Libraries.{Libraries}
use xcs.Core.Network.{NetworkProfile}
use xcs.Core.Resolution.{RegisteredSchema}
use xcs.Core.Documents.{DocumentLibraries}
use xcs.Indexer.Types.{LedgerTransaction, ValidatedLedger}
use xcs.Indexer.Continuity.{LedgerContinuityError, assert_transaction_ordering}
use xcs.Indexer.Mutations.{
  CredentialMutation, ExtractedMutations, extract_credential_mutations, is_some,
}
use xcs.Indexer.Registration.{
  SchemaRegistrationResult, RegistrationOutcome, Registered, accepted, rejected,
  interpret_schema_registration,
}

-- The catalog by its uids.
abbrev pub Catalog : Type 0
Catalog = Text → Option RegisteredSchema

-- what the loop has collected
pub record Collected : Type 0 where
  pub schema_registrations : List SchemaRegistrationResult
  pub credential_mutations : List CredentialMutation
  pub malformed_credential_nodes : ℕ

pub record LedgerProjection : Type 0 where
  pub ledger : ValidatedLedger
  pub collected : Collected

abbrev pub knows : Catalog → Text → Bool
knows catalog uid = is_some (catalog uid)

module _ (profile : NetworkProfile) (ledger_index : ℕ) where
  -- `catalog.set` of an accepted registration
  unfoldable pub catalog_after : Catalog → ℕ → Text → RegistrationOutcome → Catalog
  unfolding text_eq schema_value
  catalog_after catalog transaction_index publisher (rejected reason memo) = catalog
  catalog_after catalog transaction_index publisher (accepted memo registered) = λ uid.
      if text_eq uid registered.schema_uid
      then some (record {
        uid = registered.schema_uid;
        definition = schema_value registered.definition;
        publisher = publisher;
        network_id = profile.network_id;
        ledger_index = ledger_index;
        transaction_index = transaction_index;
      })
      else catalog uid

  unfoldable pub catalog_with : Catalog → Option SchemaRegistrationResult → Catalog
  unfolding catalog_after
  catalog_with catalog none = catalog
  catalog_with catalog (some result) =
      catalog_after catalog result.transaction_index result.publisher result.outcome

abbrev pub option_list {ℓ} : {A : Type ℓ} → Option A → List A
option_list none = []
option_list (some a) = a ∷ []

abbrev pub collect : Option SchemaRegistrationResult → ExtractedMutations → Collected → Collected
collect registration extracted rest = record {
  schema_registrations = option_list registration ++ rest.schema_registrations;
  credential_mutations = extracted.mutations ++ rest.credential_mutations;
  malformed_credential_nodes =
      extracted.malformed_credential_nodes + rest.malformed_credential_nodes;
}

module _ (libraries : Libraries) (documents : DocumentLibraries) (low_bits : ℕ → ℕ)
    (accepts_uri : Text → Bool) (profile : NetworkProfile) (ledger : ValidatedLedger) where
  -- A transaction's own registration is in the catalog when its credentials are read.
  unfoldable pub project_transactions : Catalog → List LedgerTransaction → Collected
  unfolding interpret_schema_registration catalog_with extract_credential_mutations
  project_transactions catalog [] = record {
    schema_registrations = [];
    credential_mutations = [];
    malformed_credential_nodes = 0;
  }
  project_transactions catalog (transaction ∷ transactions) =
      let registration =
        interpret_schema_registration libraries documents low_bits profile ledger.ledger_hash
          ledger.ledger_index catalog transaction in
      let next = catalog_with profile ledger.ledger_index catalog registration in
      collect registration
        (extract_credential_mutations libraries accepts_uri (knows next) ledger.close_time
          transaction)
        (project_transactions next transactions)

  unfoldable pub project_ledger : Catalog → Result LedgerContinuityError LedgerProjection
  unfolding assert_transaction_ordering project_transactions
  project_ledger initial_catalog = do
    assert_transaction_ordering ledger
    ok (record {
      ledger = ledger;
      collected = project_transactions initial_catalog ledger.transactions;
    })
