-- ===== src/Tests/Repository.antt =====
-- A ledger that is stored, and stored again, and the credentials of a ledger.
use mathlib.Core.List.{Memᴰ}
use xcs.Common.{
  Result, Option, ◌≡◌, refl, ℕ, Text, codes, false, List, [], ◌∷◌, none, some, ok, err, text_eq,
  Ensures, arith,
}
use xcs.Core.Json.{natural, null}
use xcs.Core.Network.{NetworkProfile}
use xcs.Indexer.Types.{ValidatedLedger}
use xcs.Indexer.Status.{StatusInput, catching_up_state, lease_lost}
use xcs.Indexer.Continuity.Chains.{checkpoint_of}
use xcs.Indexer.Mutations.{
  CredentialMutation, CredentialEventType, CredentialDeletionCause, subject_removed, created_event,
  accepted_event, deleted_event, issuer_revoked,
}
use xcs.Indexer.Projection.{LedgerProjection}
use xcs.Indexer.Repository.{
  Tables, GenerationRow, SchemaRow, RepositoryError, checkpoints_of, database_scope_conflict,
  fencing, checkpoint_conflict, no_live_generation,
}
use xcs.Indexer.Repository.Configured.{initialize_profile, exclusive_profile}
use xcs.Indexer.Repository.Ledgers.{PersistResult, persist_ledger, inserted}
use xcs.Indexer.Repository.Generations.{persist_credential_mutations, new_generation}
use xcs.Indexer.Repository.Chain.{Inv}
use xcs.Indexer.Repository.Invariant.{persist_ledger-Inv}
use xcs.Indexer.Repository.Replay.{touch_lease, persist_ledger_again}
use xcs.Indexer.Repository.Keys.{Keyed}
use xcs.Indexer.Repository.Deleted.{persist_credential_mutations-Keyed}
use xcs.Indexer.Fencing.Exclusion.{start}
use xcs.Indexer.Repository.Fenced.{superseded-persist_ledger}
use xcs.Tests.Fencing.{
  main, second, first_leased, first_token, first_row, second_leased, second_lease, first_leased-Inv,
  first_is_active, second_acquires,
}
use xcs.Tests.Registration.{one_document}

abbrev hash_a : Text
hash_a = codes "00000000000000000000000000000000000000000000000000000000000000ab"

abbrev hash_b : Text
hash_b = codes "00000000000000000000000000000000000000000000000000000000000000cd"

abbrev pub main_profile : NetworkProfile
main_profile = record {
  profile_id = main;
  network_id = 1;
  required_amendment = hash_a;
  registry_address = codes "rrrrrrrrrrrrrrrrrrrrrhoLvTp";
  activation_ledger_index = 7;
  activation_ledger_hash = hash_a;
}

abbrev pub first_ledger : ValidatedLedger
first_ledger = record {
  ledger_index = 7;
  ledger_hash = hash_a;
  parent_hash = hash_b;
  account_root = hash_a;
  transaction_root = hash_b;
  parent_close_time = 100;
  close_time = 110;
  close_time_resolution = 10;
  close_flags = 0;
  total_coins = codes "100";
  transactions = [];
}

abbrev empty_projection : ValidatedLedger → LedgerProjection
empty_projection ledger = record {
  ledger = ledger;
  collected = record {
    schema_registrations = [];
    credential_mutations = [];
    malformed_credential_nodes = 0;
  };
}

-- a lease, and nothing stored yet
abbrev pub leased_tables : Tables
leased_tables = record {
  network_profiles = [];
  statuses = first_leased.statuses;
  incidents = first_leased.incidents;
  checkpoints = [];
  schema_events = [];
  schemas = [];
  generations = [];
  events = [];
}

leased_tables-Inv : Inv leased_tables
leased_tables-Inv = record { known = λ p row found. cc; unknown = λ p missing. refl }

abbrev pub no_evidence : StatusInput
no_evidence = record {
  primary_source_tip = some (natural 9);
  secondary_source_tip = some (natural 9);
  last_agreed_ledger_index = some (natural 7);
  last_agreed_ledger_hash = some hash_a;
}

abbrev persist_first : Tables → Result RepositoryError (PersistResult × Tables)
persist_first t =
    persist_ledger one_document main_profile (empty_projection first_ledger) first_token
      catching_up_state no_evidence 2000 t

abbrev pub tables_after : Result RepositoryError (PersistResult × Tables) → Tables
tables_after (ok (result, t)) = t
tables_after (err e) = leased_tables

abbrev first_stored : Tables
first_stored = tables_after (persist_first leased_tables)

first_is_stored : persist_first leased_tables ≡ ok (inserted, first_stored)
unfolding persist_ledger text_eq
first_is_stored = refl

its_checkpoint : checkpoints_of main first_stored.checkpoints ≡ (checkpoint_of first_ledger ∷ [])
unfolding persist_ledger text_eq
its_checkpoint = refl

abbrev same_place : ValidatedLedger
same_place = record first_ledger { transaction_root = hash_a }

other_evidence :
    persist_ledger one_document main_profile
      (empty_projection same_place)
      first_token
      catching_up_state
      no_evidence
      2000
      first_stored
    ≡ err checkpoint_conflict
unfolding persist_ledger text_eq
other_evidence = refl

after_the_lease :
    persist_ledger one_document main_profile
      (empty_projection first_ledger)
      first_token
      catching_up_state
      no_evidence
      61000
      first_stored
    ≡ err (fencing lease_lost)
unfolding persist_ledger text_eq
after_the_lease = refl

another_profile :
    initialize_profile exclusive_profile
      (record main_profile { profile_id = codes "other" })
      first_stored
    ≡ err database_scope_conflict
unfolding initialize_profile text_eq persist_ledger
another_profile = refl

persist_ledger-Inv_example : Inv first_stored
persist_ledger-Inv_example =
    persist_ledger-Inv one_document main_profile (empty_projection first_ledger) first_token
      catching_up_state no_evidence 2000 leased_tables first_stored inserted leased_tables-Inv
      first_is_stored

persist_ledger_again_example :
    persist_ledger one_document main_profile
      (empty_projection first_ledger)
      first_token
      catching_up_state
      no_evidence
      3000
      first_stored
    ≡ touch_lease first_token catching_up_state no_evidence 3000 first_stored
persist_ledger_again_example =
    persist_ledger_again one_document main_profile (empty_projection first_ledger) first_token
      catching_up_state catching_up_state no_evidence no_evidence 2000 3000 leased_tables
      first_stored inserted first_is_stored

superseded-persist_ledger_example :
    Ensures
      (λ x. ⊥)
      (persist_ledger one_document main_profile
        (empty_projection first_ledger)
        first_token
        catching_up_state
        no_evidence
        61500
        (record leased_tables { statuses = second_leased.statuses }))
superseded-persist_ledger_example =
    superseded-persist_ledger 1000 1000 61000 61000 61500 first_leased first_leased second_leased
      second_leased first_token first_row second (natural 60000) second_lease
      (record leased_tables { statuses = second_leased.statuses }) one_document main_profile
      (empty_projection first_ledger) catching_up_state no_evidence first_leased-Inv first_is_active
      start (omega arith) second_acquires start refl

abbrev schema_b : SchemaRow
schema_b = record {
  profile_id = main;
  schema_uid = hash_b;
  publisher = codes "rPublisher";
  name = codes "name";
  description = codes "description";
  parent_uid = none;
  supersedes_uid = none;
  definition = null;
  resolved_definition = null;
  registration_transaction_hash = hash_b;
  ledger_index = 7;
  transaction_index = 0;
}

abbrev mutation_at : ℕ → CredentialEventType → Option CredentialDeletionCause → CredentialMutation
mutation_at node event cause = record {
  transaction_hash = hash_a;
  transaction_index = 0;
  node_index = node;
  ledger_object_id = hash_b;
  event_type = event;
  issuer = codes "rIssuer";
  subject = codes "rSubject";
  schema_uid = hash_b;
  uri_hex = codes "697066";
  expiration = none;
  accepted = false;
  deletion_cause = cause;
  snapshot = [];
}

abbrev old_generation : GenerationRow
old_generation = record (new_generation main first_ledger (mutation_at 0 created_event none)) {
  generation_id = hash_b;
  deleted_ledger_index = some 7;
  deletion_cause = some issuer_revoked;
}

abbrev with_schema : Tables
with_schema = record first_stored { schemas = schema_b ∷ []; generations = old_generation ∷ [] }

abbrev mutations : List CredentialMutation
mutations =
    mutation_at 0 created_event none
    ∷ mutation_at 1 accepted_event none
    ∷ mutation_at 2 deleted_event (some subject_removed)
    ∷ []

abbrev tables_of : Result RepositoryError Tables → Tables
tables_of (ok t) = t
tables_of (err e) = leased_tables

abbrev mutated : Tables
mutated = tables_of (persist_credential_mutations main first_ledger mutations with_schema)

all_are_stored : persist_credential_mutations main first_ledger mutations with_schema ≡ ok mutated
unfolding persist_credential_mutations persist_ledger text_eq
all_are_stored = refl

nothing_to_accept :
    persist_credential_mutations main first_ledger
      (mutation_at 1 accepted_event none ∷ [])
      with_schema
    ≡ err no_live_generation
unfolding persist_credential_mutations persist_ledger text_eq
nothing_to_accept = refl

persist_credential_mutations-Keyed_example :
    Keyed mutated.generations × Memᴰ old_generation mutated.generations
persist_credential_mutations-Keyed_example =
    persist_credential_mutations-Keyed main first_ledger mutations with_schema mutated
      old_generation (refl, tt) (Memᴰ.head refl) refl all_are_stored
