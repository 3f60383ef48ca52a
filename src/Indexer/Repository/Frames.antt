-- ===== src/Indexer/Repository/Frames.antt =====
-- apps/indexer/src/repository.ts: what the statements of `persistLedger` leave as it is.
use xcs.Common.{
  ◌≡◌, refl, Text, Bool, true, false, List, [], ◌∷◌, ok, if◌then◌else◌, guard, ◌>>◌, Ensures,
  Ensures-bind, Ensures-guard, Ensures-if, Ensures-map, Ensures-then, Ensures-guards, any,
}
use xcs.Core.Documents.{DocumentLibraries}
use xcs.Core.Schema.RoundTrip.{schema_value}
use xcs.Indexer.Types.{ValidatedLedger}
use xcs.Indexer.Mutations.{CredentialMutation}
use xcs.Indexer.Registration.{SchemaRegistrationResult, RegistrationOutcome, accepted, rejected}
use xcs.Indexer.Repository.{
  RepositoryError, constraint, SchemaEventRow, SchemaRow, GenerationRow, CredentialEventRow, Tables,
}
use xcs.Indexer.Repository.Writes.{
  has_profile, schema_event_checks, insert_schema_event, schema_checks, insert_schema,
  plain_database_json, event_status, persist_schema, persist_registration, persist_registrations,
  resolved_value, registered_by, schema_is, event_row, schema_row,
}
use xcs.Indexer.Repository.Generations.{
  generation_checks, insert_generation, is_new_generation, generation_refers, with_generation,
  update_rows, require_live, create_generation, change_generation, apply_mutation, event_checks,
  insert_event, persist_credential_mutation, persist_credential_mutations, is_created,
  live_generation, generation_is, touched, new_generation, event_of,
}

-- Neither the leases nor the profiles nor the checkpoints have changed.
pub record Keeps (t u : Tables) : Type 0 where
  pub profiles : u.network_profiles ≡ t.network_profiles
  pub statuses : u.statuses ≡ t.statuses
  pub incidents : u.incidents ≡ t.incidents
  pub checkpoints : u.checkpoints ≡ t.checkpoints

pub Keeps-refl : (t : Tables) → Keeps t t
Keeps-refl t = record { profiles = refl; statuses = refl; incidents = refl; checkpoints = refl }

pub Keeps-trans : (t u v : Tables) → Keeps t u → Keeps u v → Keeps t v
Keeps-trans t u v h k = record { profiles = cc; statuses = cc; incidents = cc; checkpoints = cc }

-- a statement that is skipped on a conflict
skips :
    (t v : Tables) (checks conflict references : Bool)
    → Keeps t v
    → Ensures (Keeps t) (
        ◌>>◌ {E = RepositoryError}
          (guard checks constraint)
          (if conflict then ok t else guard references constraint >> ok v))
skips t v true true references h = Keeps-refl t
skips t v true false true h = h
skips t v true false false h = tt
skips t v false conflict references h = tt

insert_schema_event-Keeps :
    (row : SchemaEventRow) (t : Tables) → Ensures (Keeps t) (insert_schema_event row t)
unfolding insert_schema_event
insert_schema_event-Keeps row t =
    skips t _ (schema_event_checks row) _ (has_profile row.profile_id t)
      record { profiles = refl; statuses = refl; incidents = refl; checkpoints = refl }

insert_schema-Keeps : (row : SchemaRow) (t : Tables) → Ensures (Keeps t) (insert_schema row t)
unfolding insert_schema
insert_schema-Keeps row t = Ensures-guard (Keeps t) (schema_checks row) _ _ λ passed.
    Ensures-if (Keeps t) (any (schema_is row.profile_id row.schema_uid) t.schemas) _ _
      (λ found. Keeps-refl t)
      λ missing.
        skips t _ true
          (any (registered_by row.profile_id row.registration_transaction_hash) t.schemas) _
          record { profiles = refl; statuses = refl; incidents = refl; checkpoints = refl }

insert_event-Keeps : (e : CredentialEventRow) (t : Tables) → Ensures (Keeps t) (insert_event e t)
unfolding insert_event
insert_event-Keeps e t =
    skips t _ (event_checks e) _ _
      record { profiles = refl; statuses = refl; incidents = refl; checkpoints = refl }

insert_generation-Keeps :
    (g : GenerationRow) (t : Tables) → Ensures (Keeps t) (insert_generation g t)
unfolding insert_generation
insert_generation-Keeps g t =
    Ensures-guards (Keeps t) (with_generation g t) (generation_checks g) (is_new_generation g t)
      (generation_refers g t) constraint constraint constraint
      λ h. record { profiles = refl; statuses = refl; incidents = refl; checkpoints = refl }

module _ (documents : DocumentLibraries) (profile : Text) (ledger : ValidatedLedger) where
  persist_schema-Keeps :
      (registration : SchemaRegistrationResult) (outcome : RegistrationOutcome) (t : Tables)
      → Ensures (Keeps t) (persist_schema documents profile ledger registration outcome t)
  unfolding persist_schema
  persist_schema-Keeps registration (rejected reason memo) t = Keeps-refl t
  persist_schema-Keeps registration (accepted memo registered) t =
      Ensures-then (Keeps t) (plain_database_json documents (schema_value registered.definition)) _
        λ d.
          Ensures-then (Keeps t)
            (plain_database_json documents (resolved_value registered.resolved)) _
            λ r. insert_schema-Keeps (schema_row profile ledger registration registered d r) t

  persist_registration-Keeps :
      (registration : SchemaRegistrationResult) (t : Tables)
      → Ensures (Keeps t) (persist_registration documents profile ledger registration t)
  unfolding persist_registration
  persist_registration-Keeps registration t =
      Ensures-then (Keeps t) (event_status documents registration.outcome) _ λ status.
        Ensures-bind (Keeps t) (Keeps t)
          (insert_schema_event (event_row profile ledger registration status) t) _
          (insert_schema_event-Keeps (event_row profile ledger registration status) t)
          λ u h.
            Ensures-map (Keeps u) (Keeps t)
              (persist_schema documents profile ledger registration registration.outcome u)
              (persist_schema-Keeps registration registration.outcome u)
              λ v k. Keeps-trans t u v h k

  pub persist_registrations-Keeps :
      (registrations : List SchemaRegistrationResult) (t : Tables)
      → Ensures (Keeps t) (persist_registrations documents profile ledger registrations t)
  unfolding persist_registrations
  persist_registrations-Keeps [] t = Keeps-refl t
  persist_registrations-Keeps (registration ∷ rest) t =
      Ensures-bind (Keeps t) (Keeps t)
        (persist_registration documents profile ledger registration t) _
        (persist_registration-Keeps registration t)
        λ u h.
          Ensures-map (Keeps u) (Keeps t) (persist_registrations documents profile ledger rest u)
            (persist_registrations-Keeps rest u) λ v k. Keeps-trans t u v h k

module _ (profile : Text) (ledger : ValidatedLedger) where
  create_generation-Keeps :
      (mutation : CredentialMutation) (t : Tables)
      → Ensures (λ r. Keeps t r.1) (create_generation profile ledger mutation t)
  unfolding create_generation
  create_generation-Keeps mutation t =
      Ensures-bind (Keeps t) (λ r. Keeps t r.1)
        (insert_generation (new_generation profile ledger mutation) t) _
        (insert_generation-Keeps (new_generation profile ledger mutation) t) λ u h. h

  change_generation-Keeps :
      (mutation : CredentialMutation) (t : Tables)
      → Ensures (λ r. Keeps t r.1) (change_generation profile ledger mutation t)
  unfolding change_generation
  change_generation-Keeps mutation t =
      Ensures-then (λ r. Keeps t r.1)
        (require_live (live_generation profile mutation.ledger_object_id t.generations)) _
        λ live.
          Ensures-then (λ r. Keeps t r.1)
            (update_rows (generation_is profile live.generation_id)
              (touched mutation ledger.ledger_index mutation.event_type) t.generations)
            _
            λ rows. record {
              profiles = refl;
              statuses = refl;
              incidents = refl;
              checkpoints = refl;
            }

  apply_mutation-Keeps :
      (mutation : CredentialMutation) (t : Tables)
      → Ensures (λ r. Keeps t r.1) (apply_mutation profile ledger mutation t)
  unfolding apply_mutation
  apply_mutation-Keeps mutation t =
      Ensures-if (λ r. Keeps t r.1) (is_created mutation.event_type) _ _
        (λ h. create_generation-Keeps mutation t) λ h. change_generation-Keeps mutation t

  persist_credential_mutation-Keeps :
      (mutation : CredentialMutation) (t : Tables)
      → Ensures (Keeps t) (persist_credential_mutation profile ledger mutation t)
  unfolding persist_credential_mutation
  persist_credential_mutation-Keeps mutation t =
      Ensures-bind (λ r. Keeps t r.1) (Keeps t) (apply_mutation profile ledger mutation t) _
        (apply_mutation-Keeps mutation t)
        λ (generation, u) h.
          Ensures-map (Keeps u) (Keeps t)
            (insert_event (event_of profile ledger mutation generation) u)
            (insert_event-Keeps (event_of profile ledger mutation generation) u)
            λ v k. Keeps-trans t u v h k

  pub persist_credential_mutations-Keeps :
      (mutations : List CredentialMutation) (t : Tables)
      → Ensures (Keeps t) (persist_credential_mutations profile ledger mutations t)
  unfolding persist_credential_mutations
  persist_credential_mutations-Keeps [] t = Keeps-refl t
  persist_credential_mutations-Keeps (mutation ∷ rest) t =
      Ensures-bind (Keeps t) (Keeps t) (persist_credential_mutation profile ledger mutation t) _
        (persist_credential_mutation-Keeps mutation t)
        λ u h.
          Ensures-map (Keeps u) (Keeps t) (persist_credential_mutations profile ledger rest u)
            (persist_credential_mutations-Keeps rest u) λ v k. Keeps-trans t u v h k
