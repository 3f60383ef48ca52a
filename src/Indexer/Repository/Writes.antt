-- ===== src/Indexer/Repository/Writes.antt =====
-- apps/indexer/src/repository.ts: what `persistLedger` writes for a registration and for a credential
-- mutation.
use xcs.Common.{
  ℕ, Text, codes, Bool, true, ◌&&◌, List, [], ◌∷◌, Option, none, some, Result, ok, err, leb,
  text_eq, if◌then◌else◌, guard, ◌>>=◌, ◌>>◌, any,
}
use xcs.Core.Errors.{XcsErrorCode}
use xcs.Core.Json.{JsonValue, string, array, object, Items, nil, cons, end, member}
use xcs.Core.Documents.{DocumentLibraries, canonical_json}
use xcs.Core.Schema.RoundTrip.{schema_value, fields_members}
use xcs.Core.Resolution.{ResolvedSchema}
use xcs.Indexer.Types.{ValidatedLedger}
use xcs.Indexer.Status.{is_ledger_hash, is_some, uint32_max}
use xcs.Indexer.Registration.{
  SchemaRegistrationResult, RegistrationOutcome, Registered, accepted, rejected,
}
use xcs.Indexer.Repository.{
  RepositoryError, constraint, json_syntax, serialization, SchemaEventRow, EventStatus,
  accepted_status, rejected_status, SchemaRow, Tables, find_profile,
}

abbrev text_items : List Text → Items
text_items [] = nil
text_items (t ∷ ts) = cons (string t) (text_items ts)

-- the object that `resolve` returns
unfoldable pub resolved_value : ResolvedSchema → JsonValue
unfolding schema_value fields_members
resolved_value r = object (
    member (codes "definition") (schema_value r.definition) (
      member (codes "fields") (object (fields_members r.fields))
        (member (codes "lineage") (array (text_items r.lineage)) end)))

abbrev pub hash_or_null : Option Text → Bool
hash_or_null none = true
hash_or_null (some uid) = is_ledger_hash uid

abbrev pub uint32_or_null : Option ℕ → Bool
uint32_or_null none = true
uint32_or_null (some n) = leb n uint32_max

-- the CHECK constraints of `schema_events`
unfoldable pub event_status_checks : EventStatus → Bool
unfolding is_ledger_hash
event_status_checks (accepted_status uid memo) = is_ledger_hash uid
event_status_checks (rejected_status reason memo) = true

unfoldable pub schema_event_checks : SchemaEventRow → Bool
unfolding is_ledger_hash event_status_checks
schema_event_checks r =
    (is_ledger_hash r.transaction_hash && is_ledger_hash r.ledger_hash)
    && (leb r.ledger_index uint32_max && event_status_checks r.status)

abbrev pub schema_event_is : Text → Text → SchemaEventRow → Bool
schema_event_is profile hash r = text_eq r.profile_id profile && text_eq r.transaction_hash hash

abbrev pub has_profile : Text → Tables → Bool
has_profile profile t = is_some (find_profile profile t)

-- INSERT … ON CONFLICT DO NOTHING, with the primary key and the reference to the profile
unfoldable pub insert_schema_event : SchemaEventRow → Tables → Result RepositoryError Tables
unfolding schema_event_checks text_eq
insert_schema_event row t =
    guard (schema_event_checks row) constraint
    >> (if any (schema_event_is row.profile_id row.transaction_hash) t.schema_events
        then ok t
        else guard (has_profile row.profile_id t) constraint
          >> ok (record t { schema_events = row ∷ t.schema_events }))

-- the CHECK constraints of `schemas`
unfoldable pub schema_checks : SchemaRow → Bool
unfolding is_ledger_hash
schema_checks r =
    (is_ledger_hash r.schema_uid && (hash_or_null r.parent_uid && hash_or_null r.supersedes_uid))
    && (is_ledger_hash r.registration_transaction_hash && leb r.ledger_index uint32_max)

abbrev pub schema_is : Text → Text → SchemaRow → Bool
schema_is profile uid r = text_eq r.profile_id profile && text_eq r.schema_uid uid

abbrev pub registered_by : Text → Text → SchemaRow → Bool
registered_by profile hash r =
    text_eq r.profile_id profile && text_eq r.registration_transaction_hash hash

-- ON CONFLICT DO NOTHING counts both unique keys; the references are the profile and the event.
unfoldable pub insert_schema : SchemaRow → Tables → Result RepositoryError Tables
unfolding schema_checks text_eq
insert_schema row t =
    guard (schema_checks row) constraint
    >> (if any (schema_is row.profile_id row.schema_uid) t.schemas
        then ok t
        else if any (registered_by row.profile_id row.registration_transaction_hash) t.schemas
        then ok t
        else guard
            (has_profile row.profile_id t
              && any (schema_event_is row.profile_id row.registration_transaction_hash)
                  t.schema_events)
            constraint
          >> ok (record t { schemas = row ∷ t.schemas }))

abbrev pub in_json : {A : Type 0} → Result XcsErrorCode A → Result RepositoryError A
in_json (ok a) = ok a
in_json (err code) = err (serialization code)

module _ (profile : Text) (ledger : ValidatedLedger) (registration : SchemaRegistrationResult) where
  abbrev pub event_row : EventStatus → SchemaEventRow
  event_row status = record {
    profile_id = profile;
    transaction_hash = registration.transaction_hash;
    ledger_index = ledger.ledger_index;
    ledger_hash = ledger.ledger_hash;
    transaction_index = registration.transaction_index;
    publisher = registration.publisher;
    status = status;
  }

  abbrev pub schema_row : Registered → JsonValue → JsonValue → SchemaRow
  schema_row registered definition resolved = record {
    profile_id = profile;
    schema_uid = registered.schema_uid;
    publisher = registration.publisher;
    name = registered.definition.name;
    description = registered.definition.description;
    parent_uid = registered.definition.parent;
    supersedes_uid = registered.definition.predecessor;
    definition = definition;
    resolved_definition = resolved;
    registration_transaction_hash = registration.transaction_hash;
    ledger_index = ledger.ledger_index;
    transaction_index = registration.transaction_index;
  }

module _ (documents : DocumentLibraries) where
  abbrev pub parsed_json : Option JsonValue → Result RepositoryError JsonValue
  parsed_json none = err json_syntax
  parsed_json (some value) = ok value

  -- `JSON.parse` of a canonical text, which repeats no key
  unfoldable pub plain_database_json : JsonValue → Result RepositoryError JsonValue
  unfolding canonical_json
  plain_database_json value = do
    text ← in_json (canonical_json documents value)
    parsed_json (documents.parse_tree text)

  abbrev pub plain_memo : Option JsonValue → Result RepositoryError (Option JsonValue)
  plain_memo none = ok none
  plain_memo (some memo) = plain_database_json memo >>= λ plain. ok (some plain)

  unfoldable pub event_status : RegistrationOutcome → Result RepositoryError EventStatus
  unfolding plain_database_json
  event_status (accepted memo registered) =
      plain_database_json memo >>= λ plain. ok (accepted_status registered.schema_uid plain)
  event_status (rejected reason memo) =
      plain_memo memo >>= λ plain. ok (rejected_status reason plain)

  module _ (profile : Text) (ledger : ValidatedLedger) where
    unfoldable pub persist_schema :
        SchemaRegistrationResult → RegistrationOutcome → Tables → Result RepositoryError Tables
    unfolding plain_database_json insert_schema schema_value resolved_value
    persist_schema registration (rejected reason memo) t = ok t
    persist_schema registration (accepted memo registered) t = do
      definition ← plain_database_json (schema_value registered.definition)
      resolved ← plain_database_json (resolved_value registered.resolved)
      insert_schema (schema_row profile ledger registration registered definition resolved) t

    unfoldable pub persist_registration :
        SchemaRegistrationResult → Tables → Result RepositoryError Tables
    unfolding event_status insert_schema_event persist_schema
    persist_registration registration t = do
      status ← event_status registration.outcome
      recorded ← insert_schema_event (event_row profile ledger registration status) t
      persist_schema registration registration.outcome recorded

    unfoldable pub persist_registrations :
        List SchemaRegistrationResult → Tables → Result RepositoryError Tables
    unfolding persist_registration
    persist_registrations [] t = ok t
    persist_registrations (registration ∷ rest) t =
        persist_registration registration t >>= λ t1. persist_registrations rest t1
