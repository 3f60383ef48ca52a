-- ===== src/Indexer/Repository/Generations.antt =====
-- apps/indexer/src/repository.ts: `persistCredentialMutation`, on the generations of credentials and
-- on their events.
use xcs.Common.{
  ℕ, Text, Bool, true, false, not, ◌&&◌, List, [], ◌∷◌, Option, none, some, Result, ok, err, leb,
  ltb, ◌==◌, text_eq, if◌then◌else◌, guard, ◌>>=◌, ◌>>◌, any,
}
use xcs.Indexer.Types.{ValidatedLedger}
use xcs.Indexer.Status.{is_ledger_hash, is_some, uint32_max}
use xcs.Indexer.Fencing.{is_none}
use xcs.Indexer.Mutations.{
  CredentialMutation, CredentialEventType, CredentialDeletionCause, created_event, accepted_event,
  deleted_event,
}
use xcs.Indexer.Repository.{
  RepositoryError, constraint, no_live_generation, GenerationRow, CredentialEventRow, Tables,
}
use xcs.Indexer.Repository.Writes.{uint32_or_null, has_profile, schema_is}

abbrev pub ledger_order : ℕ → ℕ → Option ℕ → Bool
ledger_order created last none = leb created last
ledger_order created last (some deleted) = leb created last && deleted == last

abbrev pub same_presence : Option ℕ → Option CredentialDeletionCause → Bool
same_presence none cause = is_none cause
same_presence (some deleted) cause = is_some cause

-- the CHECK constraints of `credential_generations`; the one on the cause's name holds by its type
unfoldable pub generation_checks : GenerationRow → Bool
unfolding is_ledger_hash
generation_checks g =
    (is_ledger_hash g.generation_id
      && (is_ledger_hash g.ledger_object_id && is_ledger_hash g.schema_uid))
    && ((uint32_or_null g.expiration && leb g.created_ledger_index uint32_max)
        && ((leb g.last_ledger_index uint32_max && uint32_or_null g.deleted_ledger_index)
            && (ledger_order g.created_ledger_index g.last_ledger_index g.deleted_ledger_index
                && same_presence g.deleted_ledger_index g.deletion_cause)))

abbrev pub generation_is : Text → Text → GenerationRow → Bool
generation_is profile generation g =
    text_eq g.profile_id profile && text_eq g.generation_id generation

-- the live generation of an issuer, a subject and a schema, which `credential_generations_live_uq`
-- keeps single
abbrev pub same_live : GenerationRow → GenerationRow → Bool
same_live g h =
    (is_none g.deleted_ledger_index && is_none h.deleted_ledger_index)
    && (text_eq h.profile_id g.profile_id
        && (text_eq h.issuer g.issuer
            && (text_eq h.subject g.subject && text_eq h.schema_uid g.schema_uid)))

abbrev pub is_new_generation : GenerationRow → Tables → Bool
is_new_generation g t =
    not (any (generation_is g.profile_id g.generation_id) t.generations)
    && not (any (same_live g) t.generations)

abbrev pub generation_refers : GenerationRow → Tables → Bool
generation_refers g t =
    has_profile g.profile_id t && any (schema_is g.profile_id g.schema_uid) t.schemas

abbrev pub with_generation : GenerationRow → Tables → Tables
with_generation g t = record t { generations = g ∷ t.generations }

-- a plain INSERT, with both unique keys and both references
unfoldable pub insert_generation : GenerationRow → Tables → Result RepositoryError Tables
unfolding generation_checks text_eq
insert_generation g t = do
  guard (generation_checks g) constraint
  guard (is_new_generation g t) constraint
  guard (generation_refers g t) constraint
  ok (with_generation g t)

abbrev pub is_live_of : Text → Text → GenerationRow → Bool
is_live_of profile object g =
    text_eq g.profile_id profile
    && (text_eq g.ledger_object_id object && is_none g.deleted_ledger_index)

abbrev pub later_created : GenerationRow → Option GenerationRow → GenerationRow
later_created g none = g
later_created g (some h) = if ltb g.created_ledger_index h.created_ledger_index then h else g

-- ORDER BY created_ledger_index DESC LIMIT 1
abbrev pub live_generation : Text → Text → List GenerationRow → Option GenerationRow
live_generation profile object [] = none
live_generation profile object (g ∷ rest) =
    if is_live_of profile object g
    then some (later_created g (live_generation profile object rest))
    else live_generation profile object rest

-- what the two UPDATE statements set
unfoldable pub touched :
    CredentialMutation → ℕ → CredentialEventType → GenerationRow → GenerationRow
touched mutation ledger_index created_event g = g
touched mutation ledger_index accepted_event g = record g {
  accepted = true;
  last_ledger_index = ledger_index;
}
touched mutation ledger_index deleted_event g = record g {
  last_ledger_index = ledger_index;
  deleted_ledger_index = some ledger_index;
  deletion_cause = mutation.deletion_cause;
}

-- UPDATE … WHERE: the rows of the key are changed, and held to the CHECKs.
unfoldable pub update_rows :
    (GenerationRow → Bool)
    → (GenerationRow → GenerationRow)
    → List GenerationRow
    → Result RepositoryError (List GenerationRow)
unfolding generation_checks
update_rows test change [] = ok []
update_rows test change (g ∷ rest) = do
  updated ← update_rows test change rest
  (if test g
      then guard (generation_checks (change g)) constraint >> ok (change g ∷ updated)
      else ok (g ∷ updated))

abbrev pub require_live : Option GenerationRow → Result RepositoryError GenerationRow
require_live none = err no_live_generation
require_live (some g) = ok g

abbrev pub is_created : CredentialEventType → Bool
is_created created_event = true
is_created _ = false

module _ (profile : Text) (ledger : ValidatedLedger) where
  abbrev pub new_generation : CredentialMutation → GenerationRow
  new_generation mutation = record {
    profile_id = profile;
    generation_id = mutation.transaction_hash;
    ledger_object_id = mutation.ledger_object_id;
    issuer = mutation.issuer;
    subject = mutation.subject;
    schema_uid = mutation.schema_uid;
    uri_hex = mutation.uri_hex;
    expiration = mutation.expiration;
    accepted = mutation.accepted;
    created_ledger_index = ledger.ledger_index;
    created_transaction_index = mutation.transaction_index;
    last_ledger_index = ledger.ledger_index;
    deleted_ledger_index = none;
    deletion_cause = none;
  }

  -- the branch of a created credential
  unfoldable pub create_generation :
      CredentialMutation → Tables → Result RepositoryError (Text × Tables)
  unfolding insert_generation
  create_generation mutation t = do
    t1 ← insert_generation (new_generation mutation) t
    ok (mutation.transaction_hash, t1)

  -- the branch of a credential that was accepted or deleted
  unfoldable pub change_generation :
      CredentialMutation → Tables → Result RepositoryError (Text × Tables)
  unfolding touched update_rows text_eq
  change_generation mutation t = do
    live ← require_live (live_generation profile mutation.ledger_object_id t.generations)
    rows ←
        update_rows (generation_is profile live.generation_id)
          (touched mutation ledger.ledger_index mutation.event_type) t.generations
    ok (live.generation_id, record t { generations = rows })

  unfoldable pub apply_mutation :
      CredentialMutation → Tables → Result RepositoryError (Text × Tables)
  unfolding create_generation change_generation
  apply_mutation mutation t =
      if is_created mutation.event_type
      then create_generation mutation t
      else change_generation mutation t

  abbrev pub event_of : CredentialMutation → Text → CredentialEventRow
  event_of mutation generation = record {
    profile_id = profile;
    transaction_hash = mutation.transaction_hash;
    node_index = mutation.node_index;
    generation_id = generation;
    ledger_object_id = mutation.ledger_object_id;
    ledger_index = ledger.ledger_index;
    ledger_hash = ledger.ledger_hash;
    transaction_index = mutation.transaction_index;
    event_type = mutation.event_type;
    issuer = mutation.issuer;
    subject = mutation.subject;
    schema_uid = mutation.schema_uid;
    uri_hex = mutation.uri_hex;
    expiration = mutation.expiration;
    accepted = mutation.accepted;
    deletion_cause = mutation.deletion_cause;
    snapshot = mutation.snapshot;
  }

abbrev pub is_deleted : CredentialEventType → Bool
is_deleted deleted_event = true
is_deleted _ = false

-- the CHECK constraints of `credential_events`
unfoldable pub event_checks : CredentialEventRow → Bool
unfolding is_ledger_hash
event_checks e =
    (is_ledger_hash e.transaction_hash
      && (is_ledger_hash e.ledger_object_id
          && (is_ledger_hash e.ledger_hash && is_ledger_hash e.schema_uid)))
    && ((leb e.ledger_index uint32_max && uint32_or_null e.expiration)
        && (if is_deleted e.event_type then is_some e.deletion_cause else is_none e.deletion_cause))

abbrev pub event_is : Text → Text → ℕ → CredentialEventRow → Bool
event_is profile hash node e =
    text_eq e.profile_id profile && (text_eq e.transaction_hash hash && e.node_index == node)

abbrev pub event_refers : CredentialEventRow → Tables → Bool
event_refers e t =
    has_profile e.profile_id t
    && (any (schema_is e.profile_id e.schema_uid) t.schemas
        && any (generation_is e.profile_id e.generation_id) t.generations)

-- INSERT … ON CONFLICT DO NOTHING
unfoldable pub insert_event : CredentialEventRow → Tables → Result RepositoryError Tables
unfolding event_checks text_eq
insert_event e t =
    guard (event_checks e) constraint
    >> (if any (event_is e.profile_id e.transaction_hash e.node_index) t.events
        then ok t
        else guard (event_refers e t) constraint >> ok (record t { events = e ∷ t.events }))

module _ (profile : Text) (ledger : ValidatedLedger) where
  unfoldable pub persist_credential_mutation :
      CredentialMutation → Tables → Result RepositoryError Tables
  unfolding apply_mutation insert_event
  persist_credential_mutation mutation t = do
    (generation, t1) ← apply_mutation profile ledger mutation t
    insert_event (event_of profile ledger mutation generation) t1

  unfoldable pub persist_credential_mutations :
      List CredentialMutation → Tables → Result RepositoryError Tables
  unfolding persist_credential_mutation
  persist_credential_mutations [] t = ok t
  persist_credential_mutations (mutation ∷ rest) t =
      persist_credential_mutation mutation t >>= λ t1. persist_credential_mutations rest t1
