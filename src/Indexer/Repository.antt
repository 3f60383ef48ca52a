-- ===== src/Indexer/Repository.antt =====
-- apps/indexer/src/repository.ts: the tables that the indexer writes, and the network profiles.
-- A table is the list of its rows, the last one inserted first. Columns that only record the time of
-- the insertion are left out.
pub mod Configured
pub mod Writes
pub mod Generations
pub mod Ledgers
pub mod Frames
pub mod Profiles
pub mod Chain
pub mod Invariant
pub mod Replay
pub mod Fenced
pub mod Keys
pub mod Deleted
use xcs.Common.{
  ℕ, Text, codes, Bool, true, false, ◌&&◌, List, [], ◌∷◌, Option, none, some, Result, ok, err, leb,
  ◌==◌, text_eq, if◌then◌else◌, guard, ◌>>=◌, ◌>>◌, to_lower, to_upper, any, all, filter, find,
  length, ltb, ◌||◌,
}
use xcs.Core.Errors.{XcsErrorCode}
use xcs.Core.Json.{JsonValue}
use xcs.Core.Network.{NetworkProfile}
use xcs.Indexer.Types.{Checkpoint, Fields}
use xcs.Indexer.Status.{FencingError, IndexerStatusRow, is_ledger_hash, is_some, uint32_max}
use xcs.Indexer.Fencing.{Database, IndexerIncident}
use xcs.Indexer.Continuity.{LedgerContinuityError}
use xcs.Indexer.Mutations.{CredentialEventType, CredentialDeletionCause}
use xcs.Indexer.Registration.{RegistrationReason}

-- `constraint` is a statement that the database refuses for a CHECK, a key or a reference;
-- `serialization` a value that cannot be
-- written as JSON, and `json_syntax` the error of `JSON.parse`.
pub data RepositoryError : Type 0 where
  lease_profile_mismatch stored_profile_differs database_scope_conflict checkpoint_conflict :
      RepositoryError
  checkpoint_evidence_missing no_live_generation constraint json_syntax : RepositoryError
  fencing : FencingError → RepositoryError
  continuity : LedgerContinuityError → RepositoryError
  serialization : XcsErrorCode → RepositoryError

-- `network_profiles`
pub record StoredProfile : Type 0 where
  pub profile_id : Text
  pub xcs_version : Text
  pub network_id : ℕ
  pub required_amendment : Text
  pub registry_address : Text
  pub registration_amount_drops : ℕ
  pub activation_ledger_index : ℕ
  pub activation_ledger_hash : Text

-- `ledger_checkpoints`; a row of before the column has no root.
pub record CheckpointRow : Type 0 where
  pub profile_id : Text
  pub checkpoint : Checkpoint

-- the columns `status`, `schema_uid`, `reason_code` and `memo_json`, in the two shapes that the CHECK
-- on them leaves
pub data EventStatus : Type 0 where
  accepted_status : (schema_uid : Text) (memo_json : JsonValue) → EventStatus
  rejected_status : (reason : RegistrationReason) (memo_json : Option JsonValue) → EventStatus

pub record SchemaEventRow : Type 0 where
  pub profile_id : Text
  pub transaction_hash : Text
  pub ledger_index : ℕ
  pub ledger_hash : Text
  pub transaction_index : ℕ
  pub publisher : Text
  pub status : EventStatus

pub record SchemaRow : Type 0 where
  pub profile_id : Text
  pub schema_uid : Text
  pub publisher : Text
  pub name : Text
  pub description : Text
  pub parent_uid : Option Text
  pub supersedes_uid : Option Text
  pub definition : JsonValue
  pub resolved_definition : JsonValue
  pub registration_transaction_hash : Text
  pub ledger_index : ℕ
  pub transaction_index : ℕ

pub record GenerationRow : Type 0 where
  pub profile_id : Text
  pub generation_id : Text
  pub ledger_object_id : Text
  pub issuer : Text
  pub subject : Text
  pub schema_uid : Text
  pub uri_hex : Text
  pub expiration : Option ℕ
  pub accepted : Bool
  pub created_ledger_index : ℕ
  pub created_transaction_index : ℕ
  pub last_ledger_index : ℕ
  pub deleted_ledger_index : Option ℕ
  pub deletion_cause : Option CredentialDeletionCause

pub record CredentialEventRow : Type 0 where
  pub profile_id : Text
  pub transaction_hash : Text
  pub node_index : ℕ
  pub generation_id : Text
  pub ledger_object_id : Text
  pub ledger_index : ℕ
  pub ledger_hash : Text
  pub transaction_index : ℕ
  pub event_type : CredentialEventType
  pub issuer : Text
  pub subject : Text
  pub schema_uid : Text
  pub uri_hex : Text
  pub expiration : Option ℕ
  pub accepted : Bool
  pub deletion_cause : Option CredentialDeletionCause
  pub snapshot : Fields

pub record Tables : Type 0 where
  pub network_profiles : List StoredProfile
  pub statuses : Text → Option IndexerStatusRow
  pub incidents : Text → ℕ → Option IndexerIncident
  pub checkpoints : List CheckpointRow
  pub schema_events : List SchemaEventRow
  pub schemas : List SchemaRow
  pub generations : List GenerationRow
  pub events : List CredentialEventRow

abbrev pub find_profile : Text → Tables → Option StoredProfile
find_profile profile t = find (λ r. text_eq r.profile_id profile) t.network_profiles

-- the two tables of the leases, and the profiles that they reference
unfoldable pub leases_of : Tables → Database
unfolding text_eq
leases_of t = record {
  profiles = λ p. is_some (find_profile p t);
  statuses = t.statuses;
  incidents = t.incidents;
}

-- the tables after a statement on the leases
abbrev pub with_leases : Database → Tables → Tables
with_leases db t = record t { statuses = db.statuses; incidents = db.incidents }

-- The profile's checkpoints, the last one inserted first.
abbrev pub checkpoints_of : Text → List CheckpointRow → List Checkpoint
checkpoints_of profile [] = []
checkpoints_of profile (row ∷ rows) =
    if text_eq row.profile_id profile
    then row.checkpoint ∷ checkpoints_of profile rows
    else checkpoints_of profile rows

abbrev pub later : Checkpoint → Option Checkpoint → Checkpoint
later c none = c
later c (some d) = if ltb c.ledger_index d.ledger_index then d else c

-- ORDER BY ledger_index DESC LIMIT 1
abbrev pub latest : List Checkpoint → Option Checkpoint
latest [] = none
latest (c ∷ rest) = some (later c (latest rest))

unfoldable pub get_last_checkpoint : Text → Tables → Option Checkpoint
unfolding text_eq
get_last_checkpoint profile t = latest (checkpoints_of profile t.checkpoints)
