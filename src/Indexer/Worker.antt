-- ===== src/Indexer/Worker.antt =====
-- apps/indexer/src/worker.ts: the state of an IndexerWorker, what it calls, and its checks. The
-- repository and the source are operations on a store, which is theirs.
pub mod Loop
pub mod Progress
pub mod Batches
pub mod Runs
pub mod Start
pub mod Leases
pub mod Started
pub mod Released
use mathlib.Core.Option
use xcs.Common.{
  ℕ, ◌+◌, ◌*◌, Text, Bool, true, false, ◌&&◌, List, Option, none, some, Result, ok, err, ltb, leb,
  ◌==◌, text_eq, if◌then◌else◌, length, guard,
}
use xcs.Common.Actions.{Action, pure, raise, lift, modify, ◌>>=◌, ◌>>◌}
use xcs.Core.Json.{JsonNumber, natural}
use xcs.Core.Network.{NetworkProfile}
use xcs.Indexer.Types.{ValidatedLedger, Checkpoint}
use xcs.Indexer.Status.{
  WritableIndexerStatusState, catching_up_state, ready_state, StatusInput, is_writer_id,
}
use xcs.Indexer.Fencing.{LeaseToken}
use xcs.Indexer.Continuity.{LedgerContinuityError}
use xcs.Indexer.Projection.{Catalog, LedgerProjection}
use xcs.Indexer.ReplayTarget.{
  ReplayTarget, ReplayTargetError, replay_target_unavailable, replay_target_mismatch,
  replay_target_exceeded,
}
use xcs.Indexer.Repository.{RepositoryError}
use xcs.Indexer.Repository.Ledgers.{PersistResult}
use xcs.Indexer.Sources.{XrplSourceErrorCode, LedgerSourceTips}

pub data WorkerError : Type 0 where
  no_active_lease already_running : WorkerError
  checkpoint_evidence_missing checkpoint_conflict : WorkerError
  replay_target_error : ReplayTargetError → WorkerError
  source_failure : XrplSourceErrorCode → WorkerError
  repository_failure : RepositoryError → WorkerError
  continuity_failure : LedgerContinuityError → WorkerError
  invalid_options : WorkerError

-- the ledger of a checkpoint that both sides agree on
pub record Agreed : Type 0 where
  pub ledger_index : ℕ
  pub ledger_hash : Text

-- The calls of the repository and of the source, each with the store after it.
pub record Ports (S : Type 0) : Type 0 where
  pub renew_lease : LeaseToken → S → Result WorkerError (Unit {0}) × S
  pub get_last_checkpoint : Text → S → Result WorkerError (Option Checkpoint) × S
  pub get_schema_catalog : Text → S → Result WorkerError Catalog × S
  pub update_indexer_status :
      LeaseToken → WritableIndexerStatusState → StatusInput → S → Result WorkerError (Unit {0}) × S
  pub persist_ledger :
      NetworkProfile
      → LedgerProjection
      → LeaseToken
      → WritableIndexerStatusState
      → StatusInput
      → S
      → Result WorkerError PersistResult × S
  pub halt_indexer : LeaseToken → StatusInput → WorkerError → S → Result WorkerError (Unit {0}) × S
  pub release_lease : LeaseToken → S → Result WorkerError (Unit {0}) × S
  pub get_validated_ledger_tips : S → Result WorkerError LedgerSourceTips × S
  pub get_ledger : ℕ → S → Result WorkerError ValidatedLedger × S
  pub disconnect : S → Result WorkerError (Unit {0}) × S

pub record WorkerState (S : Type 0) : Type 0 where
  pub store : S
  pub active_lease : Option LeaseToken
  pub last_tips : Option LedgerSourceTips
  pub last_agreed : Option Agreed
  pub replay_target_verified : Bool
  pub replay_completed : Bool

pub record WorkerOptions : Type 0 where
  pub profile : NetworkProfile
  pub poll_interval_ms : ℕ
  pub lease_duration_ms : ℕ
  pub batch_size : ℕ
  pub writer_id : Text
  pub replay_target : Option ReplayTarget

-- the checks of the constructor
unfoldable pub starts_after_activation : Option ReplayTarget → NetworkProfile → Bool
starts_after_activation none profile = true
starts_after_activation (some target) profile =
    leb profile.activation_ledger_index target.ledger_index

unfoldable pub check_options : WorkerOptions → Result WorkerError (Unit {0})
unfolding is_writer_id starts_after_activation
check_options options =
    if leb 250 options.poll_interval_ms
      && (leb 10000 options.lease_duration_ms
          && (leb options.lease_duration_ms 300000
              && (leb (options.poll_interval_ms * 3) options.lease_duration_ms
                  && (leb 1 options.batch_size
                      && (leb options.batch_size 100 && is_writer_id options.writer_id)))))
    then guard (starts_after_activation options.replay_target options.profile)
        (replay_target_error replay_target_unavailable)
    else err invalid_options

abbrev pub require_root : Option Text → Result WorkerError (Unit {0})
require_root none = err checkpoint_evidence_missing
require_root (some root) = ok tt

unfoldable pub assert_checkpoint_has_evidence : Checkpoint → Result WorkerError (Unit {0})
assert_checkpoint_has_evidence checkpoint = require_root checkpoint.transaction_root

abbrev pub is_root : Option Text → Text → Bool
is_root none root = false
is_root (some stored) root = text_eq stored root

unfoldable pub matches_ledger : Checkpoint → ValidatedLedger → Bool
unfolding text_eq
matches_ledger c ledger =
    (c.ledger_index == ledger.ledger_index
      && (text_eq c.ledger_hash ledger.ledger_hash && text_eq c.parent_hash ledger.parent_hash))
    && (c.close_time == ledger.close_time
        && (c.transaction_count == length ledger.transactions
            && is_root c.transaction_root ledger.transaction_root))

abbrev pub Work : Type 0 → Type 0 → Type 0
Work S A = Action (WorkerState S) WorkerError A

module _ {S : Type 0} where
  -- a call of the repository or the source
  abbrev pub call : {A : Type 0} → (S → Result WorkerError A × S) → Work S A
  call port w = let (r, s) = port w.store in (r, record w { store = s })

  abbrev pub read : {A : Type 0} → (WorkerState S → A) → Work S A
  read f w = (ok (f w), w)

  unfoldable pub assert_checkpoint_matches_ledger : Checkpoint → ValidatedLedger → Work S (Unit {0})
  unfolding assert_checkpoint_has_evidence matches_ledger
  assert_checkpoint_matches_ledger checkpoint ledger = do
    lift (assert_checkpoint_has_evidence checkpoint)
    lift (guard (matches_ledger checkpoint ledger) checkpoint_conflict)

  abbrev pub agree : ℕ → Text → Work S (Unit {0})
  agree index hash =
      modify
        (λ w. record w { last_agreed = some (record { ledger_index = index; ledger_hash = hash }) })

-- the parts of a status that are left out are `none`
abbrev pub tip_of : (LedgerSourceTips → ℕ) → Option LedgerSourceTips → Option JsonNumber
tip_of part none = none
tip_of part (some tips) = some (natural (part tips))

abbrev pub agreed_index : Option Agreed → Option JsonNumber
agreed_index none = none
agreed_index (some agreed) = some (natural agreed.ledger_index)

abbrev pub agreed_hash : Option Agreed → Option Text
agreed_hash none = none
agreed_hash (some agreed) = some agreed.ledger_hash

unfoldable pub runtime_status : Option LedgerSourceTips → Option Agreed → StatusInput
runtime_status tips agreed = record {
  primary_source_tip = tip_of (λ t. t.primary) tips;
  secondary_source_tip = tip_of (λ t. t.secondary) tips;
  last_agreed_ledger_index = agreed_index agreed;
  last_agreed_ledger_hash = agreed_hash agreed;
}

-- `statusForLedger`
unfoldable pub status_for_ledger : ValidatedLedger → LedgerSourceTips → StatusInput
status_for_ledger ledger tips = record {
  primary_source_tip = some (natural tips.primary);
  secondary_source_tip = some (natural tips.secondary);
  last_agreed_ledger_index = some (natural ledger.ledger_index);
  last_agreed_ledger_hash = some ledger.ledger_hash;
}
