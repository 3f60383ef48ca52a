-- ===== src/Indexer/Repository/Ledgers.antt =====
-- apps/indexer/src/repository.ts: `persistLedger`, one transaction on the tables, with the clock at
-- `now`.
use xcs.Common.{
  ℕ, Text, Bool, false, not, ◌&&◌, List, [], ◌∷◌, Option, none, some, Result, ok, err, leb, ◌==◌,
  ◌||◌, text_eq, if◌then◌else◌, guard, ◌>>=◌, ◌>>◌, any, length,
}
use xcs.Core.Documents.{DocumentLibraries}
use xcs.Core.Network.{NetworkProfile}
use xcs.Indexer.Types.{ValidatedLedger, Checkpoint}
use xcs.Indexer.Status.{
  FencingError, WritableIndexerStatusState, StatusInput, is_ledger_hash, uint32_max,
}
use xcs.Indexer.Fencing.{LeaseToken, lock_active_indexer_lease, update_indexer_status}
use xcs.Indexer.Continuity.{LedgerContinuityError, assert_ledger_continuity}
use xcs.Indexer.Continuity.Chains.{checkpoint_of}
use xcs.Indexer.Projection.{LedgerProjection}
use xcs.Indexer.Repository.{
  RepositoryError, lease_profile_mismatch, checkpoint_conflict, checkpoint_evidence_missing,
  constraint, fencing, continuity, Tables, leases_of, with_leases, checkpoints_of,
  get_last_checkpoint,
}
use xcs.Indexer.Repository.Configured.{ensure_network_profile}
use xcs.Indexer.Repository.Writes.{has_profile, persist_registrations}
use xcs.Indexer.Repository.Generations.{persist_credential_mutations}

pub data PersistResult : Type 0 where
  inserted already_processed : PersistResult

abbrev pub in_fencing {ℓ} : {A : Type ℓ} → Result FencingError A → Result RepositoryError A
in_fencing (ok a) = ok a
in_fencing (err e) = err (fencing e)

abbrev pub in_continuity :
    Result LedgerContinuityError (Unit {0}) → Result RepositoryError (Unit {0})
in_continuity (ok done) = ok tt
in_continuity (err e) = err (continuity e)

-- the first checkpoint at the index
abbrev pub checkpoint_at : ℕ → List Checkpoint → Option Checkpoint
checkpoint_at index [] = none
checkpoint_at index (c ∷ rest) =
    if c.ledger_index == index then some c else checkpoint_at index rest

-- the CHECK constraints of `ledger_checkpoints`, and that a root is stored
abbrev pub root_check : Option Text → Bool
root_check none = false
root_check (some root) = is_ledger_hash root

unfoldable pub checkpoint_checks : Checkpoint → Bool
unfolding is_ledger_hash
checkpoint_checks c =
    (leb c.ledger_index uint32_max && leb c.close_time uint32_max)
    && (is_ledger_hash c.ledger_hash
        && (is_ledger_hash c.parent_hash && root_check c.transaction_root))

abbrev pub is_new_checkpoint : Text → Checkpoint → Tables → Bool
is_new_checkpoint profile c t = not (
    any (λ d. d.ledger_index == c.ledger_index || text_eq d.ledger_hash c.ledger_hash)
      (checkpoints_of profile t.checkpoints))

abbrev pub with_checkpoint : Text → Checkpoint → Tables → Tables
with_checkpoint profile c t = record t {
  checkpoints = record { profile_id = profile; checkpoint = c } ∷ t.checkpoints;
}

-- a plain INSERT, with both unique keys
unfoldable pub insert_checkpoint : Text → Checkpoint → Tables → Result RepositoryError Tables
unfolding checkpoint_checks text_eq
insert_checkpoint profile c t = do
  guard (checkpoint_checks c) constraint
  guard (is_new_checkpoint profile c t) constraint
  guard (has_profile profile t) constraint
  ok (with_checkpoint profile c t)

-- the checks of a ledger that has been processed
abbrev pub same_evidence : Option Text → ℕ → ValidatedLedger → Result RepositoryError (Unit {0})
same_evidence none count ledger = err checkpoint_evidence_missing
same_evidence (some root) count ledger =
    guard (text_eq root ledger.transaction_root && count == length ledger.transactions)
      checkpoint_conflict

unfoldable pub assert_same_ledger : Checkpoint → ValidatedLedger → Result RepositoryError (Unit {0})
unfolding text_eq
assert_same_ledger same ledger = do
  guard (text_eq same.ledger_hash ledger.ledger_hash) checkpoint_conflict
  same_evidence same.transaction_root same.transaction_count ledger

module _ (documents : DocumentLibraries) (profile : NetworkProfile)
    (projection : LedgerProjection) where
  -- what is written for a ledger that has not been processed
  unfoldable pub write_ledger : Tables → Result RepositoryError Tables
  unfolding get_last_checkpoint assert_ledger_continuity persist_registrations
      persist_credential_mutations insert_checkpoint
  write_ledger t = do
    in_continuity (
        assert_ledger_continuity profile (get_last_checkpoint profile.profile_id t)
          projection.ledger)
    t1 ←
        persist_registrations documents profile.profile_id projection.ledger
          projection.collected.schema_registrations t
    t2 ←
        persist_credential_mutations profile.profile_id projection.ledger
          projection.collected.credential_mutations t1
    insert_checkpoint profile.profile_id (checkpoint_of projection.ledger) t2

  unfoldable pub write_once :
      Option Checkpoint → Tables → Result RepositoryError (PersistResult × Tables)
  unfolding assert_same_ledger write_ledger
  write_once (some same) t = assert_same_ledger same projection.ledger >> ok (already_processed, t)
  write_once none t = write_ledger t >>= λ t1. ok (inserted, t1)

module _ (documents : DocumentLibraries) (profile : NetworkProfile) (projection : LedgerProjection)
    (token : LeaseToken) (state : WritableIndexerStatusState) (status : StatusInput) (now : ℕ) where
  unfoldable pub persist_ledger : Tables → Result RepositoryError (PersistResult × Tables)
  unfolding text_eq leases_of lock_active_indexer_lease ensure_network_profile write_once
      update_indexer_status
  persist_ledger t = do
    guard (text_eq token.profile_id profile.profile_id) lease_profile_mismatch
    held ← in_fencing (lock_active_indexer_lease token now (leases_of t))
    t1 ← ensure_network_profile profile t
    (result, t2) ←
        write_once documents profile projection
          (checkpoint_at projection.ledger.ledger_index
            (checkpoints_of profile.profile_id t1.checkpoints))
          t1
    (row, db) ← in_fencing (update_indexer_status token state status now (leases_of t2))
    ok (result, with_leases db t2)
