-- ===== src/Indexer/Repository/Replay.antt =====
-- apps/indexer/src/repository.ts: `persistLedger` of a ledger that is stored, and with a lease that is
-- over.
use xcs.Common.{
  ℕ, ◌≡◌, ap, ◌∙◌, refl, true, Option, some, Result, ok, ==_iff, text_eq, text_eq_refl, ◌>>=◌,
  length, Ensures-at, guard-eq-ok, >>=-cong,
}
use xcs.Core.Documents.{DocumentLibraries}
use xcs.Core.Network.{NetworkProfile}
use xcs.Indexer.Types.{ValidatedLedger, Checkpoint}
use xcs.Indexer.Status.{WritableIndexerStatusState, StatusInput}
use xcs.Indexer.Fencing.{LeaseToken, lock_active_indexer_lease, update_indexer_status}
use xcs.Indexer.Continuity.Chains.{checkpoint_of}
use xcs.Indexer.Projection.{LedgerProjection}
use xcs.Indexer.Repository.{
  RepositoryError, Tables, find_profile, leases_of, with_leases, checkpoints_of,
}
use xcs.Indexer.Repository.Configured.{
  expected_profile, profile_checks, insert_profile, ensure_network_profile,
}
use xcs.Indexer.Repository.Ledgers.{
  PersistResult, inserted, already_processed, in_fencing, checkpoint_at, assert_same_ledger,
  write_once, persist_ledger,
}
use xcs.Indexer.Repository.Profiles.{match_self}
use xcs.Indexer.Repository.Chain.{Written, Once, Persisted, persist_ledger-Persisted}

ensure_again :
    (profile : NetworkProfile) (t : Tables)
    → find_profile profile.profile_id t ≡ some (expected_profile profile)
    → profile_checks (expected_profile profile) ≡ true
    → ensure_network_profile profile t ≡ ok t
unfolding ensure_network_profile insert_profile expected_profile
ensure_again profile t stored passed = rw (passed, stored, stored) (match_self profile t)

same_itself : (ledger : ValidatedLedger) → assert_same_ledger (checkpoint_of ledger) ledger ≡ ok tt
unfolding assert_same_ledger
same_itself ledger =
    rw
      (
        text_eq_refl ledger.ledger_hash,
        text_eq_refl ledger.transaction_root,
        (==_iff (length ledger.transactions) (length ledger.transactions)).1 refl,
      )
      refl

-- the lock and the update of the status alone
unfoldable pub touch_lease :
    LeaseToken
    → WritableIndexerStatusState
    → StatusInput
    → ℕ
    → Tables
    → Result RepositoryError (PersistResult × Tables)
unfolding lock_active_indexer_lease update_indexer_status leases_of
touch_lease token state status now u = do
  held ← in_fencing (lock_active_indexer_lease token now (leases_of u))
  (row, db) ← in_fencing (update_indexer_status token state status now (leases_of u))
  ok (already_processed, with_leases db u)

module _ (documents : DocumentLibraries) (profile : NetworkProfile)
    (projection : LedgerProjection) where
  abbrev found : Tables → Option Checkpoint
  found t =
      checkpoint_at projection.ledger.ledger_index (checkpoints_of profile.profile_id t.checkpoints)

  found-Written :
      (t u : Tables)
      → Written profile projection.ledger t u
      → found u ≡ some (checkpoint_of projection.ledger)
  found-Written t u written =
      rw
        (
          written.checkpoints,
          text_eq_refl profile.profile_id,
          (==_iff projection.ledger.ledger_index projection.ledger.ledger_index).1 refl,
        )
        refl

  write_again :
      (u : Tables) (c : Checkpoint)
      → found u ≡ some c
      → assert_same_ledger c projection.ledger ≡ ok tt
      → write_once documents profile projection (found u) u ≡ ok (already_processed, u)
  unfolding write_once
  write_again u c there same = rw (there, same) refl

  Once-again :
      (t : Tables) (result : PersistResult) (w : Tables)
      → Once profile projection.ledger t (result, w)
      → (c : Checkpoint) × (found w ≡ some c) × (assert_same_ledger c projection.ledger ≡ ok tt)
  Once-again t inserted w (absent, written) =
      (checkpoint_of projection.ledger, found-Written t w written, same_itself projection.ledger)
  Once-again t already_processed w (same, c, there, evidence) = (c, ap found same ∙ there, evidence)

  Once-stored :
      (t : Tables) (result : PersistResult) (w : Tables)
      → find_profile profile.profile_id t ≡ some (expected_profile profile)
      → Once profile projection.ledger t (result, w)
      → find_profile profile.profile_id w ≡ some (expected_profile profile)
  Once-stored t inserted w stored (absent, written) = rw written.profiles stored
  Once-stored t already_processed w stored (same, c, there, evidence) = rw same stored

  own_profile :
      (token : LeaseToken) (state : WritableIndexerStatusState) (status : StatusInput) (now : ℕ)
      (t u : Tables) (result : PersistResult)
      → persist_ledger documents profile projection token state status now t ≡ ok (result, u)
      → text_eq token.profile_id profile.profile_id ≡ true
  unfolding persist_ledger
  own_profile token state status now t u result e =
      (guard-eq-ok (text_eq token.profile_id profile.profile_id) _ _ e).0

  module _ (token : LeaseToken) where
    persist_stored :
        (state : WritableIndexerStatusState) (status : StatusInput) (now : ℕ) (u : Tables)
        → text_eq token.profile_id profile.profile_id ≡ true
        → ensure_network_profile profile u ≡ ok u
        → write_once documents profile projection (found u) u ≡ ok (already_processed, u)
        → persist_ledger documents profile projection token state status now u
          ≡ touch_lease token state status now u
    unfolding persist_ledger touch_lease
    persist_stored state status now u mine ensured written = rw mine (
        >>=-cong (in_fencing (lock_active_indexer_lease token now (leases_of u))) _ _
          λ held. rw (ensured, written) refl)

-- After `persistLedger` has succeeded, it takes the same ledger again, whatever the status and the
-- time: it only checks the lease and stores the status, and says that the ledger was processed.
pub persist_ledger_again :
    (documents : DocumentLibraries) (profile : NetworkProfile) (projection : LedgerProjection)
    (token : LeaseToken) (state next : WritableIndexerStatusState) (status update : StatusInput)
    (now later : ℕ) (t u : Tables) (result : PersistResult)
    → persist_ledger documents profile projection token state status now t ≡ ok (result, u)
    → persist_ledger documents profile projection token next update later u
      ≡ touch_lease token next update later u
persist_ledger_again documents profile projection token state next status update now later t u
      result e =
    let done =
      Ensures-at (Persisted profile projection.ledger t)
        (persist_ledger documents profile projection token state status now t) (result, u)
        (persist_ledger-Persisted documents profile projection token state status now t) e in
    let (c, there, evidence) =
      Once-again documents profile projection done.ensured result done.written done.is_written in
    let stored =
      Once-stored documents profile projection done.ensured result done.written
        done.is_ensured.stored done.is_written in
    persist_stored documents profile projection token next update later u
      (own_profile documents profile projection token state status now t u result e)
      (ensure_again profile u (rw done.is_left stored) done.is_ensured.passed)
      (write_again documents profile projection u c (rw done.is_left there) evidence)
