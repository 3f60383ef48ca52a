-- ===== src/Indexer/Repository/Fenced.antt =====
-- apps/indexer/src/repository.ts and lib/db/indexer-fencing.ts: who may store a ledger.
use xcs.Common.{
  ℕ, ◌≡◌, ◌≤◌, refl, Text, Result, ok, err, text_eq, Ensures, Ensures-guard, Ensures-bind,
}
use xcs.Core.Json.{JsonNumber}
use xcs.Core.Documents.{DocumentLibraries}
use xcs.Core.Network.{NetworkProfile}
use xcs.Indexer.Status.{FencingError, WritableIndexerStatusState, StatusInput, IndexerStatusRow}
use xcs.Indexer.Fencing.{
  LeaseToken, AcquiredLease, Database, lock_active_indexer_lease, acquire_indexer_lease,
}
use xcs.Indexer.Fencing.Invariant.{Inv}
use xcs.Indexer.Fencing.Exclusion.{History, Fails, superseded-Refused}
use xcs.Indexer.Projection.{LedgerProjection}
use xcs.Indexer.Repository.{Tables, leases_of}
use xcs.Indexer.Repository.Ledgers.{in_fencing, persist_ledger}

lock_reads_statuses :
    (token : LeaseToken) (now : ℕ) (db : Database) (t : Tables)
    → t.statuses ≡ db.statuses
    → lock_active_indexer_lease token now (leases_of t) ≡ lock_active_indexer_lease token now db
unfolding lock_active_indexer_lease leases_of
lock_reads_statuses token now db t e = rw e refl

in_fencing-Fails :
    (r : Result FencingError IndexerStatusRow) → Fails r → Ensures (λ x. ⊥) (in_fencing r)
in_fencing-Fails (ok row) h = h
in_fencing-Fails (err e) h = tt

-- After a token was active and, after any further calls, another lease on its profile was given out,
-- `persistLedger` with that token fails, whatever is called afterwards on the leases, whatever the
-- other tables hold, and at any time.
pub superseded-persist_ledger :
    (t u now v at : ℕ) (db db1 db2 db3 : Database) (token : LeaseToken) (row : IndexerStatusRow)
    (writer : Text) (duration : JsonNumber) (lease : AcquiredLease) (tables : Tables)
    (documents : DocumentLibraries) (profile : NetworkProfile) (projection : LedgerProjection)
    (state : WritableIndexerStatusState) (status : StatusInput)
    → Inv t db
    → lock_active_indexer_lease token t db ≡ ok row
    → History t db u db1
    → u ≤ now
    → acquire_indexer_lease token.profile_id writer duration now db1 ≡ ok (lease, db2)
    → History now db2 v db3
    → tables.statuses ≡ db3.statuses
    → Ensures (λ x. ⊥) (persist_ledger documents profile projection token state status at tables)
unfolding persist_ledger
superseded-persist_ledger t u now v at db db1 db2 db3 token row writer duration lease tables
      documents profile projection state status inv held h1 le acquired h2 same =
    let refused =
      superseded-Refused t u now v db db1 db2 db3 token row writer duration lease inv held h1 le
        acquired h2 in
    Ensures-guard (λ x. ⊥) (text_eq token.profile_id profile.profile_id) _ _
      λ mine.
        Ensures-bind (λ x. ⊥) (λ x. ⊥)
          (in_fencing (lock_active_indexer_lease token at (leases_of tables))) _
          (in_fencing-Fails (lock_active_indexer_lease token at (leases_of tables))
            (rw (lock_reads_statuses token at db3 tables same) (refused.lock at)))
          λ x h. absurd h
