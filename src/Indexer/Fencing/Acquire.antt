-- ===== src/Indexer/Fencing/Acquire.antt =====
-- The lease that `acquireIndexerLease` gives out.
use xcs.Common.{
  ℕ, ◌+◌, ◌-◌, ◌≤◌, ◌≡◌, refl, Text, Bool, true, ◌&&◌, Option, none, some, leb, leb→le, and_true,
  arith, Outcome, Outcome-bind, Outcome-guard,
}
use xcs.Core.Json.{JsonNumber}
use xcs.Indexer.Status.{
  lease_unavailable, foreign_key_violation, IndexerStatusRow, is_writer_id, max_safe_epoch,
}
use xcs.Indexer.Fencing.{
  LeaseToken, Database, AcquiredLease, put_status, normalize_lease_duration, normalize_token,
  acquire_row, acquired_lease, leased_row, is_free, acquire_indexer_lease,
}
use xcs.Indexer.Fencing.Rows.{leased_row-RowChecks}
use xcs.Indexer.Fencing.Invariant.{
  Expected, Open, RowInv, Inv, put_status-Inv, checked_lem, IsToken, normalize_token-Outcome,
  normalize_lease_duration-Outcome,
}

-- the epoch of the next lease on a profile
abbrev pub next_epoch : Option IndexerStatusRow → ℕ
next_epoch none = 1
next_epoch (some row) = row.writer_epoch + 1

leased_row-RowInv :
    (db : Database) (profile writer : Text) (epoch duration now : ℕ)
    → is_writer_id writer ≡ true
    → 1 ≤ epoch
    → epoch ≤ max_safe_epoch
    → duration ≤ 300000
    → ((e : ℕ) → epoch ≤ e → Open db profile e)
    → RowInv db now profile (leased_row profile writer epoch duration now)
leased_row-RowInv db profile writer epoch duration now w a b d open_from = record {
  key = refl;
  checks = leased_row-RowChecks profile writer epoch duration now w a b d;
  past = omega arith;
  writing = λ h. refl;
  open_now = λ h. open_from epoch (omega arith);
  open_later = λ e h. open_from e (omega (arith, h));
}

-- the row that a lease leaves
abbrev pub Leased :
    Database → Text → Text → ℕ → ℕ → Option IndexerStatusRow → IndexerStatusRow → Type 0
Leased db profile writer duration now old row =
    RowInv db now profile row × (row ≡ leased_row profile writer (next_epoch old) duration now)

pub acquire_row-Outcome :
    (db : Database) (t now : ℕ) (profile writer : Text) (duration : ℕ)
    (old : Option IndexerStatusRow) (known : Bool)
    → db.statuses profile ≡ old
    → Inv t db
    → t ≤ now
    → is_writer_id writer ≡ true
    → duration ≤ 300000
    → Outcome
        (Leased db profile writer duration now old)
        Expected
        (acquire_row old known profile writer duration now)
unfolding acquire_row
acquire_row-Outcome db t now profile writer duration none known e inv le w d =
    Outcome-guard (Leased db profile writer duration now none) Expected known foreign_key_violation
      _ tt
      λ k.
        rw
          (checked_lem (leased_row profile writer 1 duration now)
            (leased_row-RowChecks profile writer 1 duration now w (omega arith) (omega arith) d))
          (
            leased_row-RowInv db profile writer 1 duration now w (omega arith) (omega arith) d
                (λ n h. inv.unused profile e n),
            refl,
          )
acquire_row-Outcome db t now profile writer duration (some row) known e inv le w d =
    Outcome-guard (Leased db profile writer duration now (some row)) Expected
      (is_free row.lease_expires_at now && leb row.writer_epoch (max_safe_epoch - 1))
      lease_unavailable _ tt
      λ k.
        let (free, small) =
          and_true (is_free row.lease_expires_at now) (leb row.writer_epoch (max_safe_epoch - 1))
            k in
        let bound : row.writer_epoch + 1 ≤ max_safe_epoch =
          omega (arith, leb→le row.writer_epoch (max_safe_epoch - 1) small) in
        let r = inv.rows profile row e in
        rw
          (
            r.key,
            checked_lem (leased_row profile writer (row.writer_epoch + 1) duration now) (
                leased_row-RowChecks profile writer (row.writer_epoch + 1) duration now w
                  (omega arith) bound d),
          )
          (
            leased_row-RowInv db profile writer (row.writer_epoch + 1) duration now w (omega arith)
                bound d (λ n h. r.open_later n (omega (arith, h))),
            refl,
          )

-- The lease, and the tables that hold its row.
abbrev pub Acquired : Database → Text → Text → ℕ → AcquiredLease × Database → Type 0
Acquired db profile writer now (lease, db') =
    (duration : ℕ) × ((10000 ≤ duration) × (duration ≤ 300000))
    × (db'
        ≡ put_status profile
            (leased_row profile writer (next_epoch (db.statuses profile)) duration now) db)
    × (lease ≡ (record {
      token = record {
        profile_id = profile;
        writer_id = writer;
        epoch = next_epoch (db.statuses profile);
      };
      lease_expires_at = now + duration;
    }))
    × IsToken lease.token
    × Inv now db'

pub acquire_indexer_lease-Outcome :
    (db : Database) (t now : ℕ) (profile writer : Text) (duration : JsonNumber)
    → Inv t db
    → t ≤ now
    → Outcome
        (Acquired db profile writer now)
        Expected
        (acquire_indexer_lease profile writer duration now db)
unfolding acquire_indexer_lease acquired_lease
acquire_indexer_lease-Outcome db t now profile writer duration inv le =
    Outcome-bind (λ n. (n ≡ token) × IsToken token) (Acquired db profile writer now) Expected
      (normalize_token token) _ (normalize_token-Outcome token)
      λ n (same, isToken).
        Outcome-bind (λ ms. (10000 ≤ ms) × (ms ≤ 300000)) (Acquired db profile writer now) Expected
          (normalize_lease_duration duration) _ (normalize_lease_duration-Outcome duration)
          λ ms (low, high).
            Outcome-bind (Leased db profile writer ms now (db.statuses profile))
              (Acquired db profile writer now) Expected
              (acquire_row (db.statuses profile) (db.profiles profile) profile writer ms now) _
              (acquire_row-Outcome db t now profile writer ms (db.statuses profile)
                (db.profiles profile) refl inv le isToken.writer high)
              λ row (rowInv, e).
                let r : RowInv db now profile (leased ms) = rw e at rowInv in
                rw e (
                  ms,
                  (low, high),
                  refl,
                  refl,
                  record {
                    profile = isToken.profile;
                    writer = isToken.writer;
                    epoch_min = r.checks.epoch_min;
                    epoch_max = r.checks.epoch_max;
                  },
                  put_status-Inv db t now profile _ le inv r,
                )
  where
    token : LeaseToken
    token = record { profile_id = profile; writer_id = writer; epoch = 1 }

    leased : ℕ → IndexerStatusRow
    leased ms = leased_row profile writer (next_epoch (db.statuses profile)) ms now
