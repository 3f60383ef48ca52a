-- ===== src/Indexer/Fencing/Rows.antt =====
-- The rows that the leases' operations write pass the table's CHECK constraints.
use xcs.Common.{
  ℕ, ◌+◌, ◌≤◌, ◌≡◌, refl, Text, true, false, not, ◌&&◌, ◌||◌, Option, none, some, leb, and_true,
  arith,
}
use xcs.Indexer.Status.{
  IndexerStatusState, NormalizedStatus, IndexerStatusRow, is_halted, is_ready, is_some,
  is_writer_id, status_checks, row_checks, ready_shape_check, writer_id_check, lease_window_check,
  max_safe_epoch, least_check, agreed_not_ahead_check, agreed_ledger_check, tip_check, error_check,
  not_ahead_check,
}
use xcs.Indexer.Status.Checks.{IsNormalized, ready_values}
use xcs.Indexer.Fencing.{
  leased_row, renewed_row, updated_row, unleased_row, released_status, expires_after,
}

-- the CHECK constraints, one by one
pub record RowChecks (r : IndexerStatusRow) : Type 0 where
  pub status : status_checks r.status ≡ true
  pub ready_shape : ready_shape_check r ≡ true
  pub writer : writer_id_check r.writer_id ≡ true
  pub epoch_min : 1 ≤ r.writer_epoch
  pub epoch_max : r.writer_epoch ≤ max_safe_epoch
  pub window : lease_window_check r.writer_id r.lease_expires_at r.updated_at ≡ true

le_leb : (a b : ℕ) → a ≤ b → leb a b ≡ true
le_leb a b h = ground arith

pub row_checks-RowChecks : (r : IndexerStatusRow) → row_checks r ≡ true → RowChecks r
unfolding row_checks
row_checks-RowChecks r h =
    let (a, h1) = and_true (status_checks r.status) _ h in
    let (b, h2) = and_true (ready_shape_check r) _ h1 in
    let (c, h3) = and_true (writer_id_check r.writer_id) _ h2 in
    let (d, e) = and_true (leb 1 r.writer_epoch && leb r.writer_epoch max_safe_epoch) _ h3 in
    let (d1, d2) = and_true (leb 1 r.writer_epoch) (leb r.writer_epoch max_safe_epoch) d in
    record {
      status = a;
      ready_shape = b;
      writer = c;
      epoch_min = ground arith;
      epoch_max = ground arith;
      window = e;
    }

pub RowChecks-row_checks : (r : IndexerStatusRow) → RowChecks r → row_checks r ≡ true
unfolding row_checks
RowChecks-row_checks r h =
    rw (h.status, h.ready_shape, h.writer, le_leb _ _ h.epoch_min, le_leb _ _ h.epoch_max, h.window)
      refl

pub leased_row-RowChecks :
    (profile writer : Text) (epoch duration now : ℕ)
    → is_writer_id writer ≡ true
    → 1 ≤ epoch
    → epoch ≤ max_safe_epoch
    → duration ≤ 300000
    → RowChecks (leased_row profile writer epoch duration now)
unfolding row_checks ready_shape_check writer_id_check lease_window_check status_checks
    agreed_ledger_check agreed_not_ahead_check error_check tip_check not_ahead_check
leased_row-RowChecks profile writer epoch duration now w e f d = record {
  status = refl;
  ready_shape = refl;
  writer = w;
  epoch_min = e;
  epoch_max = f;
  window = window now duration d;
}
  where
    window :
        (now duration : ℕ)
        → duration ≤ 300000
        → (leb now (now + duration) && leb (now + duration) (now + 300000)) ≡ true
    window now duration d = ground arith

-- the window, of a writer and a lease
pub window_some :
    (w : Option Text) (l : Option ℕ) (updated now : ℕ)
    → lease_window_check w l updated ≡ true
    → expires_after l now ≡ true
    → (is_some w ≡ true) × (is_some l ≡ true)
unfolding lease_window_check
window_some w none updated now h e = cc
window_some none (some l) updated now h e = cc
window_some (some w) (some l) updated now h e = (refl, refl)

window_renewed :
    (w : Option Text) (duration now : ℕ)
    → is_some w ≡ true
    → duration ≤ 300000
    → lease_window_check w (some (now + duration)) now ≡ true
unfolding lease_window_check
window_renewed none duration now h d = cc
window_renewed (some w) duration now h d = ground arith

window_updated :
    (w : Option Text) (l : Option ℕ) (updated now : ℕ)
    → lease_window_check w l updated ≡ true
    → expires_after l now ≡ true
    → updated ≤ now
    → lease_window_check w l now ≡ true
unfolding lease_window_check
window_updated w none updated now h e t = cc
window_updated none (some l) updated now h e t = cc
window_updated (some w) (some l) updated now h e t = ground arith

-- A lease that is over after `now` belongs to a writer.
pub expires_after-is_some :
    (row : IndexerStatusRow) (now : ℕ)
    → RowChecks row
    → expires_after row.lease_expires_at now ≡ true
    → (is_some row.writer_id ≡ true) × (is_some row.lease_expires_at ≡ true)
expires_after-is_some row now h e =
    window_some row.writer_id row.lease_expires_at row.updated_at now h.window e

pub renewed_row-RowChecks :
    (row : IndexerStatusRow) (duration now : ℕ)
    → RowChecks row
    → is_some row.writer_id ≡ true
    → is_some row.lease_expires_at ≡ true
    → duration ≤ 300000
    → RowChecks (renewed_row duration now row)
unfolding ready_shape_check
renewed_row-RowChecks row duration now h w l d = record {
  status = h.status;
  ready_shape = rw l at h.ready_shape;
  writer = h.writer;
  epoch_min = h.epoch_min;
  epoch_max = h.epoch_max;
  window = window_renewed row.writer_id duration now w d;
}

ready_shape_of :
    (s : NormalizedStatus) (w : Option Text) (l : Option ℕ)
    → ready_values s ≡ true
    → is_some w ≡ true
    → is_some l ≡ true
    → (not (is_ready s.state)
        || (least_check s.primary_source_tip s.secondary_source_tip s.last_agreed_ledger_index
            && (is_some s.last_agreed_ledger_hash && (is_some w && is_some l))))
      ≡ true
ready_shape_of s w l r hw hl = rw (hw, hl) ground (arith, r)

pub updated_row-RowChecks :
    (row : IndexerStatusRow) (status : NormalizedStatus) (state : IndexerStatusState) (now : ℕ)
    → RowChecks row
    → IsNormalized state status
    → row.updated_at ≤ now
    → expires_after row.lease_expires_at now ≡ true
    → RowChecks (updated_row status now row)
unfolding ready_shape_check
updated_row-RowChecks row status state now h (_, s, r) t e =
    let (w, l) = expires_after-is_some row now h e in
    record {
      status = s;
      ready_shape = ready_shape_of status row.writer_id row.lease_expires_at r w l;
      writer = h.writer;
      epoch_min = h.epoch_min;
      epoch_max = h.epoch_max;
      window = window_updated row.writer_id row.lease_expires_at row.updated_at now h.window e t;
    }

pub unleased_row-RowChecks :
    (row : IndexerStatusRow) (status : NormalizedStatus) (now : ℕ)
    → RowChecks row
    → status_checks status ≡ true
    → is_ready status.state ≡ false
    → RowChecks (unleased_row status now row)
unfolding ready_shape_check writer_id_check lease_window_check
unleased_row-RowChecks row status now h s r = record {
  status = s;
  ready_shape = rw r refl;
  writer = refl;
  epoch_min = h.epoch_min;
  epoch_max = h.epoch_max;
  window = refl;
}

pub released_status-status_checks :
    (s : NormalizedStatus)
    → status_checks s ≡ true
    → is_halted s.state ≡ false
    → status_checks (released_status s) ≡ true
unfolding status_checks agreed_not_ahead_check error_check
released_status-status_checks s h k =
    let (a, h1) = and_true (tip_check s.primary_source_tip) _ h in
    let (b, h2) = and_true (tip_check s.secondary_source_tip) _ h1 in
    let (c, h3) =
      and_true (agreed_ledger_check s.last_agreed_ledger_index s.last_agreed_ledger_hash) _ h2 in
    let (d, e) = and_true (agreed_not_ahead_check s) _ h3 in
    let ahead : (not_ahead_check s.last_agreed_ledger_index s.primary_source_tip
          && not_ahead_check s.last_agreed_ledger_index s.secondary_source_tip)
        ≡ true =
      rw k at d in
    rw (a, b, c, ahead) refl
