-- ===== src/Web/IndexerStatus/Ready.antt =====
-- apps/web/server/xcs/indexer-status.ts: the rows that the indexer stores, and those that the API
-- server answers from.
use xcs.Common.{
  ℕ, ◌≡◌, ◌↔◌, refl, Text, true, not, ◌&&◌, Option, none, some, ok, and_true, arith, guard-eq-ok,
  >>=-eq-ok,
}
use xcs.Indexer.Status.{
  IndexerStatusState, starting, catching_up, ready, halted, IndexerStatusRow, is_some, tip_check,
  agreed_ledger_check, least_check, ready_shape_check, status_checks,
}
use xcs.Indexer.Fencing.{expires_after}
use xcs.Indexer.Fencing.Rows.{RowChecks}
use xcs.Web.IndexerStatus.{
  require_ready_state, has_ready_evidence, expired_at, assert_indexer_ready,
}

evidence :
    (p s i : Option ℕ) (h : Option Text)
    → tip_check p ≡ true
    → tip_check s ≡ true
    → agreed_ledger_check i h ≡ true
    → least_check p s i ≡ true
    → has_ready_evidence p s i h ≡ true
unfolding tip_check agreed_ledger_check least_check has_ready_evidence
evidence (some p) (some s) (some i) (some h) tip tip2 agreed least = ground arith
evidence none s i h tip tip2 agreed least = cc
evidence (some p) none i h tip tip2 agreed least = cc
evidence (some p) (some s) none h tip tip2 agreed least = cc
evidence (some p) (some s) (some i) none tip tip2 agreed least = cc

alive :
    (expires : Option ℕ) (now : ℕ)
    → (not (expired_at expires now) ≡ true) ↔ (expires_after expires now ≡ true)
alive none now = (λ h. cc, λ h. cc)
alive (some e) now = (λ h. ground arith, λ h. ground arith)

ready_only : (s : IndexerStatusState) → (require_ready_state s ≡ ok tt) ↔ (s ≡ ready)
unfolding require_ready_state
ready_only starting = (λ h. cc, λ h. cc)
ready_only catching_up = (λ h. cc, λ h. cc)
ready_only ready = (λ h. refl, λ h. refl)
ready_only halted = (λ h. cc, λ h. cc)

-- what the CHECK constraints say of a row that is ready
ready_row :
    (row : IndexerStatusRow)
    → RowChecks row
    → row.status.state ≡ ready
    → (has_ready_evidence row.status.primary_source_tip row.status.secondary_source_tip
          row.status.last_agreed_ledger_index row.status.last_agreed_ledger_hash
        ≡ true)
      × (is_some row.writer_id ≡ true)
unfolding status_checks ready_shape_check
ready_row row checks e =
    let (tip, c1) = and_true (tip_check row.status.primary_source_tip) _ checks.status in
    let (tip2, c2) = and_true (tip_check row.status.secondary_source_tip) _ c1 in
    let (agreed, c3) =
      and_true
        (agreed_ledger_check row.status.last_agreed_ledger_index row.status.last_agreed_ledger_hash)
        _ c2 in
    let shape = rw e at checks.ready_shape in
    let (least, s1) =
      and_true
        (least_check row.status.primary_source_tip row.status.secondary_source_tip
          row.status.last_agreed_ledger_index)
        _ shape in
    let (hash, s2) = and_true (is_some row.status.last_agreed_ledger_hash) _ s1 in
    let (writer, s3) = and_true (is_some row.writer_id) _ s2 in
    (evidence _ _ _ _ tip tip2 agreed least, writer)

-- Of a row that passes the CHECK constraints of the table, `assertIndexerReady` accepts exactly the
-- states `ready` of a writer whose lease is not over; its test of the evidence never fails on such a
-- row.
pub assert_indexer_ready_iff :
    (row : IndexerStatusRow) (now : ℕ)
    → RowChecks row
    → (assert_indexer_ready (some row) now ≡ ok tt)
      ↔ ((row.status.state ≡ ready) × (expires_after row.lease_expires_at now ≡ true))
unfolding assert_indexer_ready
assert_indexer_ready_iff row now checks = (
  λ h.
      let (done, state, rest) = >>=-eq-ok (require_ready_state row.status.state) _ h in
      let (lease, last) =
        guard-eq-ok (is_some row.writer_id && not (expired_at row.lease_expires_at now)) _ _ rest in
      let (writer, live) = and_true (is_some row.writer_id) _ lease in
      ((ready_only row.status.state).0 state, (alive row.lease_expires_at now).0 live),
  λ (state, live).
      let (shown, writer) = ready_row row checks state in
      rw
        (
          (ready_only row.status.state).1 state,
          writer,
          (alive row.lease_expires_at now).1 live,
          shown,
        )
        refl,
)
