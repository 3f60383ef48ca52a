-- ===== src/Indexer/Fencing/Halt.antt =====
-- `haltIndexer` keeps the tables' invariant: no epoch has two incidents.
use xcs.Common.{
  ℕ, ◌≤◌, ◌<◌, ◌≡◌, refl, Text, Bool, true, false, ◌&&◌, Option, none, some, ok, leb, ◌==◌, text_eq,
  text_eq_sound, text_eq_refl, and_true, arith, Outcome, Outcome-bind, Bool-cases, ◌⊎◌, inl, inr,
}
use xcs.Indexer.Status.{
  halted, StatusInput, NormalizedStatus, IndexerStatusRow, is_some, status_checks, normalize_status,
  tip_check, agreed_ledger_check, agreed_not_ahead_check, error_check, max_safe_epoch,
  IndexerStatusState,
}
use xcs.Indexer.Status.Checks.{IsNormalized}
use xcs.Indexer.Fencing.{
  LeaseToken, Database, put_status, put_incident, normalize_token, token_filter, select_row,
  unleased_row, incident_checks, has_error_code, incident_of, insert_incident, halt_indexer,
  IndexerIncident,
}
use xcs.Indexer.Fencing.Rows.{unleased_row-RowChecks}
use xcs.Indexer.Fencing.Invariant.{
  Expected, Open, RowInv, Inv, checked_lem, IsToken, select_row-Outcome, normalize_token-Outcome,
}
use xcs.Indexer.Fencing.Errors.{normalize_status-Outcome}
use xcs.Indexer.Fencing.Steps.{SameEpochs, Kept, put_status-Kept, token_filter-parts}

-- The incident goes to the epoch's place and to no other.
put_incident_other :
    (incident : IndexerIncident) (db : Database) (p : Text) (e : ℕ)
    → (text_eq p incident.profile_id && e == incident.writer_epoch) ≡ false
    → Open db p e
    → Open (put_incident incident db) p e
put_incident_other incident db p e differs h = rw (differs, h) refl

later_differs : (t : Bool) (e epoch : ℕ) → epoch < e → (t && e == epoch) ≡ false
later_differs true e epoch h = ground arith
later_differs false e epoch h = refl

-- The status row at the incident's profile has no writer any more.
put_incident-Inv :
    (incident : IndexerIncident) (db : Database) (now : ℕ) (row : IndexerStatusRow)
    → Inv now db
    → db.statuses incident.profile_id ≡ some row
    → row.writer_id ≡ none
    → row.writer_epoch ≡ incident.writer_epoch
    → Inv now (put_incident incident db)
put_incident-Inv incident db now row inv found stopped epoch = record {
  rows = λ p r e. at_row p r e (Bool-cases (text_eq p incident.profile_id));
  unused = λ p e n. at_unused p e n (Bool-cases (text_eq p incident.profile_id));
}
  where
    moved :
        (p : Text) (r : IndexerStatusRow)
        → RowInv db now p r
        → (is_some r.writer_id ≡ true → Open (put_incident incident db) p r.writer_epoch)
        → ((e : ℕ) → r.writer_epoch < e → Open (put_incident incident db) p e)
        → RowInv (put_incident incident db) now p r
    moved p r k open_now open_later = record {
      key = k.key;
      checks = k.checks;
      past = k.past;
      writing = k.writing;
      open_now = open_now;
      open_later = open_later;
    }

    at_row :
        (p : Text) (r : IndexerStatusRow)
        → db.statuses p ≡ some r
        → (text_eq p incident.profile_id ≡ true) ⊎ (text_eq p incident.profile_id ≡ false)
        → RowInv (put_incident incident db) now p r
    at_row p r e (inr differs) =
        let k = inv.rows p r e in
        moved p r k
          (λ w. put_incident_other incident db p r.writer_epoch (rw differs refl) (k.open_now w))
          (λ n h. put_incident_other incident db p n (rw differs refl) (k.open_later n h))
    at_row p r e (inl same) =
        let k = inv.rows p r e in
        let place : p ≡ incident.profile_id = text_eq_sound p incident.profile_id same in
        let row_is : row ≡ r = cc in
        let gone : r.writer_id ≡ none = rw (← row_is) stopped in
        let its : r.writer_epoch ≡ incident.writer_epoch = rw (← row_is) epoch in
        moved p r k (λ w. let w1 : is_some {A = Text} none ≡ true = rw gone at w in cc)
          (λ n h.
            put_incident_other incident db p n
              (later_differs (text_eq p incident.profile_id) n incident.writer_epoch (rw (← its) h))
              (k.open_later n h))

    at_unused :
        (p : Text)
        → db.statuses p ≡ none
        → (n : ℕ) → (text_eq p incident.profile_id ≡ true) ⊎ (text_eq p incident.profile_id ≡ false)
        → Open (put_incident incident db) p n
    at_unused p e n (inr differs) =
        put_incident_other incident db p n (rw differs refl) (inv.unused p e n)
    at_unused p e n (inl same) =
        let place : p ≡ incident.profile_id = text_eq_sound p incident.profile_id same in
        let clash : none ≡ some row = cc in cc

halted_error :
    (state : IndexerStatusState) (code : Option Text)
    → state ≡ halted
    → error_check state code ≡ true
    → has_error_code code ≡ true
unfolding error_check
halted_error halted (some c) s h = h
halted_error halted none s h = cc
halted_error _ c s h = cc

incident_of-checks :
    (token : LeaseToken) (value : NormalizedStatus) (now : ℕ)
    → IsToken token
    → IsNormalized halted value
    → incident_checks (incident_of token value now) ≡ true
unfolding incident_checks status_checks
incident_of-checks token value now isToken (state, h, _) =
    let (a, h1) = and_true (tip_check value.primary_source_tip) _ h in
    let (b, h2) = and_true (tip_check value.secondary_source_tip) _ h1 in
    let (c, h3) =
      and_true (agreed_ledger_check value.last_agreed_ledger_index value.last_agreed_ledger_hash) _
        h2 in
    let (d, e) = and_true (agreed_not_ahead_check value) _ h3 in
    rw
      (
        a,
        b,
        c,
        halted_error value.state value.error_code state e,
        le_leb 1 token.epoch isToken.epoch_min,
        le_leb token.epoch max_safe_epoch isToken.epoch_max,
      )
      refl
  where
    le_leb : (a b : ℕ) → a ≤ b → leb a b ≡ true
    le_leb a b h = ground arith

insert_incident_lem :
    (incident : IndexerIncident) (db : Database)
    → Open db incident.profile_id incident.writer_epoch
    → incident_checks incident ≡ true
    → insert_incident incident db ≡ ok (put_incident incident db)
unfolding insert_incident
insert_incident_lem incident db free h = rw (free, h) refl

module _ (db : Database) (t now : ℕ) (inv : Inv t db) (le : t ≤ now) where
  stopped_row-RowInv :
      (profile : Text) (row : IndexerStatusRow) (value : NormalizedStatus)
      → RowInv db t profile row
      → IsNormalized halted value
      → RowInv db now profile (unleased_row value now row)
  stopped_row-RowInv profile row value r (state, h, _) = record {
    key = r.key;
    checks = unleased_row-RowChecks row value now r.checks h (rw state refl);
    past = omega arith;
    writing = λ w. cc;
    open_now = λ w. cc;
    open_later = r.open_later;
  }

  halted-Kept :
      (token : LeaseToken) (row : IndexerStatusRow) (value : NormalizedStatus)
      → db.statuses token.profile_id ≡ some row
      → row.writer_epoch ≡ token.epoch
      → IsNormalized halted value
      → Inv now (
          put_incident
            (incident_of token value now)
            (put_status token.profile_id (unleased_row value now row) db))
        × SameEpochs db (
            put_incident
              (incident_of token value now)
              (put_status token.profile_id (unleased_row value now row) db))
  halted-Kept token row value found epoch normal =
      let new =
        stopped_row-RowInv token.profile_id row value (inv.rows token.profile_id row found)
          normal in
      let (kept, same) =
        put_status-Kept db t now token.profile_id row (unleased_row value now row) inv le found refl
          new in
      (
        put_incident-Inv (incident_of token value now)
            (put_status token.profile_id (unleased_row value now row) db) now
            (unleased_row value now row) kept (rw (text_eq_refl token.profile_id) refl) refl epoch,
        same,
      )

  pub halt_indexer-Outcome :
      (token : LeaseToken) (input : StatusInput) (code : Text)
      → Outcome (Kept db now) Expected (halt_indexer token input code now db)
  unfolding halt_indexer
  halt_indexer-Outcome token input code =
      Outcome-bind (λ n. (n ≡ token) × IsToken token) (Kept db now) Expected (normalize_token token)
        _ (normalize_token-Outcome token)
        λ n (same, isToken).
          Outcome-bind (IsNormalized halted) (Kept db now) Expected
            (normalize_status halted input code) _ (normalize_status-Outcome halted input code)
            λ value normal.
              Outcome-bind
                (λ row. (db.statuses token.profile_id ≡ some row) × (token_filter token row ≡ true))
                (Kept db now) Expected
                (select_row (token_filter token) (db.statuses token.profile_id)) _
                (select_row-Outcome (token_filter token) (db.statuses token.profile_id))
                λ row (found, mine).
                  let r = inv.rows token.profile_id row found in
                  let (w, epoch) = token_filter-parts token row mine in
                  let new = stopped_row-RowInv token.profile_id row value r normal in
                  let free : Open db token.profile_id token.epoch = rw (← epoch) (r.open_now w) in
                  rw
                    (
                      checked_lem (unleased_row value now row) new.checks,
                      insert_incident_lem (incident_of token value now)
                          (put_status token.profile_id (unleased_row value now row) db) free
                          (incident_of-checks token value now isToken normal),
                    )
                    (halted-Kept token row value found epoch normal)
