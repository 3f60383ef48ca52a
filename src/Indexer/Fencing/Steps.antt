-- ===== src/Indexer/Fencing/Steps.antt =====
-- The operations that a token's holder calls keep the tables' invariant, and the epochs.
use xcs.Common.{
  ℕ, ◌+◌, ◌≤◌, ◌≡◌, refl, Text, [], true, false, Option, none, some, ok, ==_iff, text_eq,
  text_eq_sound, if◌then◌else◌, ◌>>=◌, and_true, arith, Outcome, Outcome-bind, Bool-cases, ◌⊎◌, inl,
  inr,
}
use xcs.Core.Json.{JsonNumber}
use xcs.Indexer.Status.{
  WritableIndexerStatusState, starting_state, catching_up_state, ready_state, widen, StatusInput,
  NormalizedStatus, IndexerStatusRow, is_halted, is_some, normalize_status,
}
use xcs.Indexer.Status.Checks.{IsNormalized}
use xcs.Indexer.Fencing.{
  LeaseToken, Database, put_status, normalize_lease_duration, normalize_token, token_filter,
  active_token_filter, select_row, acquired_lease, renewed_row, updated_row, unleased_row,
  released_status, renew_indexer_lease, update_indexer_status, release_indexer_lease,
  writer_matches, expires_after,
}
use xcs.Indexer.Fencing.Rows.{
  renewed_row-RowChecks, updated_row-RowChecks, unleased_row-RowChecks,
  released_status-status_checks, expires_after-is_some,
}
use xcs.Indexer.Fencing.Invariant.{
  Expected, RowInv, Inv, put_status-Inv, checked_lem, IsToken, select_row-Outcome,
  normalize_token-Outcome, normalize_lease_duration-Outcome,
}
use xcs.Indexer.Fencing.Errors.{normalize_status-Outcome}

-- the epoch of a profile's row, 0 where it has none
abbrev pub epoch_of : Option IndexerStatusRow → ℕ
epoch_of none = 0
epoch_of (some row) = row.writer_epoch

abbrev pub SameEpochs : Database → Database → Type 0
SameEpochs db db' = (p : Text) → epoch_of (db'.statuses p) ≡ epoch_of (db.statuses p)

pub put_status-SameEpochs :
    (db : Database) (profile : Text) (row : IndexerStatusRow)
    → row.writer_epoch ≡ epoch_of (db.statuses profile)
    → SameEpochs db (put_status profile row db)
put_status-SameEpochs db profile row e p = at (Bool-cases (text_eq p profile))
  where
    at :
        (text_eq p profile ≡ true) ⊎ (text_eq p profile ≡ false)
        → epoch_of (if text_eq p profile then some row else db.statuses p)
          ≡ epoch_of (db.statuses p)
    at (inl same) = rw (same, text_eq_sound p profile same) e
    at (inr differs) = rw differs refl

pub writer_matches-is_some :
    (o : Option Text) (w : Text) → writer_matches o w ≡ true → is_some o ≡ true
writer_matches-is_some none w h = cc
writer_matches-is_some (some v) w h = refl

pub token_filter-parts :
    (token : LeaseToken) (row : IndexerStatusRow)
    → token_filter token row ≡ true
    → (is_some row.writer_id ≡ true) × (row.writer_epoch ≡ token.epoch)
unfolding token_filter
token_filter-parts token row h =
    let (a, b) = and_true (writer_matches row.writer_id token.writer_id) _ h in
    (
      writer_matches-is_some row.writer_id token.writer_id a,
      (==_iff row.writer_epoch token.epoch).0 b,
    )

-- what the operation leaves
abbrev pub Kept {ℓ} : {A : Type ℓ} → Database → ℕ → A × Database → Type 0
Kept db now (x, db') = Inv now db' × SameEpochs db db'

pub put_status-Kept :
    (db : Database) (t now : ℕ) (profile : Text) (old row : IndexerStatusRow)
    → Inv t db
    → t ≤ now
    → db.statuses profile ≡ some old
    → row.writer_epoch ≡ old.writer_epoch
    → RowInv db now profile row
    → Inv now (put_status profile row db) × SameEpochs db (put_status profile row db)
put_status-Kept db t now profile old row inv le e same h =
    (put_status-Inv db t now profile row le inv h, put_status-SameEpochs db profile row (rw e same))

widen_not_halted : (state : WritableIndexerStatusState) → is_halted (widen state) ≡ false
widen_not_halted starting_state = refl
widen_not_halted catching_up_state = refl
widen_not_halted ready_state = refl

module _ (db : Database) (t now : ℕ) (inv : Inv t db) (le : t ≤ now) where
  renewed_row-RowInv :
      (profile : Text) (row : IndexerStatusRow) (duration : ℕ)
      → RowInv db t profile row
      → expires_after row.lease_expires_at now ≡ true
      → duration ≤ 300000
      → RowInv db now profile (renewed_row duration now row)
  renewed_row-RowInv profile row duration r h d =
      let (w, l) = expires_after-is_some row now r.checks h in
      record {
        key = r.key;
        checks = renewed_row-RowChecks row duration now r.checks w l d;
        past = omega arith;
        writing = r.writing;
        open_now = r.open_now;
        open_later = r.open_later;
      }

  pub renew_indexer_lease-Outcome :
      (token : LeaseToken) (duration : JsonNumber)
      → Outcome (Kept db now) Expected (renew_indexer_lease token duration now db)
  unfolding renew_indexer_lease active_token_filter acquired_lease
  renew_indexer_lease-Outcome token duration =
      Outcome-bind (λ n. (n ≡ token) × IsToken token) (Kept db now) Expected (normalize_token token)
        _ (normalize_token-Outcome token)
        λ n (same, isToken).
          Outcome-bind (λ ms. (10000 ≤ ms) × (ms ≤ 300000)) (Kept db now) Expected
            (normalize_lease_duration duration) _ (normalize_lease_duration-Outcome duration)
            λ ms (low, high).
              Outcome-bind
                (λ row.
                  (db.statuses token.profile_id ≡ some row)
                  × (active_token_filter token now row ≡ true))
                (Kept db now) Expected
                (select_row (active_token_filter token now) (db.statuses token.profile_id)) _
                (select_row-Outcome (active_token_filter token now) (db.statuses token.profile_id))
                λ row (found, active).
                  let r = inv.rows token.profile_id row found in
                  let (mine, running) = and_true (token_filter token row) _ active in
                  let new = renewed_row-RowInv token.profile_id row ms r running high in
                  let (w, epoch) = token_filter-parts token row mine in
                  rw (checked_lem (renewed_row ms now row) new.checks) (
                    renewed row.writer_id row ms w (
                      put_status-Kept db t now token.profile_id row (renewed_row ms now row) inv le
                        found refl new))
    where
      renewed :
          (w : Option Text) (row : IndexerStatusRow) (ms : ℕ)
          → is_some w ≡ true
          → Inv now (put_status token.profile_id (renewed_row ms now row) db)
            × SameEpochs db (put_status token.profile_id (renewed_row ms now row) db)
          → Outcome (Kept db now) Expected (
              acquired_lease (renewed_row ms now row) w (some (now + ms)) >>= λ lease.
              ok (lease, put_status token.profile_id (renewed_row ms now row) db))
      renewed none row ms w k = cc
      renewed (some v) row ms w k = k

  updated_row-RowInv :
      (profile : Text) (row : IndexerStatusRow) (value : NormalizedStatus)
      (state : WritableIndexerStatusState)
      → RowInv db t profile row
      → IsNormalized (widen state) value
      → expires_after row.lease_expires_at now ≡ true
      → RowInv db now profile (updated_row value now row)
  updated_row-RowInv profile row value state r (s, c, v) h = record {
    key = r.key;
    checks =
        updated_row-RowChecks row value (widen state) now r.checks (s, c, v)
          (omega (arith, le, r.past)) h;
    past = omega arith;
    writing = λ w. rw s (widen_not_halted state);
    open_now = r.open_now;
    open_later = r.open_later;
  }

  pub update_indexer_status-Outcome :
      (token : LeaseToken) (state : WritableIndexerStatusState) (input : StatusInput)
      → Outcome (Kept db now) Expected (update_indexer_status token state input now db)
  unfolding update_indexer_status active_token_filter
  update_indexer_status-Outcome token state input =
      Outcome-bind (λ n. (n ≡ token) × IsToken token) (Kept db now) Expected (normalize_token token)
        _ (normalize_token-Outcome token)
        λ n (same, isToken).
          Outcome-bind (IsNormalized (widen state)) (Kept db now) Expected
            (normalize_status (widen state) input []) _
            (normalize_status-Outcome (widen state) input [])
            λ value normal.
              Outcome-bind
                (λ row.
                  (db.statuses token.profile_id ≡ some row)
                  × (active_token_filter token now row ≡ true))
                (Kept db now) Expected
                (select_row (active_token_filter token now) (db.statuses token.profile_id)) _
                (select_row-Outcome (active_token_filter token now) (db.statuses token.profile_id))
                λ row (found, active).
                  let r = inv.rows token.profile_id row found in
                  let (mine, running) = and_true (token_filter token row) _ active in
                  let new = updated_row-RowInv token.profile_id row value state r normal running in
                  rw (checked_lem (updated_row value now row) new.checks) (
                    put_status-Kept db t now token.profile_id row (updated_row value now row) inv le
                      found refl new)

  pub release_indexer_lease-Outcome :
      (token : LeaseToken) → Outcome (Kept db now) Expected (release_indexer_lease token now db)
  unfolding release_indexer_lease
  release_indexer_lease-Outcome token =
      Outcome-bind (λ n. (n ≡ token) × IsToken token) (Kept db now) Expected (normalize_token token)
        _ (normalize_token-Outcome token)
        λ n (same, isToken).
          Outcome-bind
            (λ row. (db.statuses token.profile_id ≡ some row) × (token_filter token row ≡ true))
            (Kept db now) Expected (select_row (token_filter token) (db.statuses token.profile_id))
            _ (select_row-Outcome (token_filter token) (db.statuses token.profile_id))
            λ row (found, mine).
              let r = inv.rows token.profile_id row found in
              let (w, epoch) = token_filter-parts token row mine in
              let new : RowInv db now token.profile_id
                  (unleased_row (released_status row.status) now row) =
                record {
                  key = r.key;
                  checks =
                      unleased_row-RowChecks row (released_status row.status) now r.checks
                        (released_status-status_checks row.status r.checks.status (r.writing w))
                        refl;
                  past = omega arith;
                  writing = λ h. cc;
                  open_now = λ h. cc;
                  open_later = r.open_later;
                } in
              rw (checked_lem (unleased_row (released_status row.status) now row) new.checks) (
                put_status-Kept db t now token.profile_id row
                  (unleased_row (released_status row.status) now row) inv le found refl new)
