-- ===== src/Indexer/Fencing.antt =====
-- apps/indexer/src/lib/db/indexer-fencing.ts: the leases that fence the indexer's writers. Every
-- operation is one transaction: on an error the database is as it was. `now` is the clock's reading
-- in milliseconds; where the caller passes no date, it is the database's clock at that statement.
pub mod Rows
pub mod Invariant
pub mod Acquire
pub mod Errors
pub mod Steps
pub mod Halt
pub mod History
pub mod Exclusion
use xcs.Common.{
  ℕ, ◌+◌, ◌-◌, Text, Bool, true, false, ◌&&◌, [], Option, none, some, Result, ok, err, ltb, leb,
  ◌==◌, text_eq, if◌then◌else◌, guard, ◌>>=◌, ◌>>◌,
}
use xcs.Core.Json.{JsonNumber, natural, other, non_finite}
use xcs.Core.Network.{is_profile_id}
use xcs.Indexer.Status.{
  WritableIndexerStatusState, widen, IndexerStatusState, starting, catching_up, ready, halted,
  FencingError, invalid_argument, lease_unavailable, lease_lost, constraint_violation,
  foreign_key_violation, StatusInput, NormalizedStatus, IndexerStatusRow, is_error_code,
  is_writer_id, tip_check, agreed_ledger_check, row_checks, normalize_status, max_safe_epoch,
}

pub record LeaseToken : Type 0 where
  pub profile_id : Text
  pub writer_id : Text
  pub epoch : ℕ

pub record AcquiredLease : Type 0 where
  pub token : LeaseToken
  pub lease_expires_at : ℕ

pub record IndexerIncident : Type 0 where
  pub profile_id : Text
  pub writer_epoch : ℕ
  pub status : NormalizedStatus
  pub recorded_at : ℕ

-- `network_profiles`, which the other two reference, `indexer_status` by its primary key, and
-- `indexer_incidents` by its primary key, the profile and the epoch.
pub record Database : Type 0 where
  pub profiles : Text → Bool
  pub statuses : Text → Option IndexerStatusRow
  pub incidents : Text → ℕ → Option IndexerIncident

abbrev pub put_status : Text → IndexerStatusRow → Database → Database
put_status profile row db = record {
  profiles = db.profiles;
  statuses = λ p. if text_eq p profile then some row else db.statuses p;
  incidents = db.incidents;
}

abbrev pub put_incident : IndexerIncident → Database → Database
put_incident incident db = record {
  profiles = db.profiles;
  statuses = db.statuses;
  incidents = λ p e.
      if text_eq p incident.profile_id && e == incident.writer_epoch
      then some incident
      else db.incidents p e;
}

-- The row that a statement writes is held to the table's CHECK constraints.
unfoldable pub checked : IndexerStatusRow → Result FencingError IndexerStatusRow
unfolding row_checks
checked row = if row_checks row then ok row else err constraint_violation

unfoldable pub normalize_lease_duration : JsonNumber → Result FencingError ℕ
normalize_lease_duration (natural ms) =
    if leb 10000 ms && leb ms 300000 then ok ms else err invalid_argument
normalize_lease_duration (other _) = err invalid_argument
normalize_lease_duration non_finite = err invalid_argument

unfoldable pub normalize_token : LeaseToken → Result FencingError LeaseToken
unfolding is_profile_id is_writer_id
normalize_token token = do
  guard (is_profile_id token.profile_id) invalid_argument
  guard (is_writer_id token.writer_id) invalid_argument
  guard (leb 1 token.epoch && leb token.epoch max_safe_epoch) invalid_argument
  ok token

abbrev pub writer_matches : Option Text → Text → Bool
writer_matches none writer = false
writer_matches (some w) writer = text_eq w writer

-- `tokenFilter`, at the row of the token's profile
unfoldable pub token_filter : LeaseToken → IndexerStatusRow → Bool
token_filter token row =
    writer_matches row.writer_id token.writer_id && row.writer_epoch == token.epoch

abbrev pub expires_after : Option ℕ → ℕ → Bool
expires_after none now = false
expires_after (some expires) now = ltb now expires

unfoldable pub active_token_filter : LeaseToken → ℕ → IndexerStatusRow → Bool
unfolding token_filter
active_token_filter token now row = token_filter token row && expires_after row.lease_expires_at now

-- a row without a lease, or with one that is over
abbrev pub is_free : Option ℕ → ℕ → Bool
is_free none now = true
is_free (some expires) now = leb expires now

abbrev pub starting_status : NormalizedStatus
starting_status = record {
  state = starting;
  primary_source_tip = none;
  secondary_source_tip = none;
  last_agreed_ledger_index = none;
  last_agreed_ledger_hash = none;
  error_code = none;
}

-- the row that the INSERT of `acquireIndexerLease` writes
abbrev pub inserted_row : Text → ℕ → IndexerStatusRow
inserted_row profile now = record {
  profile_id = profile;
  status = starting_status;
  writer_id = none;
  writer_epoch = 1;
  lease_expires_at = none;
  updated_at = now;
}

-- the row that its UPDATE writes
abbrev pub leased_row : Text → Text → ℕ → ℕ → ℕ → IndexerStatusRow
leased_row profile writer epoch duration now = record {
  profile_id = profile;
  status = starting_status;
  writer_id = some writer;
  writer_epoch = epoch;
  lease_expires_at = some (now + duration);
  updated_at = now;
}

unfoldable pub acquired_lease :
    IndexerStatusRow → Option Text → Option ℕ → Result FencingError AcquiredLease
acquired_lease row (some writer) (some expires) = ok (record {
  token = record { profile_id = row.profile_id; writer_id = writer; epoch = row.writer_epoch };
  lease_expires_at = expires;
})
acquired_lease row _ _ = err invalid_argument

-- The transaction of `acquireIndexerLease` at the row of the profile.
unfoldable pub acquire_row :
    Option IndexerStatusRow → Bool → Text → Text → ℕ → ℕ → Result FencingError IndexerStatusRow
unfolding checked
acquire_row none known profile writer duration now = do
  guard known foreign_key_violation
  inserted ← checked (inserted_row profile now)
  checked (leased_row profile writer inserted.writer_epoch duration now)
acquire_row (some row) known profile writer duration now = do
  guard (is_free row.lease_expires_at now && leb row.writer_epoch (max_safe_epoch - 1))
      lease_unavailable
  checked (leased_row row.profile_id writer (row.writer_epoch + 1) duration now)

unfoldable pub acquire_indexer_lease :
    Text → Text → JsonNumber → ℕ → Database → Result FencingError (AcquiredLease × Database)
unfolding normalize_token normalize_lease_duration acquire_row acquired_lease
acquire_indexer_lease profile writer duration now db = do
  token ← normalize_token (record { profile_id = profile; writer_id = writer; epoch = 1 })
  ms ← normalize_lease_duration duration
  row ← acquire_row (db.statuses profile) (db.profiles profile) profile writer ms now
  lease ← acquired_lease row row.writer_id row.lease_expires_at
  ok (lease, put_status profile row db)

-- The row that the WHERE clause of a token selects.
unfoldable pub select_row :
    (IndexerStatusRow → Bool) → Option IndexerStatusRow → Result FencingError IndexerStatusRow
select_row test none = err lease_lost
select_row test (some row) = if test row then ok row else err lease_lost

abbrev pub renewed_row : ℕ → ℕ → IndexerStatusRow → IndexerStatusRow
renewed_row duration now row = record {
  profile_id = row.profile_id;
  status = row.status;
  writer_id = row.writer_id;
  writer_epoch = row.writer_epoch;
  lease_expires_at = some (now + duration);
  updated_at = now;
}

unfoldable pub renew_indexer_lease :
    LeaseToken → JsonNumber → ℕ → Database → Result FencingError (AcquiredLease × Database)
unfolding normalize_token normalize_lease_duration active_token_filter select_row checked
    acquired_lease
renew_indexer_lease token duration now db = do
  normal ← normalize_token token
  ms ← normalize_lease_duration duration
  row ← select_row (active_token_filter token now) (db.statuses token.profile_id)
  renewed ← checked (renewed_row ms now row)
  lease ← acquired_lease renewed renewed.writer_id renewed.lease_expires_at
  ok (lease, put_status token.profile_id renewed db)

abbrev pub updated_row : NormalizedStatus → ℕ → IndexerStatusRow → IndexerStatusRow
updated_row status now row = record {
  profile_id = row.profile_id;
  status = status;
  writer_id = row.writer_id;
  writer_epoch = row.writer_epoch;
  lease_expires_at = row.lease_expires_at;
  updated_at = now;
}

unfoldable pub update_indexer_status :
    LeaseToken
    → WritableIndexerStatusState
    → StatusInput
    → ℕ
    → Database
    → Result FencingError (IndexerStatusRow × Database)
unfolding normalize_token normalize_status active_token_filter select_row checked
update_indexer_status token state input now db = do
  normal ← normalize_token token
  value ← normalize_status (widen state) input []
  row ← select_row (active_token_filter token now) (db.statuses token.profile_id)
  updated ← checked (updated_row value now row)
  ok (updated, put_status token.profile_id updated db)

abbrev pub released_status : NormalizedStatus → NormalizedStatus
released_status s = record {
  state = catching_up;
  primary_source_tip = s.primary_source_tip;
  secondary_source_tip = s.secondary_source_tip;
  last_agreed_ledger_index = s.last_agreed_ledger_index;
  last_agreed_ledger_hash = s.last_agreed_ledger_hash;
  error_code = none;
}

-- without a writer and a lease
abbrev pub unleased_row : NormalizedStatus → ℕ → IndexerStatusRow → IndexerStatusRow
unleased_row status now row = record {
  profile_id = row.profile_id;
  status = status;
  writer_id = none;
  writer_epoch = row.writer_epoch;
  lease_expires_at = none;
  updated_at = now;
}

unfoldable pub release_indexer_lease :
    LeaseToken → ℕ → Database → Result FencingError (IndexerStatusRow × Database)
unfolding normalize_token token_filter select_row checked
release_indexer_lease token now db = do
  normal ← normalize_token token
  row ← select_row (token_filter token) (db.statuses token.profile_id)
  released ← checked (unleased_row (released_status row.status) now row)
  ok (released, put_status token.profile_id released db)

abbrev pub has_error_code : Option Text → Bool
has_error_code none = false
has_error_code (some code) = is_error_code code

-- the CHECK constraints of `indexer_incidents`
unfoldable pub incident_checks : IndexerIncident → Bool
unfolding tip_check agreed_ledger_check is_error_code
incident_checks i =
    (leb 1 i.writer_epoch && leb i.writer_epoch max_safe_epoch)
    && (has_error_code i.status.error_code
        && (tip_check i.status.primary_source_tip
            && (tip_check i.status.secondary_source_tip
                && agreed_ledger_check i.status.last_agreed_ledger_index
                    i.status.last_agreed_ledger_hash)))

abbrev pub is_none {ℓ} : {A : Type ℓ} → Option A → Bool
is_none none = true
is_none (some a) = false

abbrev pub incident_of : LeaseToken → NormalizedStatus → ℕ → IndexerIncident
incident_of token value now = record {
  profile_id = token.profile_id;
  writer_epoch = token.epoch;
  status = value;
  recorded_at = now;
}

unfoldable pub insert_incident : IndexerIncident → Database → Result FencingError Database
unfolding incident_checks
insert_incident incident db =
    if is_none (db.incidents incident.profile_id incident.writer_epoch) && incident_checks incident
    then ok (put_incident incident db)
    else err constraint_violation

unfoldable pub halt_indexer :
    LeaseToken
    → StatusInput
    → Text
    → ℕ
    → Database
    → Result FencingError (IndexerStatusRow × Database)
unfolding normalize_token normalize_status token_filter select_row checked insert_incident
halt_indexer token input error_code now db = do
  normal ← normalize_token token
  value ← normalize_status halted input error_code
  row ← select_row (token_filter token) (db.statuses token.profile_id)
  stopped ← checked (unleased_row value now row)
  recorded ← insert_incident (incident_of token value now) (put_status token.profile_id stopped db)
  ok (stopped, recorded)

unfoldable pub lock_active_indexer_lease :
    LeaseToken → ℕ → Database → Result FencingError IndexerStatusRow
unfolding normalize_token active_token_filter select_row
lock_active_indexer_lease token now db = do
  normal ← normalize_token token
  select_row (active_token_filter token now) (db.statuses token.profile_id)
