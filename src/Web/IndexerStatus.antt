-- ===== src/Web/IndexerStatus.antt =====
-- apps/web/server/xcs/indexer-status.ts, ledger-freshness.ts and credential-state.ts: whether the
-- tables of the indexer may be answered from. A time is a number of milliseconds; `unix_time` is
-- `rippleTimeToUnixTime` of xrpl.
pub mod Ready
use mathlib.Core.Option
use xcs.Common.{
  ℕ, ◌+◌, ◌/◌, min, Text, Bool, true, false, not, ◌&&◌, ◌||◌, List, [], ◌∷◌, Option, none, some,
  Result, ok, err, ltb, leb, ◌==◌, text_eq, if◌then◌else◌, guard, ◌>>=◌, ◌>>◌, any, all,
}
use xcs.Core.Errors.{XcsErrorCode, invalid_ripple_time, Checked}
use xcs.Core.Json.{JsonNumber, natural, other, non_finite}
use xcs.Core.Lifecycle.{
  CredentialLifecycleInput, CredentialLifecycleState, project_credential_lifecycle,
}
use xcs.Indexer.Types.{Checkpoint}
use xcs.Indexer.Status.{
  IndexerStatusState, starting, catching_up, ready, halted, IndexerStatusRow, uint32_max, is_some,
}
use xcs.Indexer.Fencing.{is_none}
use xcs.Indexer.Repository.{CheckpointRow, GenerationRow}

pub data IndexerUnavailableCode : Type 0 where
  indexer_not_initialized indexer_stale indexer_status_unavailable indexer_not_ready :
      IndexerUnavailableCode
  indexer_halted indexer_lease_expired indexer_evidence_invalid : IndexerUnavailableCode

abbrev pub Available : Type 0
Available = Result IndexerUnavailableCode (Unit {0})

pub data LedgerCheckpointFreshness : Type 0 where
  fresh missing stale : LedgerCheckpointFreshness

abbrev pub max_ledger_clock_skew_seconds : ℕ
max_ledger_clock_skew_seconds = 30

module _ (unix_time : ℕ → ℕ) where
  -- The age in seconds may be negative: the two tests are written without a difference.
  unfoldable pub evaluate_ledger_checkpoint_freshness :
      Option ℕ → ℕ → JsonNumber → LedgerCheckpointFreshness
  evaluate_ledger_checkpoint_freshness none now max_age = missing
  evaluate_ledger_checkpoint_freshness (some close_time) now (other tag) = stale
  evaluate_ledger_checkpoint_freshness (some close_time) now non_finite = stale
  evaluate_ledger_checkpoint_freshness (some close_time) now (natural max_age) =
      if ltb (unix_time close_time / 1000 + max_age) (now / 1000)
        || ltb (now / 1000 + max_ledger_clock_skew_seconds) (unix_time close_time / 1000)
      then stale
      else fresh

  abbrev pub require_fresh : LedgerCheckpointFreshness → Available
  require_fresh fresh = ok tt
  require_fresh missing = err indexer_not_initialized
  require_fresh stale = err indexer_stale

  unfoldable pub assert_fresh_ledger_checkpoint : Option ℕ → ℕ → JsonNumber → Available
  unfolding evaluate_ledger_checkpoint_freshness
  assert_fresh_ledger_checkpoint close_time now max_age =
      require_fresh (evaluate_ledger_checkpoint_freshness close_time now max_age)

abbrev pub is_uint32 : ℕ → Bool
is_uint32 n = leb n uint32_max

abbrev pub null_or_uint32 : Option ℕ → Bool
null_or_uint32 none = true
null_or_uint32 (some n) = is_uint32 n

abbrev pub expired_at : Option ℕ → ℕ → Bool
expired_at none now = true
expired_at (some expires) now = leb expires now

-- the last test of `assertIndexerReady`
unfoldable pub has_ready_evidence : Option ℕ → Option ℕ → Option ℕ → Option Text → Bool
has_ready_evidence (some primary) (some secondary) (some index) (some hash) =
    (is_uint32 primary && (is_uint32 secondary && is_uint32 index))
    && index == min primary secondary
has_ready_evidence _ _ _ _ = false

unfoldable pub require_ready_state : IndexerStatusState → Available
require_ready_state halted = err indexer_halted
require_ready_state ready = ok tt
require_ready_state _ = err indexer_not_ready

unfoldable pub assert_indexer_ready : Option IndexerStatusRow → ℕ → Available
unfolding require_ready_state has_ready_evidence
assert_indexer_ready none now = err indexer_status_unavailable
assert_indexer_ready (some row) now = do
  require_ready_state row.status.state
  guard (is_some row.writer_id && not (expired_at row.lease_expires_at now)) indexer_lease_expired
  guard
      (has_ready_evidence row.status.primary_source_tip row.status.secondary_source_tip
        row.status.last_agreed_ledger_index row.status.last_agreed_ledger_hash)
      indexer_evidence_invalid

-- a status or a profile that is compared with a value
abbrev pub is_index : Option ℕ → ℕ → Bool
is_index none n = false
is_index (some m) n = m == n

abbrev pub is_hash_of : Option Text → Text → Bool
is_hash_of none t = false
is_hash_of (some s) t = text_eq s t

pub record LedgerEvidence : Type 0 where
  pub expected_profile_id : Text
  pub status : Option IndexerStatusRow
  pub checkpoint : Option CheckpointRow
  pub now : ℕ
  pub max_ledger_age_seconds : JsonNumber
  pub minimum_ledger_index : JsonNumber
  pub projection_ledger_indexes : List JsonNumber

-- the checkpoint is the status's last agreed ledger
unfoldable pub agrees : Text → IndexerStatusRow → CheckpointRow → Bool
unfolding text_eq
agrees expected row c =
    (text_eq row.profile_id expected && text_eq c.profile_id expected)
    && ((is_index row.status.last_agreed_ledger_index c.checkpoint.ledger_index
          && is_hash_of row.status.last_agreed_ledger_hash c.checkpoint.ledger_hash)
        && (is_some c.checkpoint.transaction_root
            && (is_uint32 c.checkpoint.ledger_index && is_uint32 c.checkpoint.close_time)))

abbrev pub between : JsonNumber → ℕ → JsonNumber → Bool
between (natural least) most (natural n) = leb least n && leb n most
between _ most _ = false

-- `minimumLedgerIndex ?? 0` and the indexes of the projection
unfoldable pub covers : JsonNumber → ℕ → List JsonNumber → Bool
covers (other tag) index projected = false
covers non_finite index projected = false
covers (natural least) index projected =
    leb least index && all (between (natural least) index) projected

module _ (unix_time : ℕ → ℕ) where
  unfoldable pub assert_checkpoint :
      Text → IndexerStatusRow → LedgerEvidence → CheckpointRow → Available
  unfolding agrees covers assert_fresh_ledger_checkpoint
  assert_checkpoint expected row input c = do
    guard (agrees expected row c) indexer_evidence_invalid
    guard
        (covers input.minimum_ledger_index c.checkpoint.ledger_index
          input.projection_ledger_indexes)
        indexer_evidence_invalid
    assert_fresh_ledger_checkpoint unix_time (some c.checkpoint.close_time) input.now
        input.max_ledger_age_seconds

  abbrev pub assert_evidence :
      LedgerEvidence → Option IndexerStatusRow → Option CheckpointRow → Available
  assert_evidence input none c = err indexer_status_unavailable
  assert_evidence input (some row) none = err indexer_not_initialized
  assert_evidence input (some row) (some c) =
      assert_checkpoint input.expected_profile_id row input c

  unfoldable pub assert_authoritative_ledger_evidence : LedgerEvidence → Available
  unfolding assert_indexer_ready assert_checkpoint
  assert_authoritative_ledger_evidence input = do
    assert_indexer_ready input.status input.now
    assert_evidence input input.status input.checkpoint

abbrev pub as_natural : Option ℕ → Option JsonNumber
as_natural none = none
as_natural (some n) = some (natural n)

-- `credentialGenerationState`: the only error of the projection is one of the stored times.
abbrev pub as_evidence :
    Checked CredentialLifecycleState → Result IndexerUnavailableCode CredentialLifecycleState
as_evidence (ok state) = ok state
as_evidence (err code) = err indexer_evidence_invalid

unfoldable pub credential_generation_state :
    GenerationRow → ℕ → Result IndexerUnavailableCode CredentialLifecycleState
unfolding project_credential_lifecycle
credential_generation_state generation close_time = as_evidence (
    project_credential_lifecycle (record {
      object_exists = is_none generation.deleted_ledger_index;
      accepted = generation.accepted;
      expiration = as_natural generation.expiration;
      close_time = natural close_time;
    }))
