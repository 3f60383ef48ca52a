-- ===== src/Indexer/Types.antt =====
-- apps/indexer/src/types.ts: the ledgers that the indexer reads, and its checkpoints.
use xcs.Common.{ℕ, Text, List, Option}
use xcs.Core.Json.{JsonValue}

-- `Record<string, unknown>`
abbrev pub Fields : Type 0
Fields = List (Text × JsonValue)

pub record LedgerTransaction : Type 0 where
  pub hash : Text
  pub transaction : Fields
  pub metadata : Fields
  pub transaction_index : ℕ

pub record ValidatedLedger : Type 0 where
  pub ledger_index : ℕ
  pub ledger_hash : Text
  pub parent_hash : Text
  pub account_root : Text
  pub transaction_root : Text
  pub parent_close_time : ℕ
  pub close_time : ℕ
  pub close_time_resolution : ℕ
  pub close_flags : ℕ
  pub total_coins : Text
  pub transactions : List LedgerTransaction

pub record Checkpoint : Type 0 where
  pub ledger_index : ℕ
  pub ledger_hash : Text
  pub parent_hash : Text
  pub close_time : ℕ
  pub transaction_count : ℕ
  pub transaction_root : Option Text
