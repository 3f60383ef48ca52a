-- ===== src/Indexer/Continuity.antt =====
-- apps/indexer/src/continuity.ts: ledgers follow each other from the activation ledger on.
pub mod Chains
use xcs.Common.{
  ℕ, suc, ◌+◌, Text, List, [], ◌∷◌, Option, none, some, Result, ok, err, ltb, ◌==◌, text_eq,
  if◌then◌else◌, guard, ◌>>=◌, ◌>>◌, to_lower,
}
use xcs.Core.Network.{NetworkProfile}
use xcs.Indexer.Types.{LedgerTransaction, ValidatedLedger, Checkpoint}

pub data LedgerContinuityError : Type 0 where
  ledger_before_activation ledger_gap ledger_parent_mismatch activation_hash_mismatch :
      LedgerContinuityError

abbrev pub Continued : Type 0
Continued = Result LedgerContinuityError (Unit {0})

unfoldable pub assert_ledger_continuity :
    NetworkProfile → Option Checkpoint → ValidatedLedger → Continued
unfolding text_eq to_lower
assert_ledger_continuity profile none ledger = do
  guard (ledger.ledger_index == profile.activation_ledger_index) (
      if ltb ledger.ledger_index profile.activation_ledger_index
      then ledger_before_activation
      else ledger_gap)
  guard (text_eq ledger.ledger_hash (to_lower profile.activation_ledger_hash))
      activation_hash_mismatch
assert_ledger_continuity profile (some previous) ledger = do
  guard (ledger.ledger_index == previous.ledger_index + 1) ledger_gap
  guard (text_eq ledger.parent_hash previous.ledger_hash) ledger_parent_mismatch

-- the loop of `assertTransactionOrdering`, from a position on
unfoldable pub assert_ordering_from : ℕ → List LedgerTransaction → Continued
assert_ordering_from position [] = ok tt
assert_ordering_from position (transaction ∷ rest) =
    guard (transaction.transaction_index == position) ledger_gap
    >> assert_ordering_from (suc position) rest

unfoldable pub assert_transaction_ordering : ValidatedLedger → Continued
unfolding assert_ordering_from
assert_transaction_ordering ledger = assert_ordering_from 0 ledger.transactions
