-- ===== src/Indexer/ReplayTarget.antt =====
-- apps/indexer/src/replay-target.ts: the ledger at which a replay is to end.
pub mod Load
use xcs.Common.{
  ℕ, Text, Bool, ◌&&◌, Option, none, some, Result, ok, err, leb, guard, ◌>>=◌, ◌>>◌, if◌then◌else◌,
  to_lower,
}
use xcs.Core.Json.{JsonValue, natural, number, string}
use xcs.Core.Claims.{is_unsigned_integer, decimal}
use xcs.Core.Network.{is_hash}

pub data ReplayTargetError : Type 0 where
  replay_target_invalid replay_target_unavailable replay_target_mismatch replay_target_exceeded :
      ReplayTargetError

pub record ReplayTarget : Type 0 where
  pub ledger_index : ℕ
  pub ledger_hash : Text

unfoldable pub target_index : JsonValue → Result ReplayTargetError ℕ
target_index (number (natural n)) =
    if leb 1 n && leb n 0xffff_ffff then ok n else err replay_target_invalid
target_index _ = err replay_target_invalid

unfoldable pub target_hash : JsonValue → Result ReplayTargetError Text
unfolding is_hash to_lower
target_hash (string value) =
    if is_hash value then ok (to_lower value) else err replay_target_invalid
target_hash _ = err replay_target_invalid

unfoldable pub create_replay_target : JsonValue → JsonValue → Result ReplayTargetError ReplayTarget
unfolding target_index target_hash
create_replay_target ledger_index ledger_hash = do
  index ← target_index ledger_index
  hash ← target_hash ledger_hash
  ok (record { ledger_index = index; ledger_hash = hash })

-- `Number` of decimal digits: a number above 2 ^ 53 is rounded, but stays above every uint32.
unfoldable pub load_replay_target :
    Option Text → Option Text → Result ReplayTargetError ReplayTarget
unfolding create_replay_target is_unsigned_integer
load_replay_target (some ledger_index) (some ledger_hash) = do
  guard (is_unsigned_integer ledger_index) replay_target_invalid
  create_replay_target (number (natural (decimal ledger_index))) (string ledger_hash)
load_replay_target _ _ = err replay_target_invalid
