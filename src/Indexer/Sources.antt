-- ===== src/Indexer/Sources.antt =====
-- apps/indexer/src/quorum-ledger-source.ts and source-errors.ts: two sources that have to agree. The
-- results of both sources' calls are given.
pub mod Agreement
use mathlib.Core.Option
use xcs.Common.{
  ℕ, min, Text, codes, Bool, true, false, not, ◌&&◌, ◌||◌, List, [], ◌∷◌, Option, none, some,
  Result, ok, err, ltb, ◌==◌, text_eq, if◌then◌else◌, guard, ◌>>=◌, ◌>>◌, any,
}
use xcs.Core.Network.{NetworkProfile}
use xcs.Indexer.Types.{ValidatedLedger}

pub data XrplSourceErrorCode : Type 0 where
  source_response_invalid source_network_mismatch source_history_incomplete
        source_activation_mismatch source_amendment_unavailable source_registry_not_blackholed
        source_registry_not_receivable source_divergence source_tip_regression source_unavailable :
      XrplSourceErrorCode

-- What a call is rejected with: an XrplSourceError, or anything else.
pub data SourceFailure : Type 0 where
  source_error : XrplSourceErrorCode → SourceFailure
  other_failure : SourceFailure

pub record LedgerSourceTips : Type 0 where
  pub primary : ℕ
  pub secondary : ℕ
  pub effective : ℕ

-- what `both` throws for a rejection
abbrev pub reason_of : SourceFailure → XrplSourceErrorCode
reason_of (source_error code) = code
reason_of other_failure = source_unavailable

-- The primary's rejection comes first.
unfoldable pub both {ℓ} :
    {A : Type ℓ}
    → Result SourceFailure A
    → Result SourceFailure A
    → Result XrplSourceErrorCode (A × A)
both (err reason) secondary = err (reason_of reason)
both (ok primary) (err reason) = err (reason_of reason)
both (ok primary) (ok secondary) = ok (primary, secondary)

unfoldable pub assert_tips_do_not_regress :
    Option LedgerSourceTips → LedgerSourceTips → Result XrplSourceErrorCode (Unit {0})
assert_tips_do_not_regress none current = ok tt
assert_tips_do_not_regress (some previous) current =
    guard (not (ltb current.primary previous.primary || ltb current.secondary previous.secondary))
      source_tip_regression

abbrev pub tips_of : ℕ → ℕ → LedgerSourceTips
tips_of primary secondary = record {
  primary = primary;
  secondary = secondary;
  effective = min primary secondary;
}

-- `getValidatedLedgerTips`; the tips are also the source's `lastTips` from then on.
unfoldable pub get_validated_ledger_tips :
    Option LedgerSourceTips
    → Result SourceFailure ℕ
    → Result SourceFailure ℕ
    → Result XrplSourceErrorCode LedgerSourceTips
unfolding both assert_tips_do_not_regress
get_validated_ledger_tips last_tips primary secondary = do
  (p, s) ← both primary secondary
  assert_tips_do_not_regress last_tips (tips_of p s)
  ok (tips_of p s)

-- what a source's own preflight returns, as far as it is compared
pub record LedgerSourcePreflight : Type 0 where
  pub network_id : ℕ
  pub activation_ledger : ValidatedLedger
  pub effective_tip : ℕ

-- `isDeepStrictEqual` of node:util is the test `same`.
module _ (same : ValidatedLedger → ValidatedLedger → Bool) where
  unfoldable pub assert_same_ledger :
      ValidatedLedger → ValidatedLedger → Result XrplSourceErrorCode (Unit {0})
  assert_same_ledger primary secondary = guard (same primary secondary) source_divergence

  unfoldable pub get_ledger :
      Result SourceFailure ValidatedLedger
      → Result SourceFailure ValidatedLedger
      → Result XrplSourceErrorCode ValidatedLedger
  unfolding both assert_same_ledger
  get_ledger primary secondary = do (p, s) ← both primary secondary; assert_same_ledger p s; ok p

  unfoldable pub preflight :
      NetworkProfile
      → Option LedgerSourceTips
      → Result SourceFailure LedgerSourcePreflight
      → Result SourceFailure LedgerSourcePreflight
      → Result XrplSourceErrorCode (ValidatedLedger × LedgerSourceTips)
  unfolding both assert_same_ledger assert_tips_do_not_regress
  preflight profile last_tips primary secondary = do
    (p, s) ← both primary secondary
    guard
        (p.network_id == profile.network_id
          && (s.network_id == profile.network_id && p.network_id == s.network_id))
        source_network_mismatch
    assert_same_ledger p.activation_ledger s.activation_ledger
    assert_tips_do_not_regress last_tips (tips_of p.effective_tip s.effective_tip)
    ok (p.activation_ledger, tips_of p.effective_tip s.effective_tip)

-- an error as `sourceErrorCode` sees it: an XrplSourceError, or another value with the `code` it has,
-- where that is a string
pub data ThrownValue : Type 0 where
  xrpl_source_error : XrplSourceErrorCode → ThrownValue
  thrown_with : Option Text → ThrownValue

abbrev pub source_error_codes : List Text
source_error_codes =
    codes "SOURCE_RESPONSE_INVALID"
    ∷ codes "SOURCE_NETWORK_MISMATCH"
    ∷ codes "SOURCE_HISTORY_INCOMPLETE"
    ∷ codes "SOURCE_ACTIVATION_MISMATCH"
    ∷ codes "SOURCE_AMENDMENT_UNAVAILABLE"
    ∷ codes "SOURCE_REGISTRY_NOT_BLACKHOLED"
    ∷ codes "SOURCE_REGISTRY_NOT_RECEIVABLE"
    ∷ codes "SOURCE_DIVERGENCE"
    ∷ codes "SOURCE_TIP_REGRESSION"
    ∷ codes "SOURCE_UNAVAILABLE"
    ∷ []

abbrev pub stable_indexer_error_codes : List Text
stable_indexer_error_codes =
    codes "LEDGER_BEFORE_ACTIVATION"
    ∷ codes "LEDGER_GAP"
    ∷ codes "LEDGER_PARENT_MISMATCH"
    ∷ codes "ACTIVATION_HASH_MISMATCH"
    ∷ codes "CHECKPOINT_EVIDENCE_MISSING"
    ∷ codes "CHECKPOINT_CONFLICT"
    ∷ codes "REPLAY_TARGET_INVALID"
    ∷ codes "REPLAY_TARGET_UNAVAILABLE"
    ∷ codes "REPLAY_TARGET_MISMATCH"
    ∷ codes "REPLAY_TARGET_EXCEEDED"
    ∷ codes "FIXTURE_BUNDLE_INVALID"
    ∷ codes "FIXTURE_BUNDLE_OUTPUT_EXISTS"
    ∷ codes "FIXTURE_BUNDLE_RANGE_INVALID"
    ∷ codes "FIXTURE_BUNDLE_SOURCE_UNAVAILABLE"
    ∷ codes "FIXTURE_BUNDLE_INTEGRITY_FAILED"
    ∷ codes "INDEXER_LEASE_UNAVAILABLE"
    ∷ codes "INDEXER_LEASE_LOST"
    ∷ codes "INDEXER_FAILED"
    ∷ source_error_codes

unfoldable pub code_text : XrplSourceErrorCode → Text
code_text source_response_invalid = codes "SOURCE_RESPONSE_INVALID"
code_text source_network_mismatch = codes "SOURCE_NETWORK_MISMATCH"
code_text source_history_incomplete = codes "SOURCE_HISTORY_INCOMPLETE"
code_text source_activation_mismatch = codes "SOURCE_ACTIVATION_MISMATCH"
code_text source_amendment_unavailable = codes "SOURCE_AMENDMENT_UNAVAILABLE"
code_text source_registry_not_blackholed = codes "SOURCE_REGISTRY_NOT_BLACKHOLED"
code_text source_registry_not_receivable = codes "SOURCE_REGISTRY_NOT_RECEIVABLE"
code_text source_divergence = codes "SOURCE_DIVERGENCE"
code_text source_tip_regression = codes "SOURCE_TIP_REGRESSION"
code_text source_unavailable = codes "SOURCE_UNAVAILABLE"

-- `stableIndexerErrorCodes.has(code)`
unfoldable pub is_stable_code : Text → Bool
unfolding text_eq
is_stable_code code = any (λ c. text_eq c code) stable_indexer_error_codes

unfoldable pub source_error_code : ThrownValue → Text
unfolding code_text is_stable_code
source_error_code (xrpl_source_error code) = code_text code
source_error_code (thrown_with none) = codes "INDEXER_FAILED"
source_error_code (thrown_with (some code)) =
    if is_stable_code code then code else codes "INDEXER_FAILED"
