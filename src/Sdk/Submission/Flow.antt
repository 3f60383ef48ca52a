-- ===== src/Sdk/Submission/Flow.antt =====
-- packages/sdk/src/submission.ts: the steps of a submission.
use xcs.Common.{
  ℕ, zero, suc, ◌+◌, Text, Bool, true, false, ◌&&◌, [], ◌∷◌, ◌++◌, Option, none, some, Result, ok,
  err, ltb, leb, if◌then◌else◌, to_upper,
}
use xcs.Common.Actions.{pure, raise, lift, modify, raise_unless, ◌>>=◌, ◌>>◌}
use xcs.Core.Json.{JsonNumber, natural, other, non_finite}
use xcs.Sdk.Submission.{
  client_not_connected, invalid_signed_blob, submission_failed, transaction_expired,
  ledger_current_invalid, SubmissionError, sdk_error, thrown, out_of_fuel, SubmissionJournalStage,
  validated_stage, expired_stage, pending_stage, SubmissionJournalEntry, TransactionState,
  is_validated, is_pending, is_expired, is_not_found, TransactionStatus, TxResponse, ClientFailure,
  txn_not_found, other_failure, Ports, SubmissionOptions, Submitting, is_tx_hash,
  as_positive_integer, positive,
}

abbrev pub entry :
    Text
    → SubmissionJournalStage
    → Option Text
    → Option ℕ
    → Option Text
    → Option ℕ
    → SubmissionJournalEntry
entry operation stage hash last_ledger engine_result ledger_index = record {
  operation_id = operation;
  stage = stage;
  tx_hash = hash;
  last_ledger_sequence = last_ledger;
  engine_result = engine_result;
  ledger_index = ledger_index;
}

abbrev pub stage_of : TransactionState → SubmissionJournalStage
stage_of is_validated = validated_stage
stage_of is_pending = pending_stage
stage_of is_expired = expired_stage
stage_of is_not_found = pending_stage

-- a rejection that is an error of the whole
abbrev pub as_thrown : {A : Type 0} → Result ClientFailure A → Result SubmissionError A
as_thrown (ok a) = ok a
as_thrown (err e) = err thrown

module _ {S : Type 0} where
  -- `append` to a MemoryOperationJournal
  abbrev pub append : SubmissionJournalEntry → Submitting S (Unit {0})
  append e = modify (λ w. record w { journal = w.journal ++ (e ∷ []) })

  abbrev pub call : {A : Type 0} → (S → Result ClientFailure A × S) → Submitting S A
  call port w = let (r, s) = port w.state in (as_thrown r, record w { state = s })

  -- a call whose rejection is caught
  abbrev pub attempt :
      {A : Type 0} → (S → Result ClientFailure A × S) → Submitting S (Result ClientFailure A)
  attempt port w = let (r, s) = port w.state in (ok r, record w { state = s })

abbrev pub is_hex_uint32 : JsonNumber → Option ℕ
is_hex_uint32 (natural n) = if leb 1 n && leb n 0xffff_ffff then some n else none
is_hex_uint32 (other tag) = none
is_hex_uint32 non_finite = none

abbrev pub require_index : Option ℕ → Result SubmissionError ℕ
require_index none = err (sdk_error ledger_current_invalid)
require_index (some n) = ok n

abbrev pub status_of :
    TransactionState → Text → Option ℕ → Option ℕ → Option Text → TransactionStatus
status_of state hash last_ledger ledger_index result = record {
  status = state;
  tx_hash = hash;
  last_ledger_sequence = last_ledger;
  ledger_index = ledger_index;
  transaction_result = result;
}

abbrev pub is_final : TransactionState → Bool
is_final is_validated = true
is_final is_expired = true
is_final _ = false

-- what is returned at the deadline
abbrev pub pending_if_not_found : TransactionState → TransactionState
pending_if_not_found is_not_found = is_pending
pending_if_not_found state = state

abbrev pub at_deadline : TransactionStatus → TransactionStatus
at_deadline status = record status { status = pending_if_not_found status.status }

module _ {S : Type 0} (ports : Ports S) where
  unfoldable pub get_current_ledger_index : Submitting S ℕ
  get_current_ledger_index = do
    response ← call ports.ledger_current
    lift (require_index (is_hex_uint32 response))

  abbrev pub not_found_status : Text → Option ℕ → Submitting S TransactionStatus
  not_found_status hash none = pure (status_of is_not_found hash none none none)
  not_found_status hash (some last_ledger) = do
    current ← get_current_ledger_index
    pure (
        status_of (if ltb last_ledger current then is_expired else is_not_found) hash
          (some last_ledger) none none)

  abbrev pub response_status :
      Text → Option ℕ → Result ClientFailure TxResponse → Submitting S TransactionStatus
  response_status hash last_ledger (err other_failure) = raise thrown
  response_status hash last_ledger (err txn_not_found) = not_found_status hash last_ledger
  response_status hash last_ledger (ok response) = pure (
      if response.validated
      then status_of is_validated hash last_ledger (positive response.ledger_index)
          response.transaction_result
      else status_of is_pending hash last_ledger none none)

  unfoldable pub get_transaction_status : Text → Option ℕ → Submitting S TransactionStatus
  unfolding is_tx_hash get_current_ledger_index as_positive_integer
  get_transaction_status tx_hash last_ledger = do
    raise_unless (is_tx_hash tx_hash) (sdk_error submission_failed)
    response ← attempt (ports.tx (to_upper tx_hash))
    response_status (to_upper tx_hash) last_ledger response

  -- the rest of the loop once a status is there: `again` is the next turn
  abbrev pub after_status :
      ℕ → ℕ → TransactionStatus → Submitting S TransactionStatus → Submitting S TransactionStatus
  after_status poll deadline status again w =
      if is_final status.status
      then (ok status, w)
      else if leb deadline (ports.now w.state)
      then (ok (at_deadline status), w)
      else again (record w { state = ports.delay poll w.state })

  -- The loop of `waitForTransaction`, on fuel.
  unfoldable pub wait_until : ℕ → Text → ℕ → ℕ → ℕ → Submitting S TransactionStatus
  unfolding get_transaction_status
  wait_until zero hash last_ledger poll deadline = raise out_of_fuel
  wait_until (suc fuel) hash last_ledger poll deadline = do
    status ← get_transaction_status hash (some last_ledger)
    after_status poll deadline status (wait_until fuel hash last_ledger poll deadline)

  unfoldable pub wait_for_transaction :
      SubmissionOptions → Text → ℕ → Submitting S TransactionStatus
  unfolding wait_until
  wait_for_transaction options hash last_ledger w =
      wait_until (suc options.timeout_ms) hash last_ledger options.poll_interval_ms
        (ports.now w.state + options.timeout_ms) w

  unfoldable pub assert_transaction_not_expired : ℕ → Submitting S ℕ
  unfolding get_current_ledger_index
  assert_transaction_not_expired last_ledger = do
    connected ← λ w. (ok (ports.is_connected w.state), w)
    raise_unless connected (sdk_error client_not_connected)
    raise_unless (leb 1 last_ledger) (sdk_error invalid_signed_blob)
    current ← get_current_ledger_index
    raise_unless (leb current last_ledger) (sdk_error transaction_expired)
    pure current
