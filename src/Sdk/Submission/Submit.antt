-- ===== src/Sdk/Submission/Submit.antt =====
-- packages/sdk/src/submission.ts: `submitSignedTransaction` and `signPreparedAndSubmit`.
use xcs.Common.{
  ℕ, Text, codes, Bool, true, false, ◌&&◌, [], ◌∷◌, ◌++◌, Option, none, some, Result, ok, err, leb,
  text_eq, if◌then◌else◌, length, take, to_upper,
}
use xcs.Common.Actions.{pure, raise, lift, modify, raise_unless, ◌>>=◌, ◌>>◌}
use xcs.Core.Json.{JsonValue, natural, number, string, get}
use xcs.Indexer.Types.{Fields}
use xcs.Indexer.Status.{is_some}
use xcs.Sdk.Submission.{
  client_not_connected, autofill_incomplete, invalid_uri, invalid_signer_result,
  invalid_signed_blob, SubmissionError, sdk_error, prepared_stage, signed_stage, submitted_stage,
  pending_stage, failed_stage, is_not_found, ReliableSubmissionResult, ClientFailure, Ports, Codec,
  SubmissionOptions, Submitting, is_tx_hash, is_blob, as_positive_integer,
  assert_valid_single_signature, assert_signed_transaction_matches,
}
use xcs.Sdk.Submission.Flow.{
  entry, stage_of, append, call, attempt, as_thrown, status_of, wait_for_transaction,
}

abbrev pub require_decoded : Option Fields → Result SubmissionError Fields
require_decoded none = err (sdk_error invalid_signed_blob)
require_decoded (some fields) = ok fields

abbrev pub require_sequence : Option ℕ → Result SubmissionError ℕ
require_sequence none = err (sdk_error invalid_signed_blob)
require_sequence (some n) = ok n

-- `submitEngineResult?.startsWith('tem')`
abbrev pub is_malformed : Option Text → Bool
is_malformed none = false
is_malformed (some result) = text_eq (take 3 result) (codes "tem")

-- `assertXrplJs5Compatibility`
abbrev pub short_uri : Option JsonValue → Bool
short_uri (some (string uri)) = leb (length uri) 256
short_uri _ = true

abbrev pub is_create : Option JsonValue → Bool
is_create (some (string name)) = text_eq name (codes "CredentialCreate")
is_create _ = false

unfoldable pub is_compatible : Fields → Bool
unfolding get text_eq
is_compatible fields =
    if is_create (get (codes "TransactionType") fields)
    then short_uri (get (codes "URI") fields)
    else true

abbrev pub is_sequence : Option JsonValue → Bool
is_sequence (some (number (natural n))) = true
is_sequence _ = false

-- the fields of an autofilled transaction
unfoldable pub autofilled : Fields → Result SubmissionError ℕ
unfolding get as_positive_integer
autofilled fields =
    if is_sequence (get (codes "Sequence") fields) && is_some (get (codes "Fee") fields)
    then required (as_positive_integer (get (codes "LastLedgerSequence") fields))
    else err (sdk_error autofill_incomplete)
  where
    required : Option ℕ → Result SubmissionError ℕ
    required none = err (sdk_error autofill_incomplete)
    required (some n) = ok n

module _ {S : Type 0} (ports : Ports S) (codec : Codec) (options : SubmissionOptions) where
  -- the call of `client.submit`, and the blob noted
  abbrev pub relay : Text → Submitting S (Result ClientFailure (Option Text))
  relay tx_blob = do
    modify (λ w. record w { relayed = w.relayed ++ (tx_blob ∷ []) })
    attempt (ports.submit tx_blob)

  -- the wait, and what is journaled of it
  unfoldable pub reconcile : Text → ℕ → Option Text → Submitting S ReliableSubmissionResult
  unfolding wait_for_transaction
  reconcile tx_hash last_ledger engine_result = do
    status ← wait_for_transaction ports options tx_hash last_ledger
    append (
        entry options.operation_id (stage_of status.status) (some tx_hash) (some last_ledger)
          status.transaction_result status.ledger_index)
    pure (record {
      status = status;
      operation_id = options.operation_id;
      submit_engine_result = engine_result;
    })

  -- rippled refused the transaction before relaying it
  abbrev pub report_malformed : Text → ℕ → Option Text → Submitting S ReliableSubmissionResult
  report_malformed tx_hash last_ledger engine_result = do
    append (
        entry options.operation_id failed_stage (some tx_hash) (some last_ledger) engine_result
          none)
    pure (record {
      status = status_of is_not_found tx_hash (some last_ledger) none none;
      operation_id = options.operation_id;
      submit_engine_result = engine_result;
    })

  -- after the response of `submit`, or its rejection
  unfoldable pub after_submit :
      Text → ℕ → Result ClientFailure (Option Text) → Submitting S ReliableSubmissionResult
  unfolding reconcile text_eq
  after_submit tx_hash last_ledger (err e) = do
    append (entry options.operation_id pending_stage (some tx_hash) (some last_ledger) none none)
    reconcile tx_hash last_ledger none
  after_submit tx_hash last_ledger (ok engine_result) = do
    append (
        entry options.operation_id submitted_stage (some tx_hash) (some last_ledger) engine_result
          none)
    (if is_malformed engine_result
        then report_malformed tx_hash last_ledger engine_result
        else reconcile tx_hash last_ledger engine_result)

  -- `beforeSubmit`, whose error is journaled and goes on
  abbrev pub guard_submit : Text → ℕ → Result ClientFailure (Unit {0}) → Submitting S (Unit {0})
  guard_submit tx_hash last_ledger (ok done) = pure tt
  guard_submit tx_hash last_ledger (err e) = do
    append (entry options.operation_id signed_stage (some tx_hash) (some last_ledger) none none)
    lift (as_thrown (err e))

  -- from the first entry of the journal on
  unfoldable pub submit_decoded : Text → Text → ℕ → Submitting S ReliableSubmissionResult
  unfolding after_submit
  submit_decoded tx_blob tx_hash last_ledger = do
    append (entry options.operation_id signed_stage (some tx_hash) (some last_ledger) none none)
    allowed ← attempt (ports.before_submit tx_blob)
    guard_submit tx_hash last_ledger allowed
    response ← relay tx_blob
    after_submit tx_hash last_ledger response

  unfoldable pub submit_signed_transaction : Text → Submitting S ReliableSubmissionResult
  unfolding is_blob assert_valid_single_signature as_positive_integer get submit_decoded
  submit_signed_transaction tx_blob = do
    connected ← λ w. (ok (ports.is_connected w.state), w)
    raise_unless connected (sdk_error client_not_connected)
    raise_unless (is_blob tx_blob) (sdk_error invalid_signed_blob)
    fields ← lift (require_decoded (codec.decode tx_blob))
    lift (assert_valid_single_signature codec fields tx_blob)
    last_ledger ←
        lift (require_sequence (as_positive_integer (get (codes "LastLedgerSequence") fields)))
    submit_decoded tx_blob (to_upper (codec.hash_signed_tx tx_blob)) last_ledger

  -- The `try` of `signPreparedAndSubmit` up to the host's guard: the signed blob, and the sequence that
  -- it was signed with.
  unfoldable pub sign_checked : Fields → Submitting S (Text × Option ℕ)
  unfolding is_tx_hash is_blob text_eq assert_signed_transaction_matches as_positive_integer get
  sign_checked transaction = do
    signed ← call (ports.sign transaction)
    raise_unless (is_tx_hash signed.hash && is_blob signed.tx_blob)
        (sdk_error invalid_signer_result)
    raise_unless (text_eq (to_upper (codec.hash_signed_tx signed.tx_blob)) (to_upper signed.hash))
        (sdk_error invalid_signer_result)
    fields ←
        lift
          (assert_signed_transaction_matches codec options.allow_refresh transaction signed.tx_blob)
    pure (signed.tx_blob, as_positive_integer (get (codes "LastLedgerSequence") fields))

  -- The `catch`: the failure is journaled, and the error goes on.
  abbrev pub journal_failure : {A : Type 0} → Option ℕ → Submitting S A → Submitting S A
  journal_failure last_ledger signing w =
      let (r, next) = signing w in
      elim r [
        | ok a ↦ (ok a, next)
        | err e ↦
            (append (entry options.operation_id failed_stage none last_ledger none none) >> raise e)
              next
      ]

  unfoldable pub sign_prepared_and_submit : Fields → Submitting S ReliableSubmissionResult
  unfolding is_compatible autofilled sign_checked submit_signed_transaction
  sign_prepared_and_submit transaction = do
    connected ← λ w. (ok (ports.is_connected w.state), w)
    raise_unless connected (sdk_error client_not_connected)
    raise_unless (is_compatible transaction) (sdk_error invalid_uri)
    last_ledger ← lift (autofilled transaction)
    append (entry options.operation_id prepared_stage none (some last_ledger) none none)
    (tx_blob, signed_last) ← journal_failure (some last_ledger) (sign_checked transaction)
    journal_failure signed_last (call (ports.on_validated_signature tx_blob))
    submit_signed_transaction tx_blob
