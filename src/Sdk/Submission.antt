-- ===== src/Sdk/Submission.antt =====
-- packages/sdk/src/submission.ts: signing and submitting a transaction, with a journal in memory. The
-- client, the wallet and the host's guards are calls on a state that is theirs; the time of a journal
-- entry is left out.
pub mod Flow
pub mod Submit
pub mod Waiting
pub mod Recovery
pub mod Matching
use mathlib.Core.Option
use xcs.Common.{
  ℕ, zero, suc, ◌+◌, ◌/◌, Text, codes, Bool, true, false, not, ◌&&◌, ◌||◌, List, [], ◌∷◌, ◌++◌,
  Option, none, some, Result, ok, err, ltb, leb, ◌==◌, text_eq, if◌then◌else◌, length, all, filter,
  is_hex, to_upper, take,
}
use xcs.Common.Actions.{Action, pure, raise, lift, modify, raise_unless, ◌>>=◌, ◌>>◌}
use xcs.Core.Json.{JsonValue, JsonNumber, natural, other, number, string, get}
use xcs.Indexer.Types.{Fields}
use xcs.Indexer.Status.{is_some}

pub data XcsSdkErrorCode : Type 0 where
  client_not_connected autofill_incomplete invalid_uri invalid_signer_result invalid_signed_blob :
      XcsSdkErrorCode
  submission_failed transaction_expired ledger_current_invalid : XcsSdkErrorCode

-- An XcsSdkError, an error of the client, the wallet or a guard, or, in the model alone, a wait that
-- its fuel did not see to the end.
pub data SubmissionError : Type 0 where
  sdk_error : XcsSdkErrorCode → SubmissionError
  thrown : SubmissionError
  out_of_fuel : SubmissionError

pub data SubmissionJournalStage : Type 0 where
  prepared_stage signed_stage submitted_stage validated_stage : SubmissionJournalStage
  expired_stage pending_stage failed_stage : SubmissionJournalStage

pub record SubmissionJournalEntry : Type 0 where
  pub operation_id : Text
  pub stage : SubmissionJournalStage
  pub tx_hash : Option Text
  pub last_ledger_sequence : Option ℕ
  pub engine_result : Option Text
  pub ledger_index : Option ℕ

pub data TransactionState : Type 0 where
  is_validated is_pending is_expired is_not_found : TransactionState

pub record TransactionStatus : Type 0 where
  pub status : TransactionState
  pub tx_hash : Text
  pub last_ledger_sequence : Option ℕ
  pub ledger_index : Option ℕ
  pub transaction_result : Option Text

pub record ReliableSubmissionResult : Type 0 where
  pub status : TransactionStatus
  pub operation_id : Text
  pub submit_engine_result : Option Text

-- the response to `tx`, and the two ways in which the request is rejected
pub record TxResponse : Type 0 where
  pub validated : Bool
  pub ledger_index : Option JsonNumber
  pub transaction_result : Option Text

pub data ClientFailure : Type 0 where
  txn_not_found other_failure : ClientFailure

pub record SignerResult : Type 0 where
  pub hash : Text
  pub tx_blob : Text

-- The client, the signer and the host, each with the state after the call; `now` is `Date.now()`.
pub record Ports (S : Type 0) : Type 0 where
  pub is_connected : S → Bool
  pub submit : Text → S → Result ClientFailure (Option Text) × S
  pub tx : Text → S → Result ClientFailure TxResponse × S
  pub ledger_current : S → Result ClientFailure JsonNumber × S
  pub sign : Fields → S → Result ClientFailure SignerResult × S
  pub on_validated_signature : Text → S → Result ClientFailure (Unit {0}) × S
  pub before_submit : Text → S → Result ClientFailure (Unit {0}) × S
  pub now : S → ℕ
  pub delay : ℕ → S → S

-- What the code calls of xrpl on a signed blob.
pub record Codec : Type 0 where
  pub decode : Text → Option Fields
  pub encode : Fields → Text
  pub hash_signed_tx : Text → Text
  pub verify_signature : Text → Bool

pub record Session (S : Type 0) : Type 0 where
  pub state : S
  pub journal : List SubmissionJournalEntry
  -- the blobs that `client.submit` was called with
  pub relayed : List Text

pub record SubmissionOptions : Type 0 where
  pub operation_id : Text
  pub poll_interval_ms : ℕ
  pub timeout_ms : ℕ
  pub allow_refresh : Bool

abbrev pub Submitting : Type 0 → Type 0 → Type 0
Submitting S A = Action (Session S) SubmissionError A

-- HASH_PATTERN: /^[0-9a-fA-F]{64}$/u, and BLOB_PATTERN: /^(?:[0-9a-fA-F]{2})+$/u
unfoldable pub is_tx_hash : Text → Bool
unfolding is_hex
is_tx_hash value = all is_hex value && length value == 64

abbrev pub is_even : ℕ → Bool
is_even zero = true
is_even (suc zero) = false
is_even (suc (suc n)) = is_even n

unfoldable pub is_blob : Text → Bool
unfolding is_hex
is_blob value = all is_hex value && (is_even (length value) && leb 2 (length value))

unfoldable pub as_positive_integer : Option JsonValue → Option ℕ
as_positive_integer (some (number (natural n))) = if leb 1 n then some n else none
as_positive_integer _ = none

abbrev pub positive : Option JsonNumber → Option ℕ
positive none = none
positive (some n) = as_positive_integer (some (number n))

abbrev pub is_signature_field : Text × JsonValue → Bool
is_signature_field (name, value) =
    text_eq name (codes "Signers")
    || (text_eq name (codes "SigningPubKey") || text_eq name (codes "TxnSignature"))

unfoldable pub without_signature_fields : Fields → Fields
unfolding text_eq
without_signature_fields fields = filter (λ f. not (is_signature_field f)) fields

abbrev pub without_last_ledger : Fields → Fields
without_last_ledger fields =
    filter (λ (f : Text × JsonValue). not (text_eq f.0 (codes "LastLedgerSequence"))) fields

abbrev pub is_filled : Option JsonValue → Bool
is_filled (some (string (c ∷ cs))) = true
is_filled _ = false

module _ (codec : Codec) where
  -- `assertValidSingleSignature`
  unfoldable pub assert_valid_single_signature : Fields → Text → Result SubmissionError (Unit {0})
  unfolding get
  assert_valid_single_signature fields tx_blob =
      if not (is_some (get (codes "Signers") fields))
        && (is_filled (get (codes "SigningPubKey") fields)
            && (is_filled (get (codes "TxnSignature") fields) && codec.verify_signature tx_blob))
      then ok tt
      else err (sdk_error invalid_signed_blob)

  abbrev pub bound_fields : Bool → Fields → Fields
  bound_fields true fields = without_last_ledger (without_signature_fields fields)
  bound_fields false fields = without_signature_fields fields

  abbrev pub refreshed : Bool → Fields → Bool
  refreshed true fields = is_some (as_positive_integer (get (codes "LastLedgerSequence") fields))
  refreshed false fields = true

  unfoldable pub signed_fields :
      Bool → Fields → Text → Option Fields → Result SubmissionError Fields
  unfolding assert_valid_single_signature without_signature_fields as_positive_integer get text_eq
  signed_fields allow prepared tx_blob none = err (sdk_error invalid_signed_blob)
  signed_fields allow prepared tx_blob (some fields) =
      elim (assert_valid_single_signature fields tx_blob) [
        | err e ↦ err e
        | ok done ↦
            if not (refreshed allow (without_signature_fields fields))
            then err (sdk_error invalid_signed_blob)
            else if text_eq (codec.encode (bound_fields allow prepared))
                (codec.encode (bound_fields allow fields))
            then ok (without_signature_fields fields)
            else err (sdk_error invalid_signer_result)
      ]

  unfoldable pub assert_signed_transaction_matches :
      Bool → Fields → Text → Result SubmissionError Fields
  unfolding signed_fields
  assert_signed_transaction_matches allow prepared tx_blob =
      signed_fields allow prepared tx_blob (codec.decode tx_blob)
