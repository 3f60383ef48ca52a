-- ===== src/Tests/Submission.antt =====
-- A submission through a client that answers after a while, and a clock.
use xcs.Common.{
  ◌+◌, ◌≡◌, ◌≢◌, refl, ℕ, suc, Text, codes, true, false, [], ◌∷◌, some, Result, ok, err, arith,
  text_eq, to_upper,
}
use xcs.Core.Json.{natural, number, string}
use xcs.Indexer.Types.{Fields}
use xcs.Sdk.Submission.{
  Ports, Codec, Session, SubmissionOptions, TxResponse, ClientFailure, txn_not_found, out_of_fuel,
  is_tx_hash, is_blob,
}
use xcs.Sdk.Submission.Flow.{wait_for_transaction}
use xcs.Sdk.Submission.Submit.{submit_signed_transaction, sign_prepared_and_submit}
use xcs.Sdk.Submission.Waiting.{Clock, wait_for_transaction-ends}
use xcs.Sdk.Submission.Matching.{
  SubmittedOnce, submit_signed_transaction-Once, SubmittedReviewed,
  sign_prepared_and_submit-Reviewed,
}

abbrev tx_hash : Text
tx_hash = codes "00000000000000000000000000000000000000000000000000000000000000AB"

abbrev blob : Text
blob = codes "1200"

abbrev prepared : Fields
prepared =
    (codes "TransactionType", string (codes "CredentialAccept"))
    ∷ (codes "Sequence", number (natural 5))
    ∷ (codes "Fee", string (codes "10"))
    ∷ (codes "LastLedgerSequence", number (natural 20))
    ∷ []

abbrev signed : Fields
signed =
    (codes "SigningPubKey", string (codes "ED"))
    ∷ (codes "TxnSignature", string (codes "AA"))
    ∷ prepared

-- the transaction is validated from the third millisecond on
abbrev answer : ℕ → Result ClientFailure TxResponse
answer (suc (suc (suc n))) = ok (record {
  validated = true;
  ledger_index = some (natural 12);
  transaction_result = some (codes "tesSUCCESS");
})
answer _ = err txn_not_found

-- The state is the time in milliseconds.
abbrev ports : Ports ℕ
ports = record {
  is_connected = λ s. true;
  submit = λ b s. (ok (some (codes "tesSUCCESS")), s);
  tx = λ h s. (answer s, s);
  ledger_current = λ s. (ok (natural 11), s);
  sign = λ f s. (ok (record { hash = tx_hash; tx_blob = blob }), s);
  on_validated_signature = λ b s. (ok tt, s);
  before_submit = λ b s. (ok tt, s);
  now = λ s. s;
  delay = λ n s. s + n;
}

abbrev codec : Codec
codec = record {
  decode = λ b. some signed;
  encode = λ f. codes "";
  hash_signed_tx = λ b. tx_hash;
  verify_signature = λ b. true;
}

abbrev options : SubmissionOptions
options = record {
  operation_id = codes "op";
  poll_interval_ms = 1;
  timeout_ms = 10;
  allow_refresh = false;
}

abbrev session : Session ℕ
session = record { state = 0; journal = []; relayed = [] }

ports-Clock : Clock ports 1
ports-Clock = record {
  tx_later = λ h s. omega arith;
  ledger_later = λ s. omega arith;
  delay_later = λ s. omega arith;
}

is_submitted :
    (sign_prepared_and_submit ports codec options prepared session).1.relayed ≡ (blob ∷ [])
unfolding sign_prepared_and_submit text_eq is_tx_hash is_blob to_upper
is_submitted = refl

wait_for_transaction-ends_example :
    (wait_for_transaction ports options tx_hash 20 session).0 ≢ err out_of_fuel
wait_for_transaction-ends_example =
    wait_for_transaction-ends ports options tx_hash 20 session ports-Clock

submit_signed_transaction-Once_example :
    SubmittedOnce ports codec options blob session
      (submit_signed_transaction ports codec options blob session).1
submit_signed_transaction-Once_example =
    submit_signed_transaction-Once ports codec options blob session

sign_prepared_and_submit-Reviewed_example :
    SubmittedReviewed ports codec options prepared session
      (sign_prepared_and_submit ports codec options prepared session).1
sign_prepared_and_submit-Reviewed_example =
    sign_prepared_and_submit-Reviewed ports codec options prepared session
