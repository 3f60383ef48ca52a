-- ===== src/Sdk/Submission/Matching.antt =====
-- packages/sdk/src/submission.ts: which blob is submitted, how often, and what the run's journal begins
-- with then.
use xcs.Common.{
  ℕ, ◌≡◌, ◌⊎◌, inl, inr, refl, ◌∙◌, ap, Text, codes, ◌&&◌, List, [], ◌∷◌, ◌++◌, Option, none, some,
  Result, ok, err, Bool-cases, Result-cases, text_eq, to_upper,
}
use xcs.Common.Actions.{pure, lift, raise_unless, ◌>>=◌, ◌>>◌}
use xcs.Core.Json.{get}
use xcs.Indexer.Types.{Fields}
use xcs.Sdk.Submission.{
  SubmissionError, sdk_error, invalid_signer_result, prepared_stage, SubmissionJournalEntry,
  ReliableSubmissionResult, ClientFailure, SignerResult, Ports, Codec, Session, SubmissionOptions,
  Submitting, is_tx_hash, is_blob, as_positive_integer, assert_valid_single_signature,
  assert_signed_transaction_matches,
}
use xcs.Sdk.Submission.Flow.{entry, append, call, as_thrown}
use xcs.Sdk.Submission.Submit.{
  require_decoded, require_sequence, is_compatible, autofilled, submit_decoded,
  submit_signed_transaction, sign_checked, journal_failure, sign_prepared_and_submit,
}
use xcs.Sdk.Submission.Recovery.{signed_entry, Submitted, submit_decoded-Submitted}

module _ {S : Type 0} (ports : Ports S) (codec : Codec) (options : SubmissionOptions) where
  -- Nothing was submitted; or the blob was, once, with its entry before the others of the run.
  abbrev pub SubmittedOnce : Text → Session S → Session S → Type 0
  SubmittedOnce blob w v =
      (v.relayed ≡ w.relayed)
      ⊎ ((v.relayed ≡ w.relayed ++ (blob ∷ []))
          × (last_ledger : ℕ) × (rest : List SubmissionJournalEntry) × (v.journal
              ≡ w.journal
                ++ (signed_entry ports codec options (to_upper (codec.hash_signed_tx blob))
                      last_ledger
                    ∷ rest)))

  once :
      (blob : Text) (last_ledger : ℕ) (w v : Session S)
      → Submitted ports codec options blob (to_upper (codec.hash_signed_tx blob)) last_ledger w v
      → SubmittedOnce blob w v
  once blob last_ledger w v (inl same) = inl same
  once blob last_ledger w v (inr (relayed, rest, journal)) =
      inr (relayed, last_ledger, rest, journal)

  -- what follows the decoding of the blob
  abbrev decoded_submission : Text → Fields → Submitting S ReliableSubmissionResult
  decoded_submission blob fields = do
    lift (assert_valid_single_signature codec fields blob)
    last_ledger ←
        lift (require_sequence (as_positive_integer (get (codes "LastLedgerSequence") fields)))
    submit_decoded ports codec options blob (to_upper (codec.hash_signed_tx blob)) last_ledger

  after_decoding :
      (blob : Text) (fields : Fields) (w : Session S)
      → SubmittedOnce blob w (decoded_submission blob fields w).1
  after_decoding blob fields w =
      let sequence =
        require_sequence (as_positive_integer (get (codes "LastLedgerSequence") fields)) in
      let hash = to_upper (codec.hash_signed_tx blob) in
      elim (Result-cases (assert_valid_single_signature codec fields blob)) [
        | inr (x, h) ↦ rw h (inl refl)
        | inl (u, h) ↦ elim (Result-cases sequence) [
          | inr (x, i) ↦ rw (h, i) (inl refl)
          | inl (last_ledger, i) ↦
              rw (h, i)
                (once blob last_ledger w
                  (submit_decoded ports codec options blob hash last_ledger w).1
                  (submit_decoded-Submitted ports codec options blob hash last_ledger w))
        ]
      ]

  -- Whatever the client and the host answer, and whether the run returns or throws: a signed blob is
  -- submitted at most once, and then the journal has gained its `signed` entry, with the transaction's
  -- hash, before every other entry of the run.
  pub submit_signed_transaction-Once :
      (blob : Text) (w : Session S)
      → SubmittedOnce blob w (submit_signed_transaction ports codec options blob w).1
  unfolding submit_signed_transaction
  submit_signed_transaction-Once blob w = elim (Bool-cases (ports.is_connected w.state)) [
    | inr e ↦ rw e (inl refl)
    | inl e ↦ elim (Bool-cases (is_blob blob)) [
      | inr f ↦ rw (e, f) (inl refl)
      | inl f ↦ elim (Result-cases (require_decoded (codec.decode blob))) [
        | inr (x, g) ↦ rw (e, f, g) (inl refl)
        | inl (fields, g) ↦ rw (e, f, g) (after_decoding blob fields w)
      ]
    ]
  ]

  -- Nothing was submitted; or one blob was, which is signed and has the fields that were reviewed.
  abbrev pub SubmittedReviewed : Fields → Session S → Session S → Type 0
  SubmittedReviewed transaction w v =
      (v.relayed ≡ w.relayed)
      ⊎ ((blob : Text) × (fields : Fields) × (v.relayed ≡ w.relayed ++ (blob ∷ []))
          × (assert_signed_transaction_matches codec options.allow_refresh transaction blob
              ≡ ok fields))

  -- what the signing leaves: nothing submitted, and a blob that matches where it returns
  abbrev Signed : Fields → Session S → Result SubmissionError (Text × Option ℕ) × Session S → Type 0
  Signed transaction w (ok (blob, last_ledger), v) =
      (v.relayed ≡ w.relayed)
      × (fields : Fields) × (assert_signed_transaction_matches codec options.allow_refresh
            transaction blob
          ≡ ok fields)
  Signed transaction w (err e, v) = v.relayed ≡ w.relayed

  -- the checks of the signer's result
  abbrev checked_blob : Fields → SignerResult → Submitting S (Text × Option ℕ)
  checked_blob transaction signed = do
    raise_unless (is_tx_hash signed.hash && is_blob signed.tx_blob)
        (sdk_error invalid_signer_result)
    raise_unless (text_eq (to_upper (codec.hash_signed_tx signed.tx_blob)) (to_upper signed.hash))
        (sdk_error invalid_signer_result)
    fields ←
        lift
          (assert_signed_transaction_matches codec options.allow_refresh transaction signed.tx_blob)
    pure (signed.tx_blob, as_positive_integer (get (codes "LastLedgerSequence") fields))

  checked_blob-Signed :
      (transaction : Fields) (signed : SignerResult) (w v : Session S)
      → v.relayed ≡ w.relayed
      → Signed transaction w (checked_blob transaction signed v)
  checked_blob-Signed transaction signed w v same =
      elim (Bool-cases (is_tx_hash signed.hash && is_blob signed.tx_blob)) [
        | inr e ↦ rw e same
        | inl e ↦
            elim (Bool-cases
              (text_eq (to_upper (codec.hash_signed_tx signed.tx_blob)) (to_upper signed.hash))) [
                | inr f ↦ rw (e, f) same
                | inl f ↦
                    elim (Result-cases (
                      assert_signed_transaction_matches codec options.allow_refresh transaction
                        signed.tx_blob)) [
                          | inl (fields, g) ↦ rw (e, f, g) (same, fields, g)
                          | inr (x, g) ↦ rw (e, f, g) same
                        ]
              ]
      ]

  sign_checked-Signed :
      (transaction : Fields) (w : Session S)
      → Signed transaction w (sign_checked ports codec options transaction w)
  unfolding sign_checked
  sign_checked-Signed transaction w =
      go (ports.sign transaction w.state).0
        (record w { state = (ports.sign transaction w.state).1 }) refl
    where
      go :
          (r : Result ClientFailure SignerResult) (v : Session S)
          → v.relayed ≡ w.relayed
          → Signed transaction w ((lift (as_thrown r) >>= checked_blob transaction) v)
      go (ok signed) v same = checked_blob-Signed transaction signed w v same
      go (err e) v same = same

  -- a blob that was signed as reviewed is submitted
  reviewed :
      (transaction : Fields) (blob : Text) (w v : Session S)
      → Signed transaction w (ok (blob, none), v)
      → SubmittedReviewed transaction w (submit_signed_transaction ports codec options blob v).1
  reviewed transaction blob w v (same, fields, matching) =
      elim (submit_signed_transaction-Once blob v) [
        | inl e ↦ inl (e ∙ same)
        | inr (relayed, last, rest, journal) ↦
            inr (blob, fields, relayed ∙ ap (λ blobs. blobs ++ (blob ∷ [])) same, matching)
      ]

  -- after the signing
  abbrev submit_signed : Text × Option ℕ → Submitting S ReliableSubmissionResult
  submit_signed (blob, signed_last) = do
    journal_failure ports codec options signed_last (call (ports.on_validated_signature blob))
    submit_signed_transaction ports codec options blob

  Signed-Reviewed :
      (transaction : Fields) (last_ledger : ℕ) (signing : Submitting S (Text × Option ℕ))
      (w u : Session S)
      → Signed transaction w (signing u)
      → SubmittedReviewed transaction w
          ((journal_failure ports codec options (some last_ledger) signing >>= submit_signed) u).1
  Signed-Reviewed transaction last_ledger signing w u h = go (signing u) h
    where
      accepted :
          (blob : Text) (signed_last : Option ℕ) (r : Result ClientFailure (Unit {0}))
          (v : Session S)
          → Signed transaction w (ok (blob, none), v)
          → SubmittedReviewed transaction w
              ((journal_failure ports codec options signed_last (λ z. (as_thrown r, v))
                  >> submit_signed_transaction ports codec options blob)
                v).1
      accepted blob signed_last (ok done) v k = reviewed transaction blob w v k
      accepted blob signed_last (err e) v (same, fields, matching) = inl same

      go :
          (r : Result SubmissionError (Text × Option ℕ) × Session S)
          → Signed transaction w r
          → SubmittedReviewed transaction w
              ((journal_failure ports codec options (some last_ledger) (λ z. r) >>= submit_signed)
                u).1
      go (ok (blob, signed_last), v) (same, fields, matching) =
          accepted blob signed_last (ports.on_validated_signature blob v.state).0
            (record v { state = (ports.on_validated_signature blob v.state).1 })
            (same, fields, matching)
      go (err e, v) same = inl same

  -- Whatever the client, the signer and the host answer, and whether the run returns or throws: a run
  -- that signs and submits a prepared transaction submits nothing, or submits one blob only, and that
  -- blob passes the comparison with the transaction that was reviewed.
  pub sign_prepared_and_submit-Reviewed :
      (transaction : Fields) (w : Session S)
      → SubmittedReviewed transaction w
          (sign_prepared_and_submit ports codec options transaction w).1
  unfolding sign_prepared_and_submit
  sign_prepared_and_submit-Reviewed transaction w = elim (Bool-cases (ports.is_connected w.state)) [
    | inr e ↦ rw e (inl refl)
    | inl e ↦ elim (Bool-cases (is_compatible transaction)) [
      | inr f ↦ rw (e, f) (inl refl)
      | inl f ↦ elim (Result-cases (autofilled transaction)) [
        | inr (x, g) ↦ rw (e, f, g) (inl refl)
        | inl (last_ledger, g) ↦
            let prepared =
              entry options.operation_id prepared_stage none (some last_ledger) none none in
            rw (e, f, g)
              (Signed-Reviewed transaction last_ledger
                (sign_checked ports codec options transaction) w (append prepared w).1
                (sign_checked-Signed transaction (append prepared w).1))
      ]
    ]
  ]
