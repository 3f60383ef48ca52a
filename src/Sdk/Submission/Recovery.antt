-- ===== src/Sdk/Submission/Recovery.antt =====
-- packages/sdk/src/submission.ts: what a run of the submission does to the journal, and which blobs it submits.
use mathlib.Core.Path.{subst}
use xcs.Common.{
  ℕ, zero, suc, ◌+◌, ◌≡◌, ◌⊎◌, inl, inr, refl, sym, ◌∙◌, ap, Text, List, [], ◌∷◌, ◌++◌, Option,
  none, some, Result, ok, err, if◌then◌else◌, Bool-cases, leb, ltb, to_upper,
}
use xcs.Common.Actions.{pure, lift, raise_unless, ◌>>=◌, ◌>>◌, Ends, Ends-bind}
use xcs.Sdk.Submission.{
  sdk_error, submission_failed, signed_stage, submitted_stage, pending_stage, failed_stage,
  SubmissionJournalEntry, TransactionStatus, ReliableSubmissionResult, TxResponse, ClientFailure,
  txn_not_found, other_failure, is_expired, is_not_found, Ports, Codec, Session, SubmissionOptions,
  Submitting, is_tx_hash,
}
use xcs.Sdk.Submission.Flow.{
  entry, stage_of, append, call, attempt, status_of, require_index, is_hex_uint32,
  get_current_ledger_index, response_status, get_transaction_status, is_final, after_status,
  wait_until, wait_for_transaction,
}
use xcs.Sdk.Submission.Submit.{
  relay, reconcile, after_submit, guard_submit, submit_decoded, is_malformed,
}

-- The journal has grown, and nothing was submitted.
record Extends {S : Type 0} (w v : Session S) : Type 0 where
  relayed : v.relayed ≡ w.relayed
  written : List SubmissionJournalEntry
  journal : v.journal ≡ w.journal ++ written

append_nil : {A : Type 0} (xs : List A) → xs ++ [] ≡ xs
append_nil [] = refl
append_nil (x ∷ xs) = ap (λ ys. x ∷ ys) (append_nil xs)

append_assoc : {A : Type 0} (xs ys zs : List A) → (xs ++ ys) ++ zs ≡ xs ++ (ys ++ zs)
append_assoc [] ys zs = refl
append_assoc (x ∷ xs) ys zs = ap (λ a. x ∷ a) (append_assoc xs ys zs)

module _ {S : Type 0} where
  unwritten : (w v : Session S) → v.relayed ≡ w.relayed → v.journal ≡ w.journal → Extends w v
  unwritten w v e f = record { relayed = e; written = []; journal = f ∙ sym (append_nil w.journal) }

  Extends-trans : (w v u : Session S) → Extends w v → Extends v u → Extends w u
  Extends-trans w v u h k = record {
    relayed = k.relayed ∙ h.relayed;
    written = h.written ++ k.written;
    journal =
        k.journal
        ∙ (ap (λ j. j ++ k.written) h.journal ∙ append_assoc w.journal h.written k.written);
  }

  appended : (e : SubmissionJournalEntry) (w : Session S) → Extends w (append e w).1
  appended e w = record { relayed = refl; written = e ∷ []; journal = refl }

  -- a run after one that has only written
  Extends-bind :
      {A B : Type 0} (w0 : Session S) (m : Submitting S A) (rest : A → Submitting S B)
      (w : Session S)
      → Extends w0 (m w).1
      → ((a : A) (next : Session S) → Extends w0 next → Ends (Extends w0) (rest a next))
      → Ends (Extends w0) ((m >>= rest) w)
  Extends-bind w0 m rest w h k =
      Ends-bind (Extends w0) m rest w (λ e next eq. subst (λ r. Extends w0 r.1) eq h)
        λ a next eq. k a next (subst (λ r. Extends w0 r.1) eq h)

  module _ (ports : Ports S) where
    called :
        {A : Type 0} (port : S → Result ClientFailure A × S) (w0 w : Session S)
        → Extends w0 w
        → Extends w0 (call port w).1
    called port w0 w h = record { relayed = h.relayed; written = h.written; journal = h.journal }

    current-Extends :
        (w0 w : Session S) → Extends w0 w → Ends (Extends w0) (get_current_ledger_index ports w)
    unfolding get_current_ledger_index
    current-Extends w0 w h =
        Extends-bind w0 (call ports.ledger_current)
          (λ response. lift (require_index (is_hex_uint32 response))) w
          (called ports.ledger_current w0 w h) λ response next k. k

    response-Extends :
        (hash : Text) (last_ledger : ℕ) (r : Result ClientFailure TxResponse) (w0 w : Session S)
        → Extends w0 w
        → Ends (Extends w0) (response_status ports hash (some last_ledger) r w)
    response-Extends hash last_ledger (ok response) w0 w h = h
    response-Extends hash last_ledger (err other_failure) w0 w h = h
    response-Extends hash last_ledger (err txn_not_found) w0 w h =
        Extends-bind w0 (get_current_ledger_index ports)
          (λ current. pure (
            status_of (if ltb last_ledger current then is_expired else is_not_found) hash
              (some last_ledger) none none))
          w (current-Extends w0 w h) λ current next k. k

    status-Extends :
        (hash : Text) (last_ledger : ℕ) (w0 w : Session S)
        → Extends w0 w
        → Ends (Extends w0) (get_transaction_status ports hash (some last_ledger) w)
    unfolding get_transaction_status
    status-Extends hash last_ledger w0 w h =
        Extends-bind w0 (raise_unless (is_tx_hash hash) (sdk_error submission_failed))
          (λ u. attempt (ports.tx (to_upper hash)) >>= λ response.
            response_status ports (to_upper hash) (some last_ledger) response)
          w h
          λ u next k.
            Extends-bind w0 (attempt (ports.tx (to_upper hash)))
              (λ response. response_status ports (to_upper hash) (some last_ledger) response) next
              (called (ports.tx (to_upper hash)) w0 next k)
              λ response after l. response-Extends (to_upper hash) last_ledger response w0 after l

    turn-Extends :
        (poll deadline : ℕ) (status : TransactionStatus) (again : Submitting S TransactionStatus)
        (w0 w : Session S)
        → Extends w0 w
        → ((v : Session S) → Extends w0 v → Ends (Extends w0) (again v))
        → Ends (Extends w0) (after_status ports poll deadline status again w)
    turn-Extends poll deadline status again w0 w h k = elim (Bool-cases (is_final status.status)) [
      | inl e ↦ rw e h
      | inr e ↦ elim (Bool-cases (leb deadline (ports.now w.state))) [
        | inl f ↦ rw (e, f) h
        | inr f ↦
            rw (e, f) (k _ record { relayed = h.relayed; written = h.written; journal = h.journal })
      ]
    ]

    wait-Extends :
        (fuel : ℕ) (hash : Text) (last_ledger poll deadline : ℕ) (w0 w : Session S)
        → Extends w0 w
        → Ends (Extends w0) (wait_until ports fuel hash last_ledger poll deadline w)
    unfolding wait_until
    wait-Extends zero hash last_ledger poll deadline w0 w h = h
    wait-Extends (suc fuel) hash last_ledger poll deadline w0 w h =
        Extends-bind w0 (get_transaction_status ports hash (some last_ledger))
          (λ status.
            after_status ports poll deadline status
              (wait_until ports fuel hash last_ledger poll deadline))
          w (status-Extends hash last_ledger w0 w h)
          λ status next k.
            turn-Extends poll deadline status (wait_until ports fuel hash last_ledger poll deadline)
              w0 next k λ v l. wait-Extends fuel hash last_ledger poll deadline w0 v l

module _ {S : Type 0} (ports : Ports S) (codec : Codec) (options : SubmissionOptions) where
  -- the last entry, of the status that was waited for
  note_status : Text → ℕ → Option Text → TransactionStatus → Submitting S ReliableSubmissionResult
  note_status hash last_ledger engine_result status =
      append (
        entry options.operation_id (stage_of status.status) (some hash) (some last_ledger)
          status.transaction_result status.ledger_index)
      >> pure (record {
        status = status;
        operation_id = options.operation_id;
        submit_engine_result = engine_result;
      })

  reconcile-Extends :
      (hash : Text) (last_ledger : ℕ) (engine_result : Option Text) (w0 w : Session S)
      → Extends w0 w
      → Ends (Extends w0) (reconcile ports codec options hash last_ledger engine_result w)
  unfolding reconcile wait_for_transaction note_status
  reconcile-Extends hash last_ledger engine_result w0 w h =
      Extends-bind w0 (wait_for_transaction ports options hash last_ledger)
        (note_status hash last_ledger engine_result) w
        (wait-Extends ports (suc options.timeout_ms) hash last_ledger options.poll_interval_ms
          (ports.now w.state + options.timeout_ms) w0 w h)
        λ status next k.
          Extends-trans w0 next
            (append
              (entry options.operation_id (stage_of status.status) (some hash) (some last_ledger)
                status.transaction_result status.ledger_index)
              next).1
            k
            (appended
              (entry options.operation_id (stage_of status.status) (some hash) (some last_ledger)
                status.transaction_result status.ledger_index)
              next)

  after_submit-Extends :
      (hash : Text) (last_ledger : ℕ) (response : Result ClientFailure (Option Text))
      (w : Session S)
      → Ends (Extends w) (after_submit ports codec options hash last_ledger response w)
  unfolding after_submit
  after_submit-Extends hash last_ledger (err e) w =
      let e1 = entry options.operation_id pending_stage (some hash) (some last_ledger) none none in
      reconcile-Extends hash last_ledger none w (append e1 w).1 (appended e1 w)
  after_submit-Extends hash last_ledger (ok engine_result) w =
      let e1 =
        entry options.operation_id submitted_stage (some hash) (some last_ledger) engine_result
          none in
      let e2 =
        entry options.operation_id failed_stage (some hash) (some last_ledger) engine_result none in
      let w1 = (append e1 w).1 in
      elim (Bool-cases (is_malformed engine_result)) [
        | inl e ↦ rw e (Extends-trans w w1 (append e2 w1).1 (appended e1 w) (appended e2 w1))
        | inr e ↦ rw e (reconcile-Extends hash last_ledger engine_result w w1 (appended e1 w))
      ]

  abbrev pub signed_entry : Text → ℕ → SubmissionJournalEntry
  signed_entry hash last_ledger =
      entry options.operation_id signed_stage (some hash) (some last_ledger) none none

  -- Nothing was submitted; or the blob was, once, and its entry is in the journal before all others of
  -- the run.
  abbrev pub Submitted : Text → Text → ℕ → Session S → Session S → Type 0
  Submitted blob hash last_ledger w v =
      (v.relayed ≡ w.relayed)
      ⊎ ((v.relayed ≡ w.relayed ++ (blob ∷ []))
          × (rest : List SubmissionJournalEntry) × (v.journal
              ≡ w.journal ++ (signed_entry hash last_ledger ∷ rest)))

  -- what follows the guard
  abbrev pub after_guard : Text → Text → ℕ → Submitting S ReliableSubmissionResult
  after_guard blob hash last_ledger = relay ports codec options blob >>= λ response.
      after_submit ports codec options hash last_ledger response

  guarded-Submitted :
      (blob hash : Text) (last_ledger : ℕ) (allowed : Result ClientFailure (Unit {0}))
      (w v : Session S)
      → v.relayed ≡ w.relayed
      → v.journal ≡ w.journal ++ (signed_entry hash last_ledger ∷ [])
      → Ends (Submitted blob hash last_ledger w) (
          (guard_submit ports codec options hash last_ledger allowed >>= λ u.
          after_guard blob hash last_ledger)
            v)
  guarded-Submitted blob hash last_ledger (err e) w v relayed journal = inl relayed
  guarded-Submitted blob hash last_ledger (ok u) w v relayed journal =
      let response = (ports.submit blob v.state).0 in
      let v1 : Session S = record {
        state = (ports.submit blob v.state).1;
        journal = v.journal;
        relayed = v.relayed ++ (blob ∷ []);
      } in
      let ext = after_submit-Extends hash last_ledger response v1 in
      inr (
        ext.relayed ∙ ap (λ r. r ++ (blob ∷ [])) relayed,
        ext.written,
        ext.journal
            ∙ (ap (λ j. j ++ ext.written) journal
                ∙ append_assoc w.journal (signed_entry hash last_ledger ∷ []) ext.written),
      )

  pub submit_decoded-Submitted :
      (blob hash : Text) (last_ledger : ℕ) (w : Session S)
      → Ends
          (Submitted blob hash last_ledger w)
          (submit_decoded ports codec options blob hash last_ledger w)
  unfolding submit_decoded
  submit_decoded-Submitted blob hash last_ledger w =
      let w1 = (append {S = S} (signed_entry hash last_ledger) w).1 in
      guarded-Submitted blob hash last_ledger (ports.before_submit blob w1.state).0 w
        (record w1 { state = (ports.before_submit blob w1.state).1 }) refl refl
