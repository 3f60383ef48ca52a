-- ===== src/Sdk/Submission/Waiting.antt =====
-- packages/sdk/src/submission.ts: the wait for a transaction, and its end.
use xcs.Common.{
  ℕ, zero, suc, ◌+◌, ◌≤◌, ◌<◌, ◌≡◌, ◌≢◌, Text, Bool, true, false, Option, none, some, Result, ok,
  err, ltb, leb, leb-false, if◌then◌else◌, Bool-cases, inl, inr, arith, to_upper,
}
use xcs.Common.Actions.{lift, raise_unless, ◌>>=◌}
use xcs.Sdk.Submission.{
  SubmissionError, sdk_error, thrown, out_of_fuel, submission_failed, TransactionStatus, TxResponse,
  ClientFailure, txn_not_found, other_failure, is_expired, is_not_found, Ports, Session,
  SubmissionOptions, Submitting, is_tx_hash,
}
use xcs.Sdk.Submission.Flow.{
  call, attempt, status_of, as_thrown, require_index, is_hex_uint32, get_current_ledger_index,
  response_status, get_transaction_status, is_final, at_deadline, after_status, wait_until,
  wait_for_transaction,
}

-- The clock does not go back in a request, and goes on in a delay of the poll interval.
pub record Clock {S : Type 0} (ports : Ports S) (poll : ℕ) : Type 0 where
  pub tx_later : (hash : Text) (s : S) → ports.now s ≤ ports.now (ports.tx hash s).1
  pub ledger_later : (s : S) → ports.now s ≤ ports.now (ports.ledger_current s).1
  pub delay_later : (s : S) → ports.now s < ports.now (ports.delay poll s)

-- A run that ends with its own result or error, at a time not before `start`.
record InTime {S A : Type 0} (ports : Ports S) (start : ℕ)
    (r : Result SubmissionError A × Session S) : Type 0 where
  ended : r.0 ≢ err out_of_fuel
  later : start ≤ ports.now r.1.state

module _ {S : Type 0} (ports : Ports S) where
  InTime-bind :
      {A B : Type 0} (start : ℕ) (m : Submitting S A) (rest : A → Submitting S B) (w : Session S)
      → InTime ports start (m w)
      → ((a : A) (next : Session S)
          → start ≤ ports.now next.state
          → InTime ports start (rest a next))
      → InTime ports start ((m >>= rest) w)
  InTime-bind {A = A} {B = B} start m rest w h k = go (m w) h
    where
      go :
          (r : Result SubmissionError A × Session S)
          → InTime ports start r
          → InTime {A = B} ports start (elim r.0 [ ok a ↦ rest a r.1 | err e ↦ (err e, r.1) ])
      go (ok a, next) h = k a next h.later
      go (err e, next) h = record { ended = λ x. h.ended (again e x); later = h.later }
        where
          again :
              (e : SubmissionError)
              → ◌≡◌ {A = Result SubmissionError B} (err e) (err out_of_fuel)
              → ◌≡◌ {A = Result SubmissionError A} (err e) (err out_of_fuel)
          again e x = cc

  InTime-err :
      {A : Type 0} (start : ℕ) (e : SubmissionError) (w : Session S)
      → e ≢ out_of_fuel
      → start ≤ ports.now w.state
      → InTime {A = A} ports start (err e, w)
  InTime-err {A = A} start e w h k = record { ended = λ x. h (its_error e x); later = k }
    where
      its_error :
          (e : SubmissionError)
          → ◌≡◌ {A = Result SubmissionError A} (err e) (err out_of_fuel)
          → e ≡ out_of_fuel
      its_error e x = cc

  InTime-ok :
      {A : Type 0} (start : ℕ) (a : A) (w : Session S)
      → start ≤ ports.now w.state
      → InTime ports start (ok a, w)
  InTime-ok start a w k = record { ended = λ x. cc; later = k }

  InTime-lift :
      {A : Type 0} (start : ℕ) (r : Result ClientFailure A) (w : Session S)
      → start ≤ ports.now w.state
      → InTime ports start (as_thrown r, w)
  InTime-lift start (ok a) w k = InTime-ok start a w k
  InTime-lift start (err e) w k = InTime-err start thrown w (λ x. cc) k

  module _ (poll : ℕ) (clock : Clock ports poll) where
    current-InTime :
        (start : ℕ) (w : Session S)
        → start ≤ ports.now w.state
        → InTime ports start (get_current_ledger_index ports w)
    unfolding get_current_ledger_index
    current-InTime start w k =
        InTime-bind start (call ports.ledger_current) _ w
          (InTime-lift start (ports.ledger_current w.state).0 _
            (omega (arith, clock.ledger_later w.state)))
          λ response next later. index start (is_hex_uint32 response) next later
      where
        index :
            (start : ℕ) (o : Option ℕ) (next : Session S)
            → start ≤ ports.now next.state
            → InTime ports start (lift {W = Session S} (require_index o) next)
        index start none next later = InTime-err start (sdk_error _) next (λ x. cc) later
        index start (some n) next later = InTime-ok start n next later

    response-InTime :
        (start : ℕ) (hash : Text) (last_ledger : ℕ) (r : Result ClientFailure TxResponse)
        (w : Session S)
        → start ≤ ports.now w.state
        → InTime ports start (response_status ports hash (some last_ledger) r w)
    response-InTime start hash last_ledger (ok response) w k = InTime-ok start _ w k
    response-InTime start hash last_ledger (err other_failure) w k =
        InTime-err start thrown w (λ x. cc) k
    response-InTime start hash last_ledger (err txn_not_found) w k =
        InTime-bind start (get_current_ledger_index ports) _ w (current-InTime start w k)
          λ current next later.
            InTime-ok start
              (status_of (if ltb last_ledger current then is_expired else is_not_found) hash
                (some last_ledger) none none)
              next later

    status-InTime :
        (start : ℕ) (hash : Text) (last_ledger : ℕ) (w : Session S)
        → start ≤ ports.now w.state
        → InTime ports start (get_transaction_status ports hash (some last_ledger) w)
    unfolding get_transaction_status
    status-InTime start hash last_ledger w k =
        InTime-bind start (raise_unless (is_tx_hash hash) (sdk_error submission_failed)) _ w
          (checked (is_tx_hash hash) w k)
          λ u next later.
            InTime-bind start (attempt (ports.tx (to_upper hash))) _ next
              (InTime-ok start _ _
                (omega (arith, later, clock.tx_later (to_upper hash) next.state)))
              λ response after at.
                response-InTime start (to_upper hash) last_ledger response after at
      where
        checked :
            (t : Bool) (v : Session S)
            → start ≤ ports.now v.state
            → InTime {A = Unit {0}} ports start (raise_unless t (sdk_error submission_failed) v)
        checked true v h = InTime-ok start tt v h
        checked false v h = InTime-err start _ v (λ x. cc) h

    -- a status that was read, with the next turn
    turn-InTime :
        (start deadline : ℕ) (status : TransactionStatus) (again : Submitting S TransactionStatus)
        (w : Session S)
        → start ≤ ports.now w.state
        → (ports.now w.state < deadline
            → InTime ports start (again (record w { state = ports.delay poll w.state })))
        → InTime ports start (after_status ports poll deadline status again w)
    turn-InTime start deadline status again w k h = elim (Bool-cases (is_final status.status)) [
      | inl e ↦ rw e (InTime-ok start status w k)
      | inr e ↦ elim (Bool-cases (leb deadline (ports.now w.state))) [
        | inl f ↦ rw (e, f) (InTime-ok start (at_deadline status) w k)
        | inr f ↦ rw (e, f) (h (leb-false deadline (ports.now w.state) f))
      ]
    ]

    weaken :
        {A : Type 0} (start later : ℕ) (r : Result SubmissionError A × Session S)
        → start ≤ later
        → InTime ports later r
        → InTime ports start r
    weaken start later r h k = record { ended = k.ended; later = omega (arith, k.later) }

    -- The deadline is not further away than the fuel.
    wait_until-InTime :
        (fuel : ℕ) (hash : Text) (last_ledger deadline : ℕ) (w : Session S)
        → deadline ≤ ports.now w.state + fuel
        → InTime ports
            (ports.now w.state)
            (wait_until ports (suc fuel) hash last_ledger poll deadline w)
    unfolding wait_until
    wait_until-InTime zero hash last_ledger deadline w room =
        InTime-bind (ports.now w.state) (get_transaction_status ports hash (some last_ledger))
          (λ status.
            after_status ports poll deadline status
              (wait_until ports zero hash last_ledger poll deadline))
          w (status-InTime (ports.now w.state) hash last_ledger w (omega arith))
          λ status next later.
            turn-InTime (ports.now w.state) deadline status
              (wait_until ports zero hash last_ledger poll deadline) next later
              λ before. absurd (omega arith)
    wait_until-InTime (suc fuel) hash last_ledger deadline w room =
        InTime-bind (ports.now w.state) (get_transaction_status ports hash (some last_ledger))
          (λ status.
            after_status ports poll deadline status
              (wait_until ports (suc fuel) hash last_ledger poll deadline))
          w (status-InTime (ports.now w.state) hash last_ledger w (omega arith))
          λ status next later.
            turn-InTime (ports.now w.state) deadline status
              (wait_until ports (suc fuel) hash last_ledger poll deadline) next later
              λ before.
                let after = clock.delay_later next.state in
                weaken (ports.now w.state) (ports.now (ports.delay poll next.state)) _ (omega arith)
                  (wait_until-InTime fuel hash last_ledger deadline
                    (record next { state = ports.delay poll next.state }) (omega arith))

-- The wait for a transaction ends with a status or an error of its own, whatever the client answers:
-- it suffices that the clock does not go back in a request and goes on in a delay of the poll interval.
pub wait_for_transaction-ends :
    {S : Type 0} (ports : Ports S) (options : SubmissionOptions) (hash : Text) (last_ledger : ℕ)
    (w : Session S)
    → Clock ports options.poll_interval_ms
    → (wait_for_transaction ports options hash last_ledger w).0 ≢ err out_of_fuel
unfolding wait_for_transaction
wait_for_transaction-ends ports options hash last_ledger w clock =
    (wait_until-InTime ports options.poll_interval_ms clock options.timeout_ms hash last_ledger
      (ports.now w.state + options.timeout_ms) w (omega arith)).ended
