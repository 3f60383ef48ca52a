-- ===== src/Indexer/Worker/Start.antt =====
-- apps/indexer/src/worker.ts: `start`, from the lease to its end. The signal is the number of turns
-- after which it is found aborted; what `start` alone calls is a second record of ports.
use xcs.Common.{
  ℕ, zero, suc, Text, Bool, true, false, ◌&&◌, Option, none, some, Result, ok, err, leb, ◌==◌,
  text_eq, if◌then◌else◌,
}
use xcs.Common.Actions.{pure, lift, modify, raise_unless, ◌>>=◌, ◌>>◌}
use xcs.Core.Libraries.{Libraries}
use xcs.Core.Network.{NetworkProfile}
use xcs.Core.Documents.{DocumentLibraries}
use xcs.Indexer.Types.{ValidatedLedger, Checkpoint}
use xcs.Indexer.Status.{catching_up_state, is_some}
use xcs.Indexer.Fencing.{LeaseToken}
use xcs.Indexer.ReplayTarget.{
  ReplayTarget, replay_target_unavailable, replay_target_mismatch, replay_target_exceeded,
}
use xcs.Indexer.Sources.{LedgerSourceTips, source_tip_regression}
use xcs.Indexer.Worker.{
  WorkerError, already_running, source_failure, replay_target_error, Ports, WorkerState,
  WorkerOptions, Work, call, read, agree, assert_checkpoint_has_evidence,
  assert_checkpoint_matches_ledger, runtime_status,
}
use xcs.Indexer.Worker.Loop.{persist_runtime_status, run_once}

pub record StartPorts (S : Type 0) : Type 0 where
  pub initialize_profile : NetworkProfile → S → Result WorkerError (Unit {0}) × S
  pub acquire_lease : Text → Text → ℕ → S → Result WorkerError LeaseToken × S
  pub connect : S → Result WorkerError (Unit {0}) × S
  -- the tips of the preflight
  pub preflight : NetworkProfile → S → Result WorkerError LedgerSourceTips × S

abbrev pub is_ok : {A B : Type 0} → Result A B → Bool
is_ok (ok b) = true
is_ok (err e) = false

abbrev pub not_exceeded : Option ReplayTarget → Checkpoint → Bool
not_exceeded none checkpoint = true
not_exceeded (some target) checkpoint = leb checkpoint.ledger_index target.ledger_index

-- `failure` after another outcome
abbrev pub failed_first :
    Result WorkerError (Unit {0}) → Result WorkerError (Unit {0}) → Result WorkerError (Unit {0})
failed_first (err e) next = err e
failed_first (ok u) next = next

module _ {S : Type 0} (ports : Ports S) (starts : StartPorts S) (options : WorkerOptions)
    (libraries : Libraries) (documents : DocumentLibraries) (low_bits : ℕ → ℕ)
    (accepts_uri : Text → Bool) where
  -- the ledger of the replay target, which both sources have to give out
  unfoldable pub verify_target :
      LeaseToken → LedgerSourceTips → Option ReplayTarget → Work S (Option ValidatedLedger)
  unfolding text_eq
  verify_target token tips none = pure none
  verify_target token tips (some target) = do
    raise_unless (leb target.ledger_index tips.effective)
        (replay_target_error replay_target_unavailable)
    ledger ← call (ports.get_ledger target.ledger_index)
    raise_unless
        (ledger.ledger_index == target.ledger_index
          && text_eq ledger.ledger_hash target.ledger_hash)
        (replay_target_error replay_target_mismatch)
    modify (λ w. record w { replay_target_verified = true })
    call (ports.renew_lease token)
    pure (some ledger)

  abbrev pub agreed_ledger : Option ValidatedLedger → Checkpoint → Work S ValidatedLedger
  agreed_ledger none checkpoint = call (ports.get_ledger checkpoint.ledger_index)
  agreed_ledger (some ledger) checkpoint =
      if checkpoint.ledger_index == ledger.ledger_index
      then pure ledger
      else call (ports.get_ledger checkpoint.ledger_index)

  -- the stored checkpoint, held against the target, the tips and the sources' ledger
  unfoldable pub resume :
      LedgerSourceTips → Option ValidatedLedger → Option Checkpoint → Work S (Unit {0})
  unfolding assert_checkpoint_has_evidence assert_checkpoint_matches_ledger
  resume tips replay none = pure tt
  resume tips replay (some checkpoint) = do
    lift (assert_checkpoint_has_evidence checkpoint)
    raise_unless (not_exceeded options.replay_target checkpoint)
        (replay_target_error replay_target_exceeded)
    raise_unless (leb checkpoint.ledger_index tips.effective) (source_failure source_tip_regression)
    ledger ← agreed_ledger replay checkpoint
    assert_checkpoint_matches_ledger checkpoint ledger
    agree checkpoint.ledger_index checkpoint.ledger_hash

  -- the loop, while the signal is not aborted and no replay is complete
  unfoldable pub run_turns : LeaseToken → ℕ → Work S (Unit {0})
  unfolding run_once
  run_turns token zero = pure tt
  run_turns token (suc turns) =
      let again = run_turns token turns in
      run_once ports options libraries documents low_bits accepts_uri token
      >> (read (λ w. w.replay_completed) >>= λ completed. if completed then pure tt else again)

  -- the `try` of `start`
  unfoldable pub run_started : ℕ → Work S (Unit {0})
  unfolding verify_target resume persist_runtime_status run_turns
  run_started turns = do
    call (starts.initialize_profile options.profile)
    token ← call (
        starts.acquire_lease options.profile.profile_id options.writer_id options.lease_duration_ms)
    modify (λ w. record w { active_lease = some token })
    call starts.connect
    call (ports.renew_lease token)
    tips ← call (starts.preflight options.profile)
    modify (λ w. record w { last_tips = some tips })
    call (ports.renew_lease token)
    replay ← verify_target token tips options.replay_target
    checkpoint ← call (ports.get_last_checkpoint options.profile.profile_id)
    resume tips replay checkpoint
    call (ports.renew_lease token)
    persist_runtime_status ports options libraries documents low_bits accepts_uri token
        catching_up_state
    run_turns token turns

  -- The `catch`: with a lease the indexer is halted. Whether that succeeded is kept.
  unfoldable pub halt_failed :
      Result WorkerError (Unit {0}) → Option LeaseToken → WorkerState S → Bool × WorkerState S
  unfolding runtime_status
  halt_failed (err e) (some token) w =
      let (halted, s) =
        ports.halt_indexer token (runtime_status w.last_tips w.last_agreed) e w.store in
      (is_ok halted, record w { store = s })
  halt_failed _ _ w = (false, w)

  -- a lease that is not halted is released
  unfoldable pub release_unhalted :
      Bool → Option LeaseToken → WorkerState S → Result WorkerError (Unit {0}) × WorkerState S
  release_unhalted false (some token) w =
      let (released, s) = ports.release_lease token w.store in (released, record w { store = s })
  release_unhalted _ _ w = (ok tt, w)

  -- what follows the `try` and its `catch`
  unfoldable pub stop : Bool → Result WorkerError (Unit {0}) → Work S (Unit {0})
  unfolding release_unhalted
  stop halted outcome w =
      let (disconnected, s) = ports.disconnect w.store in
      let (released, v) = release_unhalted halted w.active_lease (record w { store = s }) in
      (failed_first outcome (failed_first disconnected released), record v { active_lease = none })

  abbrev pub end_run :
      Result WorkerError (Unit {0}) × WorkerState S → Result WorkerError (Unit {0}) × WorkerState S
  end_run (outcome, w) =
      let (halted, v) = halt_failed outcome w.active_lease w in stop halted outcome v

  unfoldable pub start : ℕ → Work S (Unit {0})
  unfolding run_started halt_failed stop
  start turns w =
      if is_some w.active_lease then (err already_running, w) else end_run (run_started turns w)
