-- ===== src/Tests/Worker.antt =====
-- A worker whose source has one ledger, and whose repository is a list of the ledgers it was given.
use xcs.Common.{
  ℕ, Option, ◌==◌, arith, ap, if◌then◌else◌, length, Result, err, ◌≡◌, refl, codes, true, false,
  List, [], ◌∷◌, none, some, ok, text_eq,
}
use xcs.Common.Actions.{Yields}
use xcs.Indexer.Types.{ValidatedLedger}
use xcs.Indexer.Fencing.{LeaseToken}
use xcs.Indexer.Sources.{LedgerSourceTips, tips_of}
use xcs.Indexer.ReplayTarget.{replay_target_unavailable}
use xcs.Indexer.Worker.Start.{StartPorts, is_ok, start}
use xcs.Indexer.Repository.Ledgers.{inserted}
use xcs.Indexer.Worker.Released.{LeaseLaws, GivenUp, start-GivenUp}
use xcs.Indexer.Worker.{
  invalid_options, no_active_lease, WorkerError, already_running, replay_target_error, Ports,
  WorkerState, WorkerOptions, check_options,
}
use xcs.Indexer.Worker.Loop.{run_once}
use xcs.Indexer.Worker.Runs.{Ran, run_once-Ran}
use xcs.Tests.Claims.{plain_libraries}
use xcs.Tests.Fencing.{first_token}
use xcs.Tests.Registration.{one_document, empty_catalog}
use xcs.Tests.Repository.{main_profile, first_ledger}

abbrev ports : Ports (List ValidatedLedger)
ports = record {
  renew_lease = λ token s. (ok tt, s);
  get_last_checkpoint = λ profile s. (ok none, s);
  get_schema_catalog = λ profile s. (ok empty_catalog, s);
  update_indexer_status = λ token state status s. (ok tt, s);
  persist_ledger = λ profile projection token state status s. (ok inserted, projection.ledger ∷ s);
  halt_indexer = λ token status e s. (ok tt, s);
  release_lease = λ token s. (ok tt, s);
  get_validated_ledger_tips = λ s. (ok (tips_of 7 9), s);
  get_ledger = λ index s. (ok first_ledger, s);
  disconnect = λ s. (ok tt, s);
}

abbrev options : WorkerOptions
options = record {
  profile = main_profile;
  poll_interval_ms = 1000;
  lease_duration_ms = 60000;
  batch_size = 20;
  writer_id = codes "writer-1";
  replay_target = none;
}

abbrev idle : WorkerState (List ValidatedLedger)
idle = record {
  store = [];
  active_lease = some first_token;
  last_tips = none;
  last_agreed = none;
  replay_target_verified = false;
  replay_completed = false;
}

accepted_options : check_options options ≡ ok tt
unfolding check_options
accepted_options = refl

one_ledger :
    (run_once ports options plain_libraries one_document (λ k. 0) (λ u. true) first_token idle).0
    ≡ ok 1
unfolding run_once text_eq
one_ledger = refl

abbrev starts : LedgerSourceTips → StartPorts (List ValidatedLedger)
starts tips = record {
  initialize_profile = λ profile s. (ok tt, s);
  acquire_lease = λ profile writer duration s. (ok first_token, s);
  connect = λ s. (ok tt, s);
  preflight = λ profile s. (ok tips, s);
}

abbrev stopped : WorkerState (List ValidatedLedger)
stopped = record idle { active_lease = none }

-- two turns store the ledger twice in a repository that keeps no checkpoint
abbrev two_turns : Result WorkerError (Unit {0}) × WorkerState (List ValidatedLedger)
two_turns =
    start ports (starts (tips_of 7 9)) options plain_libraries one_document (λ k. 0) (λ u. true) 2
      stopped

it_stops : two_turns.0 ≡ ok tt
unfolding start text_eq
it_stops = refl

its_lease_is_gone : two_turns.1.active_lease ≡ none
unfolding start text_eq
its_lease_is_gone = refl

it_has_stored : length two_turns.1.store ≡ 2
unfolding start text_eq
it_has_stored = refl

-- a target ahead of the tips
it_fails :
    (start ports
      (starts (tips_of 7 9))
      (record options {
        replay_target = some (record { ledger_index = 8; ledger_hash = codes "ab" });
      })
      plain_libraries
      one_document
      (λ k. 0)
      (λ u. true)
      2
      stopped).0
    ≡ err (replay_target_error replay_target_unavailable)
unfolding start text_eq
it_fails = refl

it_runs_already :
    (start ports
      (starts (tips_of 7 9))
      options
      plain_libraries
      one_document
      (λ k. 0)
      (λ u. true)
      2
      idle).0
    ≡ err already_running
unfolding start
it_runs_already = refl

-- A repository that knows only the epoch of the lease that is held, and ends it for a token of that
-- epoch alone; its source has no tips.
unfoldable end_lease : LeaseToken → Option ℕ → Result WorkerError (Unit {0}) × Option ℕ
end_lease token none = (err no_active_lease, none)
end_lease token (some held) =
    if token.epoch == held then (ok tt, none) else (err no_active_lease, some held)

end_lease-done :
    (token : LeaseToken) (s : Option ℕ)
    → s ≡ some token.epoch
    → is_ok (end_lease token s).0 ≡ true
    → (end_lease token s).1 ≡ none
unfolding end_lease
end_lease-done token s held = rw held (ground arith)

end_lease-failed :
    (token : LeaseToken) (s : Option ℕ)
    → s ≡ some token.epoch
    → is_ok (end_lease token s).0 ≡ false
    → (end_lease token s).1 ≡ some token.epoch
unfolding end_lease
end_lease-failed token s held = rw held (ground arith)

abbrev lease_ports : Ports (Option ℕ)
lease_ports = record {
  renew_lease = λ token s. (ok tt, s);
  get_last_checkpoint = λ profile s. (ok none, s);
  get_schema_catalog = λ profile s. (ok empty_catalog, s);
  update_indexer_status = λ token state status s. (ok tt, s);
  persist_ledger = λ profile projection token state status s. (ok inserted, s);
  halt_indexer = λ token status e. end_lease token;
  release_lease = end_lease;
  get_validated_ledger_tips = λ s. (err invalid_options, s);
  get_ledger = λ index s. (ok first_ledger, s);
  disconnect = λ s. (ok tt, s);
}

abbrev lease_starts : StartPorts (Option ℕ)
lease_starts = record {
  initialize_profile = λ profile s. (ok tt, s);
  acquire_lease = λ profile writer duration s. (ok first_token, some 1);
  connect = λ s. (ok tt, s);
  preflight = λ profile s. (ok (tips_of 7 9), s);
}

abbrev unheld : WorkerState (Option ℕ)
unheld = record {
  store = none;
  active_lease = none;
  last_tips = none;
  last_agreed = none;
  replay_target_verified = false;
  replay_completed = false;
}

abbrev Unleased : Option ℕ → Type 0
Unleased s = s ≡ none

abbrev LeasedTo : LeaseToken → Option ℕ → Type 0
LeasedTo token s = s ≡ some token.epoch

abbrev token_or : Result WorkerError LeaseToken → LeaseToken
token_or (ok token) = token
token_or (err e) = first_token

epoch_of :
    (token : LeaseToken) (r : Result WorkerError LeaseToken)
    → r ≡ ok token
    → some (token_or r).epoch ≡ some token.epoch
epoch_of token r e = ap (λ answer. some (token_or answer).epoch) e

epochs-LeaseLaws : LeaseLaws lease_ports lease_starts Unleased LeasedTo
epochs-LeaseLaws = record {
  stable = λ token. record {
    renewed = λ other_token s held. held;
    checkpoint_read = λ profile s held. held;
    catalog_read = λ profile s held. held;
    updated = λ other_token state status s held. held;
    persisted = λ profile projection other_token state status s held. held;
    tips_read = λ s held. held;
    ledger_read = λ index s held. held;
    disconnected = λ s held. held;
  };
  stable_start =
      λ token. record { connected = λ s held. held; preflighted = λ profile s held. held };
  initialized = λ profile s clear. clear;
  refused = λ profile writer ms s e clear failed. cc;
  acquired = λ profile writer ms s token clear got. epoch_of token (ok first_token) got;
  halted = λ token status e s held done. end_lease-done token s held done;
  not_halted = λ token status e s held failed. end_lease-failed token s held failed;
  released = λ token s held done. end_lease-done token s held done;
  disconnected = λ s clear. clear;
}

it_throws :
    (start lease_ports lease_starts options plain_libraries one_document
      (λ k. 0)
      (λ u. true)
      3
      unheld).0
    ≡ err invalid_options
unfolding start text_eq
it_throws = refl

start-GivenUp_example : GivenUp lease_ports Unleased LeasedTo (
    start lease_ports lease_starts options plain_libraries one_document
      (λ k. 0)
      (λ u. true)
      3
      unheld)
start-GivenUp_example =
    start-GivenUp lease_ports lease_starts options plain_libraries one_document (λ k. 0) (λ u. true)
      Unleased LeasedTo epochs-LeaseLaws 3 unheld refl refl

run_once-Ran_example :
    Yields
      (Ran ports options first_token idle)
      (run_once ports options plain_libraries one_document (λ k. 0) (λ u. true) first_token idle)
run_once-Ran_example =
    run_once-Ran ports options plain_libraries one_document (λ k. 0) (λ u. true) first_token idle
      accepted_options
