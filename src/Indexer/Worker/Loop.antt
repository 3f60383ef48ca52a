-- ===== src/Indexer/Worker/Loop.antt =====
-- apps/indexer/src/worker.ts: `runOnce`, with the ledgers that it processes one after the other.
use xcs.Common.{
  ℕ, zero, suc, ◌+◌, ◌-◌, min, Text, Bool, true, false, not, ◌&&◌, ◌||◌, List, [], ◌∷◌, Option,
  none, some, Result, ok, err, ltb, leb, ◌==◌, if◌then◌else◌,
}
use xcs.Common.Actions.{pure, lift, modify, raise_unless, ◌>>=◌, ◌>>◌}
use xcs.Core.Libraries.{Libraries}
use xcs.Core.Network.{NetworkProfile}
use xcs.Core.Documents.{DocumentLibraries}
use xcs.Indexer.Types.{ValidatedLedger, Checkpoint}
use xcs.Indexer.Status.{WritableIndexerStatusState, catching_up_state, ready_state}
use xcs.Indexer.Fencing.{LeaseToken, is_none}
use xcs.Indexer.Continuity.{LedgerContinuityError, assert_ledger_continuity}
use xcs.Indexer.Continuity.Chains.{checkpoint_of}
use xcs.Indexer.Registration.{SchemaRegistrationResult}
use xcs.Indexer.Projection.{Catalog, catalog_with, project_ledger}
use xcs.Indexer.ReplayTarget.{ReplayTarget, replay_target_unavailable}
use xcs.Indexer.Repository.Ledgers.{PersistResult, inserted, already_processed}
use xcs.Indexer.Sources.{LedgerSourceTips}
use xcs.Indexer.Worker.{
  WorkerError, replay_target_error, continuity_failure, Ports, WorkerState, WorkerOptions, Work,
  call, read, agree, assert_checkpoint_has_evidence, runtime_status, status_for_ledger,
}

abbrev pub in_continuity {ℓ} : {A : Type ℓ} → Result LedgerContinuityError A → Result WorkerError A
in_continuity (ok a) = ok a
in_continuity (err e) = err (continuity_failure e)

-- `this.replayTarget?.ledgerIndex ?? validatedLedgerIndex`
abbrev pub processing_limit : Option ReplayTarget → ℕ → ℕ
processing_limit none validated = validated
processing_limit (some target) validated = target.ledger_index

abbrev pub next_index : NetworkProfile → Option Checkpoint → ℕ
next_index profile none = profile.activation_ledger_index
next_index profile (some previous) = previous.ledger_index + 1

abbrev pub ready_or_catching_up : Bool → WritableIndexerStatusState
ready_or_catching_up true = ready_state
ready_or_catching_up false = catching_up_state

abbrev pub one_if_inserted : PersistResult → ℕ
one_if_inserted inserted = 1
one_if_inserted already_processed = 0

-- `catalog.set` for each accepted registration
unfoldable pub catalog_from : NetworkProfile → ℕ → Catalog → List SchemaRegistrationResult → Catalog
unfolding catalog_with
catalog_from profile index catalog [] = catalog
catalog_from profile index catalog (registration ∷ rest) =
    catalog_from profile index (catalog_with profile index catalog (some registration)) rest

unfoldable pub note_previous : {S : Type 0} → Option Checkpoint → Work S (Unit {0})
unfolding assert_checkpoint_has_evidence
note_previous none = pure tt
note_previous (some previous) = do
  lift (assert_checkpoint_has_evidence previous)
  agree previous.ledger_index previous.ledger_hash

module _ (options : WorkerOptions) where
  -- the status before the loop, where no checkpoint is authoritative or all is processed
  abbrev pub is_ahead : Option Checkpoint → ℕ → Bool
  is_ahead previous validated = ltb validated (next_index options.profile previous)

  -- the ledgers of this run: up to the limit, and a batch at most
  abbrev pub run_length : Option Checkpoint → ℕ → ℕ
  run_length previous validated =
      min (processing_limit options.replay_target validated)
        (next_index options.profile previous + options.batch_size - 1)
      + 1
      - next_index options.profile previous

  abbrev pub is_verified : {S : Type 0} → WorkerState S → Bool
  is_verified w = is_none options.replay_target || w.replay_target_verified

  -- `nextLedgerIndex > processingLimit`
  abbrev pub is_complete : Option Checkpoint → LedgerSourceTips → Bool
  is_complete previous tips =
      ltb (processing_limit options.replay_target tips.effective)
        (next_index options.profile previous + run_length previous tips.effective)

  -- The number of ledgers that were inserted is returned.
  abbrev pub finish :
      {S : Type 0} → Option Checkpoint → LedgerSourceTips → Option Checkpoint × ℕ → Work S ℕ
  finish previous tips (last, processed) =
      (if is_complete previous tips && not (is_none options.replay_target)
        then modify (λ w. record w { replay_completed = true })
        else pure tt)
      >> pure processed

module _ {S : Type 0} (ports : Ports S) (options : WorkerOptions) (libraries : Libraries)
    (documents : DocumentLibraries) (low_bits : ℕ → ℕ) (accepts_uri : Text → Bool)
    (token : LeaseToken) where
  -- the body of the loop: the ledger, and the catalog and the count after it
  unfoldable pub process_ledger :
      LedgerSourceTips → Option Checkpoint → Catalog → ℕ → Work S (ValidatedLedger × Catalog × ℕ)
  unfolding assert_ledger_continuity project_ledger status_for_ledger catalog_from
  process_ledger tips previous catalog index = do
    call (ports.renew_lease token)
    ledger ← call (ports.get_ledger index)
    lift (in_continuity (assert_ledger_continuity options.profile previous ledger))
    projection ← lift (
        in_continuity
          (project_ledger libraries documents low_bits accepts_uri options.profile ledger catalog))
    result ← call (
        ports.persist_ledger options.profile projection token
          (ready_or_catching_up
            (is_none options.replay_target && ledger.ledger_index == tips.effective))
          (status_for_ledger ledger tips))
    agree ledger.ledger_index ledger.ledger_hash
    pure (
      ledger,
      catalog_from options.profile ledger.ledger_index catalog
          projection.collected.schema_registrations,
      one_if_inserted result,
    )

  -- The loop, by the number of ledgers from `nextLedgerIndex` to the last one of the run.
  unfoldable pub process_ledgers :
      LedgerSourceTips → ℕ → Option Checkpoint → Catalog → ℕ → Work S (Option Checkpoint × ℕ)
  unfolding process_ledger
  process_ledgers tips zero previous catalog index = pure (previous, 0)
  process_ledgers tips (suc count) previous catalog index = do
    (ledger, next, one) ← process_ledger tips previous catalog index
    (last, processed) ← process_ledgers tips count (some (checkpoint_of ledger)) next (index + 1)
    pure (last, one + processed)

  -- `persistRuntimeStatus`
  unfoldable pub persist_runtime_status : WritableIndexerStatusState → Work S (Unit {0})
  unfolding runtime_status
  persist_runtime_status state = do
    status ← read (λ w. runtime_status w.last_tips w.last_agreed)
    call (ports.update_indexer_status token state status)

  unfoldable pub announce : Option Checkpoint → ℕ → Work S (Unit {0})
  unfolding persist_runtime_status
  announce previous validated =
      if is_none previous || is_ahead options previous validated
      then persist_runtime_status (
          ready_or_catching_up (
            is_none options.replay_target
            && (not (is_none previous) && is_ahead options previous validated)))
      else pure tt

  -- the run under the tips, from the last checkpoint on
  unfoldable pub advance : Option Checkpoint → Catalog → LedgerSourceTips → Work S ℕ
  unfolding announce process_ledgers
  advance previous catalog tips = do
    raise_unless (leb (processing_limit options.replay_target tips.effective) tips.effective)
        (replay_target_error replay_target_unavailable)
    call (ports.renew_lease token)
    announce previous tips.effective
    outcome ←
        process_ledgers tips (run_length options previous tips.effective) previous catalog
          (next_index options.profile previous)
    finish options previous tips outcome

  unfoldable pub run_once : Work S ℕ
  unfolding note_previous advance
  run_once = do
    verified ← read (is_verified options)
    raise_unless verified (replay_target_error replay_target_unavailable)
    call (ports.renew_lease token)
    previous ← call (ports.get_last_checkpoint options.profile.profile_id)
    note_previous previous
    catalog ← call (ports.get_schema_catalog options.profile.profile_id)
    tips ← call ports.get_validated_ledger_tips
    modify (λ w. record w { last_tips = some tips })
    advance previous catalog tips
