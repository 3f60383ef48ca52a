-- ===== src/Indexer/Worker/Leases.antt =====
-- apps/indexer/src/worker.ts: `runOnce` leaves the worker's lease as it is, and keeps of the store what
-- all its calls keep.
use mathlib.Core.Path.{subst}
use xcs.Common.{
  ◌∙◌, ◌+◌, ℕ, zero, suc, ◌≡◌, refl, Text, Bool, true, false, not, ◌&&◌, ◌||◌, Option, none, some,
  Result, leb, ◌==◌, if◌then◌else◌,
}
use xcs.Common.Actions.{pure, lift, modify, raise_unless, ◌>>=◌, ◌>>◌, Ends-bind}
use xcs.Core.Libraries.{Libraries}
use xcs.Core.Documents.{DocumentLibraries}
use xcs.Indexer.Types.{ValidatedLedger, Checkpoint}
use xcs.Indexer.Status.{WritableIndexerStatusState, StatusInput}
use xcs.Indexer.Fencing.{LeaseToken, is_none}
use xcs.Core.Network.{NetworkProfile}
use xcs.Indexer.Projection.{LedgerProjection, Catalog, project_ledger}
use xcs.Indexer.Continuity.{assert_ledger_continuity}
use xcs.Indexer.Continuity.Chains.{checkpoint_of}
use xcs.Indexer.Repository.Ledgers.{PersistResult}
use xcs.Indexer.Sources.{LedgerSourceTips}
use xcs.Indexer.ReplayTarget.{replay_target_unavailable}
use xcs.Indexer.Worker.{
  WorkerError, Ports, WorkerState, WorkerOptions, Work, call, read, agree, status_for_ledger,
  runtime_status, replay_target_error, assert_checkpoint_has_evidence,
}
use xcs.Indexer.Worker.Loop.{
  is_ahead, catalog_from, one_if_inserted, in_continuity, ready_or_catching_up, processing_limit,
  is_verified, note_previous, finish, process_ledger, process_ledgers, persist_runtime_status,
  announce, advance, run_once, run_length, is_complete, next_index,
}

-- A piece of the worker that leaves the active lease as it is, and what holds of the store, whether it
-- returns or throws.
pub record Keeps {S A : Type 0} (Held : S → Type 0) (m : Work S A) : Type 0 where
  pub kept :
      (w : WorkerState S)
      → Held w.store
      → ((m w).1.active_lease ≡ w.active_lease) × Held (m w).1.store

-- None of the calls of a run ends what holds of the store.
pub record Stable {S : Type 0} (ports : Ports S) (Held : S → Type 0) : Type 0 where
  pub renewed : (token : LeaseToken) (s : S) → Held s → Held (ports.renew_lease token s).1
  pub checkpoint_read :
      (profile : Text) (s : S) → Held s → Held (ports.get_last_checkpoint profile s).1
  pub catalog_read : (profile : Text) (s : S) → Held s → Held (ports.get_schema_catalog profile s).1
  pub updated :
      (token : LeaseToken) (state : WritableIndexerStatusState) (status : StatusInput) (s : S)
      → Held s
      → Held (ports.update_indexer_status token state status s).1
  pub persisted :
      (profile : NetworkProfile) (projection : LedgerProjection) (token : LeaseToken)
      (state : WritableIndexerStatusState) (status : StatusInput) (s : S)
      → Held s
      → Held (ports.persist_ledger profile projection token state status s).1
  pub tips_read : (s : S) → Held s → Held (ports.get_validated_ledger_tips s).1
  pub ledger_read : (index : ℕ) (s : S) → Held s → Held (ports.get_ledger index s).1
  pub disconnected : (s : S) → Held s → Held (ports.disconnect s).1

module _ {S : Type 0} {Held : S → Type 0} where
  pub Keeps-bind :
      {A B : Type 0} (m : Work S A) (rest : A → Work S B)
      → Keeps Held m
      → ((a : A) → Keeps Held (rest a))
      → Keeps Held (m >>= rest)
  Keeps-bind {A = A} {B = B} m rest h k = record { kept = λ w held. go w held }
    where
      Kept : WorkerState S → WorkerState S → Type 0
      Kept w v = (v.active_lease ≡ w.active_lease) × Held v.store

      go : (w : WorkerState S) → Held w.store → Kept w ((m >>= rest) w).1
      go w held =
          Ends-bind (Kept w) m rest w (λ e next eq. subst (λ r. Kept w r.1) eq (h.kept w held))
            λ a next eq.
              let (same, still) = subst (λ r. Kept w r.1) eq (h.kept w held) in
              let (after, last) = (k a).kept next still in (after ∙ same, last)

  pub call-Keeps :
      {A : Type 0} (port : S → Result WorkerError A × S)
      → ((s : S) → Held s → Held (port s).1)
      → Keeps Held (call port)
  call-Keeps port h = record { kept = λ w held. (refl, h w.store held) }

  pub lift-Keeps : {A : Type 0} (r : Result WorkerError A) → Keeps Held (lift {W = WorkerState S} r)
  lift-Keeps r = record { kept = λ w held. (refl, held) }

  pub unless-Keeps :
      (t : Bool) (e : WorkerError) → Keeps Held (raise_unless {W = WorkerState S} t e)
  unless-Keeps t e = record { kept = λ w held. (refl, held) }

  pub if-Keeps :
      {A : Type 0} (t : Bool) (m n : Work S A)
      → Keeps Held m
      → Keeps Held n
      → Keeps Held (if t then m else n)
  if-Keeps true m n h k = h
  if-Keeps false m n h k = k

  previous-Keeps : (previous : Option Checkpoint) → Keeps Held (note_previous {S = S} previous)
  unfolding note_previous
  previous-Keeps none = record { kept = λ w held. (refl, held) }
  previous-Keeps (some c) =
      Keeps-bind (lift (assert_checkpoint_has_evidence c)) _ (lift-Keeps _)
        λ a. record { kept = λ w held. (refl, held) }

module _ {S : Type 0} where
  -- the end of the loop's body
  abbrev note_ledger :
      ValidatedLedger → Catalog → PersistResult → Work S (ValidatedLedger × Catalog × ℕ)
  note_ledger ledger next result =
      agree ledger.ledger_index ledger.ledger_hash >> pure (ledger, next, one_if_inserted result)

  abbrev add_processed : ℕ → Option Checkpoint × ℕ → Work S (Option Checkpoint × ℕ)
  add_processed one (last, n) = pure (last, one + n)

module _ {S : Type 0} (ports : Ports S) (options : WorkerOptions) (libraries : Libraries)
    (documents : DocumentLibraries) (low_bits : ℕ → ℕ) (accepts_uri : Text → Bool)
    (token : LeaseToken) {Held : S → Type 0} (stable : Stable ports Held) where
  ledger-Keeps :
      (tips : LedgerSourceTips) (previous : Option Checkpoint) (catalog : Catalog) (index : ℕ)
      → Keeps Held (
          process_ledger ports options libraries documents low_bits accepts_uri token tips previous
            catalog index)
  unfolding process_ledger
  ledger-Keeps tips previous catalog index =
      Keeps-bind (call (ports.renew_lease token)) _ (call-Keeps _ (stable.renewed token)) λ a.
        Keeps-bind (call (ports.get_ledger index)) _ (call-Keeps _ (stable.ledger_read index))
          λ ledger.
            Keeps-bind
              (lift (in_continuity (assert_ledger_continuity options.profile previous ledger))) _
              (lift-Keeps _)
              λ b.
                Keeps-bind
                  (lift (
                    in_continuity (
                      project_ledger libraries documents low_bits accepts_uri options.profile ledger
                        catalog)))
                  _ (lift-Keeps _)
                  λ projection.
                    Keeps-bind
                      (call (
                        ports.persist_ledger options.profile projection token
                          (ready_or_catching_up (
                            is_none options.replay_target && ledger.ledger_index == tips.effective))
                          (status_for_ledger ledger tips)))
                      (note_ledger ledger (
                        catalog_from options.profile ledger.ledger_index catalog
                          projection.collected.schema_registrations))
                      (call-Keeps _ (
                        stable.persisted options.profile projection token
                          (ready_or_catching_up (
                            is_none options.replay_target && ledger.ledger_index == tips.effective))
                          (status_for_ledger ledger tips)))
                      λ result. record { kept = λ w held. (refl, held) }

  ledgers-Keeps :
      (tips : LedgerSourceTips) (count : ℕ) (previous : Option Checkpoint) (catalog : Catalog)
      (index : ℕ)
      → Keeps Held (
          process_ledgers ports options libraries documents low_bits accepts_uri token tips count
            previous catalog index)
  unfolding process_ledgers
  ledgers-Keeps tips zero previous catalog index = record { kept = λ w held. (refl, held) }
  ledgers-Keeps tips (suc count) previous catalog index =
      Keeps-bind
        (process_ledger ports options libraries documents low_bits accepts_uri token tips previous
          catalog index)
        _ (ledger-Keeps tips previous catalog index)
        λ (ledger, next, one).
          Keeps-bind
            (process_ledgers ports options libraries documents low_bits accepts_uri token tips count
              (some (checkpoint_of ledger)) next (index + 1))
            (add_processed one)
            (ledgers-Keeps tips count (some (checkpoint_of ledger)) next (index + 1))
            λ (last, n). record { kept = λ w held. (refl, held) }

  pub status-Keeps :
      (state : WritableIndexerStatusState)
      → Keeps Held (
          persist_runtime_status ports options libraries documents low_bits accepts_uri token state)
  unfolding persist_runtime_status
  status-Keeps state =
      Keeps-bind (read (λ w. runtime_status w.last_tips w.last_agreed)) _
        (record { kept = λ w held. (refl, held) })
        λ status.
          call-Keeps (ports.update_indexer_status token state status)
            (stable.updated token state status)

  announce-Keeps :
      (previous : Option Checkpoint) (validated : ℕ)
      → Keeps Held
          (announce ports options libraries documents low_bits accepts_uri token previous validated)
  unfolding announce
  announce-Keeps previous validated =
      let ahead = is_ahead options previous validated in
      let state =
        ready_or_catching_up (is_none options.replay_target && (not (is_none previous) && ahead)) in
      if-Keeps (is_none previous || ahead)
        (persist_runtime_status ports options libraries documents low_bits accepts_uri token state)
        (pure tt) (status-Keeps state) (record { kept = λ w held. (refl, held) })

  finish-Keeps :
      (previous : Option Checkpoint) (tips : LedgerSourceTips) (last : Option Checkpoint × ℕ)
      → Keeps Held (finish options {S = S} previous tips last)
  finish-Keeps previous tips (last, n) =
      let complete = is_complete options previous tips && not (is_none options.replay_target) in
      let note : Work S (Unit {0}) = modify (λ w. record w { replay_completed = true }) in
      Keeps-bind (if complete then note else pure tt) (λ u. pure n)
        (if-Keeps complete note (pure tt) (record { kept = λ w held. (refl, held) })
          (record { kept = λ w held. (refl, held) }))
        λ a. record { kept = λ w held. (refl, held) }

  advance-Keeps :
      (previous : Option Checkpoint) (catalog : Catalog) (tips : LedgerSourceTips)
      → Keeps Held (
          advance ports options libraries documents low_bits accepts_uri token previous catalog
            tips)
  unfolding advance
  advance-Keeps previous catalog tips =
      let limit = processing_limit options.replay_target tips.effective in
      let count = run_length options previous tips.effective in
      let next = next_index options.profile previous in
      Keeps-bind
        (raise_unless (leb limit tips.effective) (replay_target_error replay_target_unavailable)) _
        (unless-Keeps _ _)
        λ a.
          Keeps-bind (call (ports.renew_lease token)) _ (call-Keeps _ (stable.renewed token)) λ b.
            Keeps-bind
              (announce ports options libraries documents low_bits accepts_uri token previous
                tips.effective)
              _ (announce-Keeps previous tips.effective)
              λ c.
                Keeps-bind
                  (process_ledgers ports options libraries documents low_bits accepts_uri token tips
                    count previous catalog next)
                  _ (ledgers-Keeps tips count previous catalog next)
                  λ outcome. finish-Keeps previous tips outcome

  pub run_once-Keeps :
      Keeps Held (run_once ports options libraries documents low_bits accepts_uri token)
  unfolding run_once
  run_once-Keeps =
      Keeps-bind (read (is_verified options)) _ (record { kept = λ w held. (refl, held) })
        λ verified.
          Keeps-bind (raise_unless verified (replay_target_error replay_target_unavailable)) _
            (unless-Keeps _ _)
            λ a.
              Keeps-bind (call (ports.renew_lease token)) _ (call-Keeps _ (stable.renewed token))
                λ b.
                  Keeps-bind (call (ports.get_last_checkpoint options.profile.profile_id)) _
                    (call-Keeps _ (stable.checkpoint_read options.profile.profile_id))
                    λ previous. Keeps-bind (note_previous previous) _ (previous-Keeps previous) λ c.
                      Keeps-bind (call (ports.get_schema_catalog options.profile.profile_id)) _
                        (call-Keeps _ (stable.catalog_read options.profile.profile_id))
                        λ catalog.
                          Keeps-bind (call ports.get_validated_ledger_tips) _
                            (call-Keeps _ stable.tips_read)
                            λ tips.
                              Keeps-bind (modify (λ v. record v { last_tips = some tips })) _
                                (record { kept = λ w held. (refl, held) })
                                λ d. advance-Keeps previous catalog tips
