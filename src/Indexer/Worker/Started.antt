-- ===== src/Indexer/Worker/Started.antt =====
-- apps/indexer/src/worker.ts: what `start` runs with its lease leaves the lease as it is, and keeps of
-- the store what all its calls keep.
use xcs.Common.{
  ℕ, zero, suc, ◌≡◌, refl, Text, Bool, true, ◌&&◌, Option, none, some, leb, ◌==◌, text_eq,
  if◌then◌else◌,
}
use xcs.Common.Actions.{pure, lift, modify, raise_unless, ◌>>=◌, ◌>>◌}
use xcs.Core.Libraries.{Libraries}
use xcs.Core.Network.{NetworkProfile}
use xcs.Core.Documents.{DocumentLibraries}
use xcs.Indexer.Types.{ValidatedLedger, Checkpoint}
use xcs.Indexer.Status.{catching_up_state, is_some}
use xcs.Indexer.Fencing.{LeaseToken}
use xcs.Indexer.Sources.{LedgerSourceTips, source_tip_regression}
use xcs.Indexer.ReplayTarget.{
  ReplayTarget, replay_target_unavailable, replay_target_mismatch, replay_target_exceeded,
}
use xcs.Indexer.Worker.{
  replay_target_error, source_failure, Ports, WorkerOptions, Work, call, read, agree,
  assert_checkpoint_has_evidence, assert_checkpoint_matches_ledger,
}
use xcs.Indexer.Worker.Loop.{persist_runtime_status, run_once}
use xcs.Indexer.Worker.Start.{
  StartPorts, not_exceeded, verify_target, agreed_ledger, resume, run_turns,
}
use xcs.Indexer.Worker.Leases.{
  Stable, Keeps, Keeps-bind, call-Keeps, lift-Keeps, unless-Keeps, if-Keeps, status-Keeps,
  run_once-Keeps,
}

-- The calls of `start` between its lease and its loop keep what holds of the store.
pub record StableStart {S : Type 0} (starts : StartPorts S) (Held : S → Type 0) : Type 0 where
  pub connected : (s : S) → Held s → Held (starts.connect s).1
  pub preflighted :
      (profile : NetworkProfile) (s : S) → Held s → Held (starts.preflight profile s).1

module _ {S : Type 0} (ports : Ports S) (starts : StartPorts S) (options : WorkerOptions)
    (libraries : Libraries) (documents : DocumentLibraries) (low_bits : ℕ → ℕ)
    (accepts_uri : Text → Bool) where
  -- what `start` runs once its lease is noted
  abbrev pub leased_run : ℕ → LeaseToken → Work S (Unit {0})
  leased_run turns token = do
    call starts.connect
    call (ports.renew_lease token)
    tips ← call (starts.preflight options.profile)
    modify (λ w. record w { last_tips = some tips })
    call (ports.renew_lease token)
    replay ←
        verify_target ports starts options libraries documents low_bits accepts_uri token tips
          options.replay_target
    checkpoint ← call (ports.get_last_checkpoint options.profile.profile_id)
    resume ports starts options libraries documents low_bits accepts_uri tips replay checkpoint
    call (ports.renew_lease token)
    persist_runtime_status ports options libraries documents low_bits accepts_uri token
        catching_up_state
    run_turns ports starts options libraries documents low_bits accepts_uri token turns

  abbrev pub held_run : ℕ → LeaseToken → Work S (Unit {0})
  held_run turns token =
      modify (λ w. record w { active_lease = some token }) >> leased_run turns token

  abbrev pub acquired_run : ℕ → Work S (Unit {0})
  acquired_run turns =
      call (
        starts.acquire_lease options.profile.profile_id options.writer_id options.lease_duration_ms)
      >>= λ token. held_run turns token

module _ {S : Type 0} (ports : Ports S) (starts : StartPorts S) (options : WorkerOptions)
    (libraries : Libraries) (documents : DocumentLibraries) (low_bits : ℕ → ℕ)
    (accepts_uri : Text → Bool) {Held : S → Type 0} (stable : Stable ports Held)
    (stable_start : StableStart starts Held) where
  target-Keeps :
      (token : LeaseToken) (tips : LedgerSourceTips) (target : Option ReplayTarget)
      → Keeps Held (
          verify_target ports starts options libraries documents low_bits accepts_uri token tips
            target)
  unfolding verify_target
  target-Keeps token tips none = record { kept = λ w held. (refl, held) }
  target-Keeps token tips (some target) =
      Keeps-bind
        (raise_unless (leb target.ledger_index tips.effective)
          (replay_target_error replay_target_unavailable))
        _ (unless-Keeps _ _)
        λ a.
          Keeps-bind (call (ports.get_ledger target.ledger_index)) _
            (call-Keeps _ (stable.ledger_read target.ledger_index))
            λ ledger.
              Keeps-bind
                (raise_unless
                  (ledger.ledger_index == target.ledger_index
                    && text_eq ledger.ledger_hash target.ledger_hash)
                  (replay_target_error replay_target_mismatch))
                _ (unless-Keeps _ _)
                λ b.
                  Keeps-bind (modify (λ w. record w { replay_target_verified = true })) _
                    (record { kept = λ w held. (refl, held) })
                    λ c.
                      Keeps-bind (call (ports.renew_lease token)) (λ u. pure (some ledger))
                        (call-Keeps _ (stable.renewed token))
                        λ d. record { kept = λ w held. (refl, held) }

  agreed-Keeps :
      (replay : Option ValidatedLedger) (checkpoint : Checkpoint)
      → Keeps Held (
          agreed_ledger ports starts options libraries documents low_bits accepts_uri replay
            checkpoint)
  agreed-Keeps none checkpoint = call-Keeps _ (stable.ledger_read checkpoint.ledger_index)
  agreed-Keeps (some ledger) checkpoint =
      if-Keeps (checkpoint.ledger_index == ledger.ledger_index) (pure ledger)
        (call (ports.get_ledger checkpoint.ledger_index)) (record { kept = λ w held. (refl, held) })
        (call-Keeps _ (stable.ledger_read checkpoint.ledger_index))

  matches-Keeps :
      (checkpoint : Checkpoint) (ledger : ValidatedLedger)
      → Keeps Held (assert_checkpoint_matches_ledger {S = S} checkpoint ledger)
  unfolding assert_checkpoint_matches_ledger
  matches-Keeps checkpoint ledger =
      Keeps-bind (lift (assert_checkpoint_has_evidence checkpoint)) _ (lift-Keeps _)
        λ a. record { kept = λ w held. (refl, held) }

  resume-Keeps :
      (tips : LedgerSourceTips) (replay : Option ValidatedLedger) (checkpoint : Option Checkpoint)
      → Keeps Held (
          resume ports starts options libraries documents low_bits accepts_uri tips replay
            checkpoint)
  unfolding resume
  resume-Keeps tips replay none = record { kept = λ w held. (refl, held) }
  resume-Keeps tips replay (some checkpoint) =
      Keeps-bind (lift (assert_checkpoint_has_evidence checkpoint)) _ (lift-Keeps _) λ a.
        Keeps-bind
          (raise_unless (not_exceeded options.replay_target checkpoint)
            (replay_target_error replay_target_exceeded))
          _ (unless-Keeps _ _)
          λ b.
            Keeps-bind
              (raise_unless (leb checkpoint.ledger_index tips.effective)
                (source_failure source_tip_regression))
              _ (unless-Keeps _ _)
              λ c.
                Keeps-bind
                  (agreed_ledger ports starts options libraries documents low_bits accepts_uri
                    replay checkpoint)
                  _ (agreed-Keeps replay checkpoint)
                  λ ledger.
                    Keeps-bind (assert_checkpoint_matches_ledger checkpoint ledger)
                      (λ u. agree checkpoint.ledger_index checkpoint.ledger_hash)
                      (matches-Keeps checkpoint ledger)
                      λ d. record { kept = λ w held. (refl, held) }

  turns-Keeps :
      (token : LeaseToken) (turns : ℕ)
      → Keeps Held
          (run_turns ports starts options libraries documents low_bits accepts_uri token turns)
  unfolding run_turns
  turns-Keeps token zero = record { kept = λ w held. (refl, held) }
  turns-Keeps token (suc turns) =
      let again =
        run_turns ports starts options libraries documents low_bits accepts_uri token turns in
      Keeps-bind (run_once ports options libraries documents low_bits accepts_uri token) _
        (run_once-Keeps ports options libraries documents low_bits accepts_uri token stable)
        λ a.
          Keeps-bind (read (λ w. w.replay_completed))
            (λ completed. if completed then pure tt else again)
            (record { kept = λ w held. (refl, held) })
            λ completed.
              if-Keeps completed (pure tt) again (record { kept = λ w held. (refl, held) })
                (turns-Keeps token turns)

  pub leased_run-Keeps :
      (turns : ℕ) (token : LeaseToken)
      → Keeps Held
          (leased_run ports starts options libraries documents low_bits accepts_uri turns token)
  leased_run-Keeps turns token =
      Keeps-bind (call starts.connect) _ (call-Keeps _ stable_start.connected) λ a.
        Keeps-bind (call (ports.renew_lease token)) _ (call-Keeps _ (stable.renewed token)) λ b.
          Keeps-bind (call (starts.preflight options.profile)) _
            (call-Keeps _ (stable_start.preflighted options.profile))
            λ tips.
              Keeps-bind (modify (λ w. record w { last_tips = some tips })) _
                (record { kept = λ w held. (refl, held) })
                λ c.
                  Keeps-bind (call (ports.renew_lease token)) _
                    (call-Keeps _ (stable.renewed token))
                    λ d.
                      Keeps-bind
                        (verify_target ports starts options libraries documents low_bits accepts_uri
                          token tips options.replay_target)
                        _ (target-Keeps token tips options.replay_target)
                        λ replay.
                          Keeps-bind (call (ports.get_last_checkpoint options.profile.profile_id)) _
                            (call-Keeps _ (stable.checkpoint_read options.profile.profile_id))
                            λ checkpoint.
                              Keeps-bind
                                (resume ports starts options libraries documents low_bits
                                  accepts_uri tips replay checkpoint)
                                _ (resume-Keeps tips replay checkpoint)
                                λ e.
                                  Keeps-bind (call (ports.renew_lease token)) _
                                    (call-Keeps _ (stable.renewed token))
                                    λ f.
                                      Keeps-bind
                                        (persist_runtime_status ports options libraries documents
                                          low_bits accepts_uri token catching_up_state)
                                        (λ u.
                                          run_turns ports starts options libraries documents
                                            low_bits accepts_uri token turns)
                                        (status-Keeps ports options libraries documents low_bits
                                          accepts_uri token stable catching_up_state)
                                        λ g. turns-Keeps token turns

pub unleased :
    {A : Type 0} (lease : Option LeaseToken) (m n : A)
    → lease ≡ none
    → (if is_some lease then m else n) ≡ n
unleased none m n e = refl
unleased (some token) m n e = cc
