-- ===== src/Indexer/Worker/Runs.antt =====
-- apps/indexer/src/worker.ts: what `runOnce` has done when it returns.
use xcs.Common.{
  sym, none, ℕ, ◌≤◌, ◌≡◌, refl, ap, ◌∙◌, leb→le, Text, Bool, true, false, Option, some, Result, ok,
  err, leb,
}
use xcs.Common.Actions.{lift, ◌>>◌, modify, raise_unless, Yields, Yields-bind, Yields-then}
use xcs.Core.Libraries.{Libraries}
use xcs.Core.Documents.{DocumentLibraries}
use xcs.Indexer.Types.{Checkpoint}
use xcs.Indexer.Fencing.{LeaseToken}
use xcs.Indexer.Projection.{Catalog}
use xcs.Indexer.ReplayTarget.{replay_target_unavailable}
use xcs.Indexer.Sources.{LedgerSourceTips}
use xcs.Indexer.Worker.{
  WorkerError, check_options, require_root, assert_checkpoint_has_evidence, agree,
  replay_target_error, Ports, WorkerState, WorkerOptions, call, read,
}
use xcs.Indexer.Worker.Loop.{
  processing_limit, next_index, process_ledgers, run_length, note_previous, announce, advance,
  finish, is_verified, run_once,
}
use xcs.Indexer.Worker.Progress.{Reached, process_ledgers-Reached}
use xcs.Indexer.Worker.Batches.{Advanced, some_batch, finish-Advanced, Reached-Advanced}

-- The run's checkpoint and tips are the answers that its own calls have got: after the lease is
-- renewed, the checkpoint, then the catalog, then the tips.
pub record Ran {S : Type 0} (ports : Ports S) (options : WorkerOptions) (token : LeaseToken)
    (before : WorkerState S) (n : ℕ) (w : WorkerState S) : Type 0 where
  pub previous : Option Checkpoint
  pub tips : LedgerSourceTips
  pub stored :
      (ports.get_last_checkpoint options.profile.profile_id
        (ports.renew_lease token before.store).1).0
      ≡ ok previous
  pub seen :
      (ports.get_validated_ledger_tips
        (ports.get_schema_catalog options.profile.profile_id
          (ports.get_last_checkpoint options.profile.profile_id
            (ports.renew_lease token before.store).1).1).1).0
      ≡ ok tips
  pub advanced : Advanced options previous tips n w

module _ {S : Type 0} where
  raise_unless-true :
      (t : Bool) (e : WorkerError) (w : WorkerState S)
      → Yields {A = Unit {0}} (λ u next. t ≡ true) (raise_unless t e w)
  raise_unless-true true e w = refl
  raise_unless-true false e w = tt

  Told : {A : Type 0} → (S → Result WorkerError A × S) → S → A → WorkerState S → Type 0
  Told port s a next = ((port s).0 ≡ ok a) × (next.store ≡ (port s).1)

  call-Told :
      {A : Type 0} (port : S → Result WorkerError A × S) (w : WorkerState S)
      → Yields (Told port w.store) (call port w)
  unfolding Told
  call-Told {A = A} port w = go (port w.store) refl
    where
      go :
          (r : Result WorkerError A × S)
          → port w.store ≡ r
          → Yields (Told port w.store) (r.0, record w { store = r.1 })
      go (ok a, s) e = (ap (λ x. x.0) e, sym (ap (λ x. x.1) e))
      go (err x, s) e = tt

  -- the answers of four calls in a row, from the stores between them
  answered :
      {A B C D : Type 0} (f : S → A × S) (g : S → B × S) (h : S → C × S) (k : S → D × S)
      {s s2 s3 s4 s5 s6 : S} {b : B} {d : D}
      → s2 ≡ s
      → s3 ≡ (f s2).1
      → (g s3).0 ≡ b
      → s4 ≡ (g s3).1
      → s5 ≡ s4
      → s6 ≡ (h s5).1
      → (k s6).0 ≡ d
      → ((g (f s).1).0 ≡ b) × ((k (h (g (f s).1).1).1).0 ≡ d)
  answered f g h k e2 e3 e4 e5 e6 e7 e8 = (cc, cc)

  raise_unless-store :
      (t : Bool) (e : WorkerError) (w : WorkerState S)
      → Yields {A = Unit {0}} (λ u next. next.store ≡ w.store) (raise_unless t e w)
  raise_unless-store true e w = refl
  raise_unless-store false e w = tt

  note_previous-store :
      (previous : Option Checkpoint) (w : WorkerState S)
      → Yields (λ u next. next.store ≡ w.store) (note_previous previous w)
  unfolding note_previous assert_checkpoint_has_evidence
  note_previous-store none w = refl
  note_previous-store (some c) w = go c.transaction_root
    where
      go :
          (root : Option Text)
          → Yields {A = Unit {0}}
              (λ u next. next.store ≡ w.store)
              ((lift (require_root root) >> agree c.ledger_index c.ledger_hash) w)
      go none = tt
      go (some r) = refl

module _ {S : Type 0} (ports : Ports S) (options : WorkerOptions) (libraries : Libraries)
    (documents : DocumentLibraries) (low_bits : ℕ → ℕ) (accepts_uri : Text → Bool)
    (token : LeaseToken) where
  advance-Advanced :
      (previous : Option Checkpoint) (catalog : Catalog) (tips : LedgerSourceTips)
      (w : WorkerState S)
      → 1 ≤ options.batch_size
      → Yields (Advanced options previous tips) (
          advance ports options libraries documents low_bits accepts_uri token previous catalog tips
            w)
  unfolding advance
  advance-Advanced previous catalog tips w batch =
      let limit = processing_limit options.replay_target tips.effective in
      let count = run_length options previous tips.effective in
      let next = next_index options.profile previous in
      let goal = Advanced options previous tips in
      Yields-bind (λ u v. leb limit tips.effective ≡ true) goal
        (raise_unless (leb limit tips.effective) (replay_target_error replay_target_unavailable)) _
        w (raise_unless-true _ _ w)
        λ a w1 within. Yields-then goal (call (ports.renew_lease token)) _ w1 λ b w2.
          Yields-then goal
            (announce ports options libraries documents low_bits accepts_uri token previous
              tips.effective)
            _ w2
            λ c w3.
              Yields-bind (Reached options count previous w3.last_agreed) goal
                (process_ledgers ports options libraries documents low_bits accepts_uri token tips
                  count previous catalog next)
                (finish options previous tips) w3
                (process_ledgers-Reached ports options libraries documents low_bits accepts_uri
                  token tips count previous catalog next w3)
                λ (last, n) w4 reached. finish-Advanced options previous tips last n w4 (
                  Reached-Advanced options previous tips w3.last_agreed last n w4 batch
                    (leb→le _ _ within) reached)

  -- When `runOnce` returns, under options that the constructor accepts: its ledgers begin with the
  -- one after the checkpoint that the repository gave it, or with the activation ledger, and are
  -- those up to the replay target's, or without a target up to the quorum's tip that the source
  -- gave it, a batch at most and no fewer. The last ledger wanted is not beyond the tip. The run
  -- has inserted no more ledgers than it has, and if it has any, the index that is agreed on then
  -- is its last one's.
  pub run_once-Ran :
      (w : WorkerState S)
      → check_options options ≡ ok tt
      → Yields
          (Ran ports options token w)
          (run_once ports options libraries documents low_bits accepts_uri token w)
  unfolding run_once Told
  run_once-Ran w accepted =
      let ran = Ran ports options token w in
      let renew = ports.renew_lease token in
      let checkpoint = ports.get_last_checkpoint options.profile.profile_id in
      let catalog_of = ports.get_schema_catalog options.profile.profile_id in
      let tips_now = ports.get_validated_ledger_tips in
      Yields-bind (λ v next. next.store ≡ w.store) ran (read (is_verified options)) _ w refl
        λ verified w1 e1.
          Yields-bind (λ u next. next.store ≡ w1.store) ran
            (raise_unless verified (replay_target_error replay_target_unavailable)) _ w1
            (raise_unless-store verified _ w1)
            λ a w2 e2.
              Yields-bind (Told renew w2.store) ran (call renew) _ w2 (call-Told renew w2)
                λ b w3 e3.
                  Yields-bind (Told checkpoint w3.store) ran (call checkpoint) _ w3
                    (call-Told checkpoint w3)
                    λ previous w4 e4.
                      Yields-bind (λ u next. next.store ≡ w4.store) ran (note_previous previous) _
                        w4 (note_previous-store previous w4)
                        λ c w5 e5.
                          Yields-bind (Told catalog_of w5.store) ran (call catalog_of) _ w5
                            (call-Told catalog_of w5)
                            λ catalog w6 e6.
                              Yields-bind (Told tips_now w6.store) ran (call tips_now) _ w6
                                (call-Told tips_now w6)
                                λ tips w7 e7.
                                  Yields-then ran (modify (λ v. record v { last_tips = some tips }))
                                    (λ u.
                                      advance ports options libraries documents low_bits accepts_uri
                                        token previous catalog tips)
                                    w7
                                    λ d w8.
                                      ran_on previous tips _
                                        (answered renew checkpoint catalog_of tips_now (e2 ∙ e1)
                                          e3.1 e4.0 e4.1 e5 e6.1 e7.0)
                                        (advance-Advanced previous catalog tips w8
                                          (some_batch options accepted))
    where
      Answers : Option Checkpoint → LedgerSourceTips → Type 0
      Answers previous tips =
          ((ports.get_last_checkpoint options.profile.profile_id
              (ports.renew_lease token w.store).1).0
            ≡ ok previous)
          × ((ports.get_validated_ledger_tips
                (ports.get_schema_catalog options.profile.profile_id
                  (ports.get_last_checkpoint options.profile.profile_id
                    (ports.renew_lease token w.store).1).1).1).0
              ≡ ok tips)

      ran_on :
          (previous : Option Checkpoint) (tips : LedgerSourceTips)
          (r : Result WorkerError ℕ × WorkerState S)
          → Answers previous tips
          → Yields (Advanced options previous tips) r
          → Yields (Ran ports options token w) r
      ran_on previous tips (err e, v) answers h = tt
      ran_on previous tips (ok n, v) (stored, seen) h = record {
        previous = previous;
        tips = tips;
        stored = stored;
        seen = seen;
        advanced = h;
      }
