-- ===== src/Indexer/Worker/Progress.antt =====
-- apps/indexer/src/worker.ts: how far a run of `runOnce` comes.
use xcs.Common.{
  ℕ, zero, suc, ◌+◌, ◌≤◌, ◌≡◌, refl, Text, Bool, ◌&&◌, Option, none, some, Result, ok, err, ◌==◌,
  arith,
}
use xcs.Common.Actions.{pure, lift, ◌>>◌, Yields, Yields-bind, Yields-then}
use xcs.Core.Libraries.{Libraries}
use xcs.Core.Network.{NetworkProfile}
use xcs.Core.Documents.{DocumentLibraries}
use xcs.Indexer.Types.{ValidatedLedger, Checkpoint}
use xcs.Indexer.Fencing.{LeaseToken, is_none}
use xcs.Indexer.Continuity.{LedgerContinuityError, assert_ledger_continuity}
use xcs.Indexer.Continuity.Chains.{checkpoint_of, Follows, assert_ledger_continuity_iff}
use xcs.Indexer.Projection.{Catalog, project_ledger}
use xcs.Indexer.Repository.Ledgers.{PersistResult, inserted, already_processed}
use xcs.Indexer.Sources.{LedgerSourceTips}
use xcs.Indexer.Worker.{
  Agreed, Ports, WorkerState, WorkerOptions, Work, call, agree, status_for_ledger,
}
use xcs.Indexer.Worker.Loop.{
  in_continuity, next_index, ready_or_catching_up, one_if_inserted, catalog_from, process_ledger,
  process_ledgers,
}

at_next :
    (profile : NetworkProfile) (previous : Option Checkpoint) (ledger : ValidatedLedger)
    → Follows profile previous ledger
    → ledger.ledger_index ≡ next_index profile previous
at_next profile none ledger (place, hash) = place
at_next profile (some c) ledger (place, parent) = place

abbrev agreed_on : ValidatedLedger → Option Agreed
agreed_on ledger =
    some (record { ledger_index = ledger.ledger_index; ledger_hash = ledger.ledger_hash })

one_at_most : (r : PersistResult) → one_if_inserted r ≤ 1
one_at_most inserted = omega arith
one_at_most already_processed = omega arith

module _ {S : Type 0} (options : WorkerOptions) where
  -- After the loop: as before it without a ledger, or with the last of the ledgers agreed on.
  abbrev pub Reached :
      ℕ → Option Checkpoint → Option Agreed → Option Checkpoint × ℕ → WorkerState S → Type 0
  Reached zero previous agreed (last, n) w = (last ≡ previous) × (n ≡ 0) × (w.last_agreed ≡ agreed)
  Reached (suc count) previous agreed (last, n) w =
      (ledger : ValidatedLedger) × (last ≡ some (checkpoint_of ledger))
      × (n ≤ suc count)
      × (ledger.ledger_index ≡ next_index options.profile previous + count)
      × (w.last_agreed ≡ agreed_on ledger)

  one_more :
      (count : ℕ) (previous : Option Checkpoint) (agreed : Option Agreed) (ledger : ValidatedLedger)
      (one : ℕ) (last : Option Checkpoint) (n : ℕ) (w : WorkerState S)
      → ledger.ledger_index ≡ next_index options.profile previous
      → one ≤ 1
      → Reached count (some (checkpoint_of ledger)) (agreed_on ledger) (last, n) w
      → Reached (suc count) previous agreed (last, one + n) w
  one_more zero previous agreed ledger one last n w place least (same, none_more, kept) =
      (ledger, same, omega (arith, none_more), omega (arith, place), kept)
  one_more (suc count) previous agreed ledger one last n w place least (l, same, most, at, kept) =
      (l, same, omega (arith, most), omega (arith, place, at), kept)

module _ {S : Type 0} (ports : Ports S) (options : WorkerOptions) (libraries : Libraries)
    (documents : DocumentLibraries) (low_bits : ℕ → ℕ) (accepts_uri : Text → Bool)
    (token : LeaseToken) where
  abbrev Processed : Option Checkpoint → ValidatedLedger × Catalog × ℕ → WorkerState S → Type 0
  Processed previous (ledger, catalog, one) w =
      (ledger.ledger_index ≡ next_index options.profile previous)
      × (one ≤ 1)
      × (w.last_agreed ≡ agreed_on ledger)

  continuity-Yields :
      (previous : Option Checkpoint) (ledger : ValidatedLedger) (w : WorkerState S)
      → Yields {A = Unit {0}}
          (λ done next. Follows options.profile previous ledger)
          (lift (in_continuity (assert_ledger_continuity options.profile previous ledger)) w)
  continuity-Yields previous ledger w =
      go (assert_ledger_continuity options.profile previous ledger)
        (assert_ledger_continuity_iff options.profile previous ledger).0
    where
      go :
          (r : Result LedgerContinuityError (Unit {0}))
          → (r ≡ ok tt → Follows options.profile previous ledger)
          → Yields {A = Unit {0}}
              (λ done next. Follows options.profile previous ledger)
              (lift (in_continuity r) w)
      go (ok tt) h = h refl
      go (err e) h = tt

  -- the end of the loop's body
  note_processed :
      ValidatedLedger → Catalog → PersistResult → Work S (ValidatedLedger × Catalog × ℕ)
  note_processed ledger next result =
      agree ledger.ledger_index ledger.ledger_hash >> pure (ledger, next, one_if_inserted result)

  process_ledger-Processed :
      (tips : LedgerSourceTips) (previous : Option Checkpoint) (catalog : Catalog) (index : ℕ)
      (w : WorkerState S)
      → Yields (Processed previous) (
          process_ledger ports options libraries documents low_bits accepts_uri token tips previous
            catalog index w)
  unfolding process_ledger note_processed
  process_ledger-Processed tips previous catalog index w =
      let done = Processed previous in
      Yields-then done (call (ports.renew_lease token)) _ w λ a w1.
        Yields-then done (call (ports.get_ledger index)) _ w1 λ ledger w2.
          Yields-bind (λ u next. Follows options.profile previous ledger) done
            (lift (in_continuity (assert_ledger_continuity options.profile previous ledger))) _ w2
            (continuity-Yields previous ledger w2)
            λ b w3 follows.
              Yields-then done
                (lift (
                  in_continuity (
                    project_ledger libraries documents low_bits accepts_uri options.profile ledger
                      catalog)))
                _ w3
                λ projection w4.
                  Yields-then done
                    (call (
                      ports.persist_ledger options.profile projection token
                        (ready_or_catching_up
                          (is_none options.replay_target && ledger.ledger_index == tips.effective))
                        (status_for_ledger ledger tips)))
                    (note_processed ledger (
                      catalog_from options.profile ledger.ledger_index catalog
                        projection.collected.schema_registrations))
                    w4
                    λ result w5.
                      (at_next options.profile previous ledger follows, one_at_most result, refl)

  pub process_ledgers-Reached :
      (tips : LedgerSourceTips) (count : ℕ) (previous : Option Checkpoint) (catalog : Catalog)
      (index : ℕ) (w : WorkerState S)
      → Yields (Reached options count previous w.last_agreed) (
          process_ledgers ports options libraries documents low_bits accepts_uri token tips count
            previous catalog index w)
  unfolding process_ledgers
  process_ledgers-Reached tips zero previous catalog index w = (refl, refl, refl)
  process_ledgers-Reached tips (suc count) previous catalog index w =
      Yields-bind (Processed previous) (Reached options (suc count) previous w.last_agreed)
        (process_ledger ports options libraries documents low_bits accepts_uri token tips previous
          catalog index)
        _ w (process_ledger-Processed tips previous catalog index w)
        λ (ledger, next, one) w1 (place, least, agreed).
          Yields-bind (Reached options count (some (checkpoint_of ledger)) w1.last_agreed)
            (Reached options (suc count) previous w.last_agreed)
            (process_ledgers ports options libraries documents low_bits accepts_uri token tips count
              (some (checkpoint_of ledger)) next (index + 1))
            (add_one one) w1
            (process_ledgers-Reached tips count (some (checkpoint_of ledger)) next (index + 1) w1)
            λ (last, n) w2 reached.
              one_more options count previous w.last_agreed ledger one last n w2 place least
                (rw agreed at reached)
    where
      add_one : ℕ → Option Checkpoint × ℕ → Work S (Option Checkpoint × ℕ)
      add_one one (last, n) = pure (last, one + n)
