-- ===== src/Indexer/Worker/Batches.antt =====
-- apps/indexer/src/worker.ts: the ledgers that a run of `runOnce` wants, and those it comes to.
use mathlib.Core.Path.{subst}
use xcs.Core.Network.{NetworkProfile}
use xcs.Common.{
  ◌<◌, ◌↔◌, none, ℕ, zero, suc, ◌+◌, ◌-◌, min, arith, ◌≤◌, ◌≡◌, refl, ap, ◌∙◌, Bool-cases, inl, inr,
  Text, not, ◌&&◌, Option, some, ok,
}
use xcs.Common.Actions.{Yields}
use xcs.Indexer.Types.{Checkpoint}
use xcs.Indexer.Fencing.{is_none}
use xcs.Indexer.ReplayTarget.{ReplayTarget}
use xcs.Indexer.Sources.{LedgerSourceTips}
use xcs.Indexer.Worker.{check_options, Agreed, WorkerState, WorkerOptions}
use xcs.Indexer.Worker.Loop.{processing_limit, next_index, run_length, is_complete, finish}
use xcs.Indexer.Worker.Progress.{Reached}

-- the ledger after the repository's last checkpoint, or the activation ledger
abbrev first_wanted : NetworkProfile → Option Checkpoint → ℕ
first_wanted profile none = profile.activation_ledger_index
first_wanted profile (some last) = last.ledger_index + 1

-- the last ledger that is wanted: the one to replay to, or the quorum's tip
abbrev last_wanted : Option ReplayTarget → LedgerSourceTips → ℕ
last_wanted none tips = tips.effective
last_wanted (some target) tips = target.ledger_index

-- A run under a checkpoint and the source's tips. Its ledgers are those from the first that is wanted
-- to the last, a batch at most; the last of them is agreed on.
pub record Advanced {S : Type 0} (options : WorkerOptions) (previous : Option Checkpoint)
    (tips : LedgerSourceTips) (n : ℕ) (w : WorkerState S) : Type 0 where
  pub count : ℕ
  pub in_reach : last_wanted options.replay_target tips ≤ tips.effective
  pub covers :
      (i : ℕ)
      → first_wanted options.profile previous ≤ i
      → (i < first_wanted options.profile previous + count) ↔ (
          (i ≤ last_wanted options.replay_target tips)
          × (i < first_wanted options.profile previous + options.batch_size))
  pub inserted : n ≤ count
  pub agreed :
      (k : ℕ)
      → count ≡ suc k
      → (hash : Text) × (w.last_agreed
          ≡ some (record {
            ledger_index = first_wanted options.profile previous + k;
            ledger_hash = hash;
          }))

run_covers :
    (limit first batch i : ℕ)
    → 1 ≤ batch
    → first ≤ i
    → (i < first + (min limit (first + batch - 1) + 1 - first))
      ↔ ((i ≤ limit) × (i < first + batch))
run_covers limit first batch i some_batch from =
    (λ h. (omega arith, omega arith), λ (a, b). omega arith)

first_wanted-next_index :
    (profile : NetworkProfile) (previous : Option Checkpoint)
    → next_index profile previous ≡ first_wanted profile previous
first_wanted-next_index profile none = refl
first_wanted-next_index profile (some c) = refl

last_wanted-limit :
    (target : Option ReplayTarget) (tips : LedgerSourceTips)
    → processing_limit target tips.effective ≡ last_wanted target tips
last_wanted-limit none tips = refl
last_wanted-limit (some target) tips = refl

pub some_batch : (options : WorkerOptions) → check_options options ≡ ok tt → 1 ≤ options.batch_size
unfolding check_options
some_batch options accepted = ground arith

module _ {S : Type 0} where
  agreed_at :
      (options : WorkerOptions) (count : ℕ) (previous : Option Checkpoint) (before : Option Agreed)
      (last : Option Checkpoint) (n : ℕ) (w : WorkerState S)
      → Reached options count previous before (last, n) w
      → (n ≤ count)
        × ((k : ℕ)
            → count ≡ suc k
            → (hash : Text) × (w.last_agreed
                ≡ some (record {
                  ledger_index = next_index options.profile previous + k;
                  ledger_hash = hash;
                })))
  agreed_at options zero previous before last n w (same, none_more, kept) =
      (omega (arith, none_more), λ k e. cc)
  agreed_at options (suc count) previous before last n w (ledger, same, most, at, kept) =
      (most, λ k e. (ledger.ledger_hash, agreed_there (omega (arith, e))))
    where
      agreed_there :
          {k : ℕ}
          → count ≡ k
          → w.last_agreed
            ≡ some (record {
              ledger_index = next_index options.profile previous + k;
              ledger_hash = ledger.ledger_hash;
            })
      agreed_there {k = k} same_count =
          kept
          ∙ ap (λ i. some (record { ledger_index = i; ledger_hash = ledger.ledger_hash }))
              (omega (arith, at, same_count))

  pub finish-Advanced :
      (options : WorkerOptions) (previous : Option Checkpoint) (tips : LedgerSourceTips)
      (last : Option Checkpoint) (n : ℕ) (w : WorkerState S)
      → Advanced options previous tips n w
      → Yields (Advanced options previous tips) (finish options previous tips (last, n) w)
  finish-Advanced options previous tips last n w advanced =
      elim (Bool-cases (is_complete options previous tips && not (is_none options.replay_target))) [
        | inl e ↦ rw e (record {
          count = advanced.count;
          in_reach = advanced.in_reach;
          covers = advanced.covers;
          inserted = advanced.inserted;
          agreed = advanced.agreed;
        })
        | inr e ↦ rw e advanced
      ]

  pub Reached-Advanced :
      (options : WorkerOptions) (previous : Option Checkpoint) (tips : LedgerSourceTips)
      (before : Option Agreed) (last : Option Checkpoint) (n : ℕ) (w : WorkerState S)
      → 1 ≤ options.batch_size
      → processing_limit options.replay_target tips.effective ≤ tips.effective
      → Reached options (run_length options previous tips.effective) previous before (last, n) w
      → Advanced options previous tips n w
  Reached-Advanced options previous tips before last n w batch within reached =
      let limit = last_wanted-limit options.replay_target tips in
      let next = first_wanted-next_index options.profile previous in
      let (inserted, agreed) =
        agreed_at options (run_length options previous tips.effective) previous before last n w
          reached in
      record {
        count = run_length options previous tips.effective;
        in_reach = subst (λ l. l ≤ tips.effective) limit within;
        covers = λ i from.
            subst
              (λ f.
                f ≤ i
                → (i < f + run_length options previous tips.effective)
                  ↔ ((i ≤ last_wanted options.replay_target tips) × (i < f + options.batch_size)))
              next
              (subst
                (λ l.
                  next_index options.profile previous ≤ i
                  → (i
                      < next_index options.profile previous
                        + run_length options previous tips.effective)
                    ↔ ((i ≤ l) × (i < next_index options.profile previous + options.batch_size)))
                limit
                (run_covers (processing_limit options.replay_target tips.effective)
                  (next_index options.profile previous) options.batch_size i batch))
              from;
        inserted = inserted;
        agreed = λ k e.
            subst
              (λ f.
                (hash : Text) × (w.last_agreed
                  ≡ some (record { ledger_index = f + k; ledger_hash = hash })))
              next (agreed k e);
      }
