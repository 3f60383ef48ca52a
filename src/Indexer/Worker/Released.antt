-- ===== src/Indexer/Worker/Released.antt =====
-- apps/indexer/src/worker.ts: the lease of `start`, after it has ended.
use mathlib.Core.Path.{subst}
use xcs.Common.{
  ap, sym, ℕ, ◌≡◌, ◌⊎◌, refl, Text, Bool, true, false, Option, none, some, Result, ok, err,
  Bool-cases, inl, inr,
}
use xcs.Common.Actions.{Ends, Ends-bind}
use xcs.Core.Libraries.{Libraries}
use xcs.Core.Network.{NetworkProfile}
use xcs.Core.Documents.{DocumentLibraries}
use xcs.Indexer.Status.{StatusInput}
use xcs.Indexer.Fencing.{LeaseToken}
use xcs.Indexer.Worker.{
  WorkerError, already_running, Ports, WorkerState, WorkerOptions, Work, call, runtime_status,
}
use xcs.Indexer.Worker.Start.{
  StartPorts, is_ok, failed_first, run_started, halt_failed, release_unhalted, stop, end_run, start,
}
use xcs.Indexer.Worker.Leases.{Stable}
use xcs.Indexer.Worker.Started.{StableStart, held_run, acquired_run, leased_run-Keeps, unleased}

-- What the operations do to the store's lease. `Clear` holds of a store in which the worker has no
-- lease, `Leased token` of one in which it may have a lease, and then only that of the token. A lease
-- is ended by a halt or a release with its own token that succeeds, and by nothing else.
pub record LeaseLaws {S : Type 0} (ports : Ports S) (starts : StartPorts S) (Clear : S → Type 0)
    (Leased : LeaseToken → S → Type 0) : Type 0 where
  pub stable : (token : LeaseToken) → Stable ports (Leased token)
  pub stable_start : (token : LeaseToken) → StableStart starts (Leased token)
  pub initialized :
      (profile : NetworkProfile) (s : S) → Clear s → Clear (starts.initialize_profile profile s).1
  pub refused :
      (profile writer : Text) (ms : ℕ) (s : S) (e : WorkerError)
      → Clear s
      → (starts.acquire_lease profile writer ms s).0 ≡ err e
      → Clear (starts.acquire_lease profile writer ms s).1
  pub acquired :
      (profile writer : Text) (ms : ℕ) (s : S) (token : LeaseToken)
      → Clear s
      → (starts.acquire_lease profile writer ms s).0 ≡ ok token
      → Leased token (starts.acquire_lease profile writer ms s).1
  pub halted :
      (token : LeaseToken) (status : StatusInput) (e : WorkerError) (s : S)
      → Leased token s
      → is_ok (ports.halt_indexer token status e s).0 ≡ true
      → Clear (ports.halt_indexer token status e s).1
  pub not_halted :
      (token : LeaseToken) (status : StatusInput) (e : WorkerError) (s : S)
      → Leased token s
      → is_ok (ports.halt_indexer token status e s).0 ≡ false
      → Leased token (ports.halt_indexer token status e s).1
  pub released :
      (token : LeaseToken) (s : S)
      → Leased token s
      → is_ok (ports.release_lease token s).0 ≡ true
      → Clear (ports.release_lease token s).1
  pub disconnected : (s : S) → Clear s → Clear (ports.disconnect s).1

failed-last :
    (a b c : Result WorkerError (Unit {0}))
    → is_ok c ≡ false
    → is_ok (failed_first a (failed_first b c)) ≡ false
failed-last (err e) b c h = refl
failed-last (ok u) (err e) c h = refl
failed-last (ok u) (ok v) c h = h

module _ {S : Type 0} (ports : Ports S) (Clear : S → Type 0)
    (Leased : LeaseToken → S → Type 0) where
  -- The lease's own release was called last, and it failed.
  pub record ReleaseFailed (s : S) : Type 0 where
    pub token : LeaseToken
    pub before : S
    pub leased : Leased token before
    pub failed : is_ok (ports.release_lease token before).0 ≡ false
    pub after : s ≡ (ports.release_lease token before).1

  -- The worker holds no lease any more, and the store neither, unless the release has failed, and then
  -- the run throws.
  abbrev pub GivenUp : Result WorkerError (Unit {0}) × WorkerState S → Type 0
  GivenUp (outcome, w) =
      (w.active_lease ≡ none) × (Clear w.store ⊎ (ReleaseFailed w.store × (is_ok outcome ≡ false)))

  -- before the run ends: no lease, or the worker's
  abbrev Holds : WorkerState S → Type 0
  Holds w =
      ((w.active_lease ≡ none) × Clear w.store)
      ⊎ ((token : LeaseToken) × (w.active_lease ≡ some token) × Leased token w.store)

module _ {S : Type 0} (ports : Ports S) (starts : StartPorts S) (options : WorkerOptions)
    (libraries : Libraries) (documents : DocumentLibraries) (low_bits : ℕ → ℕ)
    (accepts_uri : Text → Bool) (Clear : S → Type 0) (Leased : LeaseToken → S → Type 0)
    (laws : LeaseLaws ports starts Clear Leased) where
  abbrev Holding : WorkerState S → Type 0
  Holding w = Holds ports Clear Leased w

  abbrev Given : Result WorkerError (Unit {0}) × WorkerState S → Type 0
  Given r = GivenUp ports Clear Leased r

  acquired_run-Holds :
      (turns : ℕ) (w : WorkerState S)
      → w.active_lease ≡ none
      → Clear w.store
      → Ends Holding
          (acquired_run ports starts options libraries documents low_bits accepts_uri turns w)
  acquired_run-Holds turns w idle clear =
      let profile = options.profile.profile_id in
      let port = starts.acquire_lease profile options.writer_id options.lease_duration_ms in
      Ends-bind Holding (call port)
        (held_run ports starts options libraries documents low_bits accepts_uri turns) w
        (λ e next eq. inl (
          subst (λ r. (r.1.active_lease ≡ none) × Clear r.1.store) eq
            (
              idle,
              laws.refused profile options.writer_id options.lease_duration_ms w.store e clear
                  (ap (λ r. r.0) eq),
            )))
        λ token next eq.
          let leased =
            subst (λ r. Leased token r.1.store) eq
              (laws.acquired profile options.writer_id options.lease_duration_ms w.store token clear
                (ap (λ r. r.0) eq)) in
          let (same, still) =
            (leased_run-Keeps ports starts options libraries documents low_bits accepts_uri
                (laws.stable token) (laws.stable_start token) turns token).kept
              (record next { active_lease = some token }) leased in
          inr (token, same, still)

  run_started-Holds :
      (turns : ℕ) (w : WorkerState S)
      → w.active_lease ≡ none
      → Clear w.store
      → Ends Holding
          (run_started ports starts options libraries documents low_bits accepts_uri turns w)
  unfolding run_started
  run_started-Holds turns w idle clear =
      let begun : (w.active_lease ≡ none)
          × Clear (starts.initialize_profile options.profile w.store).1 =
        (idle, laws.initialized options.profile w.store clear) in
      Ends-bind Holding (call (starts.initialize_profile options.profile))
        (λ u. acquired_run ports starts options libraries documents low_bits accepts_uri turns) w
        (λ e next eq. inl (subst (λ r. (r.1.active_lease ≡ none) × Clear r.1.store) eq begun))
        λ u next eq.
          let (still, free) = subst (λ r. (r.1.active_lease ≡ none) × Clear r.1.store) eq begun in
          acquired_run-Holds turns next still free

  -- `stop` with a lease that is told
  abbrev stop_with : Bool → Result WorkerError (Unit {0}) → Option LeaseToken → Work S (Unit {0})
  stop_with halted outcome lease w =
      let (disconnected, s) = ports.disconnect w.store in
      let (released, v) =
        release_unhalted ports starts options libraries documents low_bits accepts_uri halted lease
          (record w { store = s }) in
      (failed_first outcome (failed_first disconnected released), record v { active_lease = none })

  clear-GivenUp :
      (halted : Bool) (outcome : Result WorkerError (Unit {0})) (lease : Option LeaseToken)
      (w : WorkerState S)
      → Clear w.store
      → (halted ≡ true) ⊎ (lease ≡ none)
      → Given (stop_with halted outcome lease w)
  unfolding release_unhalted
  clear-GivenUp true outcome lease w clear done = (refl, inl (laws.disconnected w.store clear))
  clear-GivenUp false outcome none w clear done = (refl, inl (laws.disconnected w.store clear))
  clear-GivenUp false outcome (some token) w clear (inl e) = cc
  clear-GivenUp false outcome (some token) w clear (inr e) = cc

  Leased-GivenUp :
      (outcome : Result WorkerError (Unit {0})) (token : LeaseToken) (w : WorkerState S)
      → Leased token w.store
      → Given (stop_with false outcome (some token) w)
  unfolding release_unhalted
  Leased-GivenUp outcome token w leased =
      let s = (ports.disconnect w.store).1 in
      let still = (laws.stable token).disconnected w.store leased in
      elim (Bool-cases (is_ok (ports.release_lease token s).0)) [
        | inl e ↦ (refl, inl (laws.released token s still e))
        | inr e ↦ (
          refl,
          inr (
            record { token = token; before = s; leased = still; failed = e; after = refl },
            failed-last outcome (ports.disconnect w.store).0 (ports.release_lease token s).0 e,
          ),
        )
      ]

  -- after a halt of the lease, successful or not
  halted-GivenUp :
      (outcome : Result WorkerError (Unit {0})) (token : LeaseToken) (status : StatusInput)
      (x : WorkerError) (w : WorkerState S) (halted : Bool)
      → Leased token w.store
      → is_ok (ports.halt_indexer token status x w.store).0 ≡ halted
      → Given (
          stop_with halted outcome
            (some token)
            (record w { store = (ports.halt_indexer token status x w.store).1 }))
  halted-GivenUp outcome token status x w true leased e =
      clear-GivenUp true outcome (some token) _ (laws.halted token status x w.store leased e)
        (inl refl)
  halted-GivenUp outcome token status x w false leased e =
      Leased-GivenUp outcome token _ (laws.not_halted token status x w.store leased e)

  -- `end_run` with a lease that is told
  abbrev end_with :
      Result WorkerError (Unit {0})
      → Result WorkerError (Unit {0})
      → Option LeaseToken
      → WorkerState S
      → Result WorkerError (Unit {0}) × WorkerState S
  end_with r outcome lease w =
      let (halted, v) =
        halt_failed ports starts options libraries documents low_bits accepts_uri r lease w in
      stop_with halted outcome lease v

  unheld-GivenUp :
      (r outcome : Result WorkerError (Unit {0})) (w : WorkerState S)
      → Clear w.store
      → Given (end_with r outcome none w)
  unfolding halt_failed
  unheld-GivenUp (ok u) outcome w clear = clear-GivenUp false outcome none w clear (inr refl)
  unheld-GivenUp (err x) outcome w clear = clear-GivenUp false outcome none w clear (inr refl)

  held-GivenUp :
      (r outcome : Result WorkerError (Unit {0})) (token : LeaseToken) (w : WorkerState S)
      → Leased token w.store
      → Given (end_with r outcome (some token) w)
  unfolding halt_failed
  held-GivenUp (ok u) outcome token w leased = Leased-GivenUp outcome token w leased
  held-GivenUp (err x) outcome token w leased =
      let status = runtime_status w.last_tips w.last_agreed in
      halted-GivenUp outcome token status x w (is_ok (ports.halt_indexer token status x w.store).0)
        leased refl

  ended-GivenUp :
      (outcome : Result WorkerError (Unit {0})) (w : WorkerState S)
      → Holding w
      → Given (end_with outcome outcome w.active_lease w)
  ended-GivenUp outcome w (inl (idle, clear)) =
      subst (λ lease. Given (end_with outcome outcome lease w)) (sym idle)
        (unheld-GivenUp outcome outcome w clear)
  ended-GivenUp outcome w (inr (token, held, leased)) =
      subst (λ lease. Given (end_with outcome outcome lease w)) (sym held)
        (held-GivenUp outcome outcome token w leased)

  halt_failed-lease :
      (r : Result WorkerError (Unit {0})) (lease : Option LeaseToken) (w : WorkerState S)
      → (halt_failed ports starts options libraries documents low_bits accepts_uri r lease
          w).1.active_lease
        ≡ w.active_lease
  unfolding halt_failed
  halt_failed-lease (ok u) lease w = refl
  halt_failed-lease (err x) none w = refl
  halt_failed-lease (err x) (some token) w = refl

  -- the lease that `stop` reads is the run's
  end_run-GivenUp :
      (outcome : Result WorkerError (Unit {0})) (w : WorkerState S)
      → Given (end_with outcome outcome w.active_lease w)
      → Given (end_run ports starts options libraries documents low_bits accepts_uri (outcome, w))
  unfolding stop
  end_run-GivenUp outcome w given =
      let after =
        halt_failed ports starts options libraries documents low_bits accepts_uri outcome
          w.active_lease w in
      subst (λ lease. Given (stop_with after.0 outcome lease after.1))
        (sym (halt_failed-lease outcome w.active_lease w)) given

  -- Whatever the repository, the sources and the projection answer, under the laws on the store's
  -- lease, and whether the run returns or throws: a worker without a lease, on a store that is clear of
  -- it, holds none after `start`, and the store is clear again, unless the last call was the release of
  -- the worker's own lease and it failed; `start` throws then.
  pub start-GivenUp :
      (turns : ℕ) (w : WorkerState S)
      → w.active_lease ≡ none
      → Clear w.store
      → GivenUp ports Clear Leased
          (start ports starts options libraries documents low_bits accepts_uri turns w)
  unfolding start
  start-GivenUp turns w idle clear =
      let run = run_started ports starts options libraries documents low_bits accepts_uri turns w in
      let ended = end_run ports starts options libraries documents low_bits accepts_uri run in
      subst (λ r. Given r) (sym (unleased w.active_lease (err already_running, w) ended idle))
        (end_run-GivenUp run.0 run.1
          (ended-GivenUp run.0 run.1 (run_started-Holds turns w idle clear)))
