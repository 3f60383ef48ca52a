-- ===== src/Indexer/Fencing/Exclusion.antt =====
-- One writer at a time: what a lease that is active keeps out, and what a newer lease ends.
use mathlib.Core.Path.{subst}
use xcs.Common.{
  ℕ, ◌+◌, ◌≤◌, ◌<◌, ◌≡◌, ◌↔◌, refl, Text, [], Bool, true, false, Option, none, some, Result, ok,
  err, ◌>>=◌, ◌==◌, arith, Outcome-Ensures, Ensures, Ensures-map, Ensures-at, ltb, text_eq_refl,
  if◌then◌else◌, and_true, >>=-eq-ok, Returns,
}
use xcs.Core.Json.{JsonNumber}
use xcs.Indexer.Status.{
  FencingError, lease_lost, halted, StatusInput, WritableIndexerStatusState, widen,
  IndexerStatusRow, normalize_status,
}
use xcs.Indexer.Fencing.{
  LeaseToken, AcquiredLease, Database, put_status, leased_row, select_row, token_filter,
  active_token_filter, normalize_token, normalize_lease_duration, expires_after, is_free,
  acquire_row, acquire_indexer_lease, renew_indexer_lease, update_indexer_status,
  release_indexer_lease, halt_indexer, lock_active_indexer_lease,
}
use xcs.Indexer.Fencing.Invariant.{Expected, Inv, select_row-Outcome, IsToken, normalize_token_lem}
use xcs.Indexer.Fencing.Acquire.{next_epoch, Acquired, acquire_indexer_lease-Outcome}
use xcs.Indexer.Fencing.Steps.{epoch_of, token_filter-parts}
use xcs.Indexer.Fencing.History.{Operation, run, run-Stepped, LaterEpochs}

-- Calls that succeeded, at times that do not go back.
pub data History (t : ℕ) (db : Database) : ℕ → Database → Type 0 where
  start : History t db t db
  step :
      {u now : ℕ} {db1 db2 : Database} (operation : Operation)
      → History t db u db1
      → u ≤ now
      → run operation now db1 ≡ ok db2
      → History t db now db2

abbrev pub Fails {ℓ} : {A : Type ℓ} → Result FencingError A → Type 0
Fails r = Ensures (λ x. ⊥) r

-- every use of the token fails, at any time
pub record Refused (db : Database) (token : LeaseToken) : Type 0 where
  pub lock : (now : ℕ) → Fails (lock_active_indexer_lease token now db)
  pub renew : (now : ℕ) (duration : JsonNumber) → Fails (renew_indexer_lease token duration now db)
  pub update :
      (now : ℕ) (state : WritableIndexerStatusState) (input : StatusInput)
      → Fails (update_indexer_status token state input now db)
  pub release : (now : ℕ) → Fails (release_indexer_lease token now db)
  pub halt :
      (now : ℕ) (input : StatusInput) (code : Text) → Fails (halt_indexer token input code now db)

step_at :
    (operation : Operation) (u now : ℕ) (db1 db2 : Database)
    → Inv u db1
    → u ≤ now
    → run operation now db1 ≡ ok db2
    → Inv now db2 × LaterEpochs db1 db2
step_at operation u now db1 db2 inv le e =
    Ensures-at (λ db. Inv now db × LaterEpochs db1 db) (run operation now db1) db2
      (Outcome-Ensures (λ db. Inv now db × LaterEpochs db1 db) Expected (run operation now db1)
        (run-Stepped operation u now db1 inv le))
      e

-- Whatever the calls, the tables keep their invariant and no epoch goes back.
pub History-Inv :
    (t : ℕ) (db : Database) (u : ℕ) (db1 : Database)
    → Inv t db
    → History t db u db1
    → Inv u db1 × LaterEpochs db db1
History-Inv t db u db1 inv start = (inv, λ p. omega arith)
History-Inv t db u db1 inv (step {u = u0} {db1 = mid} operation h le e) =
    let (inv1, later1) = History-Inv t db u0 mid inv h in
    let (inv2, later2) = step_at operation u0 u mid db1 inv1 le e in
    (inv2, λ p. omega (arith, later1 p, later2 p))

-- A token whose epoch is over selects no row.
stale-Fails :
    (test : IndexerStatusRow → Bool) (token : LeaseToken) (o : Option IndexerStatusRow)
    → ((row : IndexerStatusRow) → test row ≡ true → row.writer_epoch ≡ token.epoch)
    → token.epoch < epoch_of o
    → Fails (select_row test o)
stale-Fails test token o same old =
    Ensures-map (λ row. (o ≡ some row) × (test row ≡ true)) (λ x. ⊥) (select_row test o)
      (Outcome-Ensures (λ row. (o ≡ some row) × (test row ≡ true)) Expected (select_row test o)
        (select_row-Outcome test o))
      λ row (found, h). clash row found (same row h)
  where
    clash : (row : IndexerStatusRow) → o ≡ some row → row.writer_epoch ≡ token.epoch → ⊥
    clash row found e = let old1 : token.epoch < row.writer_epoch = rw found at old in omega arith

active_epoch :
    (token : LeaseToken) (now : ℕ) (row : IndexerStatusRow)
    → active_token_filter token now row ≡ true
    → (token_filter token row ≡ true) × (expires_after row.lease_expires_at now ≡ true)
unfolding active_token_filter
active_epoch token now row h = and_true (token_filter token row) _ h

after :
    {A B : Type 0} (m : Result FencingError A) (f : A → Result FencingError B)
    → ((a : A) → Fails (f a))
    → Fails (m >>= f)
after (ok a) f h = h a
after (err e) f h = tt

at_once :
    {A B : Type 0} (m : Result FencingError A) (f : A → Result FencingError B)
    → Fails m
    → Fails (m >>= f)
at_once (ok a) f h = absurd h
at_once (err e) f h = tt

stale-Refused :
    (db : Database) (token : LeaseToken)
    → token.epoch < epoch_of (db.statuses token.profile_id)
    → Refused db token
unfolding lock_active_indexer_lease renew_indexer_lease update_indexer_status release_indexer_lease
    halt_indexer
stale-Refused db token old = record {
  lock = λ now. after (normalize_token token) _ λ n. active now;
  renew = λ now duration. after (normalize_token token) _ λ n.
      after (normalize_lease_duration duration) _ λ ms.
        at_once (select_row (active_token_filter token now) (db.statuses token.profile_id)) _
          (active now);
  update = λ now state input. after (normalize_token token) _ λ n.
      after (normalize_status (widen state) input []) _ λ v.
        at_once (select_row (active_token_filter token now) (db.statuses token.profile_id)) _
          (active now);
  release = λ now.
      after (normalize_token token) _
        λ n. at_once (select_row (token_filter token) (db.statuses token.profile_id)) _ held;
  halt = λ now input code. after (normalize_token token) _ λ n.
      after (normalize_status halted input code) _
        λ v. at_once (select_row (token_filter token) (db.statuses token.profile_id)) _ held;
}
  where
    active :
        (now : ℕ)
        → Fails (select_row (active_token_filter token now) (db.statuses token.profile_id))
    active now =
        stale-Fails (active_token_filter token now) token (db.statuses token.profile_id)
          (λ row h.
            let (mine, running) = active_epoch token now row h in
            let (w, e) = token_filter-parts token row mine in e)
          old

    held : Fails (select_row (token_filter token) (db.statuses token.profile_id))
    held =
        stale-Fails (token_filter token) token (db.statuses token.profile_id)
          (λ row h. let (w, e) = token_filter-parts token row h in e) old

lock_row :
    (token : LeaseToken) (now : ℕ) (db : Database) (row : IndexerStatusRow)
    → lock_active_indexer_lease token now db ≡ ok row
    → (db.statuses token.profile_id ≡ some row) × (active_token_filter token now row ≡ true)
unfolding lock_active_indexer_lease
lock_row token now db row h =
    let (n, e, h1) = >>=-eq-ok (normalize_token token) _ h in
    Ensures-at
      (λ r. (db.statuses token.profile_id ≡ some r) × (active_token_filter token now r ≡ true))
      (select_row (active_token_filter token now) (db.statuses token.profile_id)) row
      (Outcome-Ensures
        (λ r. (db.statuses token.profile_id ≡ some r) × (active_token_filter token now r ≡ true))
        Expected (select_row (active_token_filter token now) (db.statuses token.profile_id))
        (select_row-Outcome (active_token_filter token now) (db.statuses token.profile_id)))
      h1

Acquired-at :
    (t now : ℕ) (db db' : Database) (profile writer : Text) (duration : JsonNumber)
    (lease : AcquiredLease)
    → Inv t db
    → t ≤ now
    → acquire_indexer_lease profile writer duration now db ≡ ok (lease, db')
    → Acquired db profile writer now (lease, db')
Acquired-at t now db db' profile writer duration lease inv le e =
    Ensures-at (Acquired db profile writer now)
      (acquire_indexer_lease profile writer duration now db) (lease, db')
      (Outcome-Ensures (Acquired db profile writer now) Expected
        (acquire_indexer_lease profile writer duration now db)
        (acquire_indexer_lease-Outcome db t now profile writer duration inv le))
      e

-- After a token was active, and then, whatever was called in between, another lease on its profile
-- was given out, every call with that token fails, whatever is called afterwards and at any time.
pub superseded-Refused :
    (t u now v : ℕ) (db db1 db2 db3 : Database) (token : LeaseToken) (row : IndexerStatusRow)
    (writer : Text) (duration : JsonNumber) (lease : AcquiredLease)
    → Inv t db
    → lock_active_indexer_lease token t db ≡ ok row
    → History t db u db1
    → u ≤ now
    → acquire_indexer_lease token.profile_id writer duration now db1 ≡ ok (lease, db2)
    → History now db2 v db3
    → Refused db3 token
superseded-Refused t u now v db db1 db2 db3 token row writer duration lease inv held h1 le acq h2 =
    let (found, active) = lock_row token t db row held in
    let (mine, running) = active_epoch token t row active in
    let (w, epoch) = token_filter-parts token row mine in
    let (inv1, later1) = History-Inv t db u db1 inv h1 in
    let (ms, bounds, e, l, isToken, inv2) =
      Acquired-at u now db1 db2 token.profile_id writer duration lease inv1 le acq in
    let (inv3, later3) = History-Inv now db2 v db3 inv2 h2 in
    let held1 : row.writer_epoch ≤ epoch_of (db1.statuses token.profile_id) =
      rw found at (later1 token.profile_id) in
    let grown : epoch_of (db2.statuses token.profile_id)
        ≡ next_epoch (db1.statuses token.profile_id) =
      rw (e, text_eq_refl token.profile_id) refl in
    let grows = next_grows (db1.statuses token.profile_id) in
    let kept = later3 token.profile_id in stale-Refused db3 token (omega arith)
  where
    next_grows : (o : Option IndexerStatusRow) → epoch_of o < next_epoch o
    next_grows none = omega arith
    next_grows (some r) = omega arith

-- While a token is active, nobody is given a lease on its profile.
pub active-excludes :
    (now : ℕ) (db : Database) (token : LeaseToken) (row : IndexerStatusRow) (writer : Text)
    (duration : JsonNumber)
    → lock_active_indexer_lease token now db ≡ ok row
    → Fails (acquire_indexer_lease token.profile_id writer duration now db)
unfolding acquire_indexer_lease acquire_row
active-excludes now db token row writer duration held =
    let (found, active) = lock_row token now db row held in
    let (mine, running) = active_epoch token now row active in
    after
      (normalize_token (record { profile_id = token.profile_id; writer_id = writer; epoch = 1 })) _
      λ n. after (normalize_lease_duration duration) _ λ ms.
        at_once
          (acquire_row (db.statuses token.profile_id) (db.profiles token.profile_id)
            token.profile_id writer ms now)
          _ (rw (found, not_free row.lease_expires_at now running) tt)
  where
    not_free : (l : Option ℕ) (now : ℕ) → expires_after l now ≡ true → is_free l now ≡ false
    not_free none now h = cc
    not_free (some e) now h = ground arith

same_epoch : (e : ℕ) → (e == e) ≡ true
same_epoch e = ground arith

Returns-before :
    {A : Type 0} (later expires : ℕ) (t : Bool) (a : A)
    → t ≡ ltb later expires
    → Returns {E = FencingError} (if t then ok a else err lease_lost) ↔ (later < expires)
Returns-before later expires true a h = (λ r. ground arith, λ k. tt)
Returns-before later expires false a h = (λ r. absurd r, λ k. ground arith)

leased_lock_iff :
    (profile writer : Text) (epoch ms now later : ℕ) (db : Database)
    → IsToken (record { profile_id = profile; writer_id = writer; epoch = epoch })
    → Returns (
        lock_active_indexer_lease
          (record { profile_id = profile; writer_id = writer; epoch = epoch })
          later
          (put_status profile (leased_row profile writer epoch ms now) db))
      ↔ (later < now + ms)
unfolding lock_active_indexer_lease active_token_filter token_filter select_row
leased_lock_iff profile writer epoch ms now later db h =
    rw
      (
        normalize_token_lem (record { profile_id = profile; writer_id = writer; epoch = epoch }) h,
        text_eq_refl profile,
        text_eq_refl writer,
        same_epoch epoch,
      )
      (Returns-before later (now + ms) (ltb later (now + ms))
        (leased_row profile writer epoch ms now) refl)

-- A lease that is given out is active until it expires, and no longer, as long as it is not touched:
-- the lock on its token passes exactly at the times before `leaseExpiresAt`.
pub acquired_lease_iff :
    (t now later : ℕ) (db db' : Database) (profile writer : Text) (duration : JsonNumber)
    (lease : AcquiredLease)
    → Inv t db
    → t ≤ now
    → acquire_indexer_lease profile writer duration now db ≡ ok (lease, db')
    → Returns (lock_active_indexer_lease lease.token later db') ↔ (later < lease.lease_expires_at)
acquired_lease_iff t now later db db' profile writer duration lease inv le acq =
    let (ms, bounds, e, l, isToken, inv1) =
      Acquired-at t now db db' profile writer duration lease inv le acq in
    rw (l, e)
      (leased_lock_iff profile writer (next_epoch (db.statuses profile)) ms now later db
        (subst (λ x. IsToken x.token) l isToken))
