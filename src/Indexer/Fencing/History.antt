-- ===== src/Indexer/Fencing/History.antt =====
-- The operations as the steps of a history: apps/indexer/src/lib/db/indexer-fencing.ts.
use xcs.Common.{
  ℕ, ◌≤◌, ◌≡◌, Text, true, false, Option, none, some, Result, ok, err, ◌>>=◌, arith, Outcome, ◌⊎◌,
  inl, inr, text_eq, text_eq_sound, if◌then◌else◌, Bool-cases,
}
use xcs.Core.Json.{JsonNumber}
use xcs.Indexer.Status.{FencingError, StatusInput, WritableIndexerStatusState, IndexerStatusRow}
use xcs.Indexer.Fencing.{
  LeaseToken, AcquiredLease, Database, put_status, leased_row, acquire_indexer_lease,
  renew_indexer_lease, update_indexer_status, release_indexer_lease, halt_indexer,
}
use xcs.Indexer.Fencing.Invariant.{Expected, Inv}
use xcs.Indexer.Fencing.Acquire.{next_epoch, Acquired, acquire_indexer_lease-Outcome}
use xcs.Indexer.Fencing.Steps.{
  epoch_of, Kept, renew_indexer_lease-Outcome, update_indexer_status-Outcome,
  release_indexer_lease-Outcome,
}
use xcs.Indexer.Fencing.Halt.{halt_indexer-Outcome}

-- A call of the module's five writing operations, by any process.
pub data Operation : Type 0 where
  acquire : Text → Text → JsonNumber → Operation
  renew : LeaseToken → JsonNumber → Operation
  update : LeaseToken → WritableIndexerStatusState → StatusInput → Operation
  release : LeaseToken → Operation
  halt : LeaseToken → StatusInput → Text → Operation

abbrev pub tables {ℓ} : {A : Type ℓ} → A × Database → Result FencingError Database
tables (x, db) = ok db

unfoldable pub run : Operation → ℕ → Database → Result FencingError Database
unfolding acquire_indexer_lease renew_indexer_lease update_indexer_status release_indexer_lease
    halt_indexer
run (acquire profile writer duration) now db =
    acquire_indexer_lease profile writer duration now db >>= tables
run (renew token duration) now db = renew_indexer_lease token duration now db >>= tables
run (update token state input) now db = update_indexer_status token state input now db >>= tables
run (release token) now db = release_indexer_lease token now db >>= tables
run (halt token input code) now db = halt_indexer token input code now db >>= tables

-- No epoch goes back.
abbrev pub LaterEpochs : Database → Database → Type 0
LaterEpochs db db' = (p : Text) → epoch_of (db.statuses p) ≤ epoch_of (db'.statuses p)

abbrev pub Stepped : ℕ → Database → Database → Type 0
Stepped now db db' = Inv now db' × LaterEpochs db db'

Kept-Stepped :
    {A : Type 0} (db : Database) (now : ℕ) (r : Result FencingError (A × Database))
    → Outcome (Kept db now) Expected r
    → Outcome (Stepped now db) Expected (r >>= tables)
Kept-Stepped db now (ok (x, db')) (inv, same) = (inv, λ p. omega (arith, same p))
Kept-Stepped db now (err e) h = h

leased_epochs :
    (db : Database) (profile writer : Text) (duration now : ℕ)
    → LaterEpochs db (
        put_status profile
          (leased_row profile writer (next_epoch (db.statuses profile)) duration now)
          db)
leased_epochs db profile writer duration now p = at (Bool-cases (text_eq p profile))
  where
    grows : (o : Option IndexerStatusRow) → epoch_of o ≤ next_epoch o
    grows none = omega arith
    grows (some row) = omega arith

    row : IndexerStatusRow
    row = leased_row profile writer (next_epoch (db.statuses profile)) duration now

    at :
        (text_eq p profile ≡ true) ⊎ (text_eq p profile ≡ false)
        → epoch_of (db.statuses p)
          ≤ epoch_of (if text_eq p profile then some row else db.statuses p)
    at (inl same) = rw (same, text_eq_sound p profile same) (grows (db.statuses profile))
    at (inr differs) = rw differs (omega arith)

Acquired-Stepped :
    (db : Database) (profile writer : Text) (now : ℕ)
    (r : Result FencingError (AcquiredLease × Database))
    → Outcome (Acquired db profile writer now) Expected r
    → Outcome (Stepped now db) Expected (r >>= tables)
Acquired-Stepped db profile writer now (ok (lease, db')) (d, bounds, e, l, isToken, inv) =
    (inv, rw e (leased_epochs db profile writer d now))
Acquired-Stepped db profile writer now (err e) h = h

-- An operation at a later time keeps the tables' invariant and lets no epoch go back, and the
-- database refuses none of its statements for a CHECK or a primary key.
pub run-Stepped :
    (operation : Operation) (t now : ℕ) (db : Database)
    → Inv t db
    → t ≤ now
    → Outcome (Stepped now db) Expected (run operation now db)
unfolding run
run-Stepped (acquire profile writer duration) t now db inv le =
    Acquired-Stepped db profile writer now _
      (acquire_indexer_lease-Outcome db t now profile writer duration inv le)
run-Stepped (renew token duration) t now db inv le =
    Kept-Stepped db now _ (renew_indexer_lease-Outcome db t now inv le token duration)
run-Stepped (update token state input) t now db inv le =
    Kept-Stepped db now _ (update_indexer_status-Outcome db t now inv le token state input)
run-Stepped (release token) t now db inv le =
    Kept-Stepped db now _ (release_indexer_lease-Outcome db t now inv le token)
run-Stepped (halt token input code) t now db inv le =
    Kept-Stepped db now _ (halt_indexer-Outcome db t now inv le token input code)
