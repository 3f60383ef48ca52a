-- ===== src/Indexer/Fencing/Invariant.antt =====
-- What every operation on the leases keeps, and that the database refuses none of its statements.
use mathlib.Core.Path.{subst}
use xcs.Common.{
  ℕ, ◌≤◌, ◌<◌, ◌≡◌, refl, Text, Bool, true, false, ◌&&◌, Option, none, some, ok, leb, leb→le,
  text_eq, text_eq_sound, if◌then◌else◌, and_true, arith, Bool-cases, ◌⊎◌, inl, inr, Outcome,
  Outcome-guard, Outcome-if, sym,
}
use xcs.Core.Json.{JsonNumber, natural, other, non_finite}
use xcs.Core.Network.{is_profile_id}
use xcs.Indexer.Status.{
  FencingError, invalid_argument, lease_lost, constraint_violation, IndexerStatusRow, is_halted,
  is_some, is_writer_id, max_safe_epoch,
}
use xcs.Indexer.Fencing.{
  LeaseToken, Database, put_status, checked, normalize_lease_duration, normalize_token, select_row,
}
use xcs.Indexer.Fencing.Rows.{RowChecks, RowChecks-row_checks}

-- Of the errors of an operation, those that are its own, not the constraints'.
abbrev pub Expected : FencingError → Type 0
Expected constraint_violation = ⊥
Expected _ = Unit

-- An epoch that no incident has yet.
abbrev pub Open : Database → Text → ℕ → Type 0
Open db profile epoch = db.incidents profile epoch ≡ none

pub record RowInv (db : Database) (now : ℕ) (profile : Text) (row : IndexerStatusRow) : Type 0 where
  pub key : row.profile_id ≡ profile
  pub checks : RowChecks row
  pub past : row.updated_at ≤ now
  -- A row that is halted has no writer.
  pub writing : is_some row.writer_id ≡ true → is_halted row.status.state ≡ false
  -- Only epochs that are over have an incident.
  pub open_now : is_some row.writer_id ≡ true → Open db profile row.writer_epoch
  pub open_later : (e : ℕ) → row.writer_epoch < e → Open db profile e

-- The tables at a time.
pub record Inv (now : ℕ) (db : Database) : Type 0 where
  pub rows :
      (profile : Text) (row : IndexerStatusRow)
      → db.statuses profile ≡ some row
      → RowInv db now profile row
  pub unused : (profile : Text) → db.statuses profile ≡ none → (e : ℕ) → Open db profile e

RowInv-later :
    (db : Database) (t now : ℕ) (profile : Text) (row : IndexerStatusRow)
    → t ≤ now
    → RowInv db t profile row
    → RowInv db now profile row
RowInv-later db t now profile row le h = record {
  key = h.key;
  checks = h.checks;
  past = omega (arith, le, h.past);
  writing = h.writing;
  open_now = h.open_now;
  open_later = h.open_later;
}

-- A statement that writes one row keeps the invariant, if the row has it.
pub put_status-Inv :
    (db : Database) (t now : ℕ) (profile : Text) (row : IndexerStatusRow)
    → t ≤ now
    → Inv t db
    → RowInv db now profile row
    → Inv now (put_status profile row db)
put_status-Inv db t now profile row le inv h = record {
  rows = λ p r e. put_rows p r (Bool-cases (text_eq p profile)) e;
  unused = λ p e k. put_unused p (Bool-cases (text_eq p profile)) e k;
}
  where
    moved :
        (p : Text) (r : IndexerStatusRow)
        → RowInv db now p r
        → RowInv (put_status profile row db) now p r
    moved p r k = record {
      key = k.key;
      checks = k.checks;
      past = k.past;
      writing = k.writing;
      open_now = k.open_now;
      open_later = k.open_later;
    }

    some-injective :
        (a b : IndexerStatusRow) → ◌≡◌ {A = Option IndexerStatusRow} (some a) (some b) → a ≡ b
    some-injective a b e = cc

    put_rows :
        (p : Text) (r : IndexerStatusRow)
        → (text_eq p profile ≡ true) ⊎ (text_eq p profile ≡ false)
        → (if text_eq p profile then some row else db.statuses p) ≡ some r
        → RowInv (put_status profile row db) now p r
    put_rows p r (inl same) e =
        let e1 : ◌≡◌ {A = Option IndexerStatusRow} (some row) (some r) = rw same at e in
        moved p r (
          subst (λ q. RowInv db now q r) (sym (text_eq_sound p profile same))
            (subst (RowInv db now profile) (some-injective row r e1) h))
    put_rows p r (inr differs) e =
        let e1 : db.statuses p ≡ some r = rw differs at e in
        moved p r (RowInv-later db t now p r le (inv.rows p r e1))

    put_unused :
        (p : Text)
        → (text_eq p profile ≡ true) ⊎ (text_eq p profile ≡ false)
        → (if text_eq p profile then some row else db.statuses p) ≡ none
        → (e : ℕ) → Open db p e
    put_unused p (inl same) e k =
        let e1 : ◌≡◌ {A = Option IndexerStatusRow} (some row) none = rw same at e in cc
    put_unused p (inr differs) e k =
        let e1 : db.statuses p ≡ none = rw differs at e in inv.unused p e1 k

-- A row that has the CHECK constraints' properties is written.
pub checked_lem : (row : IndexerStatusRow) → RowChecks row → checked row ≡ ok row
unfolding checked
checked_lem row h = rw (RowChecks-row_checks row h) refl

pub select_row-Outcome :
    (test : IndexerStatusRow → Bool) (o : Option IndexerStatusRow)
    → Outcome (λ row. (o ≡ some row) × (test row ≡ true)) Expected (select_row test o)
unfolding select_row
select_row-Outcome test none = tt
select_row-Outcome test (some row) =
    Outcome-if (λ r. (◌≡◌ {A = Option IndexerStatusRow} (some row) (some r)) × (test r ≡ true))
      Expected (test row) row lease_lost tt λ h. (refl, h)

pub normalize_lease_duration-Outcome :
    (duration : JsonNumber)
    → Outcome (λ ms. (10000 ≤ ms) × (ms ≤ 300000)) Expected (normalize_lease_duration duration)
unfolding normalize_lease_duration
normalize_lease_duration-Outcome (natural ms) =
    Outcome-if (λ n. (10000 ≤ n) × (n ≤ 300000)) Expected (leb 10000 ms && leb ms 300000) ms
      invalid_argument tt
      λ h.
        let (a, b) = and_true (leb 10000 ms) (leb ms 300000) h in
        (leb→le 10000 ms a, leb→le ms 300000 b)
normalize_lease_duration-Outcome (other _) = tt
normalize_lease_duration-Outcome non_finite = tt

-- what `normalizeToken` lets pass
pub record IsToken (token : LeaseToken) : Type 0 where
  pub profile : is_profile_id token.profile_id ≡ true
  pub writer : is_writer_id token.writer_id ≡ true
  pub epoch_min : 1 ≤ token.epoch
  pub epoch_max : token.epoch ≤ max_safe_epoch

pub normalize_token-Outcome :
    (token : LeaseToken)
    → Outcome (λ n. (n ≡ token) × IsToken token) Expected (normalize_token token)
unfolding normalize_token
normalize_token-Outcome token =
    Outcome-guard (λ n. (n ≡ token) × IsToken token) Expected (is_profile_id token.profile_id)
      invalid_argument _ tt
      λ a.
        Outcome-guard (λ n. (n ≡ token) × IsToken token) Expected (is_writer_id token.writer_id)
          invalid_argument _ tt
          λ b.
            Outcome-guard (λ n. (n ≡ token) × IsToken token) Expected
              (leb 1 token.epoch && leb token.epoch max_safe_epoch) invalid_argument (ok token) tt
              λ c.
                let (d, e) = and_true (leb 1 token.epoch) (leb token.epoch max_safe_epoch) c in
                (
                  refl,
                  record {
                    profile = a;
                    writer = b;
                    epoch_min = leb→le _ _ d;
                    epoch_max = leb→le _ _ e;
                  },
                )

pub normalize_token_lem : (token : LeaseToken) → IsToken token → normalize_token token ≡ ok token
unfolding normalize_token
normalize_token_lem token h =
    rw (h.profile, h.writer, le_leb _ _ h.epoch_min, le_leb _ _ h.epoch_max) refl
  where
    le_leb : (a b : ℕ) → a ≤ b → leb a b ≡ true
    le_leb a b k = ground arith
