-- ===== src/Indexer/Repository/Chain.antt =====
-- apps/indexer/src/repository.ts: the checkpoints that `persistLedger` leaves in the table.
use xcs.Common.{
  ℕ, ◌+◌, ◌≡◌, refl, Text, true, false, List, [], ◌∷◌, Option, none, some, Result, ok, err, text_eq,
  ltb, arith, Ensures, Ensures-bind, Ensures-guard, Ensures-then, Ensures-guards, Ensures-of,
  to_lower,
}
use xcs.Core.Documents.{DocumentLibraries}
use xcs.Core.Network.{NetworkProfile}
use xcs.Indexer.Types.{ValidatedLedger, Checkpoint}
use xcs.Indexer.Status.{WritableIndexerStatusState, StatusInput}
use xcs.Indexer.Fencing.{LeaseToken, Database, lock_active_indexer_lease, update_indexer_status}
use xcs.Indexer.Continuity.{LedgerContinuityError, assert_ledger_continuity}
use xcs.Indexer.Continuity.Chains.{checkpoint_of, Follows, assert_ledger_continuity_iff}
use xcs.Indexer.Projection.{LedgerProjection}
use xcs.Indexer.Repository.{
  constraint, StoredProfile, Tables, find_profile, leases_of, with_leases, checkpoints_of, later,
  latest, get_last_checkpoint,
}
use xcs.Indexer.Repository.Configured.{ensure_network_profile}
use xcs.Indexer.Repository.Writes.{has_profile, persist_registrations}
use xcs.Indexer.Repository.Generations.{persist_credential_mutations}
use xcs.Indexer.Repository.Ledgers.{
  PersistResult, inserted, already_processed, in_fencing, in_continuity, checkpoint_at,
  checkpoint_checks, insert_checkpoint, with_checkpoint, is_new_checkpoint, assert_same_ledger,
  write_ledger, write_once, persist_ledger,
}
use xcs.Indexer.Repository.Frames.{
  Keeps, Keeps-trans, persist_registrations-Keeps, persist_credential_mutations-Keeps,
}
use xcs.Indexer.Repository.Profiles.{Ensured, ensure_network_profile-Ensured}

-- Checkpoints, the last one first, from the activation ledger on: every one descends from the one
-- before.
abbrev pub Chained : ℕ → Text → List Checkpoint → Type 0
Chained index hash [] = Unit
Chained index hash (c ∷ []) = (c.ledger_index ≡ index) × (c.ledger_hash ≡ hash)
Chained index hash (c ∷ d ∷ rest) =
    (c.ledger_index ≡ d.ledger_index + 1)
    × (c.parent_hash ≡ d.ledger_hash)
    × Chained index hash (d ∷ rest)

-- Every profile's checkpoints are a chain from its stored activation ledger on; a profile that is not
-- stored has none.
pub record Inv (t : Tables) : Type 0 where
  pub known :
      (p : Text) (row : StoredProfile)
      → find_profile p t ≡ some row
      → Chained row.activation_ledger_index row.activation_ledger_hash
          (checkpoints_of p t.checkpoints)
  pub unknown : (p : Text) → find_profile p t ≡ none → checkpoints_of p t.checkpoints ≡ []

not_before : (a b : ℕ) → a ≡ b + 1 → ltb a b ≡ false
not_before a b h = ground arith

later_first :
    (c d : Checkpoint) (o : Option Checkpoint)
    → o ≡ some d
    → ltb c.ledger_index d.ledger_index ≡ false
    → some (later c o) ≡ some c
later_first c d o e h = rw (e, h) refl

-- The last checkpoint of a chain is the first of the list.
pub latest-Chained :
    (index : ℕ) (hash : Text) (c : Checkpoint) (rest : List Checkpoint)
    → Chained index hash (c ∷ rest)
    → latest (c ∷ rest) ≡ some c
latest-Chained index hash c [] h = refl
latest-Chained index hash c (d ∷ rest) (place, parent, h) =
    later_first c d (latest (d ∷ rest)) (latest-Chained index hash d rest h)
      (not_before c.ledger_index d.ledger_index place)

-- A ledger that continues the latest checkpoint extends the chain.
pub extend :
    (profile : NetworkProfile) (ledger : ValidatedLedger) (cs : List Checkpoint)
    → Chained profile.activation_ledger_index (to_lower profile.activation_ledger_hash) cs
    → Follows profile (latest cs) ledger
    → Chained profile.activation_ledger_index
        (to_lower profile.activation_ledger_hash)
        (checkpoint_of ledger ∷ cs)
extend profile ledger [] h follows = follows
extend profile ledger (c ∷ rest) h follows =
    let e = latest-Chained _ _ c rest h in
    let (place, parent) : Follows profile (some c) ledger = subst_follows e follows in
    (place, parent, h)
  where
    subst_follows :
        {o : Option Checkpoint}
        → o ≡ some c
        → Follows profile o ledger
        → Follows profile (some c) ledger
    subst_follows e follows = rw e at follows

-- What the writes of a new ledger leave: its checkpoint, before those that were there.
pub record Written (profile : NetworkProfile) (ledger : ValidatedLedger) (t u : Tables)
    : Type 0 where
  pub follows : Follows profile (get_last_checkpoint profile.profile_id t) ledger
  pub checks : checkpoint_checks (checkpoint_of ledger) ≡ true
  pub profiles : u.network_profiles ≡ t.network_profiles
  pub statuses : u.statuses ≡ t.statuses
  pub incidents : u.incidents ≡ t.incidents
  pub checkpoints : u.checkpoints ≡ (
      record { profile_id = profile.profile_id; checkpoint = checkpoint_of ledger } ∷ t.checkpoints)

in_continuity-Follows :
    (profile : NetworkProfile) (previous : Option Checkpoint) (ledger : ValidatedLedger)
    → Ensures
        (λ u. Follows profile previous ledger)
        (in_continuity (assert_ledger_continuity profile previous ledger))
in_continuity-Follows profile previous ledger =
    go (assert_ledger_continuity profile previous ledger)
      (assert_ledger_continuity_iff profile previous ledger).0
  where
    go :
        (r : Result LedgerContinuityError (Unit {0}))
        → (r ≡ ok tt → Follows profile previous ledger)
        → Ensures (λ u. Follows profile previous ledger) (in_continuity r)
    go (ok tt) h = h refl
    go (err e) h = tt

insert_checkpoint-Written :
    (profile : NetworkProfile) (ledger : ValidatedLedger) (t u : Tables)
    → Follows profile (get_last_checkpoint profile.profile_id t) ledger
    → Keeps t u
    → Ensures
        (Written profile ledger t)
        (insert_checkpoint profile.profile_id (checkpoint_of ledger) u)
unfolding insert_checkpoint
insert_checkpoint-Written profile ledger t u follows keeps =
    Ensures-guards (Written profile ledger t)
      (with_checkpoint profile.profile_id (checkpoint_of ledger) u)
      (checkpoint_checks (checkpoint_of ledger))
      (is_new_checkpoint profile.profile_id (checkpoint_of ledger) u)
      (has_profile profile.profile_id u) constraint constraint constraint
      λ checks. record {
        follows = follows;
        checks = checks;
        profiles = keeps.profiles;
        statuses = keeps.statuses;
        incidents = keeps.incidents;
        checkpoints = rw keeps.checkpoints refl;
      }

module _ (documents : DocumentLibraries) (profile : NetworkProfile)
    (projection : LedgerProjection) where
  write_ledger-Written :
      (t : Tables)
      → Ensures (Written profile projection.ledger t) (write_ledger documents profile projection t)
  unfolding write_ledger
  write_ledger-Written t =
      let previous = get_last_checkpoint profile.profile_id t in
      let writes = Written profile projection.ledger t in
      Ensures-bind (λ u. Follows profile previous projection.ledger) writes
        (in_continuity (assert_ledger_continuity profile previous projection.ledger)) _
        (in_continuity-Follows profile previous projection.ledger)
        λ done follows.
          Ensures-bind (Keeps t) writes
            (persist_registrations documents profile.profile_id projection.ledger
              projection.collected.schema_registrations t)
            _
            (persist_registrations-Keeps documents profile.profile_id projection.ledger
              projection.collected.schema_registrations t)
            λ u h.
              Ensures-bind (Keeps u) writes
                (persist_credential_mutations profile.profile_id projection.ledger
                  projection.collected.credential_mutations u)
                _
                (persist_credential_mutations-Keeps profile.profile_id projection.ledger
                  projection.collected.credential_mutations u)
                λ v k.
                  insert_checkpoint-Written profile projection.ledger t v follows
                    (Keeps-trans t u v h k)

-- What `write_once` leaves: the checkpoint of a ledger that was not there, or the tables as they were,
-- with a checkpoint of the same ledger.
abbrev pub Once : NetworkProfile → ValidatedLedger → Tables → PersistResult × Tables → Type 0
Once profile ledger t (inserted, u) =
    (checkpoint_at ledger.ledger_index (checkpoints_of profile.profile_id t.checkpoints) ≡ none)
    × Written profile ledger t u
Once profile ledger t (already_processed, u) =
    (u ≡ t)
    × (c : Checkpoint) × (checkpoint_at ledger.ledger_index
          (checkpoints_of profile.profile_id t.checkpoints)
        ≡ some c)
    × (assert_same_ledger c ledger ≡ ok tt)

-- The statements of `persistLedger` one after the other, from the tables that they find to those that
-- they leave.
pub record Persisted (profile : NetworkProfile) (ledger : ValidatedLedger) (t : Tables)
    (left : PersistResult × Tables) : Type 0 where
  pub ensured : Tables
  pub written : Tables
  pub leases : Database
  pub is_ensured : Ensured profile t ensured
  pub is_written : Once profile ledger ensured (left.0, written)
  pub is_left : left.1 ≡ with_leases leases written

module _ (documents : DocumentLibraries) (profile : NetworkProfile)
    (projection : LedgerProjection) where
  write_once-Once :
      (t : Tables) (found : Option Checkpoint)
      → checkpoint_at projection.ledger.ledger_index
          (checkpoints_of profile.profile_id t.checkpoints)
        ≡ found
      → Ensures (Once profile projection.ledger t) (write_once documents profile projection found t)
  unfolding write_once
  write_once-Once t none e =
      Ensures-bind (Written profile projection.ledger t) (Once profile projection.ledger t)
        (write_ledger documents profile projection t) _
        (write_ledger-Written documents profile projection t) λ u h. (e, h)
  write_once-Once t (some c) e =
      Ensures-bind (λ u. assert_same_ledger c projection.ledger ≡ ok tt)
        (Once profile projection.ledger t) (assert_same_ledger c projection.ledger) _
        (Ensures-of _ (assert_same_ledger c projection.ledger) λ u h. h) λ u h. (refl, c, e, h)

module _ (documents : DocumentLibraries) (profile : NetworkProfile) (projection : LedgerProjection)
    (token : LeaseToken) (state : WritableIndexerStatusState) (status : StatusInput) (now : ℕ) where
  pub persist_ledger-Persisted :
      (t : Tables)
      → Ensures
          (Persisted profile projection.ledger t)
          (persist_ledger documents profile projection token state status now t)
  unfolding persist_ledger
  persist_ledger-Persisted t =
      Ensures-guard (Persisted profile projection.ledger t)
        (text_eq token.profile_id profile.profile_id) _ _
        λ same.
          Ensures-then (Persisted profile projection.ledger t)
            (in_fencing (lock_active_indexer_lease token now (leases_of t))) _
            λ held.
              Ensures-bind (Ensured profile t) (Persisted profile projection.ledger t)
                (ensure_network_profile profile t) _ (ensure_network_profile-Ensured profile t)
                λ t1 h.
                  Ensures-bind (Once profile projection.ledger t1)
                    (Persisted profile projection.ledger t)
                    (write_once documents profile projection _ t1) _
                    (write_once-Once documents profile projection t1 _ refl)
                    λ (result, t2) k.
                      Ensures-then (Persisted profile projection.ledger t)
                        (in_fencing (update_indexer_status token state status now (leases_of t2))) _
                        λ (row, db). record {
                          ensured = t1;
                          written = t2;
                          leases = db;
                          is_ensured = h;
                          is_written = k;
                          is_left = refl;
                        }
