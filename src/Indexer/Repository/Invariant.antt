-- ===== src/Indexer/Repository/Invariant.antt =====
-- apps/indexer/src/repository.ts: `persistLedger` keeps the chains of checkpoints.
use mathlib.Core.Path.{subst}
use xcs.Common.{
  ℕ, ◌≡◌, ◌∙◌, refl, sym, inl, inr, Text, false, [], none, some, ok, text_eq, text_eq_iff,
  text_eq_refl, Ensures-at, Option-cases, Bool-cases,
}
use xcs.Core.Documents.{DocumentLibraries}
use xcs.Core.Network.{NetworkProfile}
use xcs.Indexer.Types.{ValidatedLedger}
use xcs.Indexer.Status.{WritableIndexerStatusState, StatusInput}
use xcs.Indexer.Fencing.{LeaseToken}
use xcs.Indexer.Projection.{LedgerProjection}
use xcs.Indexer.Repository.{
  StoredProfile, Tables, find_profile, checkpoints_of, get_last_checkpoint,
}
use xcs.Indexer.Repository.Configured.{expected_profile}
use xcs.Indexer.Repository.Ledgers.{PersistResult, inserted, already_processed, persist_ledger}
use xcs.Indexer.Repository.Profiles.{Ensured}
use xcs.Indexer.Repository.Chain.{
  Chained, Inv, extend, Written, Once, Persisted, persist_ledger-Persisted,
}

abbrev At : Text → StoredProfile → Tables → Type 0
At p row t =
    Chained row.activation_ledger_index row.activation_ledger_hash (checkpoints_of p t.checkpoints)

module _ (profile : NetworkProfile) where
  abbrev here : Text
  here = profile.profile_id

  -- the configured profile's checkpoints, whether it was stored before or not
  configured_chain :
      (t : Tables)
      → Inv t
      → (u : Tables) → Ensured profile t u
      → At here (expected_profile profile) t
  unfolding expected_profile
  configured_chain t inv u ensured = elim (Option-cases (find_profile here t)) [
    | inl missing ↦ rw (inv.unknown here missing) tt
    | inr (row, found) ↦
        subst (λ r. At here r t) (ensured.before row found) (inv.known here row found)
  ]

  -- the invariant after a change that is about the one profile
  module _ (t u : Tables) (inv : Inv t)
      (stored : find_profile here u ≡ some (expected_profile profile))
      (chain : At here (expected_profile profile) u)
      (profiles : (p : Text) → text_eq here p ≡ false → find_profile p u ≡ find_profile p t)
      (checkpoints : (p : Text)
        → text_eq here p ≡ false
        → checkpoints_of p u.checkpoints ≡ checkpoints_of p t.checkpoints) where
    known_there : (p : Text) (row : StoredProfile) → find_profile p u ≡ some row → At p row u
    known_there p row found = elim (Bool-cases (text_eq here p)) [
      | inl same ↦
          let e : here ≡ p = (text_eq_iff here p).0 same in
          let s : find_profile p u ≡ some (expected_profile profile) =
            subst (λ q. find_profile q u ≡ some (expected_profile profile)) e stored in
          let r : expected_profile profile ≡ row = cc in
          subst (λ q. At q row u) e (subst (λ x. At here x u) r chain)
      | inr apart ↦
          let known = inv.known p row (sym (profiles p apart) ∙ found) in
          rw (checkpoints p apart) known
    ]

    unknown_there : (p : Text) → find_profile p u ≡ none → checkpoints_of p u.checkpoints ≡ []
    unknown_there p missing = elim (Bool-cases (text_eq here p)) [
      | inl same ↦
          let e : here ≡ p = (text_eq_iff here p).0 same in
          let s : find_profile p u ≡ some (expected_profile profile) =
            subst (λ q. find_profile q u ≡ some (expected_profile profile)) e stored in
          cc
      | inr apart ↦ checkpoints p apart ∙ inv.unknown p (sym (profiles p apart) ∙ missing)
    ]

    changed-Inv : Inv u
    changed-Inv = record { known = known_there; unknown = unknown_there }

  Ensured-Inv : (t u : Tables) → Inv t → Ensured profile t u → Inv u
  Ensured-Inv t u inv ensured =
      changed-Inv t u inv ensured.stored (rw ensured.checkpoints (configured_chain t inv u ensured))
        ensured.others λ p apart. rw ensured.checkpoints refl

  Written-Inv :
      (ledger : ValidatedLedger) (t u : Tables)
      → Inv t
      → find_profile here t ≡ some (expected_profile profile)
      → Written profile ledger t u
      → Inv u
  unfolding expected_profile get_last_checkpoint
  Written-Inv ledger t u inv stored written =
      changed-Inv t u inv (rw written.profiles stored)
        (rw (written.checkpoints, text_eq_refl profile.profile_id)
          (extend profile ledger (checkpoints_of here t.checkpoints)
            (inv.known here (expected_profile profile) stored) written.follows))
        (λ p apart. rw written.profiles refl) λ p apart. rw (written.checkpoints, apart) refl

  Once-Inv :
      (ledger : ValidatedLedger) (t : Tables) (result : PersistResult) (u : Tables)
      → Inv t
      → find_profile here t ≡ some (expected_profile profile)
      → Once profile ledger t (result, u)
      → Inv u
  Once-Inv ledger t inserted u inv stored (absent, written) =
      Written-Inv ledger t u inv stored written
  Once-Inv ledger t already_processed u inv stored (same, c, found, evidence) =
      subst Inv (sym same) inv

-- On tables where every profile's checkpoints are a chain from its activation ledger on, each ledger
-- the child of the one before, and where a profile that is not stored has none, a call of
-- `persistLedger` that succeeds leaves such tables, whatever the ledger and the registrations and
-- mutations that come with it.
pub persist_ledger-Inv :
    (documents : DocumentLibraries) (profile : NetworkProfile) (projection : LedgerProjection)
    (token : LeaseToken) (state : WritableIndexerStatusState) (status : StatusInput) (now : ℕ)
    (t u : Tables) (result : PersistResult)
    → Inv t
    → persist_ledger documents profile projection token state status now t ≡ ok (result, u)
    → Inv u
persist_ledger-Inv documents profile projection token state status now t u result inv e =
    let done =
      Ensures-at (Persisted profile projection.ledger t)
        (persist_ledger documents profile projection token state status now t) (result, u)
        (persist_ledger-Persisted documents profile projection token state status now t) e in
    let inv1 = Ensured-Inv profile t done.ensured inv done.is_ensured in
    let inv2 =
      Once-Inv profile projection.ledger done.ensured result done.written inv1
        done.is_ensured.stored done.is_written in
    subst Inv (sym done.is_left) record { known = inv2.known; unknown = inv2.unknown }
