-- ===== src/Indexer/Repository/Profiles.antt =====
-- apps/indexer/src/repository.ts: what `ensureNetworkProfile` leaves behind.
use xcs.Common.{
  ◌≡◌, inl, inr, refl, Text, true, false, ◌∷◌, none, some, ok, ◌==◌, ==_iff, text_eq, text_eq_iff,
  text_eq_refl, Ensures, Ensures-guard, and_true, Option-cases, Bool-cases,
}
use xcs.Core.Network.{NetworkProfile}
use xcs.Indexer.Repository.{StoredProfile, Tables, find_profile}
use xcs.Indexer.Repository.Configured.{
  expected_profile, assert_stored_profile_matches, same_profile, profile_checks, insert_profile,
  match_stored, ensure_network_profile,
}

same_fields :
    (p q : StoredProfile)
    → p.profile_id ≡ q.profile_id
    → p.xcs_version ≡ q.xcs_version
    → p.network_id ≡ q.network_id
    → p.required_amendment ≡ q.required_amendment
    → p.registry_address ≡ q.registry_address
    → p.registration_amount_drops ≡ q.registration_amount_drops
    → p.activation_ledger_index ≡ q.activation_ledger_index
    → p.activation_ledger_hash ≡ q.activation_ledger_hash
    → p ≡ q
same_fields p q a b c d e f g h = cc

same_profile_sound : (p q : StoredProfile) → same_profile p q ≡ true → p ≡ q
unfolding same_profile
same_profile_sound p q h =
    let (a, t1) = and_true (text_eq p.profile_id q.profile_id) _ h in
    let (b, t2) = and_true (text_eq p.xcs_version q.xcs_version) _ t1 in
    let (c, t3) = and_true (p.network_id == q.network_id) _ t2 in
    let (d, t4) = and_true (text_eq p.required_amendment q.required_amendment) _ t3 in
    let (e, t5) = and_true (text_eq p.registry_address q.registry_address) _ t4 in
    let (f, t6) = and_true (p.registration_amount_drops == q.registration_amount_drops) _ t5 in
    let (g, i) = and_true (p.activation_ledger_index == q.activation_ledger_index) _ t6 in
    same_fields p q ((text_eq_iff _ _).0 a) ((text_eq_iff _ _).0 b) ((==_iff _ _).0 c)
      ((text_eq_iff _ _).0 d) ((text_eq_iff _ _).0 e) ((==_iff _ _).0 f) ((==_iff _ _).0 g)
      ((text_eq_iff _ _).0 i)

same_profile_refl : (p : StoredProfile) → same_profile p p ≡ true
unfolding same_profile
same_profile_refl p =
    rw
      (
        text_eq_refl p.profile_id,
        text_eq_refl p.xcs_version,
        (==_iff p.network_id p.network_id).1 refl,
        text_eq_refl p.required_amendment,
        text_eq_refl p.registry_address,
        (==_iff p.registration_amount_drops p.registration_amount_drops).1 refl,
        (==_iff p.activation_ledger_index p.activation_ledger_index).1 refl,
        text_eq_refl p.activation_ledger_hash,
      )
      refl

-- The profile is stored as it is configured, and nothing else changes.
pub record Ensured (profile : NetworkProfile) (t u : Tables) : Type 0 where
  pub stored : find_profile profile.profile_id u ≡ some (expected_profile profile)
  pub passed : profile_checks (expected_profile profile) ≡ true
  pub others :
      (p : Text) → text_eq profile.profile_id p ≡ false → find_profile p u ≡ find_profile p t
  pub before :
      (row : StoredProfile)
      → find_profile profile.profile_id t ≡ some row
      → row ≡ expected_profile profile
  pub statuses : u.statuses ≡ t.statuses
  pub incidents : u.incidents ≡ t.incidents
  pub checkpoints : u.checkpoints ≡ t.checkpoints

-- the profile's row is there, or is inserted
inserted_find :
    (profile : NetworkProfile) (t : Tables) (row : StoredProfile)
    → row.profile_id ≡ profile.profile_id
    → find_profile profile.profile_id (record t { network_profiles = row ∷ t.network_profiles })
      ≡ some row
inserted_find profile t row e = rw (e, text_eq_refl profile.profile_id) refl

stored_row :
    (profile : NetworkProfile) (t : Tables) (row : StoredProfile)
    → profile_checks (expected_profile profile) ≡ true
    → find_profile profile.profile_id t ≡ some row
    → Ensures (Ensured profile t) (match_stored (some row) profile t)
unfolding assert_stored_profile_matches
stored_row profile t row passed found =
    Ensures-guard (Ensured profile t) (same_profile row (expected_profile profile)) _ _ λ same.
      let e : row ≡ expected_profile profile = same_profile_sound _ _ same in
      record {
        stored = cc;
        passed = passed;
        others = λ p h. refl;
        before = λ r h. cc;
        statuses = refl;
        incidents = refl;
        checkpoints = refl;
      }

pub match_self :
    (profile : NetworkProfile) (t : Tables)
    → match_stored (some (expected_profile profile)) profile t ≡ ok t
unfolding assert_stored_profile_matches
match_self profile t = rw (same_profile_refl (expected_profile profile)) refl

new_row :
    (profile : NetworkProfile) (t : Tables)
    → profile_checks (expected_profile profile) ≡ true
    → find_profile profile.profile_id t ≡ none
    → Ensured profile t
        (record t { network_profiles = expected_profile profile ∷ t.network_profiles })
unfolding expected_profile
new_row profile t passed missing = record {
  stored = inserted_find profile t (expected_profile profile) refl;
  passed = passed;
  others = λ p h. rw h refl;
  before = λ r h. cc;
  statuses = refl;
  incidents = refl;
  checkpoints = refl;
}

-- After `ensureNetworkProfile` the profile is stored as it is configured, and nothing else changed.
pub ensure_network_profile-Ensured :
    (profile : NetworkProfile) (t : Tables)
    → Ensures (Ensured profile t) (ensure_network_profile profile t)
unfolding ensure_network_profile insert_profile expected_profile
ensure_network_profile-Ensured profile t =
    elim (Bool-cases (profile_checks (expected_profile profile))) [
      | inr bad ↦ rw bad tt
      | inl good ↦ elim (Option-cases (find_profile profile.profile_id t)) [
        | inl missing ↦
            rw (good, missing, text_eq_refl profile.profile_id)
              (rw (match_self profile _) (new_row profile t good missing))
        | inr (row, found) ↦ rw (good, found, found) (stored_row profile t row good found)
      ]
    ]
