-- ===== src/Indexer/Repository/Configured.antt =====
-- apps/indexer/src/repository.ts: the network profile that is stored, and the one that is configured.
use xcs.Common.{
  ℕ, Text, codes, Bool, true, false, ◌&&◌, [], ◌∷◌, Option, none, some, Result, ok, err, leb, ◌==◌,
  text_eq, if◌then◌else◌, guard, ◌>>=◌, ◌>>◌, to_lower, to_upper, all, length, ltb, ◌||◌,
}
use xcs.Core.Network.{NetworkProfile}
use xcs.Indexer.Status.{is_ledger_hash, is_some, uint32_max}
use xcs.Indexer.Repository.{
  RepositoryError, stored_profile_differs, database_scope_conflict, constraint, StoredProfile,
  Tables, find_profile,
}

-- `xcsVersion` and `registrationAmountDrops` have one value in a configured profile.
unfoldable pub expected_profile : NetworkProfile → StoredProfile
unfolding to_lower to_upper
expected_profile configured = record {
  profile_id = configured.profile_id;
  xcs_version = codes "0.1";
  network_id = configured.network_id;
  required_amendment = to_upper configured.required_amendment;
  registry_address = configured.registry_address;
  registration_amount_drops = 1;
  activation_ledger_index = configured.activation_ledger_index;
  activation_ledger_hash = to_lower configured.activation_ledger_hash;
}

-- no field of the mismatches
unfoldable pub same_profile : StoredProfile → StoredProfile → Bool
unfolding text_eq
same_profile stored expected =
    text_eq stored.profile_id expected.profile_id
    && (text_eq stored.xcs_version expected.xcs_version
        && (stored.network_id == expected.network_id
            && (text_eq stored.required_amendment expected.required_amendment
                && (text_eq stored.registry_address expected.registry_address
                    && (stored.registration_amount_drops == expected.registration_amount_drops
                        && (stored.activation_ledger_index == expected.activation_ledger_index
                            && text_eq stored.activation_ledger_hash
                                expected.activation_ledger_hash))))))

unfoldable pub assert_stored_profile_matches :
    StoredProfile → NetworkProfile → Result RepositoryError (Unit {0})
unfolding same_profile expected_profile
assert_stored_profile_matches stored configured =
    guard (same_profile stored (expected_profile configured)) stored_profile_differs

-- ADDRESS_PATTERN: '^r[1-9A-HJ-NP-Za-km-z]{24,34}$'
unfoldable pub is_base58 : ℕ → Bool
is_base58 c =
    (leb b'1' c && leb c b'9')
    || ((leb b'A' c && (leb c b'Z' && (ltb c b'I' || (leb b'J' c && leb c b'N' || leb b'P' c))))
        || ((leb b'a' c && leb c b'k') || (leb b'm' c && leb c b'z')))

unfoldable pub is_address : Text → Bool
unfolding is_base58
is_address [] = false
is_address (c ∷ rest) =
    c == b'r' && (all is_base58 rest && (leb 24 (length rest) && leb (length rest) 34))

-- the CHECK constraints of `network_profiles`
unfoldable pub profile_checks : StoredProfile → Bool
unfolding text_eq is_ledger_hash is_address
profile_checks p =
    text_eq p.xcs_version (codes "0.1")
    && (leb p.network_id uint32_max
        && (p.registration_amount_drops == 1
            && ((leb 1 p.activation_ledger_index && leb p.activation_ledger_index uint32_max)
                && (is_ledger_hash p.activation_ledger_hash && is_address p.registry_address))))

-- INSERT … ON CONFLICT DO NOTHING: the CHECKs hold for the row even when it is not inserted.
unfoldable pub insert_profile : StoredProfile → Tables → Result RepositoryError Tables
unfolding profile_checks text_eq
insert_profile row t =
    guard (profile_checks row) constraint
    >> (if is_some (find_profile row.profile_id t)
        then ok t
        else ok (record t { network_profiles = row ∷ t.network_profiles }))

abbrev pub match_stored :
    Option StoredProfile → NetworkProfile → Tables → Result RepositoryError Tables
match_stored none profile t = err constraint
match_stored (some stored) profile t = assert_stored_profile_matches stored profile >> ok t

unfoldable pub ensure_network_profile : NetworkProfile → Tables → Result RepositoryError Tables
unfolding insert_profile expected_profile assert_stored_profile_matches text_eq
ensure_network_profile profile t = do
  inserted ← insert_profile (expected_profile profile) t
  match_stored (find_profile profile.profile_id inserted) profile inserted

pub data DatabaseScope : Type 0 where
  shared exclusive_profile : DatabaseScope

abbrev pub is_exclusive : DatabaseScope → Bool
is_exclusive shared = false
is_exclusive exclusive_profile = true

unfoldable pub initialize_profile :
    DatabaseScope → NetworkProfile → Tables → Result RepositoryError Tables
unfolding ensure_network_profile text_eq
initialize_profile scope profile t =
    guard
      (if is_exclusive scope
        then all (λ r. text_eq r.profile_id profile.profile_id) t.network_profiles
        else true)
      database_scope_conflict
    >> ensure_network_profile profile t
