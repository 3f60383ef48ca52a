-- ===== src/Tests/Ledgers.antt =====
-- Network profiles, chains of ledgers and the credentials in a transaction's metadata.
use xcs.Common.{
  ◌+◌, ◌≤◌, ◌≡◌, ◌↔◌, refl, ℕ, Text, codes, true, List, [], ◌∷◌, none, some, ok, err, All, Ensures,
  length, arith, to_upper, to_lower,
}
use xcs.Core.Json.{JsonValue, string, object, array, nil, cons, member, end}
use xcs.Core.Network.{NetworkProfile, is_profile_id, is_hash, parse_network_profile}
use xcs.Core.Network.Profiles.{
  IsProfile, profile_value, parse_network_profile-IsProfile, parse_network_profile-profile_value,
}
use xcs.Indexer.Types.{LedgerTransaction, ValidatedLedger}
use xcs.Indexer.Continuity.{assert_ledger_continuity, ledger_gap}
use xcs.Indexer.Continuity.Chains.{follow, IsChain, follow_iff}
use xcs.Indexer.Mutations.{ExtractedMutations, extract_credential_mutations}
use xcs.Indexer.Mutations.Sound.{Valid, extract_credential_mutations-IsMutation}
use xcs.Indexer.Mutations.Places.{Places, count, affected, extract_credential_mutations-Places}
use xcs.Indexer.ReplayTarget.{load_replay_target, replay_target_invalid}
use xcs.Indexer.ReplayTarget.Load.{IsTarget, load_replay_target_iff}
use xcs.Tests.Claims.{plain_libraries}

abbrev pub low_hash : Text
low_hash = codes "00000000000000000000000000000000000000000000000000000000000000ab"

abbrev high_hash : Text
high_hash = codes "00000000000000000000000000000000000000000000000000000000000000AB"

abbrev pub profile : NetworkProfile
profile = record {
  profile_id = codes "testnet";
  network_id = 1;
  required_amendment = high_hash;
  registry_address = codes "rRegistry";
  activation_ledger_index = 7;
  activation_ledger_hash = low_hash;
}

profile-IsProfile : IsProfile plain_libraries profile
unfolding is_profile_id is_hash to_upper to_lower
profile-IsProfile = record {
  id = refl;
  network = omega arith;
  amendment = (refl, refl);
  registry = refl;
  index_min = omega arith;
  index_max = omega arith;
  hash = (refl, refl);
}

parse_network_profile-IsProfile_example :
    Ensures
      (IsProfile plain_libraries)
      (parse_network_profile plain_libraries (profile_value profile))
parse_network_profile-IsProfile_example =
    parse_network_profile-IsProfile plain_libraries (profile_value profile)

parse_network_profile-profile_value_example :
    parse_network_profile plain_libraries (profile_value profile) ≡ ok profile
parse_network_profile-profile_value_example =
    parse_network_profile-profile_value plain_libraries profile profile-IsProfile

abbrev created_node_value : JsonValue
created_node_value = object (
    member (codes "CreatedNode")
      (object (
        member (codes "LedgerEntryType") (string (codes "Credential")) (
          member (codes "LedgerIndex") (string high_hash) (
            member (codes "NewFields")
              (object (
                member (codes "Issuer") (string (codes "rIssuer")) (
                  member (codes "Subject") (string (codes "rSubject")) (
                    member (codes "CredentialType") (string high_hash)
                      (member (codes "URI") (string (codes "697066")) end)))))
              end))))
      end)

abbrev pub payment : LedgerTransaction
payment = record {
  hash = codes "T0";
  transaction = (codes "TransactionType", string (codes "CredentialCreate")) ∷ [];
  metadata = (codes "AffectedNodes", array (cons (object end) (cons created_node_value nil))) ∷ [];
  transaction_index = 0;
}

abbrev ledger_at : ℕ → Text → Text → ValidatedLedger
ledger_at index hash parent = record {
  ledger_index = index;
  ledger_hash = hash;
  parent_hash = parent;
  account_root = codes "00";
  transaction_root = codes "11";
  parent_close_time = 100;
  close_time = 110;
  close_time_resolution = 10;
  close_flags = 0;
  total_coins = codes "100";
  transactions = payment ∷ [];
}

abbrev two_ledgers : List ValidatedLedger
two_ledgers = ledger_at 7 low_hash (codes "p") ∷ ledger_at 8 (codes "h8") low_hash ∷ []

two_ledgers-follow : follow profile none two_ledgers ≡ ok tt
unfolding assert_ledger_continuity
two_ledgers-follow = refl

a_gap_fails :
    follow profile none (ledger_at 7 low_hash (codes "p") ∷ ledger_at 9 (codes "h9") low_hash ∷ [])
    ≡ err ledger_gap
unfolding assert_ledger_continuity
a_gap_fails = refl

follow_iff_example : (follow profile none two_ledgers ≡ ok tt) ↔ IsChain profile two_ledgers
follow_iff_example = follow_iff profile two_ledgers

abbrev extracted : ExtractedMutations
unfolding extract_credential_mutations
extracted = extract_credential_mutations plain_libraries (λ u. true) (λ s. true) 110 payment

one_mutation : length extracted.mutations ≡ 1
unfolding extract_credential_mutations
one_mutation = refl

extract_credential_mutations-IsMutation_example :
    All
      (Valid plain_libraries (λ u. true) (λ s. true) 110 payment)
      (extract_credential_mutations plain_libraries (λ u. true) (λ s. true) 110 payment).mutations
extract_credential_mutations-IsMutation_example =
    extract_credential_mutations-IsMutation plain_libraries (λ u. true) (λ s. true) 110 payment

extract_credential_mutations-Places_example :
    Places 0
      (count (affected payment))
      (extract_credential_mutations plain_libraries (λ u. true) (λ s. true) 110 payment).mutations
    × (length
            (extract_credential_mutations plain_libraries
              (λ u. true)
              (λ s. true)
              110
              payment).mutations
          + (extract_credential_mutations plain_libraries
              (λ u. true)
              (λ s. true)
              110
              payment).malformed_credential_nodes
        ≤ count (affected payment))
extract_credential_mutations-Places_example =
    extract_credential_mutations-Places plain_libraries (λ u. true) (λ s. true) 110 payment

load_replay_target_iff_example :
    (load_replay_target (some (codes "42")) (some high_hash)
      ≡ ok (record { ledger_index = 42; ledger_hash = low_hash }))
    ↔ IsTarget (codes "42") high_hash (record { ledger_index = 42; ledger_hash = low_hash })
load_replay_target_iff_example =
    load_replay_target_iff (codes "42") high_hash
      (record { ledger_index = 42; ledger_hash = low_hash })

a_leading_zero_fails :
    load_replay_target (some (codes "042")) (some high_hash) ≡ err replay_target_invalid
unfolding load_replay_target
a_leading_zero_fails = refl
